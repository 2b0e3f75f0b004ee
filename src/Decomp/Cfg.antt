-- ===== src/Decomp/Cfg.antt =====
-- decomp/src/dataflow/ssa.rs, `compute_preds_and_succs`: the edges of a function's control-flow
-- graph, between instruction indexes. A map is a sorted list of entries, `&mut` a returned state,
-- and a panic (`assert!`, `todo!`, an index that is missing, an overflowing `u32`) is `panics`.
pub mod Targets
pub mod Edges
pub mod Blocks
use package.doldisasm.Base.{ℕ, ◌+◌, ◌-◌, ◌/◌, Bool, true, false, not, ltb}
use package.doldisasm.Base.{if◌then◌else◌, Option, none, some, List, [], ◌∷◌, ◌++◌, length}
use package.doldisasm.Base.Checked.{Checked, returns, panics, ◌>>=◌, ◌>>◌, assert, add_u32}
use package.doldisasm.Base.BtreeMap.{BtreeMap, get, update, retain}
use package.doldisasm.Ppc.Decoder.{Address}
use package.doldisasm.Ppc.Instruction.{Instruction, Result, ok, err, panic, BranchOptions}
use package.doldisasm.Ppc.Instruction.Fields.{compute_branch_target}

abbrev pub InstId : Type 0
InstId = ℕ

abbrev pub Instructions : Type 0
Instructions = List (Address × Instruction)

-- `SuccessorTarget`
pub data SuccessorTarget : Type 0 where
  id : InstId → SuccessorTarget
  return_target : SuccessorTarget

unfoldable pub idx : SuccessorTarget → Option InstId
idx (id i) = some i
idx return_target = none

abbrev pub Predecessors : Type 0
Predecessors = BtreeMap (List InstId)

abbrev pub Successors : Type 0
Successors = BtreeMap (List SuccessorTarget)

-- The two maps that `compute_preds_and_succs` fills.
pub record Graph : Type 0 where
  pub preds : Predecessors
  pub succs : Successors

-- `entry(..).or_default().push(v)`
abbrev pub push_entry {ℓ} : {V : Type ℓ} → V → Option (List V) → List V
push_entry v none = v ∷ []
push_entry v (some vs) = vs ++ v ∷ []

abbrev pub add_pred : Option InstId → InstId → Predecessors → Predecessors
add_pred none from preds = preds
add_pred (some to) from preds = update (push_entry from) preds to

unfoldable pub store_mapping : Graph → InstId → SuccessorTarget → Graph
unfolding idx
store_mapping g from to = record {
  preds = add_pred (idx to) from g.preds;
  succs = update (push_entry to) g.succs from;
}

-- The computations of the other crate fail by a panic.
abbrev pub checked {ℓ} : {A : Type ℓ} → Result A → Checked A
checked (ok a) = returns a
checked (err e) = panics
checked panic = panics

abbrev pub checked_sub : ℕ → ℕ → Option ℕ
checked_sub a b = if ltb a b then none else some (a - b)

-- The instruction of a byte distance, if it does not lie before the function.
abbrev pub inside : Option ℕ → List SuccessorTarget
inside none = []
inside (some distance) = id (distance / 4) ∷ []

-- The edges of an `if let` whose last condition is the distance: the others else.
abbrev pub or_next : Option ℕ → InstId → List SuccessorTarget
or_next none next = id next ∷ []
or_next (some distance) next = id (distance / 4) ∷ []

abbrev pub return_edges : BranchOptions → InstId → Checked (List SuccessorTarget)
return_edges BranchOptions.branch_if_false next = returns (return_target ∷ id next ∷ [])
return_edges BranchOptions.branch_if_true next = returns (return_target ∷ id next ∷ [])
return_edges BranchOptions.branch_always next = returns (return_target ∷ [])
return_edges _ next = panics

-- The targets that the body of the loop stores for an instruction, in order.
unfoldable pub targets : ℕ → Address → InstId → Instruction → Checked (List SuccessorTarget)
targets fn_address off next (Instruction.bc bo bi target mode false) =
    checked (compute_branch_target off mode target) >>= λ t.
    returns (inside (checked_sub t fn_address) ++ id next ∷ [])
targets fn_address off next (Instruction.bclr bo bi link) =
    assert (not link) >> return_edges bo next
targets fn_address off next (Instruction.branch target mode false) =
    checked (compute_branch_target off mode target) >>= λ t.
    returns (or_next (checked_sub t fn_address) next)
targets fn_address off next _ = returns (id next ∷ [])

unfoldable pub store_all : Graph → InstId → List SuccessorTarget → Graph
unfolding store_mapping
store_all g from [] = g
store_all g from (to ∷ rest) = store_all (store_mapping g from to) from rest

-- The loop over the instructions from an index on.
unfoldable pub store_from : ℕ → InstId → Instructions → Graph → Checked Graph
store_from fn_address i [] g = returns g
store_from fn_address i ((off, inst) ∷ rest) g = add_u32 i 1 >>= λ next.
    targets fn_address off next inst >>= λ ts. store_from fn_address (i + 1) rest (store_all g i ts)

-- `preds[&target].len() > 1`
abbrev pub has_many : Option (List InstId) → Checked Bool
has_many none = panics
has_many (some ps) = returns (ltb 1 (length ps))

-- The test of the final `retain`: an edge to a block with no other predecessor is no block's end.
unfoldable pub ends_block : Predecessors → InstId → List SuccessorTarget → Checked Bool
ends_block preds from (id target ∷ []) = has_many (get preds target)
ends_block preds from edges = returns true

unfoldable pub retain_blocks : Graph → Checked Graph
retain_blocks g = retain (ends_block g.preds) g.succs >>= λ succs.
    returns (record { preds = g.preds; succs = succs })

unfoldable pub compute_preds_and_succs : Instructions → ℕ → Checked Graph
compute_preds_and_succs insts fn_address =
    store_from fn_address 0 insts (record { preds = []; succs = [] }) >>= retain_blocks
