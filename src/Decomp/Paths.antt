-- ===== src/Decomp/Paths.antt =====
-- decomp/src/visit.rs: the visit of a function's paths. `&mut self` of a visitor is a returned state
-- of type `V`, a context is the list of the blocks on the way (without the root's, whose id is never
-- compared), and the recursion is on fuel.
pub mod Preserves
pub mod Merge
use package.doldisasm.Base.{
  ℕ, zero, suc, ◌+◌, Bool, true, false, not, ◌&&◌, ◌==◌, ltb, if◌then◌else◌, contains, length, drop,
  Option, none, some, List, [], ◌∷◌, ◌++◌,
}
use package.doldisasm.Base.Checked.{Checked, returns, panics, ◌>>◌, assert}
use package.doldisasm.Base.Fueled.{Fueled, done, panicked, out_of_fuel, lift, ◌>>=◌}
use package.doldisasm.Ppc.Instruction.{Instruction, Register}
use package.doldisasm.Ppc.Decoder.{Address}
use package.doldisasm.Decomp.Cfg.{InstId, Instructions, Successors}
use package.doldisasm.Decomp.Registers.{register_iter}
use package.doldisasm.Decomp.Generations.{Generation, LocalRegisterState, Registers}
use package.doldisasm.Decomp.Reach.{Walk, for_each_transitive_successor}
use package.doldisasm.Decomp.Engine.{States}
use package.doldisasm.Decomp.Ssa.{default_registers, default_local}

-- `VisitPathResult`
pub data VisitPathResult : Type 0 where
  diverging : VisitPathResult
  value : Registers → VisitPathResult

pub record PhiLocal : Type 0 where
  pub register : Register
  pub next_gen : Generation
  pub true_gen : Generation
  pub false_gen : Generation

pub record JoinResult : Type 0 where
  pub true_res : VisitPathResult
  pub false_res : VisitPathResult
  pub phi_locals : List PhiLocal
  pub common_merge_inst : Option InstId

-- `VisitorStaticData`, but for the analysis, whose instructions these are.
pub record VisitorStaticData : Type 0 where
  pub insts : Instructions
  pub fn_address : ℕ
  pub results : States Registers
  pub succs : Successors

-- `VisitorCx`
abbrev pub VisitorCx : Type 0
VisitorCx = List InstId

-- `visit_path` as the visitor calls it: its state, the context, the state before, start and end.
abbrev pub VisitPath : Type 0 → Type 0
VisitPath V =
    V → VisitorCx → Option Registers → InstId → Option InstId → Fueled (V × VisitPathResult)

-- Where an instruction stands: `idx`, `absolute_idx`, `end_idx` and `inst_addr`.
pub record Place : Type 0 where
  pub idx : InstId
  pub absolute_idx : InstId
  pub end_idx : Option InstId
  pub inst_addr : Address

-- `visit_instruction`: whether to go on, with the visitor's state and that of the block.
abbrev pub VisitInstruction : Type 0 → Type 0
VisitInstruction V =
    VisitPath V → V → VisitorCx → Instruction → Place → Registers → Fueled (V × Registers × Bool)

-- The state at a start.
abbrev pub block_state : InstId → Option Registers → Checked Registers
block_state start (some state) = returns state
block_state start none = assert (start == 0) >> returns (default_registers default_local)

abbrev pub unwrap_state : {V : Type 0} → V → Option Registers → Fueled (V × VisitPathResult)
unwrap_state v none = panicked
unwrap_state v (some state) = done (v, value state)

abbrev pub is_end : InstId → Option InstId → Bool
is_end start none = false
is_end start (some end) = start == end

abbrev pub has_result : Option Registers → Bool
has_result none = false
has_result (some s) = true

-- `&insts[start_idx..]`
abbrev pub from_start : Instructions → InstId → Checked Instructions
from_start insts start = if ltb (length insts) start then panics else returns (drop start insts)

module _ {V : Type 0} where
  abbrev pub go_on_if :
      (V → Registers → Fueled (V × VisitPathResult))
      → V × Registers × Bool
      → Fueled (V × VisitPathResult)
  go_on_if go_on (v, state, true) = go_on v state
  go_on_if go_on (v, state, false) = done (v, value state)

  -- The loop over the instructions of a path, from an index behind the start on.
  unfoldable pub visit_from :
      VisitInstruction V
      → VisitPath V
      → VisitorStaticData
      → VisitorCx
      → InstId
      → Option InstId
      → InstId
      → Instructions
      → V
      → Registers
      → Fueled (V × VisitPathResult)
  visit_from visit path cx_data cx start end i [] v state = done (v, value state)
  visit_from visit path cx_data cx start end i ((address, inst) ∷ insts) v state =
      let next = visit_from visit path cx_data cx start end (i + 1) insts in
      if not (i == 0) && has_result (cx_data.results (start + i))
      then path v cx (some state) (start + i) end
      else visit path v cx inst
          (record { idx = i; absolute_idx = start + i; end_idx = end; inst_addr = address }) state
        >>= go_on_if next

  unfoldable pub visit_path : VisitInstruction V → VisitorStaticData → ℕ → VisitPath V
  visit_path visit cx_data zero v cx prev start end = out_of_fuel
  visit_path visit cx_data (suc fuel) v cx prev start end =
      if contains cx start
      then done (v, diverging)
      else lift (block_state start (cx_data.results start)) (λ state.
        if is_end start end
        then unwrap_state v prev
        else lift (from_start cx_data.insts start) (λ insts.
          visit_from visit (visit_path visit cx_data fuel) cx_data (start ∷ cx) start end 0 insts v
            state))

abbrev pub phi_local :
    Register → LocalRegisterState → LocalRegisterState → LocalRegisterState → List PhiLocal
phi_local reg next on_true on_false = elim next.phi_origins [
  | none ↦ []
  | some origins ↦
      record {
        register = reg;
        next_gen = next.generation;
        true_gen = on_true.generation;
        false_gen = on_false.generation;
      }
      ∷ []
]

-- The three iterators side by side.
unfoldable pub zip_phis :
    List (Register × LocalRegisterState)
    → List (Register × LocalRegisterState)
    → List (Register × LocalRegisterState)
    → List PhiLocal
zip_phis ((reg, next) ∷ ns) ((_, on_true) ∷ ts) ((_, on_false) ∷ fs) =
    phi_local reg next on_true on_false ++ zip_phis ns ts fs
zip_phis _ _ _ = []

unfoldable pub phi_locals_of :
    States Registers → Option InstId → VisitPathResult → VisitPathResult → Checked (List PhiLocal)
phi_locals_of results (some merge) (value on_true) (value on_false) = elim (results merge) [
  | none ↦ panics
  | some next ↦
      returns (zip_phis (register_iter next) (register_iter on_true) (register_iter on_false))
]
phi_locals_of results _ _ _ = returns []

abbrev pub go_on : InstId → Option (Unit {0})
go_on i = none

abbrev pub break_at : List InstId → InstId → Option InstId
break_at found i = if contains found i then some i else none

-- Where the two paths meet.
unfoldable pub common_merge : Successors → ℕ → InstId → InstId → Fueled (Option InstId)
common_merge succs fuel true_idx false_idx =
    for_each_transitive_successor succs go_on fuel true_idx >>= λ w.
    for_each_transitive_successor succs (break_at w.1) fuel false_idx >>= λ w'. done w'.0

module _ {V : Type 0} where
  unfoldable pub visit_and_join_paths :
      VisitPath V
      → VisitorStaticData
      → ℕ
      → V
      → VisitorCx
      → Registers
      → InstId
      → InstId
      → Fueled (V × JoinResult)
  visit_and_join_paths path cx_data fuel v cx prev true_idx false_idx =
      common_merge cx_data.succs fuel true_idx false_idx >>= λ merge.
      path v cx (some prev) true_idx merge >>= λ on_true.
      path on_true.0 cx (some prev) false_idx merge >>= λ on_false.
      lift (phi_locals_of cx_data.results merge on_true.1 on_false.1) (λ phis. done (
        on_false.0,
        record {
          true_res = on_true.1;
          false_res = on_false.1;
          phi_locals = phis;
          common_merge_inst = merge;
        },
      ))
