-- ===== src/Decomp/Cfg/Targets.antt =====
-- Where control goes after an instruction of a function, from what the instruction means, and that
-- the loop of `compute_preds_and_succs` stores these targets.
use doldisasm.Base.{ℕ, suc, ◌+◌, ◌-◌, ◌/◌, ◌^◌, Bool, true, false, ltb, leb, if◌then◌else◌}
use doldisasm.Base.{Option, none, some, List, [], ◌∷◌, ◌≡◌, refl, arith}
use doldisasm.Base.Signed.{ℤ, pos, negsuc, unsigned}
use doldisasm.Base.Checked.{Checked, returns, panics}
use doldisasm.Ppc.Decoder.{Address}
use doldisasm.Ppc.Instruction.{Instruction, AddressingMode, BranchOptions}
use doldisasm.Ppc.Instruction.Fields.{compute_branch_target, checked_add_signed}
use doldisasm.Decomp.Cfg.{InstId, SuccessorTarget, id, return_target, targets}

-- The address that a branch names, if it is one of 32 bits.
abbrev named_address : Address → AddressingMode → ℤ → Option Address
named_address off AddressingMode.absolute t = some (unsigned 32 t)
named_address off AddressingMode.relative (pos n) =
    if ltb (off + n) (2 ^ 32) then some (off + n) else none
named_address off AddressingMode.relative (negsuc n) =
    if ltb n off then some (off - suc n) else none

-- A condition that holds or not: both ways, but for a target before the function.
abbrev either_way : ℕ → InstId → Option Address → Checked (List SuccessorTarget)
either_way fn_address next none = panics
either_way fn_address next (some t) =
    if leb fn_address t
    then returns (id ((t - fn_address) / 4) ∷ id next ∷ [])
    else returns (id next ∷ [])

-- A jump, which before the function is taken as a call that comes back.
abbrev one_way : ℕ → InstId → Option Address → Checked (List SuccessorTarget)
one_way fn_address next none = panics
one_way fn_address next (some t) =
    returns (id (if leb fn_address t then (t - fn_address) / 4 else next) ∷ [])

-- Whether a return may be passed over, if that is supported.
abbrev may_stay : BranchOptions → Option Bool
may_stay BranchOptions.branch_always = some false
may_stay BranchOptions.branch_if_true = some true
may_stay BranchOptions.branch_if_false = some true
may_stay _ = none

abbrev leaving : InstId → Option Bool → Checked (List SuccessorTarget)
leaving next none = panics
leaving next (some stays) = returns (return_target ∷ (if stays then id next ∷ [] else []))

-- The instruction at `off` of a function, the next one being `next`: a branch that sets the link
-- register is a call, which comes back.
abbrev pub edges_of : ℕ → Address → InstId → Instruction → Checked (List SuccessorTarget)
edges_of fn_address off next (Instruction.branch target mode link) =
    if link then returns (id next ∷ []) else one_way fn_address next (named_address off mode target)
edges_of fn_address off next (Instruction.bc bo bi target mode link) =
    if link
    then returns (id next ∷ [])
    else either_way fn_address next (named_address off mode target)
edges_of fn_address off next (Instruction.bclr bo bi link) =
    if link then panics else leaving next (may_stay bo)
edges_of fn_address off next _ = returns (id next ∷ [])

bc-edges :
    (fn_address : ℕ) (off : Address) (next : InstId) (bo : BranchOptions) (bi : ℕ) (t : ℤ)
    (mode : AddressingMode)
    → targets fn_address off next (Instruction.bc bo bi t mode false)
      ≡ either_way fn_address next (named_address off mode t)
unfolding targets compute_branch_target checked_add_signed
bc-edges fn_address off next bo bi t AddressingMode.absolute = ground arith
bc-edges fn_address off next bo bi (pos n) AddressingMode.relative = ground arith
bc-edges fn_address off next bo bi (negsuc n) AddressingMode.relative = ground arith

branch-edges :
    (fn_address : ℕ) (off : Address) (next : InstId) (t : ℤ) (mode : AddressingMode)
    → targets fn_address off next (Instruction.branch t mode false)
      ≡ one_way fn_address next (named_address off mode t)
unfolding targets compute_branch_target checked_add_signed
branch-edges fn_address off next t AddressingMode.absolute = ground arith
branch-edges fn_address off next (pos n) AddressingMode.relative = ground arith
branch-edges fn_address off next (negsuc n) AddressingMode.relative = ground arith

bclr-edges :
    (fn_address : ℕ) (off : Address) (next : InstId) (bo : BranchOptions) (bi : ℕ) (link : Bool)
    → targets fn_address off next (Instruction.bclr bo bi link)
      ≡ edges_of fn_address off next (Instruction.bclr bo bi link)
unfolding targets
bclr-edges fn_address off next bo bi link = ground arith

pub targets-edges_of :
    (fn_address : ℕ) (off : Address) (next : InstId) (inst : Instruction)
    → targets fn_address off next inst ≡ edges_of fn_address off next inst
unfolding targets
targets-edges_of fn_address off next (Instruction.branch t mode true) = refl
targets-edges_of fn_address off next (Instruction.branch t mode false) =
    branch-edges fn_address off next t mode
targets-edges_of fn_address off next (Instruction.bc bo bi t mode true) = refl
targets-edges_of fn_address off next (Instruction.bc bo bi t mode false) =
    bc-edges fn_address off next bo bi t mode
targets-edges_of fn_address off next (Instruction.bclr bo bi link) =
    bclr-edges fn_address off next bo bi link
targets-edges_of fn_address off next _ = refl
