-- ===== src/Ppc/Instruction/Fields/Operands.antt =====
-- ppc32/src/instruction.rs: what the operand readers return, on every input.
use Prim.Native.Nat.{bit_or}
use mathlib.Core.Path.{ap₂}
use doldisasm.Base.{
  ℕ, zero, suc, ◌+◌, ◌*◌, ◌/◌, ◌%◌, ◌^◌, ◌<◌, ◌≡◌, refl, ◌∙◌, ap, ◌==◌, ==_iff, arith,
}
use doldisasm.Base.{Bool, true, false, if◌then◌else◌, some}
use doldisasm.Base.Tables.{passes_below, passes_below-test}
use doldisasm.Ppc.Word.{Word, u16}
use doldisasm.Ppc.Word.Slice.{u32-slice, u8-slice}
use doldisasm.Ppc.Instruction.{Crf, Crb, BranchOptions, Result, ok, err, panic}
use doldisasm.Ppc.Instruction.Fields.{
  crb_from_repr, crb_from_index, split_register, branch_options, bo_from_word,
}

-- The position of a condition bit in its field.
unfoldable pub crb_repr : Crb → ℕ
crb_repr Crb.negative = 0
crb_repr Crb.positive = 1
crb_repr Crb.zero_bit = 2
crb_repr Crb.overflow = 3

crb_from_repr-repr : (v : ℕ) → v < 4 → (b : Crb) × (crb_from_repr v ≡ some b) × (crb_repr b ≡ v)
unfolding crb_from_repr crb_repr
crb_from_repr-repr zero h = (Crb.negative, refl, refl)
crb_from_repr-repr (suc zero) h = (Crb.positive, refl, refl)
crb_from_repr-repr (suc (suc zero)) h = (Crb.zero_bit, refl, refl)
crb_from_repr-repr (suc (suc (suc zero))) h = (Crb.overflow, refl, refl)
crb_from_repr-repr (suc (suc (suc (suc v)))) h = absurd (omega arith)

-- `crb_from_index` never panics, and its two parts determine the index: field `index / 4`, and the
-- bit at position `index % 4` of it.
pub crb_from_index-repr :
    (index : ℕ)
    → (crf : Crf) × (crb : Crb) × (crb_from_index index ≡ ok (crf, crb))
      × (4 * crf + crb_repr crb ≡ index)
unfolding crb_from_index
crb_from_index-repr index =
    let (b, e, r) = crb_from_repr-repr (index % 4) (omega arith) in
    (index / 4, b, rw e, omega (arith, r))

-- The two halves of five bits do not overlap.
halves_table : passes_below (λ x. bit_or (x % 32) (x / 32 * 2 ^ 5 % 2 ^ 16) == x) 1024 ≡ true
unfolding passes_below
halves_table = refl

-- A special register's number is read from bits 11 to 20 with its two halves swapped.
pub split_register_lem : (w : Word) → split_register w ≡ w / 2 ^ 11 % 32 * 32 + w / 2 ^ 16 % 32
unfolding split_register u16
split_register_lem w =
    let lo = w / 2 ^ 16 % 32 in
    let hi = w / 2 ^ 11 % 32 in
    let joined = (==_iff _ _).0 (passes_below-test _ (hi * 32 + lo) halves_table (omega arith)) in
    rw
      (u32-slice 11 15 w (omega arith) (omega arith), u32-slice 16 20 w (omega arith) (omega arith))
      (ap₂ bit_or (omega arith) (omega arith) ∙ joined)

-- What the bits of a BO field mean, by the two that decide first: bit 0 (ignore the condition) and
-- bit 2 (leave CTR alone), then bit 1 (the condition's value) or bit 3 (CTR is zero).
unfoldable pub bo_meaning : ℕ → BranchOptions
bo_meaning mask =
    if mask / 16 % 2 == 1
    then if mask / 4 % 2 == 1
      then BranchOptions.branch_always
      else if mask / 2 % 2 == 1
      then BranchOptions.dec_ctr_branch_if_zero
      else BranchOptions.dec_ctr_branch_if_not_zero
    else if mask / 4 % 2 == 1
    then if mask / 8 % 2 == 1 then BranchOptions.branch_if_true else BranchOptions.branch_if_false
    else if mask / 8 % 2 == 1
    then BranchOptions.dec_ctr_branch_if_true
    else BranchOptions.dec_ctr_branch_if_false

-- A number for each kind of branch, to compare them by evaluation.
code : BranchOptions → ℕ
code BranchOptions.dec_ctr_branch_if_false = 0
code BranchOptions.branch_if_false = 1
code BranchOptions.dec_ctr_branch_if_true = 2
code BranchOptions.branch_if_true = 3
code BranchOptions.dec_ctr_branch_if_not_zero = 4
code BranchOptions.dec_ctr_branch_if_zero = 5
code BranchOptions.branch_always = 6

code_injective : (a b : BranchOptions) → code a ≡ code b → a ≡ b
unfolding code
code_injective a b h = ground arith

yields : Result BranchOptions → BranchOptions → Bool
unfolding code
yields (ok a) b = code a == code b
yields _ b = false

yields_sound : (r : Result BranchOptions) (b : BranchOptions) → yields r b ≡ true → r ≡ ok b
unfolding yields
yields_sound (ok a) b h = ap ok (code_injective a b ((==_iff _ _).0 h))
yields_sound (err e) b h = cc
yields_sound panic b h = cc

bo_table : passes_below (λ m. yields (branch_options m) (bo_meaning m)) 32 ≡ true
unfolding passes_below yields branch_options bo_meaning
bo_table = refl

-- The ladder of masks never reaches its failing assertion: for every word it returns the kind of
-- branch that the bits of the BO field say.
pub bo_from_word-bo_meaning : (w : Word) → bo_from_word w ≡ ok (bo_meaning (w / 2 ^ 21 % 32))
unfolding bo_from_word
bo_from_word-bo_meaning w =
    rw (u8-slice 6 10 w (omega arith) (omega arith) (omega arith))
      (yields_sound _ _ (passes_below-test _ (w / 2 ^ 21 % 32) bo_table (omega arith)))
