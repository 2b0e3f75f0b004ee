-- ===== src/Ppc/Instruction/Fields.antt =====
-- ppc32/src/instruction.rs: the operands that are not plain bit fields (`crb_from_index`,
-- `Crb::from_repr`, the `from_word` functions, `AddressingMode`), register classes, and the target
-- of a branch.
pub mod Operands
pub mod Target
use Prim.Native.Nat.{bit_or}
use package.doldisasm.Base.{
  ℕ, ◌+◌, ◌-◌, ◌*◌, ◌/◌, ◌%◌, ◌^◌, bit_and, Bool, ◌&&◌, ◌||◌, ltb, leb, ◌==◌,
}
use package.doldisasm.Base.{if◌then◌else◌, Option, none, some}
use package.doldisasm.Base.Signed.{ℤ, pos, negsuc, unsigned}
use package.doldisasm.Ppc.Word.{Word, u8, u16}
use package.doldisasm.Ppc.Instruction.{Gpr, Crf, Crb, Spr, MacroSpr, AddressingMode, BranchOptions}
use package.doldisasm.Ppc.Instruction.{TimeBaseRegister, Result, ok, panic, ◌>>=◌}

unfoldable pub is_parameter : Gpr → Bool
is_parameter r = leb 3 r && leb r 10

unfoldable pub is_callee_saved : Gpr → Bool
is_callee_saved r = leb 14 r && leb r 31

-- `Crb::from_repr`
unfoldable pub crb_from_repr : ℕ → Option Crb
crb_from_repr v =
    if v == 0
    then some Crb.negative
    else if v == 1
    then some Crb.positive
    else if v == 2
    then some Crb.zero_bit
    else if v == 3
    then some Crb.overflow
    else none

abbrev pub unwrap {ℓ} : {A : Type ℓ} → Option A → Result A
unwrap (some a) = ok a
unwrap none = panic

unfoldable pub crb_from_index : ℕ → Result (Crf × Crb)
unfolding crb_from_repr
crb_from_index index = do crb ← unwrap (crb_from_repr (index % 4)); ok (index / 4, crb)

-- `AddressingMode::from_absolute_bit`
unfoldable pub from_absolute_bit : ℕ → AddressingMode
from_absolute_bit b = if b == 0 then AddressingMode.relative else AddressingMode.absolute

-- The ten bits that name a special register are two halves of five, the low half first.
unfoldable pub split_register : Word → ℕ
split_register w = bit_or (u16 11 15 w) (u16 16 20 w * 2 ^ 5 % 2 ^ 16)

-- The `match` of `MacroSpr::from_word`.
unfoldable pub macro_spr : ℕ → MacroSpr
macro_spr n =
    if n == 1
    then Spr.xer tt
    else if n == 8
    then Spr.lr
    else if n == 9
    then Spr.ctr
    else Spr.other n

unfoldable pub spr_from_word : Word → MacroSpr
unfolding macro_spr
spr_from_word w = macro_spr (split_register w)

-- The `match` of `TimeBaseRegister::from_word`.
unfoldable pub time_base : ℕ → Result TimeBaseRegister
time_base n =
    if n == 268
    then ok TimeBaseRegister.tbu
    else if n == 269
    then ok TimeBaseRegister.tbl
    else panic

unfoldable pub tbr_from_word : Word → Result TimeBaseRegister
unfolding time_base
tbr_from_word w = time_base (split_register w)

-- The ladder of `BranchOptions::from_word` on the BO field. The last branch asserts.
unfoldable pub branch_options : ℕ → Result BranchOptions
branch_options mask =
    let pair = bit_and mask 0b11110 in
    let triple = bit_and mask 0b11100 in
    let counter = bit_and mask 0b10110 in
    if pair == 0b00010 || pair == 0
    then ok BranchOptions.dec_ctr_branch_if_false
    else if triple == 0b00100
    then ok BranchOptions.branch_if_false
    else if pair == 0b01000 || pair == 0b01010
    then ok BranchOptions.dec_ctr_branch_if_true
    else if triple == 0b01100
    then ok BranchOptions.branch_if_true
    else if counter == 0b10000
    then ok BranchOptions.dec_ctr_branch_if_not_zero
    else if counter == 0b10010
    then ok BranchOptions.dec_ctr_branch_if_zero
    else if bit_and mask 0b10100 == 0b10100
    then ok BranchOptions.branch_always
    else panic

unfoldable pub bo_from_word : Word → Result BranchOptions
unfolding branch_options
bo_from_word w = branch_options (u8 6 10 w)

-- `base.checked_add_signed(target).unwrap()`: the sum, if a `u32` holds it.
unfoldable pub checked_add_signed : ℕ → ℤ → Result ℕ
checked_add_signed base (pos n) = if ltb (base + n) (2 ^ 32) then ok (base + n) else panic
checked_add_signed base (negsuc n) = if ltb n base then ok (base - n - 1) else panic

unfoldable pub compute_branch_target : ℕ → AddressingMode → ℤ → Result ℕ
unfolding checked_add_signed
compute_branch_target base AddressingMode.absolute target = ok (unsigned 32 target)
compute_branch_target base AddressingMode.relative target = checked_add_signed base target
