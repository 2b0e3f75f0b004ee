-- ===== src/Ppc/Instruction/Encode/Branches.antt =====
-- The fields of a branch word, read by the accessors of ppc32/src/word.rs.
use doldisasm.Base.{ℕ, ◌/◌, ◌%◌, ◌^◌, ◌<◌, ◌≡◌, ◌∙◌, refl, ap, ◌==◌, Bool, arith}
use doldisasm.Base.Bits.{bit_and-mask}
use doldisasm.Base.Signed.{ℤ, pos, negsuc, signed, unsigned}
use doldisasm.Ppc.Word.{Word, opcode, u8, i32, bit, bit_set}
use doldisasm.Ppc.Word.Slice.{u32-slice, u8-slice, bit_set-slice}
use doldisasm.Ppc.Word.Sign.{i32-signed}
use doldisasm.Ppc.Instruction.{AddressingMode, BranchOptions, ok}
use doldisasm.Ppc.Instruction.Fields.{from_absolute_bit, bo_from_word}
use doldisasm.Ppc.Instruction.Fields.Operands.{bo_meaning, bo_from_word-bo_meaning}
use doldisasm.Ppc.Instruction.Parse.{shift_left}
use doldisasm.Ppc.Instruction.Encode.{
  b_form, i_form, flag, mode_code, bo_code, IsDisplacement, quarter,
}
use doldisasm.Ppc.Instruction.Encode.Forms.{flag-lt, flag_test}

mode_field :
    (w : Word) (m : AddressingMode) → w / 2 % 2 ≡ mode_code m → from_absolute_bit (bit 30 w) ≡ m
unfolding from_absolute_bit bit
mode_field w AddressingMode.absolute h = rw (bit_and-mask w 1 1, h)
mode_field w AddressingMode.relative h = rw (bit_and-mask w 1 1, h)

pub mode_code-lt : (m : AddressingMode) → mode_code m < 2
mode_code-lt AddressingMode.absolute = omega arith
mode_code-lt AddressingMode.relative = omega arith

-- A multiple of four survives the way through its field and the decoder's shifts.
displacement_15 :
    (t : ℤ) → IsDisplacement 15 t → shift_left (signed 13 (unsigned 14 (quarter t) % 2 ^ 13)) 2 ≡ t
displacement_15 (pos n) h = ground arith
displacement_15 (negsuc n) h = ground arith

displacement_25 :
    (t : ℤ) → IsDisplacement 25 t → shift_left (signed 23 (unsigned 24 (quarter t) % 2 ^ 23)) 2 ≡ t
displacement_25 (pos n) h = ground arith
displacement_25 (negsuc n) h = ground arith

pub bo_code-lt : (bo : BranchOptions) → bo_code bo < 32
bo_code-lt bo = ground arith

bo_meaning-code : (bo : BranchOptions) → bo_meaning (bo_code bo) ≡ bo
unfolding bo_meaning
bo_meaning-code BranchOptions.dec_ctr_branch_if_false = refl
bo_meaning-code BranchOptions.branch_if_false = refl
bo_meaning-code BranchOptions.dec_ctr_branch_if_true = refl
bo_meaning-code BranchOptions.branch_if_true = refl
bo_meaning-code BranchOptions.dec_ctr_branch_if_not_zero = refl
bo_meaning-code BranchOptions.dec_ctr_branch_if_zero = refl
bo_meaning-code BranchOptions.branch_always = refl

pub bo_field :
    (w : Word) (bo : BranchOptions) → w / 2 ^ 21 % 32 ≡ bo_code bo → bo_from_word w ≡ ok bo
bo_field w bo h =
    bo_from_word-bo_meaning w ∙ ap (λ t. ok (bo_meaning t)) h ∙ ap ok (bo_meaning-code bo)

-- What the accessors read from a word of the B format, as `parse_bc` uses them.
pub record BFields (w : Word) (bo : BranchOptions) (bi : ℕ) (t : ℤ) (m : AddressingMode) (lk : Bool)
    : Type 0 where
  pub op_field : opcode w ≡ 16
  pub bo_read : bo_from_word w ≡ ok bo
  pub bi_field : u8 11 15 w ≡ bi
  pub target_field : shift_left (i32 16 29 w) 2 ≡ t
  pub mode_bit : from_absolute_bit (bit 30 w) ≡ m
  pub link_bit : bit_set 31 w ≡ lk

pub unsigned_14-lt : (z : ℤ) → unsigned 14 z < 2 ^ 14
unsigned_14-lt (pos n) = omega arith
unsigned_14-lt (negsuc n) = omega arith

pub unsigned_24-lt : (z : ℤ) → unsigned 24 z < 2 ^ 24
unsigned_24-lt (pos n) = omega arith
unsigned_24-lt (negsuc n) = omega arith

pub b_form-BFields :
    (bo : BranchOptions) (bi : ℕ) (t : ℤ) (m : AddressingMode) (lk : Bool)
    → bi < 32
    → IsDisplacement 15 t
    → BFields
        (b_form 16 (bo_code bo) bi (unsigned 14 (quarter t)) (mode_code m) (flag lk))
        bo
        bi
        t
        m
        lk
unfolding opcode
b_form-BFields bo bi t m lk hb ht = record {
  op_field = omega (arith, bo_code-lt bo, mode_code-lt m, flag-lt lk, unsigned_14-lt (quarter t));
  bo_read =
      bo_field w bo
        (omega (arith, bo_code-lt bo, mode_code-lt m, flag-lt lk, unsigned_14-lt (quarter t)));
  bi_field =
      u8-slice 11 15 w (omega arith) (omega arith) (omega arith)
      ∙ omega (arith, bo_code-lt bo, mode_code-lt m, flag-lt lk, unsigned_14-lt (quarter t));
  target_field =
      ap (λ x. shift_left x 2)
        (i32-signed 16 29 w (omega arith) (omega arith)
          ∙ ap (λ x. signed 13 (x % 2 ^ 13))
              (u32-slice 16 29 w (omega arith) (omega arith)
                ∙ omega
                    (arith, bo_code-lt bo, mode_code-lt m, flag-lt lk, unsigned_14-lt (quarter t))))
      ∙ displacement_15 t ht;
  mode_bit =
      mode_field w m
        (omega (arith, bo_code-lt bo, mode_code-lt m, flag-lt lk, unsigned_14-lt (quarter t)));
  link_bit =
      bit_set-slice 31 w (omega arith)
      ∙ ap (λ x. x == 1)
          (omega (arith, bo_code-lt bo, mode_code-lt m, flag-lt lk, unsigned_14-lt (quarter t)))
      ∙ flag_test lk;
}
  where
    bd : ℕ
    bd = unsigned 14 (quarter t)

    w : Word
    w = b_form 16 (bo_code bo) bi bd (mode_code m) (flag lk)

-- What the accessors read from a word of the I format, as `parse_branch` uses them.
pub record IFields (w : Word) (t : ℤ) (m : AddressingMode) (lk : Bool) : Type 0 where
  pub op_field : opcode w ≡ 18
  pub target_field : shift_left (i32 6 29 w) 2 ≡ t
  pub mode_bit : from_absolute_bit (bit 30 w) ≡ m
  pub link_bit : bit_set 31 w ≡ lk

pub i_form-IFields :
    (t : ℤ) (m : AddressingMode) (lk : Bool)
    → IsDisplacement 25 t
    → IFields (i_form 18 (unsigned 24 (quarter t)) (mode_code m) (flag lk)) t m lk
unfolding opcode
i_form-IFields t m lk ht = record {
  op_field = omega (arith, mode_code-lt m, flag-lt lk, unsigned_24-lt (quarter t));
  target_field =
      ap (λ x. shift_left x 2)
        (i32-signed 6 29 w (omega arith) (omega arith)
          ∙ ap (λ x. signed 23 (x % 2 ^ 23))
              (u32-slice 6 29 w (omega arith) (omega arith)
                ∙ omega (arith, mode_code-lt m, flag-lt lk, unsigned_24-lt (quarter t))))
      ∙ displacement_25 t ht;
  mode_bit = mode_field w m (omega (arith, mode_code-lt m, flag-lt lk, unsigned_24-lt (quarter t)));
  link_bit =
      bit_set-slice 31 w (omega arith)
      ∙ ap (λ x. x == 1) (omega (arith, mode_code-lt m, flag-lt lk, unsigned_24-lt (quarter t)))
      ∙ flag_test lk;
}
  where
    w : Word
    w = i_form 18 (unsigned 24 (quarter t)) (mode_code m) (flag lk)
