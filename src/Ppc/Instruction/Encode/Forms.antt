-- ===== src/Ppc/Instruction/Encode/Forms.antt =====
-- The fields of an instruction word, read by the accessors of ppc32/src/word.rs, for each format.
use doldisasm.Base.{
  ℕ, ◌+◌, ◌*◌, ◌/◌, ◌%◌, ◌^◌, ◌<◌, ◌≡◌, ◌∙◌, refl, ap, ◌==◌, Bool, true, false, arith,
}
use doldisasm.Base.Signed.{ℤ, pos, negsuc, signed, unsigned}
use doldisasm.Ppc.Word.{Word, opcode, xform_opcode, u8, u16, bit_set}
use doldisasm.Ppc.Word.Slice.{u32-slice, u8-slice, bit_set-slice}
use doldisasm.Ppc.Instruction.Encode.{d_form, x_form, flag, Fits}

-- What the accessors read from a word of the D format.
pub record DFields (w : Word) (op a b imm : ℕ) : Type 0 where
  pub op_field : opcode w ≡ op
  pub a_field : u8 6 10 w ≡ a
  pub b_field : u8 11 15 w ≡ b
  pub imm_field : u16 16 31 w ≡ imm
  pub crf_field : u8 6 8 w ≡ a / 4
  pub l_bit : bit_set 10 w ≡ (a % 2 == 1)

pub d_form-DFields :
    (op a b imm : ℕ) → a < 32 → b < 32 → imm < 2 ^ 16 → DFields (d_form op a b imm) op a b imm
unfolding opcode u16
d_form-DFields op a b imm ha hb hi = record {
  op_field = omega arith;
  a_field = u8-slice 6 10 w (omega arith) (omega arith) (omega arith) ∙ omega arith;
  b_field = u8-slice 11 15 w (omega arith) (omega arith) (omega arith) ∙ omega arith;
  imm_field = ap (λ t. t % 2 ^ 16) (u32-slice 16 31 w (omega arith) (omega arith)) ∙ omega arith;
  crf_field = u8-slice 6 8 w (omega arith) (omega arith) (omega arith) ∙ omega arith;
  l_bit = bit_set-slice 10 w (omega arith) ∙ ap (λ t. t == 1) (omega arith);
}
  where
    w : Word
    w = d_form op a b imm

pub flag-lt : (b : Bool) → flag b < 2
flag-lt true = omega arith
flag-lt false = omega arith

pub flag_test : (b : Bool) → (flag b == 1) ≡ b
flag_test true = refl
flag_test false = refl

-- What the accessors read from a word of the X format.
pub record XFields (w : Word) (op a b c xo : ℕ) (rc : Bool) : Type 0 where
  pub op_field : opcode w ≡ op
  pub xo_field : xform_opcode w ≡ xo
  pub a_field : u8 6 10 w ≡ a
  pub b_field : u8 11 15 w ≡ b
  pub c_field : u8 16 20 w ≡ c
  pub crf_field : u8 6 8 w ≡ a / 4
  pub l_bit : bit_set 10 w ≡ (a % 2 == 1)
  pub oe_bit : bit_set 21 w ≡ (xo / 512 == 1)
  pub rc_bit : bit_set 31 w ≡ rc

pub x_form-XFields :
    (op a b c xo : ℕ) (rc : Bool)
    → a < 32
    → b < 32
    → c < 32
    → xo < 1024
    → XFields (x_form op a b c xo (flag rc)) op a b c xo rc
unfolding opcode xform_opcode
x_form-XFields op a b c xo rc ha hb hc hx = record {
  op_field = omega (arith, small);
  xo_field = u32-slice 21 30 w (omega arith) (omega arith) ∙ omega (arith, small);
  a_field = u8-slice 6 10 w (omega arith) (omega arith) (omega arith) ∙ omega (arith, small);
  b_field = u8-slice 11 15 w (omega arith) (omega arith) (omega arith) ∙ omega (arith, small);
  c_field = u8-slice 16 20 w (omega arith) (omega arith) (omega arith) ∙ omega (arith, small);
  crf_field = u8-slice 6 8 w (omega arith) (omega arith) (omega arith) ∙ omega (arith, small);
  l_bit = bit_set-slice 10 w (omega arith) ∙ ap (λ t. t == 1) (omega (arith, small));
  oe_bit = bit_set-slice 21 w (omega arith) ∙ ap (λ t. t == 1) (omega (arith, small));
  rc_bit =
      bit_set-slice 31 w (omega arith) ∙ ap (λ t. t == 1) (omega (arith, small)) ∙ flag_test rc;
}
  where
    w : Word
    w = x_form op a b c xo (flag rc)

    small : flag rc < 2
    small = flag-lt rc

-- The two bit positions of the M format stand in the place of the extended opcode.
pub mask_fields :
    {w : Word} {op a b c : ℕ} {rc : Bool} (mb me : ℕ)
    → XFields w op a b c (mb * 32 + me) rc
    → mb < 32
    → me < 32
    → (u8 21 25 w ≡ mb) × (u8 26 30 w ≡ me)
unfolding xform_opcode
mask_fields {w} mb me f hb he =
    let row = u32-slice 21 30 w (omega arith) (omega arith) in
    (
      u8-slice 21 25 w (omega arith) (omega arith) (omega arith) ∙ omega (arith, row, f.xo_field),
      u8-slice 26 30 w (omega arith) (omega arith) (omega arith) ∙ omega (arith, row, f.xo_field),
    )

-- A signed immediate survives its sixteen bits.
pub signed-unsigned_16 : (z : ℤ) → Fits 16 z → signed 16 (unsigned 16 z) ≡ z
signed-unsigned_16 (pos n) h = ground arith
signed-unsigned_16 (negsuc n) h = ground arith

pub unsigned_16-lt : (z : ℤ) → unsigned 16 z < 2 ^ 16
unsigned_16-lt (pos n) = omega arith
unsigned_16-lt (negsuc n) = omega arith
