-- ===== src/Ppc/Instruction/Encode/XWords.antt =====
-- Words of the X and M formats are decoded by the arm of their opcode and extended opcode.
use doldisasm.Base.{ℕ, ◌+◌, ◌*◌, ◌/◌, ◌%◌, ◌<◌, ◌≡◌, ◌∙◌, refl, Bool, false, ◌==◌, arith}
use doldisasm.Ppc.Word.{Word}
use doldisasm.Ppc.Word.Slice.{u8-slice}
use doldisasm.Ppc.Instruction.{Instruction, BranchOptions, TimeBaseRegister, ok}
use doldisasm.Ppc.Instruction.Fields.{
  split_register, macro_spr, spr_from_word, time_base, tbr_from_word, bo_from_word,
}
use doldisasm.Ppc.Instruction.Fields.Operands.{split_register_lem}
use doldisasm.Ppc.Instruction.Parse.{
  parse_rlwnm, parse_rlwinm, parse_cmpl, parse_cmp, parse_bclr, parse_stwux, parse_subf,
  parse_subfe, parse_mfspr, parse_mtspr, parse_mfmsr, parse_mtmsr, parse_or, parse_and, parse_isync,
  parse_hwsync, parse_mtfsb1, parse_mftb, parse_neg, parse_crxor, parse_add,
}
use doldisasm.Ppc.Instruction.Decode.{select, decode_from_word}
use doldisasm.Ppc.Instruction.Decode.Arms.{decode-select}
use doldisasm.Ppc.Instruction.Encode.{tbr_code}
use doldisasm.Ppc.Instruction.Encode.Forms.{XFields, mask_fields}

-- The register number of a word with both halves in their fields.
register_of :
    {w : Word} {op a b c xo : ℕ} {rc : Bool}
    → XFields w op a b c xo rc
    → split_register w ≡ c * 32 + b
register_of {w} f =
    split_register_lem w
    ∙ omega (
      arith,
      f.b_field,
      f.c_field,
      u8-slice 11 15 w (omega arith) (omega arith) (omega arith),
      u8-slice 16 20 w (omega arith) (omega arith) (omega arith),
    )

time_base-code : (t : TimeBaseRegister) → time_base (tbr_code t) ≡ ok t
unfolding time_base
time_base-code TimeBaseRegister.tbu = refl
time_base-code TimeBaseRegister.tbl = refl

module _ (w : Word) (offset : ℕ) {a b c : ℕ} {rc : Bool} where
  pub rlwnm-decodes :
      {mb me : ℕ}
      → mb < 32
      → me < 32
      → XFields w 23 a b c (mb * 32 + me) rc
      → decode_from_word w offset ≡ ok (Instruction.rlwnm a b c mb me rc)
  unfolding select parse_rlwnm
  rlwnm-decodes {mb} {me} hb he f =
      decode-select w offset f.op_field refl
      ∙ rw (
        f.a_field,
        f.b_field,
        f.c_field,
        (mask_fields mb me f hb he).0,
        (mask_fields mb me f hb he).1,
        f.rc_bit,
      )

  pub rlwinm-decodes :
      {mb me : ℕ}
      → mb < 32
      → me < 32
      → XFields w 21 a b c (mb * 32 + me) rc
      → decode_from_word w offset ≡ ok (Instruction.rlwinm a b c mb me rc)
  unfolding select parse_rlwinm
  rlwinm-decodes {mb} {me} hb he f =
      decode-select w offset f.op_field refl
      ∙ rw (
        f.a_field,
        f.b_field,
        f.c_field,
        (mask_fields mb me f hb he).0,
        (mask_fields mb me f hb he).1,
        f.rc_bit,
      )

  pub cmpl-decodes :
      XFields w 31 a b c 32 rc
      → decode_from_word w offset ≡ ok (Instruction.cmpl b c (a / 4) (a % 2 == 1))
  unfolding select parse_cmpl
  cmpl-decodes f =
      decode-select w offset f.op_field f.xo_field ∙ rw (f.b_field, f.c_field, f.crf_field, f.l_bit)

  pub cmp-decodes :
      XFields w 31 a b c 0 rc
      → decode_from_word w offset ≡ ok (Instruction.cmp b c (a / 4) (a % 2 == 1))
  unfolding select parse_cmp
  cmp-decodes f =
      decode-select w offset f.op_field f.xo_field ∙ rw (f.b_field, f.c_field, f.crf_field, f.l_bit)

  pub bclr-decodes :
      {bo : BranchOptions}
      → bo_from_word w ≡ ok bo
      → XFields w 19 a b c 16 rc
      → decode_from_word w offset ≡ ok (Instruction.bclr bo b rc)
  unfolding select parse_bclr
  bclr-decodes hbo f = decode-select w offset f.op_field f.xo_field ∙ rw (hbo, f.b_field, f.rc_bit)

  pub stwux-decodes :
      XFields w 31 a b c 183 rc → decode_from_word w offset ≡ ok (Instruction.stwux a b c)
  unfolding select parse_stwux
  stwux-decodes f =
      decode-select w offset f.op_field f.xo_field ∙ rw (f.a_field, f.b_field, f.c_field)

  pub subf-decodes :
      XFields w 31 a b c 40 rc → decode_from_word w offset ≡ ok (Instruction.subf a b c false rc)
  unfolding select parse_subf
  subf-decodes f =
      decode-select w offset f.op_field f.xo_field
      ∙ rw (f.a_field, f.b_field, f.c_field, f.oe_bit, f.rc_bit)

  pub subfe-decodes :
      XFields w 31 a b c 136 rc → decode_from_word w offset ≡ ok (Instruction.subfe a b c false rc)
  unfolding select parse_subfe
  subfe-decodes f =
      decode-select w offset f.op_field f.xo_field
      ∙ rw (f.a_field, f.b_field, f.c_field, f.oe_bit, f.rc_bit)

  pub mfspr-decodes :
      XFields w 31 a b c 339 rc
      → decode_from_word w offset ≡ ok (Instruction.mfspr a (macro_spr (c * 32 + b)))
  unfolding select parse_mfspr spr_from_word
  mfspr-decodes f = decode-select w offset f.op_field f.xo_field ∙ rw (f.a_field, register_of f)

  pub mtspr-decodes :
      XFields w 31 a b c 467 rc
      → decode_from_word w offset ≡ ok (Instruction.mtspr a (macro_spr (c * 32 + b)))
  unfolding select parse_mtspr spr_from_word
  mtspr-decodes f = decode-select w offset f.op_field f.xo_field ∙ rw (f.a_field, register_of f)

  pub mfmsr-decodes :
      XFields w 31 a b c 83 rc → decode_from_word w offset ≡ ok (Instruction.mfmsr a)
  unfolding select parse_mfmsr
  mfmsr-decodes f = decode-select w offset f.op_field f.xo_field ∙ rw (f.a_field)

  pub mtmsr-decodes :
      XFields w 31 a b c 146 rc → decode_from_word w offset ≡ ok (Instruction.mtmsr a)
  unfolding select parse_mtmsr
  mtmsr-decodes f = decode-select w offset f.op_field f.xo_field ∙ rw (f.a_field)

  pub or-decodes :
      XFields w 31 a b c 444 rc → decode_from_word w offset ≡ ok (Instruction.or a b c rc)
  unfolding select parse_or
  or-decodes f =
      decode-select w offset f.op_field f.xo_field ∙ rw (f.a_field, f.b_field, f.c_field, f.rc_bit)

  pub and-decodes :
      XFields w 31 a b c 28 rc → decode_from_word w offset ≡ ok (Instruction.and a c b)
  unfolding select parse_and
  and-decodes f =
      decode-select w offset f.op_field f.xo_field ∙ rw (f.a_field, f.c_field, f.b_field)

  pub isync-decodes : XFields w 19 a b c 150 rc → decode_from_word w offset ≡ ok Instruction.isync
  unfolding select parse_isync
  isync-decodes f = decode-select w offset f.op_field f.xo_field ∙ refl

  pub hwsync-decodes : XFields w 31 a b c 598 rc → decode_from_word w offset ≡ ok Instruction.hwsync
  unfolding select parse_hwsync
  hwsync-decodes f = decode-select w offset f.op_field f.xo_field ∙ refl

  pub mtfsb1-decodes :
      XFields w 63 a b c 38 rc → decode_from_word w offset ≡ ok (Instruction.mtfsb1 a rc)
  unfolding select parse_mtfsb1
  mtfsb1-decodes f = decode-select w offset f.op_field f.xo_field ∙ rw (f.a_field, f.rc_bit)

  pub mftb-decodes :
      {tbr : TimeBaseRegister}
      → c * 32 + b ≡ tbr_code tbr
      → XFields w 31 a b c 371 rc
      → decode_from_word w offset ≡ ok (Instruction.mftb a tbr)
  unfolding select parse_mftb tbr_from_word
  mftb-decodes {tbr} ht f =
      decode-select w offset f.op_field f.xo_field
      ∙ rw (f.a_field, register_of f, ht, time_base-code tbr)

  pub neg-decodes :
      XFields w 31 a b c 104 rc → decode_from_word w offset ≡ ok (Instruction.neg a b rc false)
  unfolding select parse_neg
  neg-decodes f =
      decode-select w offset f.op_field f.xo_field ∙ rw (f.a_field, f.b_field, f.rc_bit, f.oe_bit)

  pub crxor-decodes :
      XFields w 19 a b c 193 rc → decode_from_word w offset ≡ ok (Instruction.crxor a b c)
  unfolding select parse_crxor
  crxor-decodes f =
      decode-select w offset f.op_field f.xo_field ∙ rw (f.a_field, f.b_field, f.c_field)

  pub add-decodes :
      XFields w 31 a b c 266 rc → decode_from_word w offset ≡ ok (Instruction.add a b c false rc)
  unfolding select parse_add
  add-decodes f =
      decode-select w offset f.op_field f.xo_field
      ∙ rw (f.a_field, f.b_field, f.c_field, f.oe_bit, f.rc_bit)
