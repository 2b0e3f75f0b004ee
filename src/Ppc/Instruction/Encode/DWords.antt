-- ===== src/Ppc/Instruction/Encode/DWords.antt =====
-- Words of the D format are decoded by the arm of their opcode, whatever their extended opcode is.
use doldisasm.Base.{ℕ, ◌/◌, ◌%◌, ◌≡◌, ◌∙◌, refl, ◌==◌}
use doldisasm.Base.Signed.{signed}
use doldisasm.Ppc.Word.{Word, i16}
use doldisasm.Ppc.Instruction.{Instruction, ok}
use doldisasm.Ppc.Instruction.Parse.{
  nonzero, parse_addis, parse_addi, parse_ori, parse_cmpli, parse_cmpi, parse_stwu, parse_subfic,
  parse_andi, parse_stw, parse_stmw, parse_lwz, parse_lwzu, parse_oris, parse_lmw, parse_lhz,
  parse_lbz, parse_addic_rc,
}
use doldisasm.Ppc.Instruction.Decode.{select, decode_from_word}
use doldisasm.Ppc.Instruction.Decode.Arms.{decode-select}
use doldisasm.Ppc.Instruction.Encode.Forms.{DFields}

module _ (w : Word) (offset : ℕ) {a b imm : ℕ} where
  pub addis-decodes :
      DFields w 15 a b imm
      → decode_from_word w offset ≡ ok (Instruction.addis a (nonzero b) (signed 16 imm))
  unfolding select parse_addis i16
  addis-decodes f = decode-select w offset f.op_field refl ∙ rw (f.a_field, f.b_field, f.imm_field)

  pub addi-decodes :
      DFields w 14 a b imm → decode_from_word w offset ≡ ok (Instruction.addi a b (signed 16 imm))
  unfolding select parse_addi i16
  addi-decodes f = decode-select w offset f.op_field refl ∙ rw (f.a_field, f.b_field, f.imm_field)

  pub ori-decodes : DFields w 24 a b imm → decode_from_word w offset ≡ ok (Instruction.ori a b imm)
  unfolding select parse_ori
  ori-decodes f = decode-select w offset f.op_field refl ∙ rw (f.a_field, f.b_field, f.imm_field)

  pub cmpli-decodes :
      DFields w 10 a b imm
      → decode_from_word w offset ≡ ok (Instruction.cmpli b imm (a / 4) (a % 2 == 1))
  unfolding select parse_cmpli
  cmpli-decodes f =
      decode-select w offset f.op_field refl ∙ rw (f.b_field, f.imm_field, f.crf_field, f.l_bit)

  pub cmpi-decodes :
      DFields w 11 a b imm → decode_from_word w offset ≡ ok (Instruction.cmpi b imm (a / 4))
  unfolding select parse_cmpi
  cmpi-decodes f = decode-select w offset f.op_field refl ∙ rw (f.b_field, f.imm_field, f.crf_field)

  pub stwu-decodes :
      DFields w 37 a b imm → decode_from_word w offset ≡ ok (Instruction.stwu a b (signed 16 imm))
  unfolding select parse_stwu i16
  stwu-decodes f = decode-select w offset f.op_field refl ∙ rw (f.a_field, f.b_field, f.imm_field)

  pub subfic-decodes :
      DFields w 8 a b imm → decode_from_word w offset ≡ ok (Instruction.subfic a b (signed 16 imm))
  unfolding select parse_subfic i16
  subfic-decodes f = decode-select w offset f.op_field refl ∙ rw (f.a_field, f.b_field, f.imm_field)

  pub andi-decodes :
      DFields w 28 a b imm → decode_from_word w offset ≡ ok (Instruction.andi a b (signed 16 imm))
  unfolding select parse_andi i16
  andi-decodes f = decode-select w offset f.op_field refl ∙ rw (f.a_field, f.b_field, f.imm_field)

  pub stw-decodes :
      DFields w 36 a b imm → decode_from_word w offset ≡ ok (Instruction.stw a b (signed 16 imm))
  unfolding select parse_stw i16
  stw-decodes f = decode-select w offset f.op_field refl ∙ rw (f.a_field, f.b_field, f.imm_field)

  pub stmw-decodes :
      DFields w 47 a b imm → decode_from_word w offset ≡ ok (Instruction.stmw a b (signed 16 imm))
  unfolding select parse_stmw i16
  stmw-decodes f = decode-select w offset f.op_field refl ∙ rw (f.a_field, f.b_field, f.imm_field)

  pub lwz-decodes :
      DFields w 32 a b imm → decode_from_word w offset ≡ ok (Instruction.lwz a b (signed 16 imm))
  unfolding select parse_lwz i16
  lwz-decodes f = decode-select w offset f.op_field refl ∙ rw (f.a_field, f.b_field, f.imm_field)

  pub lwzu-decodes :
      DFields w 33 a b imm → decode_from_word w offset ≡ ok (Instruction.lwzu a b (signed 16 imm))
  unfolding select parse_lwzu i16
  lwzu-decodes f = decode-select w offset f.op_field refl ∙ rw (f.a_field, f.b_field, f.imm_field)

  pub oris-decodes :
      DFields w 25 a b imm → decode_from_word w offset ≡ ok (Instruction.oris a b imm)
  unfolding select parse_oris
  oris-decodes f = decode-select w offset f.op_field refl ∙ rw (f.a_field, f.b_field, f.imm_field)

  pub lmw-decodes :
      DFields w 46 a b imm → decode_from_word w offset ≡ ok (Instruction.lmw a b (signed 16 imm))
  unfolding select parse_lmw i16
  lmw-decodes f = decode-select w offset f.op_field refl ∙ rw (f.a_field, f.b_field, f.imm_field)

  pub lhz-decodes :
      DFields w 40 a b imm → decode_from_word w offset ≡ ok (Instruction.lhz a b (signed 16 imm))
  unfolding select parse_lhz i16
  lhz-decodes f = decode-select w offset f.op_field refl ∙ rw (f.a_field, f.b_field, f.imm_field)

  pub lbz-decodes :
      DFields w 34 a b imm → decode_from_word w offset ≡ ok (Instruction.lbz a b (signed 16 imm))
  unfolding select parse_lbz i16
  lbz-decodes f = decode-select w offset f.op_field refl ∙ rw (f.a_field, f.b_field, f.imm_field)

  pub addic_rc-decodes :
      DFields w 13 a b imm
      → decode_from_word w offset ≡ ok (Instruction.addic_rc a b (signed 16 imm))
  unfolding select parse_addic_rc i16
  addic_rc-decodes f =
      decode-select w offset f.op_field refl ∙ rw (f.a_field, f.b_field, f.imm_field)
