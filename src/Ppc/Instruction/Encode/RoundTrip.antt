-- ===== src/Ppc/Instruction/Encode/RoundTrip.antt =====
-- The decoder of ppc32/src/instruction.rs inverts the encoder.
use doldisasm.Base.{
  ℕ, ◌+◌, ◌*◌, ◌/◌, ◌%◌, ◌<◌, ◌≡◌, ◌∙◌, refl, ap, Bool, false, ◌==◌, Option, none, some, arith,
}
use doldisasm.Base.Signed.{unsigned}
use doldisasm.Ppc.Word.{Word}
use doldisasm.Ppc.Instruction.{
  Gpr, Crf, MacroSpr, TimeBaseRegister, AddressingMode, Instruction, ok,
}
use doldisasm.Ppc.Instruction.Fields.{macro_spr}
use doldisasm.Ppc.Instruction.Parse.{nonzero, parse_branch, parse_bc}
use doldisasm.Ppc.Instruction.Decode.{select, decode_from_word}
use doldisasm.Ppc.Instruction.Decode.Shape.{AddendRange}
use doldisasm.Ppc.Instruction.Decode.Arms.{decode-select}
use doldisasm.Ppc.Instruction.Encode.{
  encode, Encodes, flag, addend_code, spr_code, tbr_code, bo_code, SprEncodes,
}
use doldisasm.Ppc.Instruction.Encode.Forms.{
  d_form-DFields, x_form-XFields, flag-lt, flag_test, signed-unsigned_16, unsigned_16-lt,
}
use doldisasm.Ppc.Instruction.Encode.Branches.{
  BFields, IFields, b_form-BFields, i_form-IFields, bo_field, bo_code-lt,
}
use doldisasm.Ppc.Instruction.Encode.DWords.{
  addis-decodes, addi-decodes, ori-decodes, cmpli-decodes, cmpi-decodes, stwu-decodes,
  subfic-decodes, andi-decodes, stw-decodes, stmw-decodes, lwz-decodes, lwzu-decodes, oris-decodes,
  lmw-decodes, lhz-decodes, lbz-decodes, addic_rc-decodes,
}
use doldisasm.Ppc.Instruction.Encode.XWords.{
  rlwnm-decodes, rlwinm-decodes, cmpl-decodes, cmp-decodes, bclr-decodes, stwux-decodes,
  subf-decodes, subfe-decodes, mfspr-decodes, mtspr-decodes, mfmsr-decodes, mtmsr-decodes,
  or-decodes, and-decodes, isync-decodes, hwsync-decodes, mtfsb1-decodes, mftb-decodes, neg-decodes,
  crxor-decodes, add-decodes,
}

branch-decodes :
    (w : Word) (offset : ℕ) {t : _} {m : AddressingMode} {lk : Bool}
    → IFields w t m lk
    → decode_from_word w offset ≡ ok (Instruction.branch t m lk)
unfolding select parse_branch
branch-decodes w offset f =
    decode-select w offset f.op_field refl ∙ rw (f.target_field, f.mode_bit, f.link_bit)

bc-decodes :
    (w : Word) (offset : ℕ) {bo : _} {bi : ℕ} {t : _} {m : AddressingMode} {lk : Bool}
    → BFields w bo bi t m lk
    → decode_from_word w offset ≡ ok (Instruction.bc bo bi t m lk)
unfolding select parse_bc
bc-decodes w offset f =
    decode-select w offset f.op_field refl
    ∙ rw (f.bo_read, f.bi_field, f.target_field, f.mode_bit, f.link_bit)

pub addend_code-lt : (r : Option Gpr) → AddendRange r → addend_code r < 32
addend_code-lt none h = omega arith
addend_code-lt (some r) h = h.1

nonzero-code : (r : Option Gpr) → AddendRange r → nonzero (addend_code r) ≡ r
nonzero-code none h = refl
nonzero-code (some r) h = ground arith

crf_of : (crf : Crf) (l : ℕ) → l < 2 → (crf * 4 + l) / 4 ≡ crf
crf_of crf l h = omega arith

crf_alone : (crf : Crf) → crf * 4 / 4 ≡ crf
crf_alone crf = omega arith

l_of : (crf : Crf) (l : Bool) → ((crf * 4 + flag l) % 2 == 1) ≡ l
l_of crf l = ap (λ t. t == 1) (omega (arith, flag-lt l)) ∙ flag_test l

halves : (n : ℕ) → n / 32 * 32 + n % 32 ≡ n
halves n = omega arith

pub spr_code-lt : (s : MacroSpr) → SprEncodes s → spr_code s < 1024
spr_code-lt s h = ground arith

macro_spr-code : (s : MacroSpr) → SprEncodes s → macro_spr (spr_code s) ≡ s
unfolding macro_spr
macro_spr-code s h = ground arith

pub tbr_code-lt : (t : TimeBaseRegister) → tbr_code t < 1024
tbr_code-lt t = ground arith

-- An instruction is decoded from its word as itself, at every offset, if its registers, numbers
-- and immediates fit their fields, an optional addend is not register 0, a branch displacement is
-- a multiple of four that fits one bit less than its field (25 bits for b, 15 for bc), the oe flag
-- is clear, and a special register is not msr or pc, nor an unnamed one with the number of a named
-- one (1, 8 or 9).
pub decode-encode :
    (i : Instruction) (offset : ℕ) → Encodes i → decode_from_word (encode i) offset ≡ ok i
unfolding encode
decode-encode (Instruction.branch target mode link) offset h =
    let f = i_form-IFields target mode link h in branch-decodes _ offset f
decode-encode (Instruction.rlwnm source dest rot_bits mask_start mask_end rc) offset h =
    let f =
      x_form-XFields 23 source dest rot_bits (mask_start * 32 + mask_end) rc h.0 h.1 h.2
        (omega (arith, h.3, h.4)) in
    rlwnm-decodes _ offset h.3 h.4 f
decode-encode (Instruction.rlwinm source dest rot_bits mask_start mask_end rc) offset h =
    let f =
      x_form-XFields 21 source dest rot_bits (mask_start * 32 + mask_end) rc h.0 h.1 h.2
        (omega (arith, h.3, h.4)) in
    rlwinm-decodes _ offset h.3 h.4 f
decode-encode (Instruction.addis dest addend imm) offset h =
    let f =
      d_form-DFields 15 dest (addend_code addend) (unsigned 16 imm) h.0 (addend_code-lt addend h.1)
        (unsigned_16-lt imm) in
    addis-decodes _ offset f ∙ rw (signed-unsigned_16 imm h.2, nonzero-code addend h.1)
decode-encode (Instruction.addi dest source imm) offset h =
    let f = d_form-DFields 14 dest source (unsigned 16 imm) h.0 h.1 (unsigned_16-lt imm) in
    addi-decodes _ offset f ∙ rw (signed-unsigned_16 imm h.2)
decode-encode (Instruction.ori source dest imm) offset h =
    let f = d_form-DFields 24 source dest imm h.0 h.1 h.2 in ori-decodes _ offset f
decode-encode (Instruction.cmpli source imm crf l) offset h =
    let f =
      d_form-DFields 10 (crf * 4 + flag l) source imm (omega (arith, h.2, flag-lt l)) h.0 h.1 in
    cmpli-decodes _ offset f ∙ rw (crf_of crf (flag l) (flag-lt l), l_of crf l)
decode-encode (Instruction.cmpi source imm crf) offset h =
    let f = d_form-DFields 11 (crf * 4) source imm (omega (arith, h.2)) h.0 h.1 in
    cmpi-decodes _ offset f ∙ rw (crf_alone crf)
decode-encode (Instruction.cmpl source_a source_b crf l) offset h =
    let f =
      x_form-XFields 31 (crf * 4 + flag l) source_a source_b 32 false
        (omega (arith, h.2, flag-lt l)) h.0 h.1 (omega arith) in
    cmpl-decodes _ offset f ∙ rw (crf_of crf (flag l) (flag-lt l), l_of crf l)
decode-encode (Instruction.cmp source_a source_b crf l) offset h =
    let f =
      x_form-XFields 31 (crf * 4 + flag l) source_a source_b 0 false (omega (arith, h.2, flag-lt l))
        h.0 h.1 (omega arith) in
    cmp-decodes _ offset f ∙ rw (crf_of crf (flag l) (flag-lt l), l_of crf l)
decode-encode (Instruction.bc bo bi target mode link) offset h =
    let f = b_form-BFields bo bi target mode link h.0 h.1 in bc-decodes _ offset f
decode-encode (Instruction.bclr bo bi link) offset h =
    let f =
      x_form-XFields 19 (bo_code bo) bi 0 16 link (bo_code-lt bo) h (omega arith) (omega arith) in
    bclr-decodes _ offset (bo_field _ bo (omega (arith, bo_code-lt bo, h, flag-lt link))) f
decode-encode (Instruction.stwu source dest imm) offset h =
    let f = d_form-DFields 37 source dest (unsigned 16 imm) h.0 h.1 (unsigned_16-lt imm) in
    stwu-decodes _ offset f ∙ rw (signed-unsigned_16 imm h.2)
decode-encode (Instruction.stwux source dest index) offset h =
    let f = x_form-XFields 31 source dest index 183 false h.0 h.1 h.2 (omega arith) in
    stwux-decodes _ offset f
decode-encode (Instruction.subf dest source_b source_a oe rc) offset h =
    let f = x_form-XFields 31 dest source_b source_a 40 rc h.0 h.1 h.2 (omega arith) in
    subf-decodes _ offset f ∙ rw (h.3)
decode-encode (Instruction.subfic dest source simm) offset h =
    let f = d_form-DFields 8 dest source (unsigned 16 simm) h.0 h.1 (unsigned_16-lt simm) in
    subfic-decodes _ offset f ∙ rw (signed-unsigned_16 simm h.2)
decode-encode (Instruction.subfe dest source_a source_b oe rc) offset h =
    let f = x_form-XFields 31 dest source_a source_b 136 rc h.0 h.1 h.2 (omega arith) in
    subfe-decodes _ offset f ∙ rw (h.3)
decode-encode (Instruction.mfspr dest spr) offset h =
    let f =
      x_form-XFields 31 dest (spr_code spr % 32) (spr_code spr / 32) 339 false h.0 (omega arith)
        (omega (arith, spr_code-lt spr h.1)) (omega arith) in
    mfspr-decodes _ offset f ∙ rw (halves (spr_code spr), macro_spr-code spr h.1)
decode-encode (Instruction.mtspr source spr) offset h =
    let f =
      x_form-XFields 31 source (spr_code spr % 32) (spr_code spr / 32) 467 false h.0 (omega arith)
        (omega (arith, spr_code-lt spr h.1)) (omega arith) in
    mtspr-decodes _ offset f ∙ rw (halves (spr_code spr), macro_spr-code spr h.1)
decode-encode (Instruction.mfmsr dest) offset h =
    let f = x_form-XFields 31 dest 0 0 83 false h (omega arith) (omega arith) (omega arith) in
    mfmsr-decodes _ offset f
decode-encode (Instruction.mtmsr source) offset h =
    let f = x_form-XFields 31 source 0 0 146 false h (omega arith) (omega arith) (omega arith) in
    mtmsr-decodes _ offset f
decode-encode (Instruction.or source dest or_with rc) offset h =
    let f = x_form-XFields 31 source dest or_with 444 rc h.0 h.1 h.2 (omega arith) in
    or-decodes _ offset f
decode-encode (Instruction.and source1 source2 dest) offset h =
    let f = x_form-XFields 31 source1 dest source2 28 false h.0 h.2 h.1 (omega arith) in
    and-decodes _ offset f
decode-encode (Instruction.andi source dest simm) offset h =
    let f = d_form-DFields 28 source dest (unsigned 16 simm) h.0 h.1 (unsigned_16-lt simm) in
    andi-decodes _ offset f ∙ rw (signed-unsigned_16 simm h.2)
decode-encode (Instruction.stw source dest imm) offset h =
    let f = d_form-DFields 36 source dest (unsigned 16 imm) h.0 h.1 (unsigned_16-lt imm) in
    stw-decodes _ offset f ∙ rw (signed-unsigned_16 imm h.2)
decode-encode (Instruction.stmw source dest imm) offset h =
    let f = d_form-DFields 47 source dest (unsigned 16 imm) h.0 h.1 (unsigned_16-lt imm) in
    stmw-decodes _ offset f ∙ rw (signed-unsigned_16 imm h.2)
decode-encode (Instruction.lwz dest source imm) offset h =
    let f = d_form-DFields 32 dest source (unsigned 16 imm) h.0 h.1 (unsigned_16-lt imm) in
    lwz-decodes _ offset f ∙ rw (signed-unsigned_16 imm h.2)
decode-encode (Instruction.lwzu dest source imm) offset h =
    let f = d_form-DFields 33 dest source (unsigned 16 imm) h.0 h.1 (unsigned_16-lt imm) in
    lwzu-decodes _ offset f ∙ rw (signed-unsigned_16 imm h.2)
decode-encode Instruction.isync offset h =
    let f =
      x_form-XFields 19 0 0 0 150 false (omega arith) (omega arith) (omega arith) (omega arith) in
    isync-decodes _ offset f
decode-encode Instruction.hwsync offset h =
    let f =
      x_form-XFields 31 0 0 0 598 false (omega arith) (omega arith) (omega arith) (omega arith) in
    hwsync-decodes _ offset f
decode-encode (Instruction.oris source dest imm) offset h =
    let f = d_form-DFields 25 source dest imm h.0 h.1 h.2 in oris-decodes _ offset f
decode-encode (Instruction.mtfsb1 crf rc) offset h =
    let f = x_form-XFields 63 crf 0 0 38 rc h (omega arith) (omega arith) (omega arith) in
    mtfsb1-decodes _ offset f
decode-encode (Instruction.lmw source dest imm) offset h =
    let f = d_form-DFields 46 source dest (unsigned 16 imm) h.0 h.1 (unsigned_16-lt imm) in
    lmw-decodes _ offset f ∙ rw (signed-unsigned_16 imm h.2)
decode-encode (Instruction.mftb dest tbr) offset h =
    let f =
      x_form-XFields 31 dest (tbr_code tbr % 32) (tbr_code tbr / 32) 371 false h (omega arith)
        (omega (arith, tbr_code-lt tbr)) (omega arith) in
    mftb-decodes _ offset {tbr = tbr} (halves (tbr_code tbr)) f
decode-encode (Instruction.lhz dest source imm) offset h =
    let f = d_form-DFields 40 dest source (unsigned 16 imm) h.0 h.1 (unsigned_16-lt imm) in
    lhz-decodes _ offset f ∙ rw (signed-unsigned_16 imm h.2)
decode-encode (Instruction.lbz dest source imm) offset h =
    let f = d_form-DFields 34 dest source (unsigned 16 imm) h.0 h.1 (unsigned_16-lt imm) in
    lbz-decodes _ offset f ∙ rw (signed-unsigned_16 imm h.2)
decode-encode (Instruction.neg dest source rc oe) offset h =
    let f = x_form-XFields 31 dest source 0 104 rc h.0 h.1 (omega arith) (omega arith) in
    neg-decodes _ offset f ∙ rw (h.2)
decode-encode (Instruction.crxor crb_dest crb_a crb_b) offset h =
    let f = x_form-XFields 19 crb_dest crb_a crb_b 193 false h.0 h.1 h.2 (omega arith) in
    crxor-decodes _ offset f
decode-encode (Instruction.add dest source_a source_b oe rc) offset h =
    let f = x_form-XFields 31 dest source_a source_b 266 rc h.0 h.1 h.2 (omega arith) in
    add-decodes _ offset f ∙ rw (h.3)
decode-encode (Instruction.addic_rc dest source simm) offset h =
    let f = d_form-DFields 13 dest source (unsigned 16 simm) h.0 h.1 (unsigned_16-lt simm) in
    addic_rc-decodes _ offset f ∙ rw (signed-unsigned_16 simm h.2)
