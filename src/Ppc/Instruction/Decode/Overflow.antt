-- ===== src/Ppc/Instruction/Decode/Overflow.antt =====
-- The overflow-enable bit of the arithmetic instructions, which lies inside the ten bits that
-- `Decoder::decode_from_word` compares with the extended opcode.
use doldisasm.Base.{ℕ, ◌/◌, ◌%◌, ◌<◌, ◌≡◌, true, false, ◌&&◌, ◌==◌, ◌&◌, arith}
use doldisasm.Ppc.Word.{Word, opcode, xform_opcode, bit_set}
use doldisasm.Ppc.Word.Slice.{u32-slice, bit_set-slice}
use doldisasm.Ppc.Instruction.{Instruction, ok}
use doldisasm.Ppc.Instruction.Fields.{bo_from_word, tbr_from_word}
use doldisasm.Ppc.Instruction.Parse.{
  parse_branch, parse_rlwnm, parse_rlwinm, parse_addis, parse_addi, parse_ori, parse_cmpli,
  parse_cmpi, parse_cmpl, parse_cmp, parse_bc, parse_bclr, parse_stwu, parse_stwux, parse_subf,
  parse_subfic, parse_subfe, parse_mfspr, parse_mtspr, parse_mfmsr, parse_mtmsr, parse_or,
  parse_and, parse_andi, parse_stw, parse_stmw, parse_lwz, parse_lwzu, parse_isync, parse_hwsync,
  parse_oris, parse_mtfsb1, parse_lmw, parse_mftb, parse_lhz, parse_lbz, parse_neg, parse_crxor,
  parse_add, parse_addic_rc,
}
use doldisasm.Ppc.Instruction.Decode.{arms, decode_from_word}
use doldisasm.Ppc.Instruction.Decode.Arms.{select-All, OnOk, OnOk->>=, OnOk-eq}

abbrev pub OeClear : Instruction → Type 0
OeClear (Instruction.subf _ _ _ oe _) = oe ≡ false
OeClear (Instruction.subfe _ _ _ oe _) = oe ≡ false
OeClear (Instruction.neg _ _ _ oe) = oe ≡ false
OeClear (Instruction.add _ _ _ oe _) = oe ≡ false
OeClear _ = Unit

pub xform_opcode-slice : (w : Word) → xform_opcode w ≡ w / 2 % 1024
unfolding xform_opcode
xform_opcode-slice w = u32-slice 21 30 w (omega arith) (omega arith)

-- An extended opcode below 512 says that bit 21, its highest, is clear.
oe_clear :
    (k : ℕ) (w : Word)
    → k < 512
    → (opcode w == 31 && xform_opcode w == k) ≡ true
    → bit_set 21 w ≡ false
oe_clear k w h taken = rw (bit_set-slice 21 w (omega arith)) (ground (arith, xform_opcode-slice w))

decode-OnOk : (w : Word) (offset : ℕ) → OnOk OeClear (decode_from_word w offset)
unfolding decode_from_word parse_branch parse_rlwnm parse_rlwinm parse_addis parse_addi parse_ori
    parse_cmpli parse_cmpi parse_cmpl parse_cmp parse_bc parse_bclr parse_stwu parse_stwux
    parse_subf parse_subfic parse_subfe parse_mfspr parse_mtspr parse_mfmsr parse_mtmsr parse_or
    parse_and parse_andi parse_stw parse_stmw parse_lwz parse_lwzu parse_isync parse_hwsync
    parse_oris parse_mtfsb1 parse_lmw parse_mftb parse_lhz parse_lbz parse_neg parse_crxor parse_add
    parse_addic_rc
decode-OnOk w offset =
    select-All (OnOk OeClear) arms (opcode w) (xform_opcode w) w offset
      ((λ _. tt)
        & (λ _. tt)
        & (λ _. tt)
        & (λ _. tt)
        & (λ _. tt)
        & (λ _. tt)
        & (λ _. tt)
        & (λ _. tt)
        & (λ _. tt)
        & (λ _. tt)
        & (λ _. OnOk->>= OeClear (bo_from_word w) _ (λ _. tt))
        & (λ _. OnOk->>= OeClear (bo_from_word w) _ (λ _. tt))
        & (λ _. tt)
        & (λ _. tt)
        & (oe_clear 40 w (omega arith))
        & (λ _. tt)
        & (oe_clear 136 w (omega arith))
        & (λ _. tt)
        & (λ _. tt)
        & (λ _. tt)
        & (λ _. tt)
        & (λ _. tt)
        & (λ _. tt)
        & (λ _. tt)
        & (λ _. tt)
        & (λ _. tt)
        & (λ _. tt)
        & (λ _. tt)
        & (λ _. tt)
        & (λ _. tt)
        & (λ _. tt)
        & (λ _. tt)
        & (λ _. tt)
        & (λ _. OnOk->>= OeClear (tbr_from_word w) _ (λ _. tt))
        & (λ _. tt)
        & (λ _. tt)
        & (oe_clear 104 w (omega arith))
        & (λ _. tt)
        & (oe_clear 266 w (omega arith))
        & (λ _. tt)
        & tt)
      tt

-- No decoded instruction has its `oe` flag set: `subf`, `subfe`, `neg` and `add` with that bit set
-- are not decoded at all.
pub decode-OeClear :
    (w : Word) (offset : ℕ) (i : Instruction) → decode_from_word w offset ≡ ok i → OeClear i
decode-OeClear w offset i e = OnOk-eq OeClear _ (decode-OnOk w offset) e
