-- ===== src/Ppc/Instruction/Decode/Shape.antt =====
-- What every instruction that comes out of the decoder looks like: the ranges of its operands.
use doldisasm.Base.{ℕ, ◌<◌, ◌≡◌, Option, none, some, ◌&◌, arith}
use doldisasm.Ppc.Word.{Word, u8, opcode, xform_opcode}
use doldisasm.Ppc.Word.Slice.{u8-lt}
use doldisasm.Ppc.Instruction.{Gpr, Instruction, ok}
use doldisasm.Ppc.Instruction.Fields.{bo_from_word, tbr_from_word}
use doldisasm.Ppc.Instruction.Parse.{
  nonzero, parse_branch, parse_rlwnm, parse_rlwinm, parse_addis, parse_addi, parse_ori, parse_cmpli,
  parse_cmpi, parse_cmpl, parse_cmp, parse_bc, parse_bclr, parse_stwu, parse_stwux, parse_subf,
  parse_subfic, parse_subfe, parse_mfspr, parse_mtspr, parse_mfmsr, parse_mtmsr, parse_or,
  parse_and, parse_andi, parse_stw, parse_stmw, parse_lwz, parse_lwzu, parse_isync, parse_hwsync,
  parse_oris, parse_mtfsb1, parse_lmw, parse_mftb, parse_lhz, parse_lbz, parse_neg, parse_crxor,
  parse_add, parse_addic_rc,
}
use doldisasm.Ppc.Instruction.Decode.{arms, decode_from_word}
use doldisasm.Ppc.Instruction.Decode.Arms.{select-All, OnOk, OnOk->>=, OnOk-eq}

-- An absent addend stands for register 0, a present one is another register.
abbrev pub AddendRange : Option Gpr → Type 0
AddendRange none = Unit
AddendRange (some r) = (0 < r) × (r < 32)

-- A general register is below 32, a condition field of a comparison below 8, a condition bit
-- below 32. The field of `mtfsb1` is a bit number of the floating-point status.
abbrev pub HasRanges : Instruction → Type 0
HasRanges (Instruction.branch _ _ _) = Unit
HasRanges (Instruction.rlwnm source dest rot_bits _ _ _) =
    (source < 32) × (dest < 32) × (rot_bits < 32)
HasRanges (Instruction.rlwinm source dest rot_bits _ _ _) =
    (source < 32) × (dest < 32) × (rot_bits < 32)
HasRanges (Instruction.addis dest addend _) = (dest < 32) × AddendRange addend
HasRanges (Instruction.addi dest source _) = (dest < 32) × (source < 32)
HasRanges (Instruction.ori source dest _) = (source < 32) × (dest < 32)
HasRanges (Instruction.cmpli source _ crf _) = (source < 32) × (crf < 8)
HasRanges (Instruction.cmpi source _ crf) = (source < 32) × (crf < 8)
HasRanges (Instruction.cmpl source_a source_b crf _) = (source_a < 32) × (source_b < 32) × (crf < 8)
HasRanges (Instruction.cmp source_a source_b crf _) = (source_a < 32) × (source_b < 32) × (crf < 8)
HasRanges (Instruction.bc _ bi _ _ _) = bi < 32
HasRanges (Instruction.bclr _ bi _) = bi < 32
HasRanges (Instruction.stwu source dest _) = (source < 32) × (dest < 32)
HasRanges (Instruction.stwux source dest index) = (source < 32) × (dest < 32) × (index < 32)
HasRanges (Instruction.subf dest source_b source_a _ _) =
    (dest < 32) × (source_b < 32) × (source_a < 32)
HasRanges (Instruction.subfic dest source _) = (dest < 32) × (source < 32)
HasRanges (Instruction.subfe dest source_a source_b _ _) =
    (dest < 32) × (source_a < 32) × (source_b < 32)
HasRanges (Instruction.mfspr dest _) = dest < 32
HasRanges (Instruction.mtspr source _) = source < 32
HasRanges (Instruction.mfmsr dest) = dest < 32
HasRanges (Instruction.mtmsr source) = source < 32
HasRanges (Instruction.or source dest or_with _) = (source < 32) × (dest < 32) × (or_with < 32)
HasRanges (Instruction.and source1 source2 dest) = (source1 < 32) × (source2 < 32) × (dest < 32)
HasRanges (Instruction.andi source dest _) = (source < 32) × (dest < 32)
HasRanges (Instruction.stw source dest _) = (source < 32) × (dest < 32)
HasRanges (Instruction.stmw source dest _) = (source < 32) × (dest < 32)
HasRanges (Instruction.lwz dest source _) = (dest < 32) × (source < 32)
HasRanges (Instruction.lwzu dest source _) = (dest < 32) × (source < 32)
HasRanges Instruction.isync = Unit
HasRanges Instruction.hwsync = Unit
HasRanges (Instruction.oris source dest _) = (source < 32) × (dest < 32)
HasRanges (Instruction.mtfsb1 crf _) = crf < 32
HasRanges (Instruction.lmw source dest _) = (source < 32) × (dest < 32)
HasRanges (Instruction.mftb dest _) = dest < 32
HasRanges (Instruction.lhz dest source _) = (dest < 32) × (source < 32)
HasRanges (Instruction.lbz dest source _) = (dest < 32) × (source < 32)
HasRanges (Instruction.neg dest source _ _) = (dest < 32) × (source < 32)
HasRanges (Instruction.crxor crb_dest crb_a crb_b) = (crb_dest < 32) × (crb_a < 32) × (crb_b < 32)
HasRanges (Instruction.add dest source_a source_b _ _) =
    (dest < 32) × (source_a < 32) × (source_b < 32)
HasRanges (Instruction.addic_rc dest source _) = (dest < 32) × (source < 32)

reg_a : (w : Word) → u8 6 10 w < 32
reg_a w = u8-lt 6 10 w (omega arith) (omega arith) (omega arith)

reg_b : (w : Word) → u8 11 15 w < 32
reg_b w = u8-lt 11 15 w (omega arith) (omega arith) (omega arith)

reg_c : (w : Word) → u8 16 20 w < 32
reg_c w = u8-lt 16 20 w (omega arith) (omega arith) (omega arith)

crf_field : (w : Word) → u8 6 8 w < 8
crf_field w = u8-lt 6 8 w (omega arith) (omega arith) (omega arith)

addend_range : (r : ℕ) → r < 32 → AddendRange (nonzero r)
addend_range r h = ground arith

decode-OnOk : (w : Word) (offset : ℕ) → OnOk HasRanges (decode_from_word w offset)
unfolding decode_from_word parse_branch parse_rlwnm parse_rlwinm parse_addis parse_addi parse_ori
    parse_cmpli parse_cmpi parse_cmpl parse_cmp parse_bc parse_bclr parse_stwu parse_stwux
    parse_subf parse_subfic parse_subfe parse_mfspr parse_mtspr parse_mfmsr parse_mtmsr parse_or
    parse_and parse_andi parse_stw parse_stmw parse_lwz parse_lwzu parse_isync parse_hwsync
    parse_oris parse_mtfsb1 parse_lmw parse_mftb parse_lhz parse_lbz parse_neg parse_crxor parse_add
    parse_addic_rc
decode-OnOk w offset =
    select-All (OnOk HasRanges) arms (opcode w) (xform_opcode w) w offset
      ((λ _. tt)
        & (λ _. (reg_a w, reg_b w, reg_c w))
        & (λ _. (reg_a w, reg_b w, reg_c w))
        & (λ _. (reg_a w, addend_range (u8 11 15 w) (reg_b w)))
        & (λ _. (reg_a w, reg_b w))
        & (λ _. (reg_a w, reg_b w))
        & (λ _. (reg_b w, crf_field w))
        & (λ _. (reg_b w, crf_field w))
        & (λ _. (reg_b w, reg_c w, crf_field w))
        & (λ _. (reg_b w, reg_c w, crf_field w))
        & (λ _. OnOk->>= HasRanges (bo_from_word w) _ (λ _. reg_b w))
        & (λ _. OnOk->>= HasRanges (bo_from_word w) _ (λ _. reg_b w))
        & (λ _. (reg_a w, reg_b w))
        & (λ _. (reg_a w, reg_b w, reg_c w))
        & (λ _. (reg_a w, reg_b w, reg_c w))
        & (λ _. (reg_a w, reg_b w))
        & (λ _. (reg_a w, reg_b w, reg_c w))
        & (λ _. reg_a w)
        & (λ _. reg_a w)
        & (λ _. reg_a w)
        & (λ _. reg_a w)
        & (λ _. (reg_a w, reg_b w, reg_c w))
        & (λ _. (reg_a w, reg_c w, reg_b w))
        & (λ _. (reg_a w, reg_b w))
        & (λ _. (reg_a w, reg_b w))
        & (λ _. (reg_a w, reg_b w))
        & (λ _. (reg_a w, reg_b w))
        & (λ _. (reg_a w, reg_b w))
        & (λ _. tt)
        & (λ _. tt)
        & (λ _. (reg_a w, reg_b w))
        & (λ _. reg_a w)
        & (λ _. (reg_a w, reg_b w))
        & (λ _. OnOk->>= HasRanges (tbr_from_word w) _ (λ _. reg_a w))
        & (λ _. (reg_a w, reg_b w))
        & (λ _. (reg_a w, reg_b w))
        & (λ _. (reg_a w, reg_b w))
        & (λ _. (reg_a w, reg_b w, reg_c w))
        & (λ _. (reg_a w, reg_b w, reg_c w))
        & (λ _. (reg_a w, reg_b w))
        & tt)
      tt

-- Of every decoded instruction the general register operands and the addend are below 32, the
-- condition field of a comparison is below 8 and condition bits are below 32; the bit number that
-- mtfsb1 keeps where a condition field belongs is only below 32.
pub decode-HasRanges :
    (w : Word) (offset : ℕ) (i : Instruction) → decode_from_word w offset ≡ ok i → HasRanges i
decode-HasRanges w offset i e = OnOk-eq HasRanges _ (decode-OnOk w offset) e
