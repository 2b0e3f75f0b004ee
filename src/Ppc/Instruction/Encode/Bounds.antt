-- ===== src/Ppc/Instruction/Encode/Bounds.antt =====
-- An encoded instruction is a 32-bit word.
use doldisasm.Base.{◌^◌, ◌<◌, arith}
use doldisasm.Ppc.Instruction.{Instruction}
use doldisasm.Ppc.Instruction.Encode.{encode, Encodes, quarter}
use doldisasm.Ppc.Instruction.Encode.Forms.{flag-lt, unsigned_16-lt}
use doldisasm.Ppc.Instruction.Encode.Branches.{
  mode_code-lt, bo_code-lt, unsigned_14-lt, unsigned_24-lt,
}
use doldisasm.Ppc.Instruction.Encode.RoundTrip.{addend_code-lt, spr_code-lt, tbr_code-lt}

pub encode-lt : (i : Instruction) → Encodes i → encode i < 2 ^ 32
unfolding encode
encode-lt (Instruction.branch target mode link) h =
    omega (arith, unsigned_24-lt (quarter target), mode_code-lt mode, flag-lt link)
encode-lt (Instruction.rlwnm source dest rot_bits mask_start mask_end rc) h =
    omega (arith, flag-lt rc)
encode-lt (Instruction.rlwinm source dest rot_bits mask_start mask_end rc) h =
    omega (arith, flag-lt rc)
encode-lt (Instruction.addis dest addend imm) h =
    omega (arith, addend_code-lt addend h.1, unsigned_16-lt imm)
encode-lt (Instruction.addi dest source imm) h = omega (arith, unsigned_16-lt imm)
encode-lt (Instruction.ori source dest imm) h = omega arith
encode-lt (Instruction.cmpli source imm crf l) h = omega (arith, flag-lt l)
encode-lt (Instruction.cmpi source imm crf) h = omega arith
encode-lt (Instruction.cmpl source_a source_b crf l) h = omega (arith, flag-lt l)
encode-lt (Instruction.cmp source_a source_b crf l) h = omega (arith, flag-lt l)
encode-lt (Instruction.bc bo bi target mode link) h =
    omega (arith, bo_code-lt bo, unsigned_14-lt (quarter target), mode_code-lt mode, flag-lt link)
encode-lt (Instruction.bclr bo bi link) h = omega (arith, bo_code-lt bo, flag-lt link)
encode-lt (Instruction.stwu source dest imm) h = omega (arith, unsigned_16-lt imm)
encode-lt (Instruction.stwux source dest index) h = omega arith
encode-lt (Instruction.subf dest source_b source_a oe rc) h = omega (arith, flag-lt rc)
encode-lt (Instruction.subfic dest source simm) h = omega (arith, unsigned_16-lt simm)
encode-lt (Instruction.subfe dest source_a source_b oe rc) h = omega (arith, flag-lt rc)
encode-lt (Instruction.mfspr dest spr) h = omega (arith, spr_code-lt spr h.1)
encode-lt (Instruction.mtspr source spr) h = omega (arith, spr_code-lt spr h.1)
encode-lt (Instruction.mfmsr dest) h = omega arith
encode-lt (Instruction.mtmsr source) h = omega arith
encode-lt (Instruction.or source dest or_with rc) h = omega (arith, flag-lt rc)
encode-lt (Instruction.and source1 source2 dest) h = omega arith
encode-lt (Instruction.andi source dest simm) h = omega (arith, unsigned_16-lt simm)
encode-lt (Instruction.stw source dest imm) h = omega (arith, unsigned_16-lt imm)
encode-lt (Instruction.stmw source dest imm) h = omega (arith, unsigned_16-lt imm)
encode-lt (Instruction.lwz dest source imm) h = omega (arith, unsigned_16-lt imm)
encode-lt (Instruction.lwzu dest source imm) h = omega (arith, unsigned_16-lt imm)
encode-lt Instruction.isync h = omega arith
encode-lt Instruction.hwsync h = omega arith
encode-lt (Instruction.oris source dest imm) h = omega arith
encode-lt (Instruction.mtfsb1 crf rc) h = omega (arith, flag-lt rc)
encode-lt (Instruction.lmw source dest imm) h = omega (arith, unsigned_16-lt imm)
encode-lt (Instruction.mftb dest tbr) h = omega (arith, tbr_code-lt tbr)
encode-lt (Instruction.lhz dest source imm) h = omega (arith, unsigned_16-lt imm)
encode-lt (Instruction.lbz dest source imm) h = omega (arith, unsigned_16-lt imm)
encode-lt (Instruction.neg dest source rc oe) h = omega (arith, flag-lt rc)
encode-lt (Instruction.crxor crb_dest crb_a crb_b) h = omega arith
encode-lt (Instruction.add dest source_a source_b oe rc) h = omega (arith, flag-lt rc)
encode-lt (Instruction.addic_rc dest source simm) h = omega (arith, unsigned_16-lt simm)
