-- ===== src/Ppc/Instruction/Encode.antt =====
-- The instruction formats of the PowerPC architecture, as an encoder: the word that an instruction
-- stands for, and which instructions a word can hold. It is the specification of the decoder in
-- ppc32/src/instruction.rs, and is written from the formats, not from the accessors.
pub mod Forms
pub mod Branches
pub mod DWords
pub mod XWords
pub mod RoundTrip
pub mod Bounds
use package.doldisasm.Base.{
  ℕ, ◌+◌, ◌-◌, ◌*◌, ◌/◌, ◌%◌, ◌^◌, ◌<◌, ◌≢◌, ◌≡◌, Bool, true, false, Option, none, some,
}
use package.doldisasm.Base.Signed.{ℤ, pos, negsuc, unsigned}
use package.doldisasm.Ppc.Word.{Word}
use package.doldisasm.Ppc.Instruction.{Gpr, AddressingMode, BranchOptions, MacroSpr, Spr}
use package.doldisasm.Ppc.Instruction.{TimeBaseRegister, Instruction}
use package.doldisasm.Ppc.Instruction.Decode.Shape.{AddendRange}

-- Opcode, two register fields and sixteen bits.
abbrev pub d_form : ℕ → ℕ → ℕ → ℕ → Word
d_form op a b imm = op * 2 ^ 26 + a * 2 ^ 21 + b * 2 ^ 16 + imm

-- Opcode, three register fields, an extended opcode of ten bits and the record bit.
abbrev pub x_form : ℕ → ℕ → ℕ → ℕ → ℕ → ℕ → Word
x_form op a b c xo rc = d_form op a b (c * 2 ^ 11 + xo * 2 + rc)

-- As the last, with two bit positions for the extended opcode.
abbrev pub m_form : ℕ → ℕ → ℕ → ℕ → ℕ → ℕ → ℕ → Word
m_form op a b c mb me rc = x_form op a b c (mb * 32 + me) rc

-- A displacement of fourteen bits in words, the AA and the LK bit.
abbrev pub b_form : ℕ → ℕ → ℕ → ℕ → ℕ → ℕ → Word
b_form op bo bi bd aa lk = d_form op bo bi (bd * 4 + aa * 2 + lk)

-- A displacement of twenty-four bits.
abbrev pub i_form : ℕ → ℕ → ℕ → ℕ → Word
i_form op li aa lk = op * 2 ^ 26 + li * 4 + aa * 2 + lk

abbrev pub flag : Bool → ℕ
flag true = 1
flag false = 0

abbrev pub mode_code : AddressingMode → ℕ
mode_code AddressingMode.absolute = 1
mode_code AddressingMode.relative = 0

-- One BO field for each kind of branch.
abbrev pub bo_code : BranchOptions → ℕ
bo_code BranchOptions.dec_ctr_branch_if_false = 0b00000
bo_code BranchOptions.branch_if_false = 0b00100
bo_code BranchOptions.dec_ctr_branch_if_true = 0b01000
bo_code BranchOptions.branch_if_true = 0b01100
bo_code BranchOptions.dec_ctr_branch_if_not_zero = 0b10000
bo_code BranchOptions.dec_ctr_branch_if_zero = 0b10010
bo_code BranchOptions.branch_always = 0b10100

-- MSR and PC have no number; they have instructions of their own.
abbrev pub spr_code : MacroSpr → ℕ
spr_code (Spr.xer _) = 1
spr_code Spr.lr = 8
spr_code Spr.ctr = 9
spr_code Spr.msr = 0
spr_code Spr.pc = 0
spr_code (Spr.other n) = n

abbrev pub SprEncodes : MacroSpr → Type 0
SprEncodes Spr.msr = ⊥
SprEncodes Spr.pc = ⊥
SprEncodes (Spr.other n) = (n < 1024) × (n ≢ 1) × (n ≢ 8) × (n ≢ 9)
SprEncodes _ = Unit

-- The numbers are those of the source.
abbrev pub tbr_code : TimeBaseRegister → ℕ
tbr_code TimeBaseRegister.tbu = 268
tbr_code TimeBaseRegister.tbl = 269

abbrev pub addend_code : Option Gpr → ℕ
addend_code none = 0
addend_code (some r) = r

-- A signed number of `w` bits.
abbrev pub Fits : ℕ → ℤ → Type 0
Fits w (pos n) = n < 2 ^ (w - 1)
Fits w (negsuc n) = n < 2 ^ (w - 1)

-- A multiple of four with `w` bits.
abbrev pub IsDisplacement : ℕ → ℤ → Type 0
IsDisplacement w (pos n) = (n < 2 ^ (w - 1)) × (n % 4 ≡ 0)
IsDisplacement w (negsuc n) = (n < 2 ^ (w - 1)) × (n % 4 ≡ 3)

-- A multiple of four, divided by four.
abbrev pub quarter : ℤ → ℤ
quarter (pos n) = pos (n / 4)
quarter (negsuc n) = negsuc (n / 4)

unfoldable pub encode : Instruction → Word
encode (Instruction.branch target mode link) =
    i_form 18 (unsigned 24 (quarter target)) (mode_code mode) (flag link)
encode (Instruction.rlwnm source dest rot_bits mask_start mask_end rc) =
    m_form 23 source dest rot_bits mask_start mask_end (flag rc)
encode (Instruction.rlwinm source dest rot_bits mask_start mask_end rc) =
    m_form 21 source dest rot_bits mask_start mask_end (flag rc)
encode (Instruction.addis dest addend imm) = d_form 15 dest (addend_code addend) (unsigned 16 imm)
encode (Instruction.addi dest source imm) = d_form 14 dest source (unsigned 16 imm)
encode (Instruction.ori source dest imm) = d_form 24 source dest imm
encode (Instruction.cmpli source imm crf l) = d_form 10 (crf * 4 + flag l) source imm
encode (Instruction.cmpi source imm crf) = d_form 11 (crf * 4) source imm
encode (Instruction.cmpl source_a source_b crf l) =
    x_form 31 (crf * 4 + flag l) source_a source_b 32 0
encode (Instruction.cmp source_a source_b crf l) =
    x_form 31 (crf * 4 + flag l) source_a source_b 0 0
encode (Instruction.bc bo bi target mode link) =
    b_form 16 (bo_code bo) bi (unsigned 14 (quarter target)) (mode_code mode) (flag link)
encode (Instruction.bclr bo bi link) = x_form 19 (bo_code bo) bi 0 16 (flag link)
encode (Instruction.stwu source dest imm) = d_form 37 source dest (unsigned 16 imm)
encode (Instruction.stwux source dest index) = x_form 31 source dest index 183 0
encode (Instruction.subf dest source_b source_a oe rc) =
    x_form 31 dest source_b source_a 40 (flag rc)
encode (Instruction.subfic dest source simm) = d_form 8 dest source (unsigned 16 simm)
encode (Instruction.subfe dest source_a source_b oe rc) =
    x_form 31 dest source_a source_b 136 (flag rc)
encode (Instruction.mfspr dest spr) = x_form 31 dest (spr_code spr % 32) (spr_code spr / 32) 339 0
encode (Instruction.mtspr source spr) =
    x_form 31 source (spr_code spr % 32) (spr_code spr / 32) 467 0
encode (Instruction.mfmsr dest) = x_form 31 dest 0 0 83 0
encode (Instruction.mtmsr source) = x_form 31 source 0 0 146 0
encode (Instruction.or source dest or_with rc) = x_form 31 source dest or_with 444 (flag rc)
encode (Instruction.and source1 source2 dest) = x_form 31 source1 dest source2 28 0
encode (Instruction.andi source dest simm) = d_form 28 source dest (unsigned 16 simm)
encode (Instruction.stw source dest imm) = d_form 36 source dest (unsigned 16 imm)
encode (Instruction.stmw source dest imm) = d_form 47 source dest (unsigned 16 imm)
encode (Instruction.lwz dest source imm) = d_form 32 dest source (unsigned 16 imm)
encode (Instruction.lwzu dest source imm) = d_form 33 dest source (unsigned 16 imm)
encode Instruction.isync = x_form 19 0 0 0 150 0
encode Instruction.hwsync = x_form 31 0 0 0 598 0
encode (Instruction.oris source dest imm) = d_form 25 source dest imm
encode (Instruction.mtfsb1 crf rc) = x_form 63 crf 0 0 38 (flag rc)
encode (Instruction.lmw source dest imm) = d_form 46 source dest (unsigned 16 imm)
encode (Instruction.mftb dest tbr) = x_form 31 dest (tbr_code tbr % 32) (tbr_code tbr / 32) 371 0
encode (Instruction.lhz dest source imm) = d_form 40 dest source (unsigned 16 imm)
encode (Instruction.lbz dest source imm) = d_form 34 dest source (unsigned 16 imm)
encode (Instruction.neg dest source rc oe) = x_form 31 dest source 0 104 (flag rc)
encode (Instruction.crxor crb_dest crb_a crb_b) = x_form 19 crb_dest crb_a crb_b 193 0
encode (Instruction.add dest source_a source_b oe rc) =
    x_form 31 dest source_a source_b 266 (flag rc)
encode (Instruction.addic_rc dest source simm) = d_form 13 dest source (unsigned 16 simm)

-- The operands fit their fields, and more: a displacement is a multiple of four with one bit less
-- than its field, since `i32` loses the field's top bit; the `oe` flag is clear, since no word
-- with that bit is decoded; and a special register and an addend are such that their numbers stand
-- for nothing else.
abbrev pub Encodes : Instruction → Type 0
Encodes (Instruction.branch target mode link) = IsDisplacement 25 target
Encodes (Instruction.rlwnm source dest rot_bits mask_start mask_end rc) =
    (source < 32) × (dest < 32) × (rot_bits < 32) × (mask_start < 32) × (mask_end < 32)
Encodes (Instruction.rlwinm source dest rot_bits mask_start mask_end rc) =
    (source < 32) × (dest < 32) × (rot_bits < 32) × (mask_start < 32) × (mask_end < 32)
Encodes (Instruction.addis dest addend imm) = (dest < 32) × AddendRange addend × Fits 16 imm
Encodes (Instruction.addi dest source imm) = (dest < 32) × (source < 32) × Fits 16 imm
Encodes (Instruction.ori source dest imm) = (source < 32) × (dest < 32) × (imm < 2 ^ 16)
Encodes (Instruction.cmpli source imm crf l) = (source < 32) × (imm < 2 ^ 16) × (crf < 8)
Encodes (Instruction.cmpi source imm crf) = (source < 32) × (imm < 2 ^ 16) × (crf < 8)
Encodes (Instruction.cmpl source_a source_b crf l) = (source_a < 32) × (source_b < 32) × (crf < 8)
Encodes (Instruction.cmp source_a source_b crf l) = (source_a < 32) × (source_b < 32) × (crf < 8)
Encodes (Instruction.bc bo bi target mode link) = (bi < 32) × IsDisplacement 15 target
Encodes (Instruction.bclr bo bi link) = bi < 32
Encodes (Instruction.stwu source dest imm) = (source < 32) × (dest < 32) × Fits 16 imm
Encodes (Instruction.stwux source dest index) = (source < 32) × (dest < 32) × (index < 32)
Encodes (Instruction.subf dest source_b source_a oe rc) =
    (dest < 32) × (source_b < 32) × (source_a < 32) × (oe ≡ false)
Encodes (Instruction.subfic dest source simm) = (dest < 32) × (source < 32) × Fits 16 simm
Encodes (Instruction.subfe dest source_a source_b oe rc) =
    (dest < 32) × (source_a < 32) × (source_b < 32) × (oe ≡ false)
Encodes (Instruction.mfspr dest spr) = (dest < 32) × SprEncodes spr
Encodes (Instruction.mtspr source spr) = (source < 32) × SprEncodes spr
Encodes (Instruction.mfmsr dest) = dest < 32
Encodes (Instruction.mtmsr source) = source < 32
Encodes (Instruction.or source dest or_with rc) = (source < 32) × (dest < 32) × (or_with < 32)
Encodes (Instruction.and source1 source2 dest) = (source1 < 32) × (source2 < 32) × (dest < 32)
Encodes (Instruction.andi source dest simm) = (source < 32) × (dest < 32) × Fits 16 simm
Encodes (Instruction.stw source dest imm) = (source < 32) × (dest < 32) × Fits 16 imm
Encodes (Instruction.stmw source dest imm) = (source < 32) × (dest < 32) × Fits 16 imm
Encodes (Instruction.lwz dest source imm) = (dest < 32) × (source < 32) × Fits 16 imm
Encodes (Instruction.lwzu dest source imm) = (dest < 32) × (source < 32) × Fits 16 imm
Encodes Instruction.isync = Unit
Encodes Instruction.hwsync = Unit
Encodes (Instruction.oris source dest imm) = (source < 32) × (dest < 32) × (imm < 2 ^ 16)
Encodes (Instruction.mtfsb1 crf rc) = crf < 32
Encodes (Instruction.lmw source dest imm) = (source < 32) × (dest < 32) × Fits 16 imm
Encodes (Instruction.mftb dest tbr) = dest < 32
Encodes (Instruction.lhz dest source imm) = (dest < 32) × (source < 32) × Fits 16 imm
Encodes (Instruction.lbz dest source imm) = (dest < 32) × (source < 32) × Fits 16 imm
Encodes (Instruction.neg dest source rc oe) = (dest < 32) × (source < 32) × (oe ≡ false)
Encodes (Instruction.crxor crb_dest crb_a crb_b) = (crb_dest < 32) × (crb_a < 32) × (crb_b < 32)
Encodes (Instruction.add dest source_a source_b oe rc) =
    (dest < 32) × (source_a < 32) × (source_b < 32) × (oe ≡ false)
Encodes (Instruction.addic_rc dest source simm) = (dest < 32) × (source < 32) × Fits 16 simm
