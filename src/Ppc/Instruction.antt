-- ===== src/Ppc/Instruction.antt =====
-- ppc32/src/instruction.rs: registers, operands and the `Instruction` enum that the macro
-- `define_instructions!` declares. A newtype over an unsigned integer (`Gpr`, `Crf`,
-- `Immediate<u8>`, `Immediate<u16>`) is its number, `Immediate<i16>` and `i16` are the integer.
-- `Result` is what a decoding function gives back: its `Ok`, its `Err`, or a panic.
pub mod Fields
pub mod Parse
pub mod Decode
pub mod Visit
pub mod Encode
use package.doldisasm.Base.{ℕ, Bool, Option}
use package.doldisasm.Base.Signed.{ℤ}
use package.doldisasm.Ppc.Word.{Word}

abbrev pub Gpr : Type 0
Gpr = ℕ

abbrev pub Crf : Type 0
Crf = ℕ

pub data XerRegister : Type 0 where
  so ov ca : XerRegister

-- `MicroSpr` names a part of XER, `MacroSpr` the whole register.
pub data Spr (X : Type 0) : Type 0 where
  xer : X → Spr X
  lr ctr msr pc : Spr X
  other : ℕ → Spr X

abbrev pub MicroSpr : Type 0
MicroSpr = Spr XerRegister

abbrev pub MacroSpr : Type 0
MacroSpr = Spr (Unit {0})

pub data Crb : Type 0 where
  negative positive zero_bit overflow : Crb

pub data Register : Type 0 where
  gpr : Gpr → Register
  cr : Crf → Crb → Register
  spr : MicroSpr → Register

pub data AddressingMode : Type 0 where
  absolute relative : AddressingMode

pub data BranchOptions : Type 0 where
  dec_ctr_branch_if_false branch_if_false dec_ctr_branch_if_true branch_if_true : BranchOptions
  dec_ctr_branch_if_not_zero dec_ctr_branch_if_zero branch_always : BranchOptions

pub data TimeBaseRegister : Type 0 where
  tbu tbl : TimeBaseRegister

-- The constructors in the order of the macro's table.
pub data Instruction : Type 0 where
  branch : (target : ℤ) (mode : AddressingMode) (link : Bool) → Instruction
  rlwnm : (source dest rot_bits : Gpr) (mask_start mask_end : ℕ) (rc : Bool) → Instruction
  rlwinm : (source dest : Gpr) (rot_bits mask_start mask_end : ℕ) (rc : Bool) → Instruction
  addis : (dest : Gpr) (addend : Option Gpr) (imm : ℤ) → Instruction
  addi : (dest source : Gpr) (imm : ℤ) → Instruction
  ori : (source dest : Gpr) (imm : ℕ) → Instruction
  cmpli : (source : Gpr) (imm : ℕ) (crf : Crf) (l : Bool) → Instruction
  cmpi : (source : Gpr) (imm : ℕ) (crf : Crf) → Instruction
  cmpl : (source_a source_b : Gpr) (crf : Crf) (l : Bool) → Instruction
  cmp : (source_a source_b : Gpr) (crf : Crf) (l : Bool) → Instruction
  bc :
      (bo : BranchOptions) (bi : ℕ) (target : ℤ) (mode : AddressingMode) (link : Bool) → Instruction
  bclr : (bo : BranchOptions) (bi : ℕ) (link : Bool) → Instruction
  stwu : (source dest : Gpr) (imm : ℤ) → Instruction
  stwux : (source dest index : Gpr) → Instruction
  subf : (dest source_b source_a : Gpr) (oe rc : Bool) → Instruction
  subfic : (dest source : Gpr) (simm : ℤ) → Instruction
  subfe : (dest source_a source_b : Gpr) (oe rc : Bool) → Instruction
  mfspr : (dest : Gpr) (from : MacroSpr) → Instruction
  mtspr : (source : Gpr) (to : MacroSpr) → Instruction
  mfmsr : (dest : Gpr) → Instruction
  mtmsr : (source : Gpr) → Instruction
  or : (source dest or_with : Gpr) (rc : Bool) → Instruction
  and : (source1 source2 dest : Gpr) → Instruction
  andi : (source dest : Gpr) (simm : ℤ) → Instruction
  stw : (source dest : Gpr) (imm : ℤ) → Instruction
  stmw : (source dest : Gpr) (imm : ℤ) → Instruction
  lwz : (dest source : Gpr) (imm : ℤ) → Instruction
  lwzu : (dest source : Gpr) (imm : ℤ) → Instruction
  isync hwsync : Instruction
  oris : (source dest : Gpr) (imm : ℕ) → Instruction
  mtfsb1 : (crf : Crf) (rc : Bool) → Instruction
  lmw : (source dest : Gpr) (imm : ℤ) → Instruction
  mftb : (dest : Gpr) (tbr : TimeBaseRegister) → Instruction
  lhz : (dest source : Gpr) (imm : ℤ) → Instruction
  lbz : (dest source : Gpr) (imm : ℤ) → Instruction
  neg : (dest source : Gpr) (rc oe : Bool) → Instruction
  crxor : (crb_dest crb_a crb_b : ℕ) → Instruction
  add : (dest source_a source_b : Gpr) (oe rc : Bool) → Instruction
  addic_rc : (dest source : Gpr) (simm : ℤ) → Instruction

-- ppc32/src/decoder.rs, `DecodeError`.
pub data DecodeError : Type 0 where
  unhandled_opcode : (word : Word) (offset : ℕ) → DecodeError
  unexpected_eof : (offset : ℕ) → DecodeError

-- A panic is an assertion, an `unwrap` or an arithmetic check that fails.
pub data Result {ℓ} (A : Type ℓ) : Type ℓ where
  ok : A → Result A
  err : DecodeError → Result A
  panic : Result A

infixl 5 ◌>>=◌
abbrev pub ◌>>=◌ {ℓ κ} : {A : Type ℓ} {B : Type κ} → Result A → (A → Result B) → Result B
ok a >>= f = f a
err e >>= f = err e
panic >>= f = panic
