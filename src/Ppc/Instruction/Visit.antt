-- ===== src/Ppc/Instruction/Visit.antt =====
-- ppc32/src/instruction.rs: `Instruction::visit_registers`, as the calls that it makes on its
-- `RegisterVisitor`, in order; `for_each_read_gpr`, the visitor that keeps the `read_gpr` calls; and
-- `Instruction::branch_target`.
pub mod Order
use package.doldisasm.Base.{ℕ, Bool, if◌then◌else◌, Option, none, some, List, [], ◌∷◌, ◌++◌, map}
use package.doldisasm.Ppc.Instruction.{
  Gpr, Crf, Crb, XerRegister, Spr, MicroSpr, MacroSpr, BranchOptions,
}
use package.doldisasm.Ppc.Instruction.{Instruction, Result, ok, ◌>>=◌}
use package.doldisasm.Ppc.Instruction.Fields.{crb_from_index, compute_branch_target}

-- The methods of `RegisterVisitor`.
pub data Event : Type 0 where
  read_gpr write_gpr : Gpr → Event
  read_spr write_spr : MicroSpr → Event
  read_crf write_crf : Crf → Event
  read_crb write_crb : Crf → Crb → Event
  effect : Event

-- `if rc { visitor.write_crf(Crf(0)); }`, and the like.
abbrev pub when : Bool → List Event → List Event
when b es = if b then es else []

abbrev pub carry : MicroSpr
carry = Spr.xer XerRegister.ca

-- The parts that an access to a special register touches.
unfoldable pub micro_sprs : MacroSpr → List MicroSpr
micro_sprs (Spr.xer _) =
    Spr.xer XerRegister.so ∷ Spr.xer XerRegister.ca ∷ Spr.xer XerRegister.ov ∷ []
micro_sprs Spr.lr = Spr.lr ∷ []
micro_sprs Spr.ctr = Spr.ctr ∷ []
micro_sprs Spr.msr = Spr.msr ∷ []
micro_sprs Spr.pc = Spr.pc ∷ []
micro_sprs (Spr.other n) = Spr.other n ∷ []

-- The condition that a conditional branch reads, unless its options say that it always branches.
unfoldable pub read_condition : BranchOptions → ℕ → Result (List Event)
unfolding crb_from_index
read_condition BranchOptions.branch_always bi = ok (effect ∷ [])
read_condition _ bi = do (crf, crb) ← crb_from_index bi; ok (read_crb crf crb ∷ effect ∷ [])

-- One source register and one destination.
abbrev pub unary : Gpr → Gpr → List Event
unary source dest = read_gpr source ∷ effect ∷ write_gpr dest ∷ []

abbrev pub xer_overflow : List Event
xer_overflow = write_spr (Spr.xer XerRegister.so) ∷ write_spr (Spr.xer XerRegister.ov) ∷ []

unfoldable pub visit_registers : Instruction → Result (List Event)
unfolding micro_sprs read_condition
visit_registers (Instruction.branch target mode link) = ok (effect ∷ when link (write_gpr 3 ∷ []))
visit_registers (Instruction.rlwnm source dest rot_bits mask_start mask_end rc) =
    ok (read_gpr source ∷ read_gpr rot_bits ∷ effect ∷ write_gpr dest ∷ when rc (write_crf 0 ∷ []))
visit_registers (Instruction.rlwinm source dest rot_bits mask_start mask_end rc) =
    ok (read_gpr source ∷ effect ∷ write_gpr dest ∷ when rc (write_crf 0 ∷ []))
visit_registers (Instruction.addis dest none imm) = ok (effect ∷ write_gpr dest ∷ [])
visit_registers (Instruction.addis dest (some gpr) imm) = ok (unary gpr dest)
visit_registers (Instruction.addi dest source imm) = ok (unary source dest)
visit_registers (Instruction.addic_rc dest source simm) =
    ok (unary source dest ++ (write_spr carry ∷ write_crf 0 ∷ []))
visit_registers (Instruction.ori source dest imm) = ok (unary source dest)
visit_registers (Instruction.cmpli source imm crf l) =
    ok (read_gpr source ∷ effect ∷ write_crf crf ∷ [])
visit_registers (Instruction.cmpi source imm crf) =
    ok (read_gpr source ∷ effect ∷ write_crf crf ∷ [])
visit_registers (Instruction.cmpl source_a source_b crf l) =
    ok (read_gpr source_a ∷ read_gpr source_b ∷ effect ∷ write_crf crf ∷ [])
visit_registers (Instruction.cmp source_a source_b crf l) =
    ok (read_gpr source_a ∷ read_gpr source_b ∷ effect ∷ write_crf crf ∷ [])
visit_registers (Instruction.bc bo bi target mode link) = read_condition bo bi
visit_registers (Instruction.bclr bo bi link) = read_condition bo bi
visit_registers (Instruction.stwu source dest imm) =
    ok (read_gpr source ∷ read_gpr dest ∷ effect ∷ write_gpr dest ∷ [])
visit_registers (Instruction.stwux source dest index) =
    ok (read_gpr source ∷ read_gpr dest ∷ read_gpr index ∷ effect ∷ [])
visit_registers (Instruction.subf dest source_b source_a oe rc) =
    ok
      (read_gpr source_a ∷ read_gpr source_b ∷ effect ∷ write_gpr dest ∷ when rc (write_crf 0 ∷ []))
visit_registers (Instruction.subfic dest source simm) =
    ok (unary source dest ++ (write_spr carry ∷ []))
visit_registers (Instruction.subfe dest source_a source_b oe rc) = ok (
    read_gpr source_a
    ∷ read_gpr source_b
    ∷ read_spr carry
    ∷ effect
    ∷ write_gpr dest
    ∷ (when rc (write_crf 0 ∷ []) ++ write_spr carry ∷ when oe xer_overflow))
visit_registers (Instruction.mfspr dest from) =
    ok (map read_spr (micro_sprs from) ++ effect ∷ write_gpr dest ∷ [])
visit_registers (Instruction.mtspr source to) =
    ok (read_gpr source ∷ effect ∷ map write_spr (micro_sprs to))
visit_registers (Instruction.mfmsr dest) = ok (read_spr Spr.msr ∷ effect ∷ write_gpr dest ∷ [])
visit_registers (Instruction.mtmsr source) = ok (read_gpr source ∷ effect ∷ write_spr Spr.msr ∷ [])
visit_registers (Instruction.or source dest or_with rc) =
    ok (read_gpr source ∷ read_gpr or_with ∷ effect ∷ write_gpr dest ∷ when rc (write_crf 0 ∷ []))
visit_registers (Instruction.and source1 source2 dest) =
    ok (read_gpr source1 ∷ read_gpr source2 ∷ effect ∷ write_gpr dest ∷ [])
visit_registers (Instruction.andi source dest simm) = ok (unary source dest)
visit_registers (Instruction.stw source dest imm) =
    ok (read_gpr source ∷ read_gpr dest ∷ effect ∷ [])
visit_registers (Instruction.stmw source dest imm) =
    ok (read_gpr source ∷ read_gpr dest ∷ effect ∷ [])
visit_registers (Instruction.lwz dest source imm) = ok (unary source dest)
visit_registers (Instruction.lwzu dest source imm) = ok (unary source dest)
visit_registers Instruction.isync = ok (effect ∷ [])
visit_registers Instruction.hwsync = ok (effect ∷ [])
visit_registers (Instruction.oris source dest imm) = ok (unary source dest)
visit_registers (Instruction.mtfsb1 field rc) =
    ok (effect ∷ write_crf field ∷ when rc (write_crf 1 ∷ []))
visit_registers (Instruction.lmw source dest imm) = ok (unary source dest)
visit_registers (Instruction.mftb dest tbr) = ok (effect ∷ write_gpr dest ∷ [])
visit_registers (Instruction.lhz dest source imm) = ok (unary source dest)
visit_registers (Instruction.lbz dest source imm) = ok (unary source dest)
visit_registers (Instruction.neg dest source rc oe) =
    ok (unary source dest ++ (when oe xer_overflow ++ when rc (write_crf 0 ∷ [])))
visit_registers (Instruction.crxor crb_dest crb_a crb_b) = do
  (crf_dest, bit_dest) ← crb_from_index crb_dest
  (crf_a, bit_a) ← crb_from_index crb_a
  (crf_b, bit_b) ← crb_from_index crb_b
  ok (read_crb crf_a bit_a ∷ read_crb crf_b bit_b ∷ effect ∷ write_crb crf_dest bit_dest ∷ [])
visit_registers (Instruction.add dest source_a source_b oe rc) =
    ok
      (read_gpr source_a ∷ read_gpr source_b ∷ effect ∷ write_gpr dest ∷ when rc (write_crf 0 ∷ []))

unfoldable pub gprs_read : List Event → List Gpr
gprs_read [] = []
gprs_read (read_gpr r ∷ es) = r ∷ gprs_read es
gprs_read (_ ∷ es) = gprs_read es

-- The registers that `for_each_read_gpr` hands to its callback.
unfoldable pub for_each_read_gpr : Instruction → Result (List Gpr)
unfolding gprs_read visit_registers
for_each_read_gpr i = do es ← visit_registers i; ok (gprs_read es)

unfoldable pub branch_target : Instruction → ℕ → Option (Result ℕ)
unfolding compute_branch_target
branch_target (Instruction.branch target mode link) addr =
    some (compute_branch_target addr mode target)
branch_target (Instruction.bc bo bi target mode link) addr =
    some (compute_branch_target addr mode target)
branch_target _ addr = none
