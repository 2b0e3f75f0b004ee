-- ===== src/Ppc/Instruction/Fields/Target.antt =====
-- ppc32/src/instruction.rs, `compute_branch_target`: when it panics, and what it returns.
use doldisasm.Base.{ℕ, ◌+◌, ◌^◌, ◌<◌, ◌≡◌, ◌↔◌, arith}
use doldisasm.Base.Signed.{ℤ, pos, negsuc, pos_part, neg_part}
use doldisasm.Ppc.Instruction.{AddressingMode, ok}
use doldisasm.Ppc.Instruction.Fields.{compute_branch_target}

-- From a 32-bit base, a relative target is computed exactly when base plus displacement, taken over
-- the integers, is a 32-bit address, and it is that address; it never wraps around.
pub compute_branch_target_iff :
    (base r : ℕ) (t : ℤ)
    → base < 2 ^ 32
    → (compute_branch_target base AddressingMode.relative t ≡ ok r)
      ↔ ((base + pos_part t ≡ r + neg_part t) × (r < 2 ^ 32))
unfolding compute_branch_target
compute_branch_target_iff base r (pos n) h = ground arith
compute_branch_target_iff base r (negsuc n) h = ground arith
