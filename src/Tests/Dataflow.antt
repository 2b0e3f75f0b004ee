-- ===== src/Tests/Dataflow.antt =====
-- The effect of `add. r3, r4, r5` on the state at a function's start.
use doldisasm.Base.{ℕ, zero, suc, true, false, none, List, [], ◌∷◌, ◌≡◌, refl, All}
use doldisasm.Base.Checked.{returns}
use doldisasm.Ppc.Instruction.{Instruction, ok, Spr, Register}
use doldisasm.Ppc.Instruction.Visit.{Event, visit_registers}
use doldisasm.Decomp.Registers.{
  CrFieldState, RegisterState, element, change, by_spr, by_register, change_register, register_iter,
}
use doldisasm.Decomp.Registers.Lens.{by_register-change_register}
use doldisasm.Decomp.Registers.Join.{join_registers, by_register-join_registers}
use doldisasm.Decomp.Registers.Iter.{Shows, register_iter-Shows}
use doldisasm.Decomp.Generations.{
  LocalRegisterState, join, Registers, next_generation, visit, visit_all, apply_effect,
}
use doldisasm.Decomp.Generations.Fresh.{count_writes, renewed, apply_effect-renewed}

abbrev repeat : {A : Type 0} → ℕ → A → List A
repeat zero x = []
repeat (suc n) x = x ∷ repeat n x

abbrev unwritten : LocalRegisterState
unwritten = record { generation = 0; phi_origins = none; highest_generation = 0 }

abbrev written : LocalRegisterState
written = record { generation = 1; phi_origins = none; highest_generation = 1 }

abbrev field : LocalRegisterState → CrFieldState LocalRegisterState
field s = record { lt = s; gt = s; eq = s; so = s }

-- The state in which the first condition field and a list of general registers are as given.
abbrev state : LocalRegisterState → List LocalRegisterState → Registers
state first gprs = record {
  gprs = gprs;
  sprs = record {
    lr = unwritten;
    ctr = unwritten;
    xer = record { so = unwritten; ov = unwritten; ca = unwritten };
    msr = unwritten;
    cr = field first ∷ repeat 7 (field unwritten);
  };
}

abbrev before : Registers
before = state unwritten (repeat 32 unwritten)

abbrev after : Registers
after = state written (unwritten ∷ unwritten ∷ unwritten ∷ written ∷ repeat 28 unwritten)

abbrev sum : Instruction
sum = Instruction.add 3 4 5 false true

sum_effect : apply_effect before sum ≡ returns after
unfolding apply_effect visit_all visit visit_registers change_register change next_generation
sum_effect = refl

r3_before : by_register before (Register.gpr 3) ≡ returns unwritten
unfolding by_register element
r3_before = refl

r3_after : by_register after (Register.gpr 3) ≡ returns written
unfolding by_register element
r3_after = refl

apply_effect-renewed_example :
    (es : List Event) × (visit_registers sum ≡ ok es)
    × (written ≡ renewed (count_writes (Register.gpr 3) es) unwritten)
apply_effect-renewed_example =
    apply_effect-renewed sum before after (Register.gpr 3) unwritten written sum_effect r3_before
      r3_after

abbrev r3_changed : Registers
r3_changed = state unwritten (unwritten ∷ unwritten ∷ unwritten ∷ written ∷ repeat 28 unwritten)

r3_change : change_register before (Register.gpr 3) next_generation ≡ returns r3_changed
unfolding change_register change next_generation
r3_change = refl

by_register-change_register_example :
    by_register r3_changed (Register.gpr 4) ≡ by_register before (Register.gpr 4)
by_register-change_register_example =
    by_register-change_register before r3_changed (Register.gpr 3) (Register.gpr 4) next_generation
      r3_change

register_iter-Shows_example : All (Shows after) (register_iter after)
register_iter-Shows_example = register_iter-Shows after

-- The join of the analysis, which reads the recording state.
abbrev joined : LocalRegisterState → LocalRegisterState → ℕ → LocalRegisterState × ℕ
joined x y u = (join x y u, u)

-- The recording state, with 7 for LR and 5 for CTR.
abbrev recorded : RegisterState ℕ
recorded = record {
  gprs = repeat 32 0;
  sprs = record {
    lr = 7;
    ctr = 5;
    xer = record { so = 0; ov = 0; ca = 0 };
    msr = 0;
    cr = repeat 8 (record { lt = 0; gt = 0; eq = 0; so = 0 });
  };
}

ctr_unwritten : by_register before (Register.spr Spr.ctr) ≡ returns unwritten
unfolding by_register by_spr
ctr_unwritten = refl

ctr_after : by_register after (Register.spr Spr.ctr) ≡ returns unwritten
unfolding by_register by_spr
ctr_after = refl

lr_recorded : by_register recorded (Register.spr Spr.lr) ≡ returns 7
unfolding by_register by_spr
lr_recorded = refl

by_register-join_registers_example :
    by_register (join_registers joined before after recorded).0 (Register.spr Spr.ctr)
    ≡ returns (join unwritten unwritten 7)
by_register-join_registers_example =
    by_register-join_registers joined before after recorded (Register.spr Spr.ctr) unwritten
      unwritten 7 (λ x y u. refl) ctr_unwritten ctr_after lr_recorded
