-- ===== src/Tests/Builder.antt =====
-- The assignment of a register that leaves a block in another generation.
use doldisasm.Base.{
  Bool, true, false, not, ◌&&◌, ◌||◌, ◌==◌, if◌then◌else◌, none, some, List, [], ◌∷◌, ◌++◌, ◌≡◌,
  refl,
}
use doldisasm.Base.Checked.{returns}
use doldisasm.Ppc.Instruction.{Spr, Register}
use doldisasm.Decomp.Registers.{element, register_iter}
use doldisasm.Decomp.Registers.Lens.{same_register}
use doldisasm.Decomp.Generations.{LocalRegisterState, Registers}
use doldisasm.Decomp.Ssa.{default_registers, default_local}
use doldisasm.Decomp.Ast.{Expr, Stmt, VariableFlags, vis}
use doldisasm.Decomp.Variables.{Variables, get_vis, optional_id_by_reg}
use doldisasm.Decomp.Build.{append_phi_merge_assignments}
use doldisasm.Decomp.Build.Merge.{HandsOn, append_phi_merge_assignments-HandsOn}

-- One bit.
abbrev one_bit : VariableFlags
one_bit = record {
  Flags = Bool;
  empty_flags = false;
  visible_flag = true;
  rsp_flag = false;
  contains = λ f g. not g || f;
  insert = λ f g. f || g;
  remove = λ f g. f && not g;
}

-- The variables of LR at a function's start and after one write.
abbrev variables : Variables one_bit
variables = record {
  list = true ∷ true ∷ [];
  reg_to_var = λ r g.
      if same_register r (Register.spr Spr.lr)
      then (if g == 0 then some 0 else if g == 1 then some 1 else none)
      else none;
  mem_to_var = λ o. none;
}

abbrev written : LocalRegisterState
written = record { generation = 1; phi_origins = none; highest_generation = 1 }

abbrev before : Registers
before = default_registers default_local

abbrev after : Registers
after = record before { sprs = record before.sprs { lr = written } }

abbrev hand_on : List Stmt
hand_on = Stmt.assign (Expr.var 1) (Expr.var 0) ∷ []

appended : append_phi_merge_assignments one_bit variables before after [] ≡ returns hand_on
unfolding append_phi_merge_assignments register_iter optional_id_by_reg get_vis element vis
appended = refl

append_phi_merge_assignments-HandsOn_example :
    (added : List Stmt) × (hand_on ≡ [] ++ added)
    × HandsOn one_bit variables (register_iter before) (register_iter after) added
append_phi_merge_assignments-HandsOn_example =
    append_phi_merge_assignments-HandsOn one_bit variables before after [] hand_on appended
