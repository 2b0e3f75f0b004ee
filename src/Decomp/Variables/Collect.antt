-- ===== src/Decomp/Variables/Collect.antt =====
-- decomp/src/dataflow/variables.rs: the visitor that enters a variable for every register that an
-- instruction writes, for the instructions that it goes on behind.
use doldisasm.Base.{
  Bool, true, false, not, ◌||◌, ◌==◌, if◌then◌else◌, Option, none, some, List, [], ◌∷◌,
}
use doldisasm.Base.Signed.{ℤ}
use doldisasm.Base.Checked.{Checked, returns, panics, ◌>>=◌, ◌>>◌, assert}
use doldisasm.Ppc.Instruction.{Instruction, Gpr, Crf, Crb, XerRegister, Spr, Register}
use doldisasm.Decomp.Registers.{cr}
use doldisasm.Decomp.Generations.{Generation, Registers, apply_effect}
use doldisasm.Decomp.Ssa.{DefUseMap}
use doldisasm.Decomp.Ast.{VarId, VariableVisibility, bitand, VariableFlags}
use doldisasm.Decomp.Variables.{
  Variables, get_vis, mk_root_reg_var, mk_reg_var, mk_gpr_var, mk_root_gpr_var, id_by_reg,
  id_by_gpr, mk_root_stack_mem_var, mk_stack_mem_var, optional_id_by_stack_mem, id_by_stack_mem,
  cr_bits_variables, xer_variables,
}

abbrev pub is_xer : XerRegister → XerRegister → Bool
is_xer XerRegister.so XerRegister.so = true
is_xer XerRegister.ov XerRegister.ov = true
is_xer XerRegister.ca XerRegister.ca = true
is_xer _ _ = false

abbrev pub includes : List XerRegister → XerRegister → Bool
includes [] x = false
includes (y ∷ ys) x = is_xer y x || includes ys x

-- A `bl` writes the return register; an address of the stack is relative to the stack pointer.
abbrev pub stack_pointer : Gpr
stack_pointer = 1

abbrev pub return_register : Gpr
return_register = 3

module _ (fl : VariableFlags) where
  -- The table, with the key that was made left out.
  abbrev pub table : Checked (Variables fl × VarId) → Checked (Variables fl)
  table m = m >>= λ w. returns w.0

  abbrev pub vis_of : Variables fl → Gpr → Registers → Checked VariableVisibility
  vis_of t gpr state = id_by_gpr fl t gpr state >>= get_vis fl t

  -- The variables of a condition field, each visible if it is used and `v` allows it.
  unfoldable pub mk_bits :
      Registers
      → Crf
      → (VariableVisibility → VariableVisibility)
      → List (Crb × VariableVisibility)
      → Variables fl
      → Checked (Variables fl)
  mk_bits state crf v [] t = returns t
  mk_bits state crf v ((crb, used) ∷ bits) t = cr state.sprs crf crb >>= λ s.
      table (mk_root_reg_var fl t (Register.cr crf crb) s.generation (v used))
      >>= mk_bits state crf v bits

  unfoldable pub mk_field_variables :
      DefUseMap
      → Registers
      → Crf
      → (VariableVisibility → VariableVisibility)
      → Variables fl
      → Checked (Variables fl)
  mk_field_variables uses state crf v t =
      cr_bits_variables state uses crf >>= λ bits. mk_bits state crf v bits t

  unfoldable pub mk_cr_variables : DefUseMap → Registers → Variables fl → Checked (Variables fl)
  unfolding mk_field_variables
  mk_cr_variables uses state t = mk_field_variables uses state 0 (λ v. v) t

  unfoldable pub mk_xer :
      List XerRegister
      → List (XerRegister × (Generation × VariableVisibility))
      → Variables fl
      → Checked (Variables fl)
  mk_xer vars [] t = returns t
  mk_xer vars ((xer, (generation, v)) ∷ xs) t =
      (if includes vars xer
        then table (mk_root_reg_var fl t (Register.spr (Spr.xer xer)) generation v)
        else returns t)
      >>= mk_xer vars xs

  unfoldable pub mk_xer_variables :
      DefUseMap → Registers → List XerRegister → Variables fl → Checked (Variables fl)
  unfolding mk_xer
  mk_xer_variables uses state vars t = mk_xer vars (xer_variables state uses) t

  abbrev pub only_if :
      Bool → (Variables fl → Checked (Variables fl)) → Variables fl → Checked (Variables fl)
  only_if true f t = f t
  only_if false f t = returns t

  abbrev pub with_state : Registers → Checked (Variables fl) → Checked (Variables fl × Registers)
  with_state state m = m >>= λ t. returns (t, state)

  -- The destination's variable has the visibility of a source's.
  unfoldable pub derive :
      Variables fl → VarId → Gpr → Instruction → Registers → Checked (Variables fl × Registers)
  derive t origin dest inst state =
      apply_effect state inst >>= λ s. with_state s (table (mk_gpr_var fl t dest s origin))

  -- The variable whose address or sum an `addi` is.
  abbrev pub stack_var : Variables fl → ℤ → Option VarId → Checked (Variables fl × VarId)
  stack_var t imm (some var) = returns (t, var)
  stack_var t imm none = mk_root_stack_mem_var fl t imm VariableVisibility.visible

  abbrev pub addi_source : Variables fl → Gpr → ℤ → Registers → Checked (Variables fl × VarId)
  addi_source t source imm state =
      if source == stack_pointer
      then stack_var t imm (optional_id_by_stack_mem fl t imm)
      else id_by_gpr fl t source state >>= λ var. returns (t, var)

  abbrev pub load_new :
      Variables fl → Gpr → Instruction → Registers → Checked (Variables fl × Registers)
  load_new t dest inst state = apply_effect state inst >>= λ s.
      with_state s (table (mk_root_gpr_var fl t dest s VariableVisibility.visible))

  -- The arms of `visit_instruction` that go on.
  unfoldable pub visit_straight :
      DefUseMap → Instruction → Variables fl → Registers → Checked (Variables fl × Registers)
  visit_straight uses (Instruction.stwu source dest imm) t state =
      id_by_gpr fl t source state >>= λ origin.
      derive t origin dest (Instruction.stwu source dest imm) state
  visit_straight uses (Instruction.cmp source_a source_b crf l) t state =
      assert (not l) >> vis_of t source_a state >>= λ a. vis_of t source_b state >>= λ b.
      apply_effect state (Instruction.cmp source_a source_b crf l) >>= λ s.
      with_state s (mk_field_variables uses s crf (λ v. bitand (bitand a b) v) t)
  visit_straight uses (Instruction.cmpi source imm crf) t state = vis_of t source state >>= λ a.
      apply_effect state (Instruction.cmpi source imm crf) >>= λ s.
      with_state s (mk_field_variables uses s crf (bitand a) t)
  visit_straight uses (Instruction.or source dest or_with rc) t state =
      id_by_gpr fl t source state >>= λ origin.
      derive t origin dest (Instruction.or source dest or_with rc) state >>= λ w.
      with_state w.1 (only_if rc (mk_cr_variables uses w.1) w.0)
  visit_straight uses (Instruction.mfspr dest Spr.lr) t state =
      id_by_reg fl t (Register.spr Spr.lr) state.sprs.lr.generation >>= λ origin.
      derive t origin dest (Instruction.mfspr dest Spr.lr) state
  visit_straight uses (Instruction.addic_rc dest source simm) t state =
      id_by_gpr fl t source state >>= λ origin.
      derive t origin dest (Instruction.addic_rc dest source simm) state >>= λ w.
      with_state w.1
        (mk_cr_variables uses w.1 w.0 >>= mk_xer_variables uses w.1 (XerRegister.ca ∷ []))
  visit_straight uses (Instruction.addi dest source imm) t state =
      if source == 0
      then load_new t dest (Instruction.addi dest source imm) state
      else addi_source t source imm state >>= λ w.
          derive w.0 w.1 dest (Instruction.addi dest source imm) state
  visit_straight uses (Instruction.subfic dest source simm) t state =
      id_by_gpr fl t source state >>= λ origin.
      derive t origin dest (Instruction.subfic dest source simm) state >>= λ w. with_state w.1 (
        table (
          mk_reg_var fl w.0 (Register.spr (Spr.xer XerRegister.ca)) w.1.sprs.xer.ca.generation
            origin))
  visit_straight uses (Instruction.subfe dest source_a source_b oe rc) t state =
      vis_of t source_a state >>= λ a. vis_of t source_b state >>= λ b.
      apply_effect state (Instruction.subfe dest source_a source_b oe rc) >>= λ s.
      mk_root_gpr_var fl t dest s (bitand a b) >>= λ w.
      only_if rc (mk_cr_variables uses s) w.0 >>= λ t1.
      table (mk_reg_var fl t1 (Register.spr (Spr.xer XerRegister.ca)) s.sprs.xer.ca.generation w.1)
      >>= λ t2.
          with_state s
            (only_if oe (mk_xer_variables uses s (XerRegister.ov ∷ XerRegister.so ∷ [])) t2)
  visit_straight uses (Instruction.subf dest source_b source_a oe rc) t state =
      vis_of t source_a state >>= λ a. vis_of t source_b state >>= λ b.
      apply_effect state (Instruction.subf dest source_b source_a oe rc) >>= λ s.
      table (mk_root_gpr_var fl t dest s (bitand a b))
      >>= only_if rc (mk_cr_variables uses s)
      >>= λ t1.
          with_state s
            (only_if oe (mk_xer_variables uses s (XerRegister.ov ∷ XerRegister.so ∷ [])) t1)
  visit_straight uses (Instruction.andi source dest simm) t state =
      id_by_gpr fl t source state >>= λ origin.
      derive t origin dest (Instruction.andi source dest simm) state >>= λ w.
      with_state w.1 (mk_cr_variables uses w.1 w.0)
  visit_straight uses (Instruction.stw source dest imm) t state =
      id_by_gpr fl t source state >>= λ origin.
      apply_effect state (Instruction.stw source dest imm) >>= λ s.
      with_state s
        (only_if (dest == stack_pointer) (λ t. table (mk_stack_mem_var fl t imm origin)) t)
  visit_straight uses (Instruction.lwz dest source imm) t state =
      if source == stack_pointer
      then (id_by_stack_mem fl t imm >>= λ var.
          derive t var dest (Instruction.lwz dest source imm) state)
      else load_new t dest (Instruction.lwz dest source imm) state
  visit_straight uses (Instruction.mtspr source Spr.lr) t state =
      id_by_gpr fl t source state >>= λ origin.
      apply_effect state (Instruction.mtspr source Spr.lr) >>= λ s.
      with_state s (table (mk_reg_var fl t (Register.spr Spr.lr) s.sprs.lr.generation origin))
  visit_straight uses inst t state = panics
