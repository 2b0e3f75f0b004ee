-- ===== src/Decomp/Variables/Infer.antt =====
-- `infer_variables` names only variables that are in its list.
use doldisasm.Base.{Bool, not, ◌==◌, Bool-cases, Option, none, some, [], ◌∷◌, inl, inr}
use doldisasm.Base.Signed.{ℤ}
use doldisasm.Base.Checked.{Checked, ◌>>=◌, ◌>>◌, assert}
use doldisasm.Ppc.Instruction.{Instruction, Gpr, XerRegister, Spr, Register}
use doldisasm.Decomp.Generations.{Registers, apply_effect}
use doldisasm.Decomp.Ssa.{DefUseMap}
use doldisasm.Decomp.Ast.{VarId, VariableVisibility, bitand, VariableFlags}
use doldisasm.Decomp.Variables.{
  Variables, mk_reg_var, mk_root_gpr_var, id_by_reg, id_by_gpr, mk_stack_mem_var,
  optional_id_by_stack_mem, id_by_stack_mem,
}
use doldisasm.Decomp.Variables.Collect.{
  stack_pointer, table, vis_of, mk_cr_variables, mk_xer_variables, only_if, with_state, derive,
  stack_var, addi_source, load_new, visit_straight,
}
use doldisasm.Decomp.Variables.Kept.{
  Holds, after, kept_then, IsKeyed, KeyedFst, mk_root_stack_mem_var-Keyed, mk_reg_var-Keyed,
  mk_gpr_var-Keyed, mk_root_gpr_var-Keyed, mk_stack_mem_var-Keyed, table-Keyed, with_state-Keyed,
  only_if-Keyed, mk_field_variables-Keyed, mk_cr_variables-Keyed, mk_xer_variables-Keyed,
}

module _ (fl : VariableFlags) (uses : DefUseMap) where
  derive-Keyed :
      (t : Variables fl) (origin : VarId) (dest : Gpr) (inst : Instruction) (state : Registers)
      → IsKeyed fl t
      → Holds (KeyedFst fl) (derive fl t origin dest inst state)
  unfolding derive
  derive-Keyed t origin dest inst state h =
      after _ (apply_effect state inst) _
        (λ s. with_state-Keyed fl s _ (table-Keyed fl _ (mk_gpr_var-Keyed fl t dest s origin h)))

  derived :
      (t : Variables fl) (origin : VarId) (dest : Gpr) (inst : Instruction) (state : Registers)
      (f : Variables fl × Registers → Checked (Variables fl × Registers))
      → IsKeyed fl t
      → ((w : Variables fl × Registers) → IsKeyed fl w.0 → Holds (KeyedFst fl) (f w))
      → Holds (KeyedFst fl) (derive fl t origin dest inst state >>= f)
  derived t origin dest inst state f h k =
      kept_then (KeyedFst fl) (derive fl t origin dest inst state) f k
        (derive-Keyed t origin dest inst state h)

  cr_only_if-Keyed :
      (rc : Bool) (s : Registers) (t : Variables fl)
      → IsKeyed fl t
      → Holds (IsKeyed fl) (only_if fl rc (mk_cr_variables fl uses s) t)
  cr_only_if-Keyed rc s t h =
      only_if-Keyed fl rc (mk_cr_variables fl uses s) t h (mk_cr_variables-Keyed fl uses s t h)

  overflow-Keyed :
      (oe : Bool) (s : Registers) (t : Variables fl)
      → IsKeyed fl t
      → Holds (KeyedFst fl) (
          with_state fl s
            (only_if fl oe (mk_xer_variables fl uses s (XerRegister.ov ∷ XerRegister.so ∷ [])) t))
  overflow-Keyed oe s t h = with_state-Keyed fl s _ (
      only_if-Keyed fl oe (mk_xer_variables fl uses s (XerRegister.ov ∷ XerRegister.so ∷ [])) t h
        (mk_xer_variables-Keyed fl uses s (XerRegister.ov ∷ XerRegister.so ∷ []) t h))

  pub load_new-Keyed :
      (t : Variables fl) (dest : Gpr) (inst : Instruction) (state : Registers)
      → IsKeyed fl t
      → Holds (KeyedFst fl) (load_new fl t dest inst state)
  load_new-Keyed t dest inst state h = after _ (apply_effect state inst) _ (λ s.
      with_state-Keyed fl s _
        (table-Keyed fl _ (mk_root_gpr_var-Keyed fl t dest s VariableVisibility.visible h)))

  stack_var-Keyed :
      (t : Variables fl) (imm : ℤ) (o : Option VarId)
      → IsKeyed fl t
      → Holds (KeyedFst fl) (stack_var fl t imm o)
  stack_var-Keyed t imm (some var) h = h
  stack_var-Keyed t imm none h = mk_root_stack_mem_var-Keyed fl t imm VariableVisibility.visible h

  addi_source-Keyed :
      (t : Variables fl) (source : Gpr) (imm : ℤ) (state : Registers)
      → IsKeyed fl t
      → Holds (KeyedFst fl) (addi_source fl t source imm state)
  addi_source-Keyed t source imm state h = elim (Bool-cases (source == stack_pointer)) [
    | inl stack ↦ rw stack (stack_var-Keyed t imm (optional_id_by_stack_mem fl t imm) h)
    | inr other ↦ rw other (after _ (id_by_gpr fl t source state) _ (λ var. h))
  ]

  pub visit_straight-Keyed :
      (inst : Instruction) (t : Variables fl) (state : Registers)
      → IsKeyed fl t
      → Holds (KeyedFst fl) (visit_straight fl uses inst t state)
  unfolding visit_straight
  visit_straight-Keyed (Instruction.stwu source dest imm) t state h =
      after _ (id_by_gpr fl t source state) _ (λ origin. derive-Keyed t origin dest _ state h)
  visit_straight-Keyed (Instruction.cmp source_a source_b crf l) t state h =
      after _ (assert (not l) >> vis_of fl t source_a state) _ (λ a.
        after _ (vis_of fl t source_b state) _ (λ b.
          after _ (apply_effect state _) _
            (λ s. with_state-Keyed fl s _ (mk_field_variables-Keyed fl uses s crf _ t h))))
  visit_straight-Keyed (Instruction.cmpi source imm crf) t state h =
      after _ (vis_of fl t source state) _ (λ a.
        after _ (apply_effect state _) _
          (λ s. with_state-Keyed fl s _ (mk_field_variables-Keyed fl uses s crf (bitand a) t h)))
  visit_straight-Keyed (Instruction.or source dest or_with rc) t state h =
      after _ (id_by_gpr fl t source state) _ (λ origin.
        derived t origin dest (Instruction.or source dest or_with rc) state _ h
          (λ w k. with_state-Keyed fl w.1 _ (cr_only_if-Keyed rc w.1 w.0 k)))
  visit_straight-Keyed (Instruction.mfspr dest Spr.lr) t state h =
      after _ (id_by_reg fl t _ _) _ (λ origin. derive-Keyed t origin dest _ state h)
  visit_straight-Keyed (Instruction.andi source dest simm) t state h =
      after _ (id_by_gpr fl t source state) _ (λ origin.
        derived t origin dest (Instruction.andi source dest simm) state _ h
          (λ w k. with_state-Keyed fl w.1 _ (mk_cr_variables-Keyed fl uses w.1 w.0 k)))
  visit_straight-Keyed (Instruction.addic_rc dest source simm) t state h =
      after _ (id_by_gpr fl t source state) _ (λ origin.
        derived t origin dest (Instruction.addic_rc dest source simm) state _ h (λ w k.
          with_state-Keyed fl w.1 _ (
            kept_then (IsKeyed fl) (mk_cr_variables fl uses w.1 w.0) _
              (mk_xer_variables-Keyed fl uses w.1 (XerRegister.ca ∷ []))
              (mk_cr_variables-Keyed fl uses w.1 w.0 k))))
  visit_straight-Keyed (Instruction.addi dest source imm) t state h =
      elim (Bool-cases (source == 0)) [
        | inl zero_source ↦
            rw zero_source (load_new-Keyed t dest (Instruction.addi dest source imm) state h)
        | inr other ↦ rw other (
            kept_then (KeyedFst fl) (addi_source fl t source imm state) _
              (λ w k. derive-Keyed w.0 w.1 dest (Instruction.addi dest source imm) state k)
              (addi_source-Keyed t source imm state h))
      ]
  visit_straight-Keyed (Instruction.subfic dest source simm) t state h =
      after _ (id_by_gpr fl t source state) _ (λ origin.
        derived t origin dest (Instruction.subfic dest source simm) state _ h (λ w k.
          with_state-Keyed fl w.1 _ (table-Keyed fl _ (mk_reg_var-Keyed fl w.0 _ _ origin k))))
  visit_straight-Keyed (Instruction.subf dest source_b source_a oe rc) t state h =
      after _ (vis_of fl t source_a state) _ (λ a. after _ (vis_of fl t source_b state) _ (λ b.
        after _ (apply_effect state (Instruction.subf dest source_b source_a oe rc)) _ (λ s.
          kept_then (KeyedFst fl)
            (table fl (mk_root_gpr_var fl t dest s (bitand a b))
              >>= only_if fl rc (mk_cr_variables fl uses s))
            _ (λ t1 k. overflow-Keyed oe s t1 k)
            (kept_then (IsKeyed fl) (table fl (mk_root_gpr_var fl t dest s (bitand a b))) _
              (λ t1 k. cr_only_if-Keyed rc s t1 k)
              (table-Keyed fl _ (mk_root_gpr_var-Keyed fl t dest s (bitand a b) h))))))
  visit_straight-Keyed (Instruction.subfe dest source_a source_b oe rc) t state h =
      after _ (vis_of fl t source_a state) _ (λ a. after _ (vis_of fl t source_b state) _ (λ b.
        after _ (apply_effect state (Instruction.subfe dest source_a source_b oe rc)) _ (λ s.
          kept_then (KeyedFst fl) (mk_root_gpr_var fl t dest s (bitand a b)) _
            (λ w k.
              kept_then (KeyedFst fl) (only_if fl rc (mk_cr_variables fl uses s) w.0) _
                (λ t1 k1.
                  kept_then (KeyedFst fl)
                    (table fl (
                      mk_reg_var fl t1 (Register.spr (Spr.xer XerRegister.ca))
                        s.sprs.xer.ca.generation w.1))
                    _ (λ t2 k2. overflow-Keyed oe s t2 k2)
                    (table-Keyed fl _ (mk_reg_var-Keyed fl t1 _ _ w.1 k1)))
                (cr_only_if-Keyed rc s w.0 k))
            (mk_root_gpr_var-Keyed fl t dest s (bitand a b) h))))
  visit_straight-Keyed (Instruction.stw source dest imm) t state h =
      after _ (id_by_gpr fl t source state) _ (λ origin.
        after _ (apply_effect state (Instruction.stw source dest imm)) _ (λ s.
          with_state-Keyed fl s _ (
            only_if-Keyed fl (dest == stack_pointer)
              (λ t. table fl (mk_stack_mem_var fl t imm origin)) t h
              (table-Keyed fl _ (mk_stack_mem_var-Keyed fl t imm origin h)))))
  visit_straight-Keyed (Instruction.lwz dest source imm) t state h =
      elim (Bool-cases (source == stack_pointer)) [
        | inl stack ↦ rw stack (
            after _ (id_by_stack_mem fl t imm) _
              (λ var. derive-Keyed t var dest (Instruction.lwz dest source imm) state h))
        | inr other ↦ rw other (load_new-Keyed t dest (Instruction.lwz dest source imm) state h)
      ]
  visit_straight-Keyed (Instruction.mtspr source Spr.lr) t state h =
      after _ (id_by_gpr fl t source state) _ (λ origin.
        after _ (apply_effect state (Instruction.mtspr source Spr.lr)) _
          (λ s. with_state-Keyed fl s _ (table-Keyed fl _ (mk_reg_var-Keyed fl t _ _ origin h))))
  visit_straight-Keyed inst t state h = tt
