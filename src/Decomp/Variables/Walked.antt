-- ===== src/Decomp/Variables/Walked.antt =====
-- `infer_variables` names only variables that are in its list.
use doldisasm.Base.{
  ℕ, Bool, true, false, not, Bool-cases, Option, none, some, List, [], ◌∷◌, ◌≡◌, subst, inl, inr,
}
use doldisasm.Base.Checked.{Checked, returns, panics, ◌>>=◌, ◌>>◌, assert, add_u32}
use doldisasm.Base.Fueled.{done, lift-eq-done, >>=-eq-done}
use doldisasm.Ppc.Instruction.{Instruction, BranchOptions, Gpr, Spr, Register}
use doldisasm.Ppc.Instruction.Fields.{compute_branch_target}
use doldisasm.Decomp.Cfg.{InstId, checked}
use doldisasm.Decomp.Generations.{initial, Registers, apply_effect}
use doldisasm.Decomp.Ssa.{DefUseMap, has_uses}
use doldisasm.Decomp.Ast.{VarId, VariableVisibility, bitor, VariableFlags}
use doldisasm.Decomp.Paths.{
  PhiLocal, VisitorStaticData, VisitorCx, VisitPath, Place, visit_path, visit_and_join_paths,
}
use doldisasm.Decomp.Paths.Preserves.{
  PathKeeps, Keeps, visit_path-keeps, visit_and_join_paths-keeps,
}
use doldisasm.Decomp.Variables.{Variables, no_variables, mk_root_reg_var, optional_id_by_reg}
use doldisasm.Decomp.Variables.Collect.{stack_pointer, return_register, table, visit_straight}
use doldisasm.Decomp.Variables.Visit.{
  optional_vis, mk_phi, mk_phis, target_inst, then_stop, merge_path, going_on, return_or_next,
  bc_paths, join_paths, visit_instruction, callee_saved, mk_hidden, mk_params, initial_variables,
  infer_variables,
}
use doldisasm.Decomp.Variables.Kept.{
  Holds, after, kept_then, IsKeyed, KeyedFst, mk_root_reg_var-Keyed, table-Keyed,
}
use doldisasm.Decomp.Variables.Infer.{load_new-Keyed, visit_straight-Keyed}

held : {A : Type 0} (P : A → Type 0) (m : Checked A) (a : A) → Holds P m → m ≡ returns a → P a
held P (returns b) a h e = let same : b ≡ a = cc in subst P same h
held P panics a h e = cc

module _ (fl : VariableFlags) (uses : DefUseMap) where
  mk_phi-Keyed :
      (t : Variables fl) (phi : PhiLocal) (v : VariableVisibility) (o : Option VarId)
      → IsKeyed fl t
      → Holds (IsKeyed fl) (mk_phi fl t phi v o)
  mk_phi-Keyed t phi v (some old) h = h
  mk_phi-Keyed t phi v none h =
      table-Keyed fl _ (mk_root_reg_var-Keyed fl t phi.register phi.next_gen v h)

  mk_phis-Keyed :
      (phis : List PhiLocal) (t : Variables fl)
      → IsKeyed fl t
      → Holds (IsKeyed fl) (mk_phis fl phis t)
  unfolding mk_phis
  mk_phis-Keyed [] t h = h
  mk_phis-Keyed (phi ∷ phis) t h =
      after _ (optional_vis fl t (optional_id_by_reg fl t phi.register phi.true_gen)) _ (λ a.
        after _ (optional_vis fl t (optional_id_by_reg fl t phi.register phi.false_gen)) _ (λ b.
          kept_then (IsKeyed fl)
            (mk_phi fl t phi (bitor a b) (optional_id_by_reg fl t phi.register phi.next_gen)) _
            (mk_phis-Keyed phis)
            (mk_phi-Keyed t phi (bitor a b) (optional_id_by_reg fl t phi.register phi.next_gen) h)))

  going_on-Keyed :
      (m : Checked (Variables fl × Registers)) (w : Variables fl × Registers × Bool)
      → Holds (KeyedFst fl) m
      → going_on fl m ≡ done w
      → IsKeyed fl w.0
  going_on-Keyed m w h e =
      let (a, found, last) = lift-eq-done m _ e in
      let same : ◌≡◌ {A = Variables fl × Registers × Bool} (a.0, a.1, true) w = cc in
      subst (λ w. IsKeyed fl w.0) same (held (KeyedFst fl) m a h found)

  module _ (path : VisitPath (Variables fl)) (kept : PathKeeps (IsKeyed fl) path) where
    then_stop-Keyed :
        (s state : Registers) (t : Variables fl) (cx : VisitorCx) (i : InstId) (end : Option InstId)
        (w : Variables fl × Registers × Bool)
        → IsKeyed fl t
        → then_stop fl s (path t cx (some state) i end) ≡ done w
        → IsKeyed fl w.0
    then_stop-Keyed s state t cx i end w h e =
        let (a, found, last) = >>=-eq-done (path t cx (some state) i end) _ e in
        let same : ◌≡◌ {A = Variables fl × Registers × Bool} (a.0, s, false) w = cc in
        subst (λ w. IsKeyed fl w.0) same (kept t cx (some state) i end a h found)

    merge_path-Keyed :
        (cx : VisitorCx) (s : Registers) (o end : Option InstId) (t : Variables fl)
        (w : Variables fl × Registers × Bool)
        → IsKeyed fl t
        → merge_path fl path cx s o end t ≡ done w
        → IsKeyed fl w.0
    merge_path-Keyed cx s none end t w h e =
        let same : ◌≡◌ {A = Variables fl × Registers × Bool} (t, s, false) w = cc in
        subst (λ w. IsKeyed fl w.0) same h
    merge_path-Keyed cx s (some merge) end t w h e = then_stop-Keyed s s t cx merge end w h e

    next-Keyed :
        (cx : VisitorCx) (s : Registers) (place : Place) (bo : BranchOptions) (t : Variables fl)
        (w : Variables fl × Registers × Bool)
        → IsKeyed fl t
        → return_or_next fl path cx s place bo t ≡ done w
        → IsKeyed fl w.0
    next-Keyed cx s place BranchOptions.branch_always t w h e =
        let same : ◌≡◌ {A = Variables fl × Registers × Bool} (t, s, false) w = cc in
        subst (λ w. IsKeyed fl w.0) same h
    next-Keyed cx s place bo t w h e =
        let (i, found, rest) = lift-eq-done (add_u32 place.absolute_idx 1) _ e in
        then_stop-Keyed s s t cx i place.end_idx w h rest

  module _ (cx_data : VisitorStaticData) (fuel : ℕ) where
    join_paths-Keyed :
        (path : VisitPath (Variables fl))
        → PathKeeps (IsKeyed fl) path
        → (cx : VisitorCx) (place : Place) (t : Variables fl) (starts : InstId × InstId × Registers)
          (w : Variables fl × Registers × Bool)
        → IsKeyed fl t
        → join_paths fl path cx_data fuel cx place t starts ≡ done w
        → IsKeyed fl w.0
    join_paths-Keyed path kept cx place t (i, j, s) w h e =
        let (joined, visited, more) =
          >>=-eq-done (visit_and_join_paths path cx_data fuel t cx s i j) _ e in
        let (t1, merged, last) = lift-eq-done (mk_phis fl joined.1.phi_locals joined.0) _ more in
        let h1 : IsKeyed fl joined.0 =
          visit_and_join_paths-keeps (IsKeyed fl) cx_data path kept fuel t cx s i j joined h
            visited in
        merge_path-Keyed path kept cx s joined.1.common_merge_inst place.end_idx t1 w
          (held (IsKeyed fl) (mk_phis fl joined.1.phi_locals joined.0) t1
            (mk_phis-Keyed joined.1.phi_locals joined.0 h1) merged)
          last

    visit_instruction-Keeps : Keeps (IsKeyed fl) (visit_instruction fl uses cx_data fuel)
    unfolding visit_instruction
    visit_instruction-Keeps path kept t cx (Instruction.branch target mode true) place state w h e =
        going_on-Keyed _ w
          (after _ (checked (compute_branch_target place.inst_addr mode target)) _ (λ addr.
            load_new-Keyed fl uses t return_register (Instruction.branch target mode true) state h))
          e
    visit_instruction-Keeps path kept t cx (Instruction.branch target mode false) place state w h
          e =
        let (s, applied, rest) =
          lift-eq-done (apply_effect state (Instruction.branch target mode false)) _ e in
        let (i, found, last) =
          lift-eq-done (target_inst cx_data.fn_address place.inst_addr mode target) _ rest in
        then_stop-Keyed path kept s s t cx i place.end_idx w h last
    visit_instruction-Keeps path kept t cx (Instruction.bc bo bi target mode link) place state w h
          e =
        let (starts, found, rest) =
          lift-eq-done
            (bc_paths fl cx_data place (Instruction.bc bo bi target mode link) mode target link
              state)
            _ e in
        join_paths-Keyed path kept cx place t starts w h rest
    visit_instruction-Keeps path kept t cx (Instruction.bclr bo bi link) place state w h e =
        let (s, applied, rest) =
          lift-eq-done (assert (not link) >> apply_effect state (Instruction.bclr bo bi link)) _
            e in
        next-Keyed path kept cx s place bo t w h rest
    visit_instruction-Keeps path kept t cx inst place state w h e =
        going_on-Keyed (visit_straight fl uses _ t state) w
          (visit_straight-Keyed fl uses _ t state h) e

  mk_hidden-Keyed :
      (rs : List Gpr) (t : Variables fl) → IsKeyed fl t → Holds (IsKeyed fl) (mk_hidden fl rs t)
  unfolding mk_hidden
  mk_hidden-Keyed [] t h = h
  mk_hidden-Keyed (r ∷ rs) t h =
      kept_then (IsKeyed fl)
        (table fl (mk_root_reg_var fl t (Register.gpr r) initial VariableVisibility.hidden)) _
        (mk_hidden-Keyed rs)
        (table-Keyed fl _
          (mk_root_reg_var-Keyed fl t (Register.gpr r) initial VariableVisibility.hidden h))

  mk_params-Keyed :
      (rs : List Gpr) (b : Bool) (t : Variables fl)
      → IsKeyed fl t
      → Holds (IsKeyed fl) (mk_params fl uses b rs t)
  unfolding mk_params
  mk_params-Keyed [] b t h = h
  mk_params-Keyed (r ∷ rs) b t h = elim (Bool-cases (has_uses uses (Register.gpr r) initial)) [
    | inr unused ↦ rw unused (mk_params-Keyed rs true t h)
    | inl used ↦ rw used (
        kept_then (IsKeyed fl)
          (assert (not b)
            >> table fl (mk_root_reg_var fl t (Register.gpr r) initial VariableVisibility.visible))
          _ (mk_params-Keyed rs b)
          (after _ (assert (not b)) _ (λ _.
            table-Keyed fl _
              (mk_root_reg_var-Keyed fl t (Register.gpr r) initial VariableVisibility.visible h))))
  ]

  no_variables-Keyed : IsKeyed fl (no_variables fl)
  no_variables-Keyed = record { registers = λ r g var e. cc; places = λ o var e. cc }

  initial_variables-Keyed : Holds (IsKeyed fl) (initial_variables fl uses)
  unfolding initial_variables
  initial_variables-Keyed =
      kept_then (IsKeyed fl)
        (table fl (
          mk_root_reg_var fl (no_variables fl) (Register.gpr stack_pointer) initial
            VariableVisibility.visible))
        _
        (λ t h.
          kept_then (IsKeyed fl)
            (table fl (mk_root_reg_var fl t (Register.spr Spr.lr) initial VariableVisibility.hidden)
              >>= mk_hidden fl callee_saved)
            _ (mk_params-Keyed (3 ∷ 4 ∷ 5 ∷ 6 ∷ 7 ∷ 8 ∷ []) false)
            (kept_then (IsKeyed fl)
              (table fl
                (mk_root_reg_var fl t (Register.spr Spr.lr) initial VariableVisibility.hidden))
              _ (mk_hidden-Keyed callee_saved)
              (table-Keyed fl _ (
                mk_root_reg_var-Keyed fl t (Register.spr Spr.lr) initial VariableVisibility.hidden
                  h))))
        (table-Keyed fl _ (
          mk_root_reg_var-Keyed fl (no_variables fl) (Register.gpr stack_pointer) initial
            VariableVisibility.visible no_variables-Keyed))

  -- If the variables of a function are inferred, then every variable that the table names, by a
  -- register in a generation or by a place on the stack, is in its list, so that to read its
  -- visibility does not go out of bounds.
  pub infer_variables-IsKeyed :
      (cx_data : VisitorStaticData) (fuel : ℕ) (t : Variables fl)
      → infer_variables fl uses cx_data fuel ≡ done t
      → IsKeyed fl t
  unfolding infer_variables
  infer_variables-IsKeyed cx_data fuel t e =
      let (t0, begun, rest) = lift-eq-done (initial_variables fl uses) _ e in
      let (w, visited, last) =
        >>=-eq-done
          (visit_path (visit_instruction fl uses cx_data fuel) cx_data fuel t0 [] none 0 none) _
          rest in
      let same : w.0 ≡ t = cc in
      subst (IsKeyed fl) same (
        visit_path-keeps (IsKeyed fl) (visit_instruction fl uses cx_data fuel)
          (visit_instruction-Keeps cx_data fuel) cx_data fuel t0 [] none 0 none w
          (held (IsKeyed fl) (initial_variables fl uses) t0 initial_variables-Keyed begun) visited)
