-- ===== src/Decomp/Variables/Visit.antt =====
-- decomp/src/dataflow/variables.rs: the branches of the visitor, which visit further paths, and
-- `infer_variables`.
use doldisasm.Base.{
  ℕ, ◌/◌, Bool, true, false, not, if◌then◌else◌, Option, none, some, List, [], ◌∷◌,
}
use doldisasm.Base.Signed.{ℤ}
use doldisasm.Base.Checked.{Checked, returns, panics, ◌>>=◌, ◌>>◌, assert, add_u32}
use doldisasm.Base.Fueled
use doldisasm.Base.Fueled.{Fueled, done, lift}
use doldisasm.Ppc.Instruction.{Instruction, BranchOptions, AddressingMode, Gpr, Spr, Register}
use doldisasm.Ppc.Instruction.Fields.{compute_branch_target}
use doldisasm.Decomp.Cfg.{InstId, checked, checked_sub}
use doldisasm.Decomp.Generations.{initial, Registers, apply_effect}
use doldisasm.Decomp.Ssa.{DefUseMap, has_uses}
use doldisasm.Decomp.Paths.{
  VisitPathResult, PhiLocal, VisitorStaticData, VisitorCx, VisitPath, Place, VisitInstruction,
  visit_path, visit_and_join_paths,
}
use doldisasm.Decomp.Ast.{VarId, VariableVisibility, bitor, VariableFlags}
use doldisasm.Decomp.Variables.{
  Variables, no_variables, get_vis, mk_root_reg_var, optional_id_by_reg,
}
use doldisasm.Decomp.Variables.Collect.{
  stack_pointer, return_register, table, load_new, visit_straight,
}

-- `(target - fn_address) / 4`, a checked difference.
abbrev pub instruction_of : Option ℕ → Checked InstId
instruction_of none = panics
instruction_of (some distance) = returns (distance / 4)

abbrev pub target_inst : ℕ → ℕ → AddressingMode → ℤ → Checked InstId
target_inst fn_address addr mode target = checked (compute_branch_target addr mode target) >>= λ t.
    instruction_of (checked_sub t fn_address)

abbrev pub callee_saved : List Gpr
callee_saved =
    14 ∷ 15 ∷ 16 ∷ 17 ∷ 18 ∷ 19 ∷ 20 ∷ 21 ∷ 22 ∷ 23 ∷ 24 ∷ 25 ∷ 26 ∷ 27 ∷ 28 ∷ 29 ∷ 30 ∷ 31 ∷ []

module _ (fl : VariableFlags) where
  -- The visibility of a variable that may be missing.
  abbrev pub optional_vis : Variables fl → Option VarId → Checked VariableVisibility
  optional_vis t none = returns VariableVisibility.hidden
  optional_vis t (some var) = get_vis fl t var

  abbrev pub mk_phi :
      Variables fl → PhiLocal → VariableVisibility → Option VarId → Checked (Variables fl)
  mk_phi t phi v (some old) = returns t
  mk_phi t phi v none = table fl (mk_root_reg_var fl t phi.register phi.next_gen v)

  -- The loop over the registers that two paths leave in different generations.
  unfoldable pub mk_phis : List PhiLocal → Variables fl → Checked (Variables fl)
  mk_phis [] t = returns t
  mk_phis (phi ∷ phis) t =
      optional_vis t (optional_id_by_reg fl t phi.register phi.true_gen) >>= λ a.
      optional_vis t (optional_id_by_reg fl t phi.register phi.false_gen) >>= λ b.
      mk_phi t phi (bitor a b) (optional_id_by_reg fl t phi.register phi.next_gen) >>= mk_phis phis

  -- The visits of paths, whose results the visitor ignores, and after which it stops.
  abbrev pub Visited : Type 0
  Visited = Fueled (Variables fl × Registers × Bool)

  abbrev pub then_stop : Registers → Fueled (Variables fl × VisitPathResult) → Visited
  then_stop state m = Fueled.◌>>=◌ m (λ w. done (w.0, state, false))

  abbrev pub merge_path :
      VisitPath (Variables fl)
      → VisitorCx
      → Registers
      → Option InstId
      → Option InstId
      → Variables fl
      → Visited
  merge_path path cx state none end t = done (t, state, false)
  merge_path path cx state (some merge) end t = then_stop state (path t cx (some state) merge end)

  abbrev pub going_on : Checked (Variables fl × Registers) → Visited
  going_on m = lift m (λ w. done (w.0, w.1, true))

  -- Behind a `bclr`: only a conditional one has a next instruction.
  abbrev pub return_or_next :
      VisitPath (Variables fl)
      → VisitorCx
      → Registers
      → Place
      → BranchOptions
      → Variables fl
      → Visited
  return_or_next path cx state place BranchOptions.branch_always t = done (t, state, false)
  return_or_next path cx state place bo t =
      lift (add_u32 place.absolute_idx 1)
        (λ i. then_stop state (path t cx (some state) i place.end_idx))

  -- The two paths behind a `bc`, and the state that they start with.
  abbrev pub bc_paths :
      VisitorStaticData
      → Place
      → Instruction
      → AddressingMode
      → ℤ
      → Bool
      → Registers
      → Checked (InstId × InstId × Registers)
  bc_paths cx_data place inst mode target link state =
      assert (not link) >> target_inst cx_data.fn_address place.inst_addr mode target >>= λ i.
      add_u32 place.absolute_idx 1 >>= λ j. apply_effect state inst >>= λ s. returns (i, j, s)

  abbrev pub join_paths :
      VisitPath (Variables fl)
      → VisitorStaticData
      → ℕ
      → VisitorCx
      → Place
      → Variables fl
      → InstId × InstId × Registers
      → Visited
  join_paths path cx_data fuel cx place t (true_idx, false_idx, s) =
      Fueled.◌>>=◌ (visit_and_join_paths path cx_data fuel t cx s true_idx false_idx) (λ w.
        lift (mk_phis w.1.phi_locals w.0)
          (merge_path path cx s w.1.common_merge_inst place.end_idx))

  unfoldable pub visit_instruction :
      DefUseMap → VisitorStaticData → ℕ → VisitInstruction (Variables fl)
  visit_instruction uses cx_data fuel path t cx (Instruction.branch target mode true) place state =
      going_on (
        checked (compute_branch_target place.inst_addr mode target) >>= λ addr.
        load_new fl t return_register (Instruction.branch target mode true) state)
  visit_instruction uses cx_data fuel path t cx (Instruction.branch target mode false) place state =
      lift (apply_effect state (Instruction.branch target mode false)) (λ s.
        lift (target_inst cx_data.fn_address place.inst_addr mode target)
          (λ i. then_stop s (path t cx (some s) i place.end_idx)))
  visit_instruction uses cx_data fuel path t cx (Instruction.bc bo bi target mode link) place
        state =
      lift (bc_paths cx_data place (Instruction.bc bo bi target mode link) mode target link state)
        (join_paths path cx_data fuel cx place t)
  visit_instruction uses cx_data fuel path t cx (Instruction.bclr bo bi link) place state =
      lift (assert (not link) >> apply_effect state (Instruction.bclr bo bi link))
        (λ s. return_or_next path cx s place bo t)
  visit_instruction uses cx_data fuel path t cx inst place state =
      going_on (visit_straight fl uses inst t state)

  -- The variables that a function starts with: the stack pointer, LR, the registers from 14 to 31,
  -- and the parameters in the registers from 3 on that are used before they are written.
  unfoldable pub mk_hidden : List Gpr → Variables fl → Checked (Variables fl)
  mk_hidden [] t = returns t
  mk_hidden (r ∷ rs) t =
      table fl (mk_root_reg_var fl t (Register.gpr r) initial VariableVisibility.hidden)
      >>= mk_hidden rs

  unfoldable pub mk_params : DefUseMap → Bool → List Gpr → Variables fl → Checked (Variables fl)
  mk_params uses end_of_params [] t = returns t
  mk_params uses end_of_params (r ∷ rs) t =
      if has_uses uses (Register.gpr r) initial
      then (assert (not end_of_params)
          >> table fl (mk_root_reg_var fl t (Register.gpr r) initial VariableVisibility.visible)
          >>= mk_params uses end_of_params rs)
      else mk_params uses true rs t

  unfoldable pub initial_variables : DefUseMap → Checked (Variables fl)
  unfolding mk_hidden mk_params
  initial_variables uses =
      table fl (
        mk_root_reg_var fl (no_variables fl) (Register.gpr stack_pointer) initial
          VariableVisibility.visible)
      >>= λ t.
          table fl (mk_root_reg_var fl t (Register.spr Spr.lr) initial VariableVisibility.hidden)
          >>= mk_hidden callee_saved
          >>= mk_params uses false (3 ∷ 4 ∷ 5 ∷ 6 ∷ 7 ∷ 8 ∷ [])

  unfoldable pub infer_variables : DefUseMap → VisitorStaticData → ℕ → Fueled (Variables fl)
  infer_variables uses cx_data fuel = lift (initial_variables uses) (λ t.
      Fueled.◌>>=◌ (visit_path (visit_instruction uses cx_data fuel) cx_data fuel t [] none 0 none)
        (λ w. done w.0))
