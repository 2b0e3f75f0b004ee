-- ===== src/Tests/Variables.antt =====
-- The variables of `li r4, 1` before a return, and the block in which two paths meet.
use doldisasm.Base.{◌<◌, Bool, true, false, not, ◌&&◌, ◌||◌, ◌==◌, if◌then◌else◌}
use doldisasm.Base.{none, some, [], ◌∷◌, ◌≡◌, refl, arith}
use doldisasm.Base.Signed.{pos}
use doldisasm.Base.Checked.{returns}
use doldisasm.Base.Fueled.{Fueled, done}
use doldisasm.Base.BtreeMap.{first_from}
use doldisasm.Ppc.Instruction.{Instruction, BranchOptions, Register}
use doldisasm.Ppc.Instruction.Visit.{visit_registers, read_condition}
use doldisasm.Decomp.Cfg.{Instructions, id, return_target, Successors}
use doldisasm.Decomp.Registers.{element, change, change_register}
use doldisasm.Decomp.Registers.Lens.{same_register}
use doldisasm.Decomp.Generations.{Generation, next_generation, visit, visit_all, apply_effect}
use doldisasm.Decomp.Reach.{walk_edges, walk_block, walk, for_each_transitive_successor}
use doldisasm.Decomp.Engine.{no_states}
use doldisasm.Decomp.Ssa.{no_uses, has_uses}
use doldisasm.Decomp.Ast.{VarId, VariableVisibility, VariableFlags, from_vis}
use doldisasm.Decomp.Paths.{VisitorStaticData, visit_from, visit_path, common_merge}
use doldisasm.Decomp.Paths.Merge.{Meets, common_merge-Meets}
use doldisasm.Decomp.Variables.{
  Variables, no_variables, get_vis, mk_root_reg_var, mk_root_gpr_var, optional_id_by_reg,
}
use doldisasm.Decomp.Variables.Collect.{visit_straight}
use doldisasm.Decomp.Variables.Visit.{
  visit_instruction, mk_hidden, mk_params, initial_variables, infer_variables,
}
use doldisasm.Decomp.Variables.Kept.{IsKeyed}
use doldisasm.Decomp.Variables.Lookup.{VisibleBit, mk_root_reg_var-lookup}
use doldisasm.Decomp.Variables.Walked.{infer_variables-IsKeyed}

-- Two bits, of which the first is VISIBLE.
abbrev two_bits : VariableFlags
two_bits = record {
  Flags = Bool × Bool;
  empty_flags = (false, false);
  visible_flag = (true, false);
  rsp_flag = (false, true);
  contains = λ f g. (not g.0 || f.0) && (not g.1 || f.1);
  insert = λ f g. (f.0 || g.0, f.1 || g.1);
  remove = λ f g. (f.0 && not g.0, f.1 && not g.1);
}

two_bits-VisibleBit : VisibleBit two_bits
two_bits-VisibleBit = record {
  visible_has = refl;
  empty_lacks = refl;
  rsp_keeps = λ f. ground arith;
}

abbrev load_one : Instructions
load_one =
    (256, Instruction.addi 4 0 (pos 1))
    ∷ (260, Instruction.bclr BranchOptions.branch_always 0 false)
    ∷ []

abbrev cx_data : VisitorStaticData
cx_data = record {
  insts = load_one;
  fn_address = 256;
  results = no_states;
  succs = (1, return_target ∷ []) ∷ [];
}

abbrev result : Fueled (Variables two_bits) → Variables two_bits
result (done t) = t
result _ = no_variables two_bits

abbrev variables : Variables two_bits
variables = result (infer_variables two_bits no_uses cx_data 2)

inferred : infer_variables two_bits no_uses cx_data 2 ≡ done variables
unfolding infer_variables initial_variables mk_hidden mk_params mk_root_reg_var mk_root_gpr_var
    has_uses visit_path visit_from visit_instruction visit_straight apply_effect visit_all visit
    visit_registers read_condition change_register change next_generation element
inferred = refl

-- The variable of r4 is the first one behind the twenty that every function has.
r4_variable : optional_id_by_reg two_bits variables (Register.gpr 4) 1 ≡ some 20
unfolding infer_variables initial_variables mk_hidden mk_params mk_root_reg_var mk_root_gpr_var
    has_uses visit_path visit_from visit_instruction visit_straight apply_effect visit_all visit
    visit_registers read_condition change_register change next_generation element optional_id_by_reg
r4_variable = refl

infer_variables-IsKeyed_example : IsKeyed two_bits variables
infer_variables-IsKeyed_example =
    infer_variables-IsKeyed two_bits no_uses cx_data 2 variables inferred

abbrev one_variable : Variables two_bits
one_variable = record {
  list = (true, true) ∷ [];
  reg_to_var = λ r g. if same_register r (Register.gpr 1) && g == 0 then some 0 else none;
  mem_to_var = λ o. none;
}

made :
    mk_root_reg_var two_bits (no_variables two_bits) (Register.gpr 1) 0 VariableVisibility.visible
    ≡ returns (one_variable, 0)
unfolding mk_root_reg_var from_vis
made = refl

mk_root_reg_var-lookup_example :
    (optional_id_by_reg two_bits (no_variables two_bits) (Register.gpr 1) 0 ≡ none)
    × ((r : Register) (g : Generation)
        → optional_id_by_reg two_bits one_variable r g ≡ (
            if same_register r (Register.gpr 1) && g == 0
            then some 0
            else optional_id_by_reg two_bits (no_variables two_bits) r g))
    × (get_vis two_bits one_variable 0 ≡ returns VariableVisibility.visible)
    × ((var : VarId)
        → var < 0
        → get_vis two_bits one_variable var ≡ get_vis two_bits (no_variables two_bits) var)
mk_root_reg_var-lookup_example =
    mk_root_reg_var-lookup two_bits two_bits-VisibleBit (no_variables two_bits) one_variable
      (Register.gpr 1) 0 VariableVisibility.visible 0 made

-- Block 0 branches to the blocks 1 and 2, which both lead to block 3.
abbrev diamond : Successors
diamond = (0, id 1 ∷ id 2 ∷ []) ∷ (1, id 3 ∷ []) ∷ (2, id 3 ∷ []) ∷ (3, return_target ∷ []) ∷ []

meeting : common_merge diamond 5 1 2 ≡ done (some 3)
unfolding common_merge for_each_transitive_successor walk walk_edges walk_block first_from
meeting = refl

common_merge-Meets_example : Meets diamond 1 2 (some 3)
common_merge-Meets_example = common_merge-Meets diamond 5 1 2 (some 3) meeting
