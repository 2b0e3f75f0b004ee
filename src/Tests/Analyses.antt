-- ===== src/Tests/Analyses.antt =====
-- Tests of the worklist loop and of the analysis of generations.
use doldisasm.Base.{ℕ, zero, suc, ◌+◌, true, false, ◌==◌, drop}
use doldisasm.Base.{[], ◌∷◌, ◌≡◌, ◌↔◌, refl, arith}
use doldisasm.Base.Checked.{Checked, returns, panics}
use doldisasm.Base.Fueled.{Fueled, done, Ends}
use doldisasm.Base.BtreeMap.{get}
use doldisasm.Ppc.Instruction.{Instruction, Spr, Register, BranchOptions}
use doldisasm.Ppc.Instruction.Visit.{visit_registers}
use doldisasm.Decomp.Cfg.{Instructions, id, return_target, Successors}
use doldisasm.Decomp.Registers.{element, change, by_register, change_register}
use doldisasm.Decomp.Generations.{Registers, next_generation, visit, visit_all, apply_effect}
use doldisasm.Decomp.Engine
use doldisasm.Decomp.Engine.{
  Dataflow, States, no_states, insert_state, visit_successors, leave_block, visit_items,
  visit_block, run_from, run, for_each_from, for_each_with_input,
}
use doldisasm.Decomp.Engine.Steps.{has}
use doldisasm.Decomp.Engine.Ends.{StaysBelow, run-Ends}
use doldisasm.Decomp.Engine.Visited.{Visited, run-Visited}
use doldisasm.Decomp.Ssa.{
  analysis, items_from, default_registers, default_local, pre_block_record, post_block_record,
  zip_registers, DefUseMap, register_use, visit_use, visit_uses, visit_item, def_use_map,
}
use doldisasm.Decomp.Ssa.Uses.{has_use}
use doldisasm.Decomp.Ssa.DefUse.{used, def_use_map-used}

-- A loop of the blocks 0 and 1, which block 0 leaves for block 2.
abbrev blocks : Successors
blocks = (0, id 1 ∷ id 2 ∷ []) ∷ (1, id 0 ∷ []) ∷ (2, return_target ∷ []) ∷ []

-- An analysis that counts the items on the way to a block.
abbrev counting : Dataflow ℕ (Unit {0}) (Unit {0})
counting = record {
  default_state = 0;
  default_recording = tt;
  same_state = λ a b. a == b;
  join = λ a b r. (a + b, r);
  revisit_blocks = false;
  initial_idx = 0;
  iter_block = λ i. drop i ((0, tt) ∷ (1, tt) ∷ (2, tt) ∷ []);
  iter = (0, tt) ∷ (1, tt) ∷ (2, tt) ∷ [];
  apply_effect = λ s i x. returns (suc s);
  pre_block_record = λ r s. returns (r, s);
  post_block_record = λ r s. returns (r, s);
}

abbrev result : {S : Type 0} → Fueled (States S) → States S
result (done states) = states
result _ = no_states

abbrev counts : States ℕ
counts = result (run counting blocks 5)

counts_lem : run counting blocks 5 ≡ done counts
unfolding run run_from visit_block visit_items leave_block visit_successors insert_state get
counts_lem = refl

blocks-StaysBelow : StaysBelow blocks 3
unfolding get
blocks-StaysBelow zero edges e t h = ground arith
blocks-StaysBelow (suc zero) edges e t h = ground arith
blocks-StaysBelow (suc (suc zero)) edges e t h = ground arith
blocks-StaysBelow (suc (suc (suc i))) edges e t h = ground arith

run-Ends_example : Ends (run counting blocks 5)
run-Ends_example = run-Ends counting refl 3 blocks blocks-StaysBelow

run-Visited_example : (has counts 2 ≡ true) ↔ Visited counting blocks 2
run-Visited_example = run-Visited counting blocks 5 counts counts_lem 2

-- `mtspr ctr, r3` and a return: the effect of the first is not implemented.
abbrev to_ctr : Instructions
to_ctr =
    (256, Instruction.mtspr 3 Spr.ctr)
    ∷ (260, Instruction.bclr BranchOptions.branch_always 0 false)
    ∷ []

abbrev to_ctr_block : Successors
to_ctr_block = (1, return_target ∷ []) ∷ []

-- `add r3, r4, r5`, `add r6, r3, r3` and a return.
abbrev sums : Instructions
sums =
    (256, Instruction.add 3 4 5 false false)
    ∷ (260, Instruction.add 6 3 3 false false)
    ∷ (264, Instruction.bclr BranchOptions.branch_always 0 false)
    ∷ []

abbrev one_block : Successors
one_block = (2, return_target ∷ []) ∷ []

abbrev states : States Registers
states = result (run (analysis sums) one_block 5)

abbrev uses_found : Checked DefUseMap → DefUseMap
uses_found (returns uses) = uses
uses_found panics = λ r g. []

abbrev uses : DefUseMap
uses = uses_found (def_use_map sums states)

sums_lem : def_use_map sums states ≡ returns uses
unfolding def_use_map for_each_with_input for_each_from visit_item visit_uses visit_use register_use
    analysis items_from run run_from visit_block visit_items leave_block visit_successors
    insert_state get apply_effect visit_all visit change_register change next_generation
    pre_block_record post_block_record zip_registers by_register element Engine.effect
    visit_registers
sums_lem = refl

first_generation : uses (Register.gpr 3) 1 ≡ 1 ∷ []
unfolding def_use_map for_each_with_input for_each_from visit_item visit_uses visit_use register_use
    analysis items_from run run_from visit_block visit_items leave_block visit_successors
    insert_state get apply_effect visit_all visit change_register change next_generation
    pre_block_record post_block_record zip_registers by_register element Engine.effect
    visit_registers
first_generation = refl

def_use_map-used_example :
    has_use (Register.gpr 3) 1 1 uses
    ≡ used (Register.gpr 3) 1 1 states (items_from 0 sums) (default_registers default_local)
def_use_map-used_example = def_use_map-used (Register.gpr 3) 1 1 sums states uses sums_lem
