-- ===== src/Decomp/Reach.antt =====
-- decomp/src/dataflow/core.rs, `for_each_transitive_successor`: the walk over all blocks that can
-- be reached from one. The recursion is on fuel; `seen` holds the blocks entered, the last one
-- first, and the callback is called on each of them when it is entered.
pub mod Paths
pub mod Explore
pub mod Ends
pub mod Breaks
pub mod Unbroken
use package.doldisasm.Base.{
  ℕ, zero, suc, if◌then◌else◌, contains, Option, none, some, List, [], ◌∷◌,
}
use package.doldisasm.Base.Fueled.{Fueled, done, panicked, out_of_fuel, ◌>>=◌}
use package.doldisasm.Base.BtreeMap.{first_from}
use package.doldisasm.Decomp.Cfg.{InstId, SuccessorTarget, id, return_target, Successors}

-- What a walk leaves: the value that the callback broke with, if it did, and the blocks entered.
abbrev pub Walk : Type 0 → Type 0
Walk B = Option B × List InstId

abbrev pub Block : Type 0
Block = ℕ × List SuccessorTarget

module _ {B : Type 0} where
  -- `?` on the result of the recursive call.
  abbrev pub unless_broken : (List InstId → Fueled (Walk B)) → Walk B → Fueled (Walk B)
  unless_broken go_on (some b, seen) = done (some b, seen)
  unless_broken go_on (none, seen) = go_on seen

  -- The loop over the edges, `enter` being the recursive call.
  unfoldable pub walk_edges :
      (InstId → List InstId → Fueled (Walk B))
      → List SuccessorTarget
      → List InstId
      → Fueled (Walk B)
  walk_edges enter [] seen = done (none, seen)
  walk_edges enter (id next ∷ edges) seen =
      enter next seen >>= unless_broken (walk_edges enter edges)
  walk_edges enter (return_target ∷ edges) seen = walk_edges enter edges seen

  -- The callback's answer at a new block, and the block's edges.
  unfoldable pub walk_block :
      (InstId → List InstId → Fueled (Walk B))
      → Option B
      → Option Block
      → List InstId
      → Fueled (Walk B)
  walk_block enter (some b) block seen = done (some b, seen)
  walk_block enter none none seen = panicked
  walk_block enter none (some (end, edges)) seen = walk_edges enter edges seen

  -- `inner`
  unfoldable pub walk :
      Successors → (InstId → Option B) → ℕ → InstId → List InstId → Fueled (Walk B)
  walk succs fun zero inst seen = out_of_fuel
  walk succs fun (suc fuel) inst seen =
      if contains seen inst
      then done (none, seen)
      else walk_block (walk succs fun fuel) (fun inst) (first_from succs inst) (inst ∷ seen)

  unfoldable pub for_each_transitive_successor :
      Successors → (InstId → Option B) → ℕ → InstId → Fueled (Walk B)
  for_each_transitive_successor succs fun fuel inst = walk succs fun fuel inst []
