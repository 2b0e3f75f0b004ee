-- ===== src/Decomp/Loops.antt =====
-- decomp/src/dataflow/loops.rs: which blocks start a loop, and where the paths out of it meet. The
-- recursions are on fuel; `seen` is a returned state, the last block entered first.
pub mod Cycle
pub mod Find
use package.doldisasm.Base.{
  ℕ, zero, suc, Bool, true, false, ◌==◌, if◌then◌else◌, contains, Option, none, some, List, [], ◌∷◌,
  ◌++◌, map,
}
use package.doldisasm.Base.Fueled.{Fueled, done, panicked, out_of_fuel, ◌>>=◌}
use package.doldisasm.Base.BtreeMap.{first_from}
use package.doldisasm.Decomp.Cfg.{
  InstId, SuccessorTarget, id, return_target, Predecessors, Successors,
}
use package.doldisasm.Decomp.Reach.{Walk, Block, walk_block}

-- `find_cycle_inner`. A walk that breaks has found a cycle: the callers return `true` at once.
abbrev pub closes : Bool → Option (Unit {0})
closes true = some tt
closes false = none

unfoldable pub find_cycle_inner :
    Successors → InstId → ℕ → InstId → List InstId → Fueled (Walk (Unit {0}))
find_cycle_inner succs start zero cur seen = out_of_fuel
find_cycle_inner succs start (suc fuel) cur seen =
    if contains seen cur
    then done (closes (cur == start), seen)
    else walk_block (find_cycle_inner succs start fuel) none (first_from succs cur) (cur ∷ seen)

abbrev pub found : Walk (Unit {0}) → Bool
found (some b, seen) = true
found (none, seen) = false

unfoldable pub find_cycle : Successors → ℕ → InstId → Fueled Bool
find_cycle succs fuel inst = find_cycle_inner succs inst fuel inst [] >>= λ w. done (found w)

-- `IndexSet`: the members in the order of their insertion.
abbrev pub IndexSet : Type 0
IndexSet = List InstId

unfoldable pub insert : IndexSet → InstId → IndexSet
insert set x = if contains set x then set else set ++ x ∷ []

abbrev pub keep_if : Bool → InstId → IndexSet → IndexSet
keep_if b x rest = if b then x ∷ rest else rest

-- `intersection`, which filters the left set.
unfoldable pub intersection : IndexSet → IndexSet → IndexSet
intersection [] right = []
intersection (x ∷ left) right = keep_if (contains right x) x (intersection left right)

-- `shift_remove`
unfoldable pub shift_remove : IndexSet → InstId → IndexSet
shift_remove [] x = []
shift_remove (y ∷ set) x = if x == y then set else y ∷ shift_remove set x

unfoldable pub last : IndexSet → Option InstId
last [] = none
last (x ∷ []) = some x
last (x ∷ y ∷ set) = last (y ∷ set)

pub data RecResult : Type 0 where
  frozen exit_path : IndexSet → RecResult
  cycle : RecResult

-- The closure of `reduce`.
unfoldable pub combine : InstId → RecResult → RecResult → RecResult
combine cur (frozen set) element = frozen set
combine cur (exit_path set) (frozen set') = frozen set'
combine cur (exit_path set) (exit_path set') = exit_path (intersection set set')
combine cur (exit_path set) cycle = frozen (shift_remove set cur)
combine cur cycle (frozen set) = frozen set
combine cur cycle (exit_path set) = frozen (shift_remove set cur)
combine cur cycle cycle = cycle

abbrev pub Recursion : Type 0
Recursion = InstId → List InstId → Fueled (RecResult × List InstId)

-- The path through a block, with the block added.
abbrev pub through : InstId → RecResult → RecResult
through cur (exit_path set) = exit_path (insert set cur)
through cur other = other

-- The closure of `map`.
abbrev pub edge_result :
    Recursion → InstId → SuccessorTarget → List InstId → Fueled (RecResult × List InstId)
edge_result enter cur (id next) seen = enter next seen >>= λ w. done (through cur w.0, w.1)
edge_result enter cur return_target seen = done (exit_path (cur ∷ []), seen)

-- The results of the edges, reduced from the first on.
unfoldable pub reduce_edges :
    Recursion
    → InstId
    → RecResult
    → List SuccessorTarget
    → List InstId
    → Fueled (RecResult × List InstId)
reduce_edges enter cur acc [] seen = done (acc, seen)
reduce_edges enter cur acc (edge ∷ edges) seen =
    edge_result enter cur edge seen >>= λ w. reduce_edges enter cur (combine cur acc w.0) edges w.1

-- `unwrap` of the block and of the reduction.
unfoldable pub merge_block :
    Recursion → InstId → Option Block → List InstId → Fueled (RecResult × List InstId)
merge_block enter cur none seen = panicked
merge_block enter cur (some (end, [])) seen = panicked
merge_block enter cur (some (end, edge ∷ edges)) seen =
    edge_result enter cur edge seen >>= λ w. reduce_edges enter cur w.0 edges w.1

unfoldable pub find_common_mergepoint_of_loop_inner : Successors → ℕ → Recursion
find_common_mergepoint_of_loop_inner succs zero cur seen = out_of_fuel
find_common_mergepoint_of_loop_inner succs (suc fuel) cur seen =
    if contains seen cur
    then done (cycle, seen)
    else merge_block (find_common_mergepoint_of_loop_inner succs fuel) cur (first_from succs cur)
        (cur ∷ seen)

abbrev pub merge_of : RecResult → Option InstId
merge_of (frozen set) = last set
merge_of (exit_path set) = last set
merge_of cycle = none

unfoldable pub find_common_mergepoint_of_loop : Successors → ℕ → InstId → Fueled (Option InstId)
find_common_mergepoint_of_loop succs fuel inst =
    find_common_mergepoint_of_loop_inner succs fuel inst [] >>= λ w. done (merge_of w.0)

pub record Loop : Type 0 where
  pub start : InstId
  pub common_merge_inst : Option InstId

abbrev pub LoopMap : Type 0
LoopMap = List Loop

-- `LoopMap::find`, with the index of the loop that the search is at.
unfoldable pub find_at : ℕ → LoopMap → InstId → Option (ℕ × Loop)
find_at i [] inst = none
find_at i (l ∷ loops) inst = if l.start == inst then some (i, l) else find_at (suc i) loops inst

unfoldable pub find : LoopMap → InstId → Option (ℕ × Loop)
find loops inst = find_at 0 loops inst

-- The body of the loop over the keys.
abbrev pub loop_at : Successors → ℕ → InstId → Bool → LoopMap → Fueled LoopMap
loop_at succs fuel inst true loops = find_common_mergepoint_of_loop succs fuel inst >>= λ m.
    done (loops ++ record { start = inst; common_merge_inst = m } ∷ [])
loop_at succs fuel inst false loops = done loops

unfoldable pub loops_from : Successors → ℕ → List InstId → LoopMap → Fueled LoopMap
loops_from succs fuel [] loops = done loops
loops_from succs fuel (inst ∷ insts) loops = find_cycle succs fuel inst >>= λ b.
    loop_at succs fuel inst b loops >>= loops_from succs fuel insts

-- `keys()`
abbrev pub key : InstId × List InstId → InstId
key e = e.0

unfoldable pub find_loops : Predecessors → Successors → ℕ → Fueled LoopMap
find_loops preds succs fuel = loops_from succs fuel (map key preds) []
