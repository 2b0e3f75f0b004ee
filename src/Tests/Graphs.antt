-- ===== src/Tests/Graphs.antt =====
-- Tests of the walks over the control-flow graph.
use doldisasm.Base.{zero, suc, Bool, true, ◌==◌, contains, if◌then◌else◌}
use doldisasm.Base.{Option, none, some, [], ◌∷◌, ◌≡◌, ◌↔◌, refl, arith}
use doldisasm.Base.Fueled.{done}
use doldisasm.Base.BtreeMap.{first_from}
use doldisasm.Decomp.Cfg.{InstId, id, return_target, Predecessors, Successors}
use doldisasm.Decomp.Reach.{Walk, walk_edges, walk_block, walk, for_each_transitive_successor}
use doldisasm.Decomp.Reach.Paths.{Reach, IsBounded}
use doldisasm.Decomp.Reach.Unbroken.{for_each_transitive_successor-Reach}
use doldisasm.Decomp.Reach.Ends.{for_each_transitive_successor-returns}
use doldisasm.Decomp.Reach.Breaks.{for_each_transitive_successor_stops}
use doldisasm.Decomp.Loops.{find_cycle_inner, find_cycle, LoopMap, find_loops}
use doldisasm.Decomp.Loops.Cycle.{OnCycle, find_cycle-OnCycle}
use doldisasm.Decomp.Loops.Find.{HasEdges, starts_loop, find_loops-OnCycle}

-- A loop of the blocks 0 and 1, which block 0 leaves for block 2.
abbrev blocks : Successors
blocks = (0, id 1 ∷ id 2 ∷ []) ∷ (1, id 0 ∷ []) ∷ (2, return_target ∷ []) ∷ []

abbrev sources : Predecessors
sources = (0, 1 ∷ []) ∷ (1, 0 ∷ []) ∷ (2, 0 ∷ []) ∷ []

abbrev stop_at_three : InstId → Option InstId
stop_at_three i = if i == 3 then some i else none

abbrev go_on : InstId → Option (Unit {0})
go_on i = none

abbrev stop_at_two : InstId → Option InstId
stop_at_two i = if i == 2 then some i else none

blocks-IsBounded : IsBounded blocks 3
unfolding first_from
blocks-IsBounded zero lt = (0, id 1 ∷ id 2 ∷ [], refl, λ t h. ground arith)
blocks-IsBounded (suc zero) lt = (1, id 0 ∷ [], refl, λ t h. ground arith)
blocks-IsBounded (suc (suc zero)) lt = (2, return_target ∷ [], refl, λ t h. cc)
blocks-IsBounded (suc (suc (suc i))) lt = absurd (omega arith)

blocks-HasEdges : HasEdges blocks 3
unfolding first_from
blocks-HasEdges zero end edges lt e = ground arith
blocks-HasEdges (suc zero) end edges lt e = ground arith
blocks-HasEdges (suc (suc zero)) end edges lt e = ground arith
blocks-HasEdges (suc (suc (suc i))) end edges lt e = absurd (omega arith)

-- There is no block 3.
walk_passes : for_each_transitive_successor blocks stop_at_three 4 0 ≡ done (none, 2 ∷ 1 ∷ 0 ∷ [])
unfolding for_each_transitive_successor walk walk_edges walk_block first_from
walk_passes = refl

walk_stops : for_each_transitive_successor blocks stop_at_two 4 0 ≡ done (some 2, 2 ∷ 1 ∷ 0 ∷ [])
unfolding for_each_transitive_successor walk walk_edges walk_block first_from
walk_stops = refl

for_each_transitive_successor-Reach_example :
    ((contains (2 ∷ 1 ∷ 0 ∷ []) 2 ≡ true) ↔ Reach blocks 0 2)
    × (Reach blocks 0 2 → stop_at_three 2 ≡ none)
for_each_transitive_successor-Reach_example =
    for_each_transitive_successor-Reach blocks stop_at_three 4 0 (2 ∷ 1 ∷ 0 ∷ []) walk_passes 2

for_each_transitive_successor-returns_example :
    (w : Walk (Unit {0})) × (for_each_transitive_successor blocks go_on 4 0 ≡ done w)
for_each_transitive_successor-returns_example =
    for_each_transitive_successor-returns 3 blocks blocks-IsBounded go_on 0 (omega arith)

for_each_transitive_successor_stops_example :
    (j : InstId) × Reach blocks 0 j × (stop_at_two j ≡ some 2)
for_each_transitive_successor_stops_example =
    for_each_transitive_successor_stops blocks stop_at_two 4 0 (2 ∷ 1 ∷ 0 ∷ []) 2 walk_stops

find_cycle-OnCycle_example :
    (b : Bool) × (find_cycle blocks 4 1 ≡ done b) × ((b ≡ true) ↔ OnCycle blocks 1)
find_cycle-OnCycle_example = find_cycle-OnCycle blocks 3 blocks-IsBounded 1 (omega arith)

one_cycle : find_cycle blocks 4 1 ≡ done true
unfolding find_cycle find_cycle_inner walk_edges walk_block first_from
one_cycle = refl

find_loops-OnCycle_example :
    (ls : LoopMap) × (find_loops sources blocks 4 ≡ done ls)
    × ((i : InstId)
        → (starts_loop ls i ≡ true) ↔ ((contains (0 ∷ 1 ∷ 2 ∷ []) i ≡ true) × OnCycle blocks i))
find_loops-OnCycle_example =
    find_loops-OnCycle blocks 3 blocks-IsBounded blocks-HasEdges sources
      (omega arith, (omega arith, (omega arith, tt)))
