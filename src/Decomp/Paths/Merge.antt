-- ===== src/Decomp/Paths/Merge.antt =====
-- The block in which two paths meet.
use doldisasm.Base.{true, false, contains}
use doldisasm.Base.{Option, none, some, List, ◌≡◌, ◌↔◌, subst, arith}
use doldisasm.Base.Fueled.{done, ◌>>=◌, >>=-eq-done}
use doldisasm.Decomp.Cfg.{InstId, Successors}
use doldisasm.Decomp.Reach.{for_each_transitive_successor}
use doldisasm.Decomp.Reach.Paths.{Reach}
use doldisasm.Decomp.Reach.Explore.{for_each_transitive_successor_enters}
use doldisasm.Decomp.Reach.Breaks.{for_each_transitive_successor_stops}
use doldisasm.Decomp.Reach.Unbroken.{for_each_transitive_successor_passes}
use doldisasm.Decomp.Paths.{go_on, break_at, common_merge}

-- What is said of the block in which the paths from two blocks meet: it can be reached from both,
-- and there is one if any block can.
abbrev pub Meets : Successors → InstId → InstId → Option InstId → Type 0
Meets succs a b (some m) = Reach succs a m × Reach succs b m
Meets succs a b none = (j : InstId) → Reach succs a j → ¬ Reach succs b j

break_at-some :
    (found : List InstId) (j m : InstId)
    → break_at found j ≡ some m
    → (contains found j ≡ true) × (j ≡ m)
break_at-some found j m e = ground (arith, e)

break_at-none :
    (found : List InstId) (j : InstId) → break_at found j ≡ none → contains found j ≡ false
break_at-none found j e = ground (arith, e)

module _ (succs : Successors) (fuel a b : InstId) where
  second-Meets :
      (found : List InstId)
      → ((j : InstId) → (contains found j ≡ true) ↔ Reach succs a j)
      → (o : Option InstId) (seen : List InstId)
      → for_each_transitive_successor succs (break_at found) fuel b ≡ done (o, seen)
      → Meets succs a b o
  second-Meets found all (some m) seen e =
      let (j, path, stops) =
        for_each_transitive_successor_stops succs (break_at found) fuel b seen m e in
      let (inside, same) = break_at-some found j m stops in
      (subst (Reach succs a) same ((all j).0 inside), subst (Reach succs b) same path)
  second-Meets found all none seen e = λ j on_a on_b.
      let entered : contains seen j ≡ true =
        (for_each_transitive_successor_enters succs (break_at found) fuel b seen e j).1 on_b in
      ground (
        arith,
        (all j).1 on_a,
        break_at-none found j
            (for_each_transitive_successor_passes succs (break_at found) fuel b seen e j entered),
      )

  first-Meets :
      (o : Option (Unit {0})) (found : List InstId) (m : Option InstId)
      → for_each_transitive_successor succs go_on fuel a ≡ done (o, found)
      → (for_each_transitive_successor succs (break_at found) fuel b >>= λ w'. done w'.0) ≡ done m
      → Meets succs a b m
  first-Meets (some u) found m e rest =
      let (j, path, stops) = for_each_transitive_successor_stops succs go_on fuel a found u e in cc
  first-Meets none found m e rest =
      let ((o, seen), second, last) =
        >>=-eq-done (for_each_transitive_successor succs (break_at found) fuel b) _ rest in
      let same : o ≡ m = cc in
      subst (Meets succs a b) same (
        second-Meets found (for_each_transitive_successor_enters succs go_on fuel a found e) o seen
          second)

  -- If the search for the block in which the paths from two blocks meet returns, it returns a block
  -- that can be reached from both of them, or none where no block can.
  pub common_merge-Meets :
      (m : Option InstId) → common_merge succs fuel a b ≡ done m → Meets succs a b m
  unfolding common_merge
  common_merge-Meets m e =
      let ((o, found), first, rest) =
        >>=-eq-done (for_each_transitive_successor succs go_on fuel a) _ e in
      first-Meets o found m first rest
