-- ===== src/Decomp/Reach/Ends.antt =====
-- The walk returns, on fuel for each block that it may enter.
use doldisasm.Base.{ℕ, zero, suc, ◌<◌, true, Bool-cases, contains}
use doldisasm.Base.{Option, none, some, List, [], ◌∷◌, ◌≡◌, refl, inl, inr, arith}
use doldisasm.Base.Absent.{absent, absent-le, absent-lt, absent-le_self}
use doldisasm.Base.Fueled.{Fueled, done}
use doldisasm.Decomp.Cfg.{InstId, SuccessorTarget, id, return_target, Successors}
use doldisasm.Decomp.Reach.{
  Walk, unless_broken, walk_edges, walk_block, walk, for_each_transitive_successor,
}
use doldisasm.Decomp.Reach.Paths.{leads_to, IsBounded}
use doldisasm.Decomp.Reach.Explore.{Grows}

module _ {B : Type 0} (n : ℕ) where
  -- A result that keeps what was seen.
  abbrev pub ReturnsFrom : List InstId → Fueled (Walk B) → Type 0
  ReturnsFrom seen r = (w : Walk B) × (r ≡ done w) × Grows seen w.1

  -- On fewer missing blocks than fuel, the call returns.
  abbrev pub Returning : ℕ → (InstId → List InstId → Fueled (Walk B)) → Type 0
  Returning fuel enter =
      (i : InstId) (seen : List InstId)
      → i < n
      → absent (contains seen) n < fuel
      → ReturnsFrom seen (enter i seen)

  after :
      (o : Option B) (seen seen1 : List InstId) (go_on : List InstId → Fueled (Walk B))
      → Grows seen seen1
      → ReturnsFrom seen1 (go_on seen1)
      → ReturnsFrom seen (unless_broken go_on (o, seen1))
  after (some b) seen seen1 go_on grows more = ((some b, seen1), refl, grows)
  after none seen seen1 go_on grows (w, e, grows1) = (w, e, λ k h. grows1 k (grows k h))

  pub walk_edges-Returns :
      (fuel : ℕ) (enter : InstId → List InstId → Fueled (Walk B))
      → Returning fuel enter
      → (edges : List SuccessorTarget) (seen : List InstId)
      → ((t : InstId) → leads_to edges t ≡ true → t < n)
      → absent (contains seen) n < fuel
      → ReturnsFrom seen (walk_edges enter edges seen)
  unfolding walk_edges
  walk_edges-Returns fuel enter returning [] seen below few = ((none, seen), refl, λ k h. h)
  walk_edges-Returns fuel enter returning (return_target ∷ edges) seen below few =
      walk_edges-Returns fuel enter returning edges seen below few
  walk_edges-Returns fuel enter returning (id x ∷ edges) seen below few =
      let ((o, seen1), entered, grows) = returning x seen (below x (ground arith)) few in
      let more : ReturnsFrom seen1 (walk_edges enter edges seen1) =
        walk_edges-Returns fuel enter returning edges seen1 (λ t h. below t (ground (arith, h)))
          (omega (arith, absent-le (contains seen) (contains seen1) n grows)) in
      rw entered (after o seen seen1 (walk_edges enter edges) grows more)

  pub block_entered :
      (enter : InstId → List InstId → Fueled (Walk B)) (answer : Option B) (end : ℕ)
      (edges : List SuccessorTarget) (i : InstId) (seen : List InstId)
      → ReturnsFrom seen (walk_edges enter edges (i ∷ seen))
      → ReturnsFrom seen (walk_block enter answer (some (end, edges)) (i ∷ seen))
  unfolding walk_block
  block_entered enter (some b) end edges i seen r =
      ((some b, i ∷ seen), refl, λ k h. ground (arith, h))
  block_entered enter none end edges i seen r = r

  module _ (succs : Successors) (bounded : IsBounded succs n) where
    walk-Returning : (fun : InstId → Option B) (fuel : ℕ) → Returning fuel (walk succs fun fuel)
    unfolding walk
    walk-Returning fun zero i seen lt few = absurd (omega arith)
    walk-Returning fun (suc fuel) i seen lt few = elim (Bool-cases (contains seen i)) [
      | inl old ↦ rw old ((none, seen), refl, λ k h. h)
      | inr new ↦
          let (end, edges, found, below) = bounded i lt in
          let grows : Grows seen (i ∷ seen) = λ k h. ground (arith, h) in
          let fewer : absent (contains (i ∷ seen)) n < absent (contains seen) n =
            absent-lt (contains seen) (contains (i ∷ seen)) n i grows lt new (ground arith) in
          let (w, e, grows1) =
            walk_edges-Returns fuel (walk succs fun fuel) (walk-Returning fun fuel) edges (i ∷ seen)
              below (omega arith) in
          rw (new, found)
            (block_entered (walk succs fun fuel) (fun i) end edges i seen
              (w, e, λ k h. grows1 k (grows k h)))
    ]

    -- If below a bound every instruction belongs to a block whose edges stay below it, the walk
    -- from an instruction below the bound returns, on one unit of fuel more than the bound.
    pub for_each_transitive_successor-returns :
        (fun : InstId → Option B) (inst : InstId)
        → inst < n
        → (w : Walk B) × (for_each_transitive_successor succs fun (suc n) inst ≡ done w)
    unfolding for_each_transitive_successor
    for_each_transitive_successor-returns fun inst lt =
        let (w, e, grows) =
          walk-Returning fun (suc n) inst [] lt (omega (arith, absent-le_self (contains []) n)) in
        (w, e)
