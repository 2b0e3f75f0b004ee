-- ===== src/Decomp/Reach/Breaks.antt =====
-- A walk that breaks has reached a block at which the callback broke it.
use doldisasm.Base.{ℕ, zero, suc, true, Bool-cases, contains}
use doldisasm.Base.{Option, none, some, List, [], ◌∷◌, ◌≡◌, refl, ap, ◌∙◌, ◌⊎◌, inl, inr, arith}
use doldisasm.Base.Fueled.{Fueled, done, >>=-eq-done}
use doldisasm.Base.BtreeMap.{first_from}
use doldisasm.Decomp.Cfg.{InstId, SuccessorTarget, id, return_target, Successors}
use doldisasm.Decomp.Reach.{
  Walk, Block, unless_broken, walk_edges, walk_block, walk, for_each_transitive_successor,
}
use doldisasm.Decomp.Reach.Paths.{leads_to, edge, Reach, here, Reach_first}

-- The last of a loop's rounds broke at one of its targets.
abbrev pub BrokenAt : (InstId → Type 0) → List SuccessorTarget → Type 0
BrokenAt Broken edges = (t : InstId) × (leads_to edges t ≡ true) × Broken t

module _ {B : Type 0} (Broken : B → InstId → Type 0) where
  abbrev pub Breaks : (InstId → List InstId → Fueled (Walk B)) → Type 0
  Breaks enter =
      (i : InstId) (seen seen' : List InstId) (b : B)
      → enter i seen ≡ done (some b, seen')
      → Broken b i

  round :
      (enter : InstId → List InstId → Fueled (Walk B)) (x : InstId) (edges : List SuccessorTarget)
      (seen seen1 seen' : List InstId) (b : B) (o : Option B)
      → Breaks enter
      → (walk_edges enter edges seen1 ≡ done (some b, seen') → BrokenAt (Broken b) edges)
      → enter x seen ≡ done (o, seen1)
      → unless_broken (walk_edges enter edges) (o, seen1) ≡ done (some b, seen')
      → BrokenAt (Broken b) (id x ∷ edges)
  round enter x edges seen seen1 seen' b (some c) breaks rest p q =
      let same : some c ≡ some b = cc in
      (x, ground arith, breaks x seen seen1 b (p ∙ ap (λ o. done (o, seen1)) same))
  round enter x edges seen seen1 seen' b none breaks rest p q =
      let (t, leads, broken) = rest q in (t, ground (arith, leads), broken)

  pub walk_edges-Breaks :
      (enter : InstId → List InstId → Fueled (Walk B))
      → Breaks enter
      → (edges : List SuccessorTarget) (seen seen' : List InstId) (b : B)
      → walk_edges enter edges seen ≡ done (some b, seen')
      → BrokenAt (Broken b) edges
  unfolding walk_edges
  walk_edges-Breaks enter breaks [] seen seen' b e = cc
  walk_edges-Breaks enter breaks (return_target ∷ edges) seen seen' b e =
      walk_edges-Breaks enter breaks edges seen seen' b e
  walk_edges-Breaks enter breaks (id x ∷ edges) seen seen' b e =
      let ((o, seen1), entered, rest) = >>=-eq-done (enter x seen) _ e in
      round enter x edges seen seen1 seen' b o breaks
        (walk_edges-Breaks enter breaks edges seen1 seen' b) entered rest

  pub walk_block-Breaks :
      (enter : InstId → List InstId → Fueled (Walk B))
      → Breaks enter
      → (answer : Option B) (block : Option Block) (seen seen' : List InstId) (b : B)
      → walk_block enter answer block seen ≡ done (some b, seen')
      → (answer ≡ some b)
        ⊎ ((end : ℕ) × (edges : List SuccessorTarget) × (block ≡ some (end, edges))
            × BrokenAt (Broken b) edges)
  unfolding walk_block
  walk_block-Breaks enter breaks (some c) block seen seen' b e = inl (cc)
  walk_block-Breaks enter breaks none none seen seen' b e = cc
  walk_block-Breaks enter breaks none (some (end, edges)) seen seen' b e =
      inr (end, edges, refl, walk_edges-Breaks enter breaks edges seen seen' b e)

module _ (succs : Successors) {B : Type 0} (fun : InstId → Option B) where
  -- A block that can be reached, and at which the callback breaks.
  abbrev pub StopsAt : B → InstId → Type 0
  StopsAt b i = (j : InstId) × Reach succs i j × (fun j ≡ some b)

  walk-StopsAt : (fuel : ℕ) → Breaks StopsAt (walk succs fun fuel)
  unfolding walk edge
  walk-StopsAt zero i seen seen' b e = cc
  walk-StopsAt (suc fuel) i seen seen' b e = elim (Bool-cases (contains seen i)) [
    | inl old ↦ ground (arith, e, old)
    | inr new ↦
        elim (walk_block-Breaks StopsAt (walk succs fun fuel) (walk-StopsAt fuel) (fun i)
          (first_from succs i) (i ∷ seen) seen' b (rw new at e)) [
            | inl answer ↦ (i, here, answer)
            | inr (end, edges, found, (t, leads, (j, path, stops))) ↦
                (j, Reach_first succs (rw found leads) path, stops)
          ]
  ]

  -- If the callback breaks the walk, it does so at a block that can be reached from the start.
  pub for_each_transitive_successor_stops :
      (fuel : ℕ) (inst : InstId) (seen : List InstId) (b : B)
      → for_each_transitive_successor succs fun fuel inst ≡ done (some b, seen)
      → (j : InstId) × Reach succs inst j × (fun j ≡ some b)
  unfolding for_each_transitive_successor
  for_each_transitive_successor_stops fuel inst seen b e = walk-StopsAt fuel inst [] seen b e
