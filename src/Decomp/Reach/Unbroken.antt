-- ===== src/Decomp/Reach/Unbroken.antt =====
-- A walk that does not break enters the blocks that can be reached, and is let past each of them.
use doldisasm.Base.{ℕ, zero, suc, true, ◌==◌, ==_iff, Bool-cases, contains}
use doldisasm.Base.{
  Option, none, some, List, [], ◌∷◌, ◌≡◌, refl, ap, sym, subst, ◌∙◌, ◌⊎◌, ◌↔◌, inl, inr, arith,
}
use doldisasm.Base.Fueled.{Fueled, done, >>=-eq-done}
use doldisasm.Base.BtreeMap.{first_from}
use doldisasm.Decomp.Cfg.{InstId, SuccessorTarget, id, return_target, Successors}
use doldisasm.Decomp.Reach.{
  Walk, Block, unless_broken, walk_edges, walk_block, walk, for_each_transitive_successor,
}
use doldisasm.Decomp.Reach.Paths.{Reach}
use doldisasm.Decomp.Reach.Explore.{for_each_transitive_successor_enters}

module _ {B : Type 0} (succs : Successors) (fun : InstId → Option B) where
  abbrev Passed : List InstId → List InstId → Type 0
  Passed seen seen' =
      (k : InstId) → contains seen' k ≡ true → (contains seen k ≡ true) ⊎ (fun k ≡ none)

  abbrev Passes : (InstId → List InstId → Fueled (Walk B)) → Type 0
  Passes enter =
      (i : InstId) (seen seen' : List InstId)
      → enter i seen ≡ done (none, seen')
      → Passed seen seen'

  Passed-trans : (s t u : List InstId) → Passed s t → Passed t u → Passed s u
  Passed-trans s t u first rest k h = elim (rest k h) [
    | inl old ↦ first k old
    | inr none_here ↦ inr none_here
  ]

  Passed-same : (s t : List InstId) → s ≡ t → Passed s t
  Passed-same s t e k h = inl (subst (λ l. contains l k ≡ true) (sym e) h)

  round-Passed :
      (enter : InstId → List InstId → Fueled (Walk B)) (x : InstId) (edges : List SuccessorTarget)
      (o : Option B) (seen seen1 seen' : List InstId)
      → Passes enter
      → ((seen1 : List InstId)
          → walk_edges enter edges seen1 ≡ done (none, seen')
          → Passed seen1 seen')
      → enter x seen ≡ done (o, seen1)
      → unless_broken (walk_edges enter edges) (o, seen1) ≡ done (none, seen')
      → Passed seen seen'
  round-Passed enter x edges (some b) seen seen1 seen' passes rest p q = cc
  round-Passed enter x edges none seen seen1 seen' passes rest p q =
      Passed-trans seen seen1 seen' (passes x seen seen1 p) (rest seen1 q)

  walk_edges-Passes :
      (enter : InstId → List InstId → Fueled (Walk B))
      → Passes enter
      → (edges : List SuccessorTarget) (seen seen' : List InstId)
      → walk_edges enter edges seen ≡ done (none, seen')
      → Passed seen seen'
  unfolding walk_edges
  walk_edges-Passes enter passes [] seen seen' e = Passed-same seen seen' (cc)
  walk_edges-Passes enter passes (return_target ∷ edges) seen seen' e =
      walk_edges-Passes enter passes edges seen seen' e
  walk_edges-Passes enter passes (id x ∷ edges) seen seen' e =
      let ((o, seen1), entered, rest) = >>=-eq-done (enter x seen) _ e in
      round-Passed enter x edges o seen seen1 seen' passes
        (λ s. walk_edges-Passes enter passes edges s seen') entered rest

  walk_block-Passed :
      (enter : InstId → List InstId → Fueled (Walk B))
      → Passes enter
      → (i : InstId) (o : Option B) (block : Option Block) (seen seen' : List InstId) → fun i ≡ o
      → walk_block enter o block (i ∷ seen) ≡ done (none, seen')
      → Passed seen seen'
  unfolding walk_block
  walk_block-Passed enter passes i (some b) block seen seen' answer e k h = cc
  walk_block-Passed enter passes i none none seen seen' answer e k h = cc
  walk_block-Passed enter passes i none (some (end, edges)) seen seen' answer e k h =
      elim (walk_edges-Passes enter passes edges (i ∷ seen) seen' e k h) [
        | inr none_here ↦ inr none_here
        | inl old ↦ elim (Bool-cases (k == i)) [
          | inl same ↦ inr (ap fun ((==_iff k i).0 same) ∙ answer)
          | inr other ↦ inl (ground (arith, old, other))
        ]
      ]

  walk-Passes : (fuel : ℕ) → Passes (walk succs fun fuel)
  unfolding walk
  walk-Passes zero i seen seen' e = cc
  walk-Passes (suc fuel) i seen seen' e = elim (Bool-cases (contains seen i)) [
    | inl old ↦
        let entered : ◌≡◌ {A = Fueled (Walk B)} (done (none, seen)) (done (none, seen')) =
          rw old at e in
        Passed-same seen seen' (cc)
    | inr new ↦
        walk_block-Passed (walk succs fun fuel) (walk-Passes fuel) i (fun i) (first_from succs i)
          seen seen' refl (rw new at e)
  ]

  pub for_each_transitive_successor_passes :
      (fuel : ℕ) (inst : InstId) (seen : List InstId)
      → for_each_transitive_successor succs fun fuel inst ≡ done (none, seen)
      → (k : InstId) → contains seen k ≡ true
      → fun k ≡ none
  unfolding for_each_transitive_successor
  for_each_transitive_successor_passes fuel inst seen e k h =
      elim (walk-Passes fuel inst [] seen e k h) [ inl nothing ↦ cc | inr none_here ↦ none_here ]

  -- If the walk returns and the callback has not broken it, then it has entered exactly those
  -- blocks to which a path of edges leads from the start, and the callback answers at each of them
  -- that the walk goes on.
  pub for_each_transitive_successor-Reach :
      (fuel : ℕ) (inst : InstId) (seen : List InstId)
      → for_each_transitive_successor succs fun fuel inst ≡ done (none, seen)
      → (j : InstId)
      → ((contains seen j ≡ true) ↔ Reach succs inst j) × (Reach succs inst j → fun j ≡ none)
  for_each_transitive_successor-Reach fuel inst seen e j =
      let entered = for_each_transitive_successor_enters succs fun fuel inst seen e j in
      (entered, λ path. for_each_transitive_successor_passes fuel inst seen e j (entered.1 path))
