-- ===== src/Decomp/Reach/Explore.antt =====
-- A walk that the callback does not break enters exactly the blocks that can be reached.
use doldisasm.Base.{ℕ, zero, suc, true, ◌==◌, ==_iff, Bool-cases, contains}
use doldisasm.Base.{
  Option, none, some, List, [], ◌∷◌, ◌≡◌, ◌↔◌, refl, ap, sym, subst, ◌∙◌, ◌⊎◌, inl, inr, arith,
}
use doldisasm.Base.Fueled.{Fueled, done, >>=-eq-done}
use doldisasm.Base.BtreeMap.{first_from}
use doldisasm.Decomp.Cfg.{InstId, SuccessorTarget, id, return_target, Successors}
use doldisasm.Decomp.Reach.{
  Walk, Block, unless_broken, walk_edges, walk_block, walk, for_each_transitive_successor,
}
use doldisasm.Decomp.Reach.Paths.{leads_to, edge, Reach, here, Reach_first, Reach-closed}

abbrev pub Grows : List InstId → List InstId → Type 0
Grows seen seen' = (k : InstId) → contains seen k ≡ true → contains seen' k ≡ true

abbrev pub IsTarget : List SuccessorTarget → InstId → Type 0
IsTarget edges r = leads_to edges r ≡ true

-- `Fine` is what the walk checks of a block that it enters or has entered.
module _ (succs : Successors) (Fine : InstId → Type 0) where
  -- No edge of the block leads out of the set, or to a block that is not fine.
  abbrev pub Closed : List InstId → InstId → Type 0
  Closed seen j = (t : InstId) → edge succs j t ≡ true → (contains seen t ≡ true) × Fine t

  -- What is new can be reached from one of the starts, and its edges are in the set.
  abbrev pub Explores : (InstId → Type 0) → List InstId → List InstId → Type 0
  Explores Start seen seen' =
      Grows seen seen'
      × ((j : InstId)
          → contains seen' j ≡ true
          → (contains seen j ≡ true)
            ⊎ (((r : InstId) × Start r × Reach succs r j) × Closed seen' j))

  pub Explores-refl :
      (Start : InstId → Type 0) (seen seen' : List InstId)
      → seen ≡ seen'
      → Explores Start seen seen'
  Explores-refl Start seen seen' same = subst (Explores Start seen) same (λ k h. h, λ j h. inl h)

  Explores-trans :
      (First Second Start : InstId → Type 0) (s0 s1 s2 : List InstId)
      → ((r : InstId) → First r → Start r)
      → ((r : InstId) → Second r → Start r)
      → Explores First s0 s1
      → Explores Second s1 s2
      → Explores Start s0 s2
  Explores-trans First Second Start s0 s1 s2 f g (grows1, new1) (grows2, new2) = (
    λ k h. grows2 k (grows1 k h),
    λ j h. elim (new2 j h) [
      | inr ((r, start, path), closed) ↦ inr ((r, g r start, path), closed)
      | inl old ↦ elim (new1 j old) [
        | inl older ↦ inl older
        | inr ((r, start, path), closed) ↦
            inr ((r, f r start, path), λ t e. (grows2 t (closed t e).0, (closed t e).1))
      ]
    ],
  )

  -- The block itself, and then what its edges lead to.
  Explores-block :
      (inst : InstId) (seen seen' : List InstId) (end : ℕ) (edges : List SuccessorTarget)
      → first_from succs inst ≡ some (end, edges)
      → Explores (IsTarget edges) (inst ∷ seen) seen'
      → ((t : InstId) → leads_to edges t ≡ true → (contains seen' t ≡ true) × Fine t)
      → Explores (λ r. inst ≡ r) seen seen'
  unfolding edge
  Explores-block inst seen seen' end edges found (grows, new) targets =
      let leads : (t : InstId) → edge succs inst t ≡ leads_to edges t = λ t. rw found in
      (
        λ k h. grows k (ground (arith, h)),
        λ j h. elim (new j h) [
          | inr ((r, start, path), closed) ↦
              inr ((inst, refl, Reach_first succs (leads r ∙ start) path), closed)
          | inl old ↦ elim (Bool-cases (j == inst)) [
            | inl same ↦
                let e : inst ≡ j = sym ((==_iff j inst).0 same) in
                inr (
                  (inst, refl, subst (Reach succs inst) e here),
                  λ t out. targets t (sym (leads t) ∙ (ap (λ k. edge succs k t) e ∙ out)),
                )
            | inr other ↦ inl (ground (arith, other, old))
          ]
        ],
      )

  -- What an unbroken loop over edges leaves.
  abbrev pub Follows : List SuccessorTarget → List InstId → List InstId → Type 0
  Follows edges seen seen' =
      Explores (IsTarget edges) seen seen'
      × ((t : InstId) → leads_to edges t ≡ true → (contains seen' t ≡ true) × Fine t)

  first_edge :
      (x : InstId) (edges : List SuccessorTarget) (seen seen1 seen' : List InstId)
      → Explores (λ r. x ≡ r) seen seen1
      → (contains seen1 x ≡ true) × Fine x
      → Follows edges seen1 seen'
      → Follows (id x ∷ edges) seen seen'
  first_edge x edges seen seen1 seen' first entered (second, targets) = (
    Explores-trans (λ r. x ≡ r) (IsTarget edges) (IsTarget (id x ∷ edges)) seen seen1 seen'
        (λ r e. ground arith) (λ r h. ground (arith, h)) first second,
    λ t h. elim (Bool-cases (t == x)) [
      | inl same ↦
          subst (λ k. (contains seen' k ≡ true) × Fine k) (sym ((==_iff t x).0 same))
            (second.0 x entered.0, entered.1)
      | inr other ↦ targets t (ground (arith, h, other))
    ],
  )

-- `Ready` says from which sets on the walk checks this.
module _ (succs : Successors) (Fine : InstId → Type 0) (Ready : List InstId → Type 0)
    (stays : (s s' : List InstId) → Grows s s' → Ready s → Ready s') {B : Type 0} where
  abbrev pub Enters : (InstId → List InstId → Fueled (Walk B)) → Type 0
  Enters enter =
      (i : InstId) (seen seen' : List InstId)
      → Ready seen
      → enter i seen ≡ done (none, seen')
      → Explores succs Fine (λ r. i ≡ r) seen seen' × (contains seen' i ≡ true) × Fine i

  after_first :
      (enter : InstId → List InstId → Fueled (Walk B)) (x : InstId) (edges : List SuccessorTarget)
      (seen seen1 seen' : List InstId) (o : Option B)
      → Enters enter
      → (Ready seen1
          → walk_edges enter edges seen1 ≡ done (none, seen')
          → Follows succs Fine edges seen1 seen')
      → Ready seen
      → enter x seen ≡ done (o, seen1)
      → unless_broken (walk_edges enter edges) (o, seen1) ≡ done (none, seen')
      → Follows succs Fine (id x ∷ edges) seen seen'
  after_first enter x edges seen seen1 seen' (some b) enters rest ready p q = cc
  after_first enter x edges seen seen1 seen' none enters rest ready p q =
      let (first, entered, fine) = enters x seen seen1 ready p in
      first_edge succs Fine x edges seen seen1 seen' first (entered, fine)
        (rest (stays seen seen1 first.0 ready) q)

  walk_edges-Follows :
      (enter : InstId → List InstId → Fueled (Walk B))
      → Enters enter
      → (edges : List SuccessorTarget) (seen seen' : List InstId) → Ready seen
      → walk_edges enter edges seen ≡ done (none, seen')
      → Follows succs Fine edges seen seen'
  unfolding walk_edges
  walk_edges-Follows enter enters [] seen seen' ready e =
      (Explores-refl succs Fine (IsTarget []) seen seen' (cc), λ t h. cc)
  walk_edges-Follows enter enters (return_target ∷ edges) seen seen' ready e =
      walk_edges-Follows enter enters edges seen seen' ready e
  walk_edges-Follows enter enters (id x ∷ edges) seen seen' ready e =
      let ((o, seen1), entered, rest) = >>=-eq-done (enter x seen) _ e in
      after_first enter x edges seen seen1 seen' o enters
        (walk_edges-Follows enter enters edges seen1 seen') ready entered rest

  pub walk_block-Explores :
      (enter : InstId → List InstId → Fueled (Walk B))
      → Enters enter
      → (inst : InstId) (seen seen' : List InstId) (answer : Option B) (block : Option Block)
      → Ready (inst ∷ seen)
      → first_from succs inst ≡ block
      → walk_block enter answer block (inst ∷ seen) ≡ done (none, seen')
      → Explores succs Fine (λ r. inst ≡ r) seen seen' × (contains seen' inst ≡ true)
  unfolding walk_block
  walk_block-Explores enter enters inst seen seen' (some b) block ready found e = cc
  walk_block-Explores enter enters inst seen seen' none none ready found e = cc
  walk_block-Explores enter enters inst seen seen' none (some (end, edges)) ready found e =
      let (explores, targets) = walk_edges-Follows enter enters edges (inst ∷ seen) seen' ready e in
      (
        Explores-block succs Fine inst seen seen' end edges found explores targets,
        explores.0 inst (ground arith),
      )

-- The plain walk checks nothing.
abbrev Anything {ℓ} : {A : Type ℓ} → A → Type 0
Anything x = Unit

module _ (succs : Successors) {B : Type 0} where
  walk-Explores :
      (fun : InstId → Option B) (fuel : ℕ)
      → Enters succs Anything Anything (λ s s' g r. tt) {B = B} (walk succs fun fuel)
  unfolding walk
  walk-Explores fun zero i seen seen' ready e = cc
  walk-Explores fun (suc fuel) i seen seen' ready e = elim (Bool-cases (contains seen i)) [
    | inl old ↦
        let same : seen ≡ seen' = ground (arith, e, old) in
        (
          Explores-refl succs Anything (λ r. i ≡ r) seen seen' same,
          subst (λ s. contains s i ≡ true) same old,
          tt,
        )
    | inr new ↦
        let (explores, entered) =
          walk_block-Explores succs Anything Anything (λ s s' g r. tt) (walk succs fun fuel)
            (walk-Explores fun fuel) i seen seen' (fun i) (first_from succs i) tt refl
            (rw new at e) in
        (explores, entered, tt)
  ]

  -- What it has entered, as far as the set of blocks goes.
  pub for_each_transitive_successor_enters :
      (fun : InstId → Option B) (fuel : ℕ) (inst : InstId) (seen : List InstId)
      → for_each_transitive_successor succs fun fuel inst ≡ done (none, seen)
      → (j : InstId) → (contains seen j ≡ true) ↔ Reach succs inst j
  unfolding for_each_transitive_successor
  for_each_transitive_successor_enters fun fuel inst seen e j =
      let ((grows, new), entered, fine) = walk-Explores fun fuel inst [] seen tt e in
      let fresh : (k : InstId)
          → contains seen k ≡ true
          → ((r : InstId) × (inst ≡ r) × Reach succs r k) × Closed succs Anything seen k =
        λ k h. elim (new k h) [ inl old ↦ absurd (cc) | inr found ↦ found ] in
      (
        λ h.
            let ((r, start, path), closed) = fresh j h in
            subst (λ k. Reach succs k j) (sym start) path,
        Reach-closed succs (contains seen) (λ k t h out. ((fresh k h).1 t out).0) entered,
      )
