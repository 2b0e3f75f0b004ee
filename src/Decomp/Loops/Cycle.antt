-- ===== src/Decomp/Loops/Cycle.antt =====
-- `find_cycle` finds a cycle exactly where there is one.
use doldisasm.Base.{ℕ, zero, suc, ◌<◌, Bool, true, false, ◌==◌, ==_iff, Bool-cases, contains}
use doldisasm.Base.{none, some, List, [], ◌∷◌, ◌≡◌, ◌↔◌, refl, ap, subst, ◌⊎◌, inl, inr, arith}
use doldisasm.Base.Absent.{absent, absent-lt, absent-le_self}
use doldisasm.Base.Fueled.{Fueled, done}
use doldisasm.Base.BtreeMap.{first_from}
use doldisasm.Decomp.Cfg.{InstId, SuccessorTarget, Successors}
use doldisasm.Decomp.Reach.{Walk}
use doldisasm.Decomp.Reach.Paths.{edge, Reach, here, next, Reach_first, Reach-closed, IsBounded}
use doldisasm.Decomp.Reach.Explore.{Grows, Enters, Explores-refl, Closed, walk_block-Explores}
use doldisasm.Decomp.Reach.Breaks.{Breaks, BrokenAt, walk_block-Breaks}
use doldisasm.Decomp.Reach.Ends.{Returning, walk_edges-Returns, block_entered}
use doldisasm.Decomp.Loops.{closes, find_cycle_inner, found, find_cycle}

-- A way of one or more edges from a block back to itself.
abbrev pub OnCycle : Successors → InstId → Type 0
OnCycle succs i = (j : InstId) × Reach succs i j × (edge succs j i ≡ true)

closes-none : (b : Bool) → closes b ≡ none → b ≡ false
closes-none true e = cc
closes-none false e = refl

closes-some : (b : Bool) (u : Unit {0}) → closes b ≡ some u → b ≡ true
closes-some true u e = refl
closes-some false u e = cc

none-some {ℓ} : {A : Type ℓ} {a : A} → ¬ (none ≡ some a)
none-some e = cc

false-true : ¬ (false ≡ true)
false-true e = cc

-- An edge and a path behind it, read from the path's last edge.
close :
    (succs : Successors) {i t k : InstId}
    → edge succs i t ≡ true
    → Reach succs t k
    → (j : InstId) × Reach succs i j × (edge succs j k ≡ true)
close succs {i} e here = (i, here, e)
close succs e (next {t} {u} path last) = (t, Reach_first succs e path, last)

module _ (succs : Successors) (start : InstId) where
  -- With the start in the set, a call that finds nothing was not at the start.
  abbrev Other : InstId → Type 0
  Other t = (t == start) ≡ false

  abbrev Started : List InstId → Type 0
  Started seen = contains seen start ≡ true

  unlike_start :
      (seen : List InstId) (i : InstId) → contains seen i ≡ false → Started seen → Other i
  unlike_start seen i new ready = elim (Bool-cases (i == start)) [
    | inl same ↦ ground (arith, ap (contains seen) ((==_iff i start).0 same), new, ready)
    | inr other ↦ other
  ]

  none_found :
      (fuel : ℕ)
      → Enters succs Other Started
          (λ s s' g r. g start r)
          {B = Unit {0}}
          (find_cycle_inner succs start fuel)
  unfolding find_cycle_inner
  none_found zero i seen seen' ready e = cc
  none_found (suc fuel) i seen seen' ready e = elim (Bool-cases (contains seen i)) [
    | inl old ↦
        let entered : ◌≡◌ {A = Fueled (Walk (Unit {0}))} (done (closes (i == start), seen))
            (done (none, seen')) =
          rw old at e in
        let same : seen ≡ seen' = cc in
        (
          Explores-refl succs Other (λ r. i ≡ r) seen seen' same,
          subst (λ s. contains s i ≡ true) same old,
          closes-none (i == start) (cc),
        )
    | inr new ↦
        let (explores, entered) =
          walk_block-Explores succs Other Started (λ s s' g r. g start r)
            (find_cycle_inner succs start fuel) (none_found fuel) i seen seen' none
            (first_from succs i) (ground (arith, ready)) refl (rw new at e) in
        (explores, entered, unlike_start seen i new ready)
  ]

  -- A call that finds a cycle was at a block from which the start can be reached.
  some_found : (fuel : ℕ) → Breaks (λ b i. Reach succs i start) (find_cycle_inner succs start fuel)
  unfolding find_cycle_inner edge
  some_found zero i seen seen' b e = cc
  some_found (suc fuel) i seen seen' b e = elim (Bool-cases (contains seen i)) [
    | inl old ↦
        let entered : ◌≡◌ {A = Fueled (Walk (Unit {0}))} (done (closes (i == start), seen))
            (done (some b, seen')) =
          rw old at e in
        subst (Reach succs i) ((==_iff i start).0 (closes-some (i == start) b (cc))) here
    | inr new ↦
        elim (walk_block-Breaks (λ b i. Reach succs i start) (find_cycle_inner succs start fuel)
          (some_found fuel) none (first_from succs i) (i ∷ seen) seen' b (rw new at e)) [
            | inl answer ↦ absurd (none-some answer)
            | inr (end, edges, block, (t, leads, path)) ↦ Reach_first succs (rw block leads) path
          ]
  ]

  on_cycle :
      (b : Unit {0})
      → (none ≡ some b)
        ⊎ ((end : ℕ) × (edges : List SuccessorTarget) × (first_from succs start ≡ some (end, edges))
            × BrokenAt (λ i. Reach succs i start) edges)
      → OnCycle succs start
  unfolding edge
  on_cycle b (inl answer) = absurd (none-some answer)
  on_cycle b (inr (end, edges, block, (t, leads, path))) = close succs (rw block leads) path

  no_cycle :
      (seen : List InstId)
      → ((j : InstId)
          → contains seen j ≡ true
          → (contains [] j ≡ true)
            ⊎ (((r : InstId) × (start ≡ r) × Reach succs r j) × Closed succs Other seen j))
      → contains seen start ≡ true
      → (j : InstId) → Reach succs start j
      → ¬ (edge succs j start ≡ true)
  no_cycle seen new entered j path back =
      let closed : (k : InstId) → contains seen k ≡ true → Closed succs Other seen k =
        λ k h. elim (new k h) [ inl old ↦ absurd (false-true old) | inr (found, shut) ↦ shut ] in
      let inside : contains seen j ≡ true =
        Reach-closed succs (contains seen) (λ k t h out. (closed k h t out).0) entered path in
      ground (arith, (closed j inside start back).1)

  found-OnCycle :
      (fuel : ℕ) (w : Walk (Unit {0}))
      → find_cycle_inner succs start fuel start [] ≡ done w
      → (found w ≡ true) ↔ OnCycle succs start
  unfolding find_cycle_inner edge
  found-OnCycle zero w e = cc
  found-OnCycle (suc fuel) (some b, seen) e = (
    λ _. on_cycle b (
        walk_block-Breaks (λ b i. Reach succs i start) (find_cycle_inner succs start fuel)
          (some_found fuel) none (first_from succs start) (start ∷ []) seen b e),
    λ _. refl,
  )
  found-OnCycle (suc fuel) (none, seen) e =
      let ((grows, new), entered) =
        walk_block-Explores succs Other Started (λ s s' g r. g start r)
          (find_cycle_inner succs start fuel) (none_found fuel) start [] seen none
          (first_from succs start) (ground arith) refl e in
      (λ h. cc, λ (j, path, back). absurd (no_cycle seen new entered j path back))

module _ (succs : Successors) (n : ℕ) (bounded : IsBounded succs n) where
  find_cycle_inner-Returning :
      (start : InstId) (fuel : ℕ) → Returning n fuel (find_cycle_inner succs start fuel)
  unfolding find_cycle_inner
  find_cycle_inner-Returning start zero i seen lt few = absurd (omega arith)
  find_cycle_inner-Returning start (suc fuel) i seen lt few = elim (Bool-cases (contains seen i)) [
    | inl old ↦ rw old ((closes (i == start), seen), refl, λ k h. h)
    | inr new ↦
        let (end, edges, block, below) = bounded i lt in
        let grows : Grows seen (i ∷ seen) = λ k h. ground (arith, h) in
        let fewer : absent (contains (i ∷ seen)) n < absent (contains seen) n =
          absent-lt (contains seen) (contains (i ∷ seen)) n i grows lt new (ground arith) in
        let (w, e, grows1) =
          walk_edges-Returns n fuel (find_cycle_inner succs start fuel)
            (find_cycle_inner-Returning start fuel) edges (i ∷ seen) below (omega arith) in
        rw (new, block)
          (block_entered n (find_cycle_inner succs start fuel) none end edges i seen
            (w, e, λ k h. grows1 k (grows k h)))
  ]

  -- If below a bound every instruction belongs to a block whose edges stay below it, `find_cycle`
  -- returns on one unit of fuel more than the bound, for each instruction below it, and returns
  -- whether a way of one or more edges leads from the instruction back to itself.
  pub find_cycle-OnCycle :
      (inst : InstId)
      → inst < n
      → (b : Bool) × (find_cycle succs (suc n) inst ≡ done b) × ((b ≡ true) ↔ OnCycle succs inst)
  unfolding find_cycle
  find_cycle-OnCycle inst lt =
      let (w, e, grows) =
        find_cycle_inner-Returning inst (suc n) inst [] lt
          (omega (arith, absent-le_self (contains []) n)) in
      (found w, rw e, found-OnCycle succs inst (suc n) w e)
