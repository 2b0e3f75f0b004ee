-- ===== src/Decomp/Loops/Find.antt =====
-- `find_loops` returns, and lists the blocks with predecessors that lie on a cycle.
use doldisasm.Base.{
  ℕ, zero, suc, ◌<◌, Bool, true, false, ◌||◌, ◌&&◌, ◌==◌, ==_iff, Bool-cases, contains,
}
use doldisasm.Base.{
  Option, some, List, [], ◌∷◌, ◌++◌, map, All, length, ◌≡◌, ◌↔◌, refl, ap, sym, subst, ◌∙◌, ◌⊎◌,
  inl, inr, arith,
}
use doldisasm.Base.Absent.{absent, absent-le, absent-lt, absent-le_self}
use doldisasm.Base.Fueled.{Fueled, done}
use doldisasm.Base.BtreeMap.{first_from}
use doldisasm.Decomp.Cfg.{InstId, SuccessorTarget, id, return_target, Predecessors, Successors}
use doldisasm.Decomp.Reach.Paths.{leads_to}
use doldisasm.Decomp.Reach.Explore.{Grows}
use doldisasm.Decomp.Loops.{
  RecResult, exit_path, cycle, combine, Recursion, through, edge_result, reduce_edges, merge_block,
  find_common_mergepoint_of_loop_inner, find_common_mergepoint_of_loop, merge_of, Loop, LoopMap,
  loop_at, loops_from, key, find_loops,
}
use doldisasm.Decomp.Reach.Paths.{IsBounded}
use doldisasm.Decomp.Loops.Cycle.{OnCycle, find_cycle-OnCycle}

true-false : ¬ (false ≡ true)
true-false e = cc

==_comm : (x y : ℕ) → (x == y) ≡ (y == x)
==_comm x y = ground arith

either_of : {R : Type 0} {x y : Bool} → x ≡ y → (y ≡ true) ⊎ R → (x ≡ true) ⊎ R
either_of e (inl h) = inl (e ∙ h)
either_of e (inr r) = inr r

-- One more key: `same` is whether it is the instruction, `b` whether it is on a cycle, `inside`
-- whether the instruction is a later key, `old` and `now` whether a loop starts there before and
-- after.
key_added :
    {C : Type 0} (inside b same old now : Bool)
    → (same ≡ true → (b ≡ true) ↔ C)
    → now ≡ (old || (b && same))
    → ((now ≡ true) ⊎ ((inside ≡ true) × C)) ↔ ((old ≡ true) ⊎ (((same || inside) ≡ true) × C))
key_added inside b same true now cyc e = (λ _. inl refl, λ _. inl e)
key_added inside true true false now cyc e = (λ _. inr (refl, (cyc refl).0 refl), λ _. inl e)
key_added inside true false false now cyc e = (either_of (sym e), either_of e)
key_added inside false true false now cyc e = (
  λ h. elim h [ inl now ↦ inl (sym e ∙ now) | inr (_, c) ↦ inr (refl, c) ],
  λ h. elim h [ inl old ↦ inl (e ∙ old) | inr (_, c) ↦ absurd (true-false ((cyc refl).1 c)) ],
)
key_added inside false false false now cyc e = (either_of (sym e), either_of e)

leads_first :
    (x : SuccessorTarget) (edges : List SuccessorTarget) (t : InstId)
    → leads_to (x ∷ []) t ≡ true
    → leads_to (x ∷ edges) t ≡ true
leads_first (id y) edges t h = ground (arith, h)
leads_first return_target edges t h = cc

leads_rest :
    (x : SuccessorTarget) (edges : List SuccessorTarget) (t : InstId)
    → leads_to edges t ≡ true
    → leads_to (x ∷ edges) t ≡ true
leads_rest (id y) edges t h = ground (arith, h)
leads_rest return_target edges t h = h

module _ (n : ℕ) where
  abbrev ReturnsFrom : List InstId → Fueled (RecResult × List InstId) → Type 0
  ReturnsFrom seen r = (w : RecResult × List InstId) × (r ≡ done w) × Grows seen w.1

  abbrev Returning : ℕ → Recursion → Type 0
  Returning fuel enter =
      (i : InstId) (seen : List InstId)
      → i < n
      → absent (contains seen) n < fuel
      → ReturnsFrom seen (enter i seen)

  module _ (fuel : ℕ) (enter : Recursion) (returning : Returning fuel enter) (cur : InstId) where
    edge_result-Returns :
        (e : SuccessorTarget) (seen : List InstId)
        → ((t : InstId) → leads_to (e ∷ []) t ≡ true → t < n)
        → absent (contains seen) n < fuel
        → ReturnsFrom seen (edge_result enter cur e seen)
    edge_result-Returns (id x) seen below few =
        let (w, e, grows) = returning x seen (below x (ground arith)) few in
        ((through cur w.0, w.1), rw e, grows)
    edge_result-Returns return_target seen below few =
        ((exit_path (cur ∷ []), seen), refl, λ k h. h)

    reduce_edges-Returns :
        (acc : RecResult) (edges : List SuccessorTarget) (seen : List InstId)
        → ((t : InstId) → leads_to edges t ≡ true → t < n)
        → absent (contains seen) n < fuel
        → ReturnsFrom seen (reduce_edges enter cur acc edges seen)
    unfolding reduce_edges
    reduce_edges-Returns acc [] seen below few = ((acc, seen), refl, λ k h. h)
    reduce_edges-Returns acc (x ∷ edges) seen below few =
        let (w, e, grows) =
          edge_result-Returns x seen (λ t h. below t (leads_first x edges t h)) few in
        let (w', e', grows') =
          reduce_edges-Returns (combine cur acc w.0) edges w.1
            (λ t h. below t (leads_rest x edges t h))
            (omega (arith, absent-le (contains seen) (contains w.1) n grows)) in
        (w', rw e e', λ k h. grows' k (grows k h))

    merge_block-Returns :
        (end : ℕ) (edges : List SuccessorTarget) (seen : List InstId)
        → 0 < length edges
        → ((t : InstId) → leads_to edges t ≡ true → t < n)
        → absent (contains seen) n < fuel
        → ReturnsFrom seen (merge_block enter cur (some (end, edges)) seen)
    unfolding merge_block
    merge_block-Returns end [] seen some_edge below few = absurd (omega arith)
    merge_block-Returns end (x ∷ edges) seen some_edge below few =
        let (w, e, grows) =
          edge_result-Returns x seen (λ t h. below t (leads_first x edges t h)) few in
        let (w', e', grows') =
          reduce_edges-Returns w.0 edges w.1 (λ t h. below t (leads_rest x edges t h))
            (omega (arith, absent-le (contains seen) (contains w.1) n grows)) in
        (w', rw e e', λ k h. grows' k (grows k h))

-- Whether a list has a loop that starts at an instruction.
abbrev pub starts_loop : LoopMap → InstId → Bool
starts_loop [] i = false
starts_loop (l ∷ loops) i = l.start == i || starts_loop loops i

starts_loop-append :
    (loops : LoopMap) (l : Loop) (i : InstId)
    → starts_loop (loops ++ l ∷ []) i ≡ (starts_loop loops i || l.start == i)
starts_loop-append [] l i = ground arith
starts_loop-append (x ∷ loops) l i = ground (arith, starts_loop-append loops l i)

-- Every block has an edge.
abbrev pub HasEdges : Successors → ℕ → Type 0
HasEdges succs n =
    (i : InstId) (end : ℕ) (edges : List SuccessorTarget)
    → i < n
    → first_from succs i ≡ some (end, edges)
    → 0 < length edges

module _ (succs : Successors) (n : ℕ) (bounded : IsBounded succs n) (full : HasEdges succs n) where
  mergepoint-Returning :
      (fuel : ℕ) → Returning n fuel (find_common_mergepoint_of_loop_inner succs fuel)
  unfolding find_common_mergepoint_of_loop_inner
  mergepoint-Returning zero i seen lt few = absurd (omega arith)
  mergepoint-Returning (suc fuel) i seen lt few = elim (Bool-cases (contains seen i)) [
    | inl old ↦ rw old ((cycle, seen), refl, λ k h. h)
    | inr new ↦
        let (end, edges, block, below) = bounded i lt in
        let grows : Grows seen (i ∷ seen) = λ k h. ground (arith, h) in
        let fewer : absent (contains (i ∷ seen)) n < absent (contains seen) n =
          absent-lt (contains seen) (contains (i ∷ seen)) n i grows lt new (ground arith) in
        let (w, e, grows1) =
          merge_block-Returns n fuel (find_common_mergepoint_of_loop_inner succs fuel)
            (mergepoint-Returning fuel) i end edges (i ∷ seen) (full i end edges lt block) below
            (omega arith) in
        rw (new, block) (w, e, λ k h. grows1 k (grows k h))
  ]

  mergepoint_returns :
      (inst : InstId)
      → inst < n
      → (m : Option InstId) × (find_common_mergepoint_of_loop succs (suc n) inst ≡ done m)
  unfolding find_common_mergepoint_of_loop
  mergepoint_returns inst lt =
      let (w, e, grows) =
        mergepoint-Returning (suc n) inst [] lt (omega (arith, absent-le_self (contains []) n)) in
      (merge_of w.0, rw e)

  -- The loops that are added for an instruction.
  loop_at-returns :
      (b : Bool) (x : InstId) (loops : LoopMap)
      → x < n
      → (ls : LoopMap) × (loop_at succs (suc n) x b loops ≡ done ls)
        × ((i : InstId) → starts_loop ls i ≡ (starts_loop loops i || (b && x == i)))
  loop_at-returns true x loops lt =
      let (m, e) = mergepoint_returns x lt in
      (
        loops ++ record { start = x; common_merge_inst = m } ∷ [],
        rw e,
        λ i. starts_loop-append loops (record { start = x; common_merge_inst = m }) i,
      )
  loop_at-returns false x loops lt = (loops, refl, λ i. ground arith)

  loops_from-returns :
      (insts : List InstId) (loops : LoopMap)
      → All (λ i. i < n) insts
      → (ls : LoopMap) × (loops_from succs (suc n) insts loops ≡ done ls)
        × ((i : InstId)
            → (starts_loop ls i ≡ true)
              ↔ ((starts_loop loops i ≡ true) ⊎ ((contains insts i ≡ true) × OnCycle succs i)))
  unfolding loops_from
  loops_from-returns [] loops below = (
    loops,
    refl,
    λ i.
        (inl, λ h. elim h [ inl old ↦ old | inr (none_left, cyc) ↦ absurd (true-false none_left) ]),
  )
  loops_from-returns (x ∷ insts) loops (lt, below) =
      let (b, e, cyc) = find_cycle-OnCycle succs n bounded x lt in
      let (loops1, e1, starts) = loop_at-returns b x loops lt in
      let (ls, e2, all) = loops_from-returns insts loops1 below in
      (
        ls,
        rw (e, e1) e2,
        λ i.
            let one =
              key_added (contains insts i) b (i == x) (starts_loop loops i) (starts_loop loops1 i)
                (λ same. subst (λ k. (b ≡ true) ↔ OnCycle succs k) (sym ((==_iff i x).0 same)) cyc)
                (starts i ∙ ap (λ s. starts_loop loops i || (b && s)) (==_comm x i)) in
            (λ h. one.0 ((all i).0 h), λ h. (all i).1 (one.1 h)),
      )

  -- If below a bound every instruction belongs to a block that has edges, all of them below the
  -- bound, and every key of the predecessors is below it, `find_loops` returns on one unit of fuel
  -- more than the bound, and the loops that it returns start at those keys of the predecessors from
  -- which a way of one or more edges leads back to them, and nowhere else.
  pub find_loops-OnCycle :
      (preds : Predecessors)
      → All (λ i. i < n) (map key preds)
      → (ls : LoopMap) × (find_loops preds succs (suc n) ≡ done ls)
        × ((i : InstId)
            → (starts_loop ls i ≡ true) ↔ ((contains (map key preds) i ≡ true) × OnCycle succs i))
  unfolding find_loops
  find_loops-OnCycle preds below =
      let (ls, e, all) = loops_from-returns (map key preds) [] below in
      (
        ls,
        e,
        λ i. (
          λ h. elim ((all i).0 h) [ inl old ↦ absurd (true-false old) | inr r ↦ r ],
          λ r. (all i).1 (inr r),
        ),
      )
