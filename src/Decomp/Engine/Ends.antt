-- ===== src/Decomp/Engine/Ends.antt =====
-- The worklist loop ends if blocks are not visited again.
use doldisasm.Base.{ℕ, zero, suc, ◌<◌, ◌≤◌, ◌+◌, true, false, Bool-cases, Option-cases}
use doldisasm.Base.{
  length, Option, none, some, List, [], ◌∷◌, ◌≡◌, refl, ap, subst, ◌∙◌, inl, inr, arith,
}
use doldisasm.Base.Absent.{absent, absent-le, absent-lt, absent-le_self}
use doldisasm.Base.Checked.{Checked, returns, panics, >>=-eq-returns}
use doldisasm.Base.Fueled.{Fueled, lift, Ends}
use doldisasm.Base.BtreeMap.{get}
use doldisasm.Decomp.Cfg.{InstId, SuccessorTarget, id, return_target, Successors}
use doldisasm.Decomp.Reach.Paths.{leads_to}
use doldisasm.Decomp.Engine.{
  Dataflow, States, insert_state, no_states, Progress, joined_successor, visit_successor,
  visit_successors, leave_block, visit_items, entry_state, visit_block, run_from, started, run,
}
use doldisasm.Decomp.Engine.Steps.{has, has-insert_state}

-- Every edge leads below a bound.
abbrev pub StaysBelow : Successors → ℕ → Type 0
StaysBelow succs n =
    (i : InstId) (edges : List SuccessorTarget)
    → get succs i ≡ some edges
    → (t : InstId) → leads_to edges t ≡ true
    → t < n

module _ {State : Type 0} (n : ℕ) where
  absent-insert_state :
      (states : States State) (k : InstId) (s : State)
      → absent (has (insert_state states k s)) n ≤ absent (has states) n
  absent-insert_state states k s =
      absent-le (has states) (has (insert_state states k s)) n
        (λ j h. has-insert_state states k s j ∙ ground (arith, h))

  absent-insert_new :
      (states : States State) (k : InstId) (s : State)
      → k < n
      → has states k ≡ false
      → absent (has (insert_state states k s)) n < absent (has states) n
  absent-insert_new states k s lt new =
      absent-lt (has states) (has (insert_state states k s)) n k
        (λ j h. has-insert_state states k s j ∙ ground (arith, h)) lt new
        (has-insert_state states k s k ∙ ground arith)

module _ {State Recording : Type 0} (n : ℕ) where
  -- The blocks that have no state yet, and those that are queued.
  abbrev weight : Progress State Recording → ℕ
  weight p = absent (has p.entry_states) n + length p.queue

module _ {State Item Recording : Type 0} (d : Dataflow State Item Recording)
    (once : d.revisit_blocks ≡ false) (n : ℕ) where
  joined_successor-weight :
      (succ : InstId) (p : Progress State Recording) (old : State) (w : State × Recording)
      → weight n (joined_successor d p succ old w) ≤ weight n p
  joined_successor-weight succ p old (new, r) = elim (Bool-cases (d.same_state new old)) [
    | inl same ↦ rw same (omega arith)
    | inr other ↦ rw (other, once) (omega (arith, absent-insert_state n p.entry_states succ new))
  ]

  visit_successor-weight :
      (state : State) (succ : InstId) (p : Progress State Recording) (o : Option State)
      → succ < n
      → p.entry_states succ ≡ o
      → weight n (visit_successor d state succ o p) ≤ weight n p
  visit_successor-weight state succ p (some old) lt e =
      joined_successor-weight succ p old (d.join old state p.record_state)
  visit_successor-weight state succ p none lt e =
      omega (arith, absent-insert_new n p.entry_states succ state lt (rw e refl))

  visit_successors-weight :
      (state : State) (edges : List SuccessorTarget) (p : Progress State Recording)
      → ((t : InstId) → leads_to edges t ≡ true → t < n)
      → weight n (visit_successors d state edges p) ≤ weight n p
  unfolding visit_successors
  visit_successors-weight state [] p below = omega arith
  visit_successors-weight state (id succ ∷ edges) p below =
      let q : Progress State Recording = visit_successor d state succ (p.entry_states succ) p in
      omega (
        arith,
        visit_successor-weight state succ p (p.entry_states succ) (below succ (ground arith)) refl,
        visit_successors-weight state edges q (λ t h. below t (ground (arith, h))),
      )
  visit_successors-weight state (return_target ∷ edges) p below =
      visit_successors-weight state edges p below

  leave_block-weight :
      (state : State) (edges : List SuccessorTarget) (p q : Progress State Recording)
      → ((t : InstId) → leads_to edges t ≡ true → t < n)
      → leave_block d state edges p ≡ returns q
      → weight n q ≤ weight n p
  unfolding leave_block
  leave_block-weight state edges p q below e =
      let ((r, state'), after, last) =
        >>=-eq-returns (d.post_block_record p.record_state state) _ e in
      let same : visit_successors d state' edges (record p { record_state = r }) ≡ q = cc in
      subst (λ q. weight n q ≤ weight n p) same
        (visit_successors-weight state' edges (record p { record_state = r }) below)

  visit_items-weight :
      (succs : Successors) (state : State) (items : List (InstId × Item))
      (p q : Progress State Recording)
      → StaysBelow succs n
      → visit_items d succs state items p ≡ returns q
      → weight n q ≤ weight n p
  unfolding visit_items
  visit_items-weight succs state [] p q below e =
      let same : p ≡ q = cc in subst (λ q. weight n q ≤ weight n p) same (omega arith)
  visit_items-weight succs state ((idx, item) ∷ items) p q below e =
      let (state', applied, rest) = >>=-eq-returns (d.apply_effect state idx item) _ e in
      elim (Option-cases (get succs idx)) [
        | inl missing ↦ visit_items-weight succs state' items p q below (rw missing at rest)
        | inr (edges, found) ↦
            leave_block-weight state' edges p q (below idx edges found) (rw found at rest)
      ]

  visit_block-weight :
      (succs : Successors) (idx : InstId) (p q : Progress State Recording)
      → StaysBelow succs n
      → visit_block d succs idx p ≡ returns q
      → weight n q ≤ weight n p
  unfolding visit_block
  visit_block-weight succs idx p q below e =
      let (state, entered, rest) = >>=-eq-returns (entry_state d idx (p.entry_states idx)) _ e in
      let ((r, s), before, items) =
        >>=-eq-returns (d.pre_block_record p.record_state state) _ rest in
      omega (
        arith,
        absent-insert_state n p.entry_states idx s,
        visit_items-weight succs s (d.iter_block idx)
            (record p { entry_states = insert_state p.entry_states idx s; record_state = r }) q
            below items,
      )

  lift-Ends :
      {A B : Type 0} (c : Checked A) (f : A → Fueled B)
      → ((a : A) → c ≡ returns a → Ends (f a))
      → Ends (lift c f)
  lift-Ends (returns a) f h = h a refl
  lift-Ends panics f h = tt

  run_from-Ends :
      (succs : Successors)
      → StaysBelow succs n
      → (fuel : ℕ) (p : Progress State Recording) (queue : List InstId) → p.queue ≡ queue
      → weight n p < fuel
      → Ends (run_from d succs fuel p)
  unfolding run_from
  run_from-Ends succs below zero p queue e few = absurd (omega arith)
  run_from-Ends succs below (suc fuel) p [] e few = rw e tt
  run_from-Ends succs below (suc fuel) p (idx ∷ queue) e few =
      let short : length p.queue ≡ suc (length queue) = ap length e in
      rw e (
        lift-Ends (visit_block d succs idx (record p { queue = queue })) (run_from d succs fuel)
          (λ q visited. run_from-Ends succs below fuel q q.queue refl (
            omega
              (arith, visit_block-weight succs idx (record p { queue = queue }) q below visited))))

  -- If the analysis does not visit blocks again and every edge leads below a bound, the worklist
  -- loop ends on two units of fuel more than the bound: it returns or it panics.
  pub run-Ends : (succs : Successors) → StaysBelow succs n → Ends (run d succs (suc (suc n)))
  unfolding run
  run-Ends succs below =
      run_from-Ends succs below (suc (suc n)) (started d) (d.initial_idx ∷ []) refl
        (omega (arith, absent-le_self (has {State = State} no_states) n))
