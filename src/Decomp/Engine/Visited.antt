-- ===== src/Decomp/Engine/Visited.antt =====
-- The blocks that the worklist loop records a state for.
use doldisasm.Base.{ℕ, zero, suc, Bool, true, ==_iff}
use doldisasm.Base.{
  contains, List, [], ◌∷◌, ◌≡◌, ◌↔◌, refl, ap, sym, subst, ◌∙◌, ◌⊎◌, inl, inr, arith,
}
use doldisasm.Base.Fueled.{Fueled, done, lift-eq-done}
use doldisasm.Decomp.Cfg.{InstId, Successors}
use doldisasm.Decomp.Reach.Paths.{leads_to}
use doldisasm.Decomp.Engine.{
  Dataflow, States, insert_state, Progress, visit_block, run_from, started, run,
}
use doldisasm.Decomp.Engine.Steps.{has, has-insert_state, Extends, exits, visit_block-Extends}

module _ {State Item Recording : Type 0} (d : Dataflow State Item Recording)
    (succs : Successors) where
  -- Whether the edges of the block that starts at an instruction lead to another.
  abbrev pub leaves_to : InstId → InstId → Bool
  leaves_to i t = leads_to (exits d succs (d.iter_block i)) t

  -- The initial block, and those that edges lead to from it.
  pub data Visited : InstId → Type 0 where
    first : Visited d.initial_idx
    later : {i j : InstId} → Visited i → leaves_to i j ≡ true → Visited j

  abbrev Shut : Progress State Recording → InstId → Type 0
  Shut p i = (t : InstId) → leaves_to i t ≡ true → has p.entry_states t ≡ true

  -- The invariant of the loop.
  pub record Explored (p : Progress State Recording) : Type 0 where
    pub queued : (j : InstId) → contains p.queue j ≡ true → Visited j
    pub stored : (j : InstId) → has p.entry_states j ≡ true → Visited j
    pub shut : (j : InstId) → has p.entry_states j ≡ true → (contains p.queue j ≡ true) ⊎ Shut p j
    pub begun : (contains p.queue d.initial_idx ≡ true) ⊎ (has p.entry_states d.initial_idx ≡ true)

  module _ (p q : Progress State Recording) (idx : InstId) (queue : List InstId) (s : State)
      (popped : p.queue ≡ idx ∷ queue) (inv : Explored p)
      (step : Extends
        (record p { queue = queue; entry_states = insert_state p.entry_states idx s })
        q
        (exits d succs (d.iter_block idx))) where
    rest_queued : (j : InstId) → contains queue j ≡ true → contains p.queue j ≡ true
    rest_queued j h = ap (λ l. contains l j) popped ∙ ground (arith, h)

    current : Visited idx
    current = inv.queued idx (ap (λ l. contains l idx) popped ∙ ground arith)

    kept : (j : InstId) → has p.entry_states j ≡ true → has q.entry_states j ≡ true
    kept j h = step.keeps_states j (has-insert_state p.entry_states idx s j ∙ ground (arith, h))

    -- A block with a state when the round began: the current one, or one that had it before.
    had_state :
        (j : InstId)
        → has (insert_state p.entry_states idx s) j ≡ true
        → (j ≡ idx) ⊎ (has p.entry_states j ≡ true)
    had_state j h = ground (arith, h, has-insert_state p.entry_states idx s j, (==_iff j idx).0)

    in_queue : (j : InstId) → contains p.queue j ≡ true → (j ≡ idx) ⊎ (contains queue j ≡ true)
    in_queue j h = ground (arith, sym (ap (λ l. contains l j) popped) ∙ h, (==_iff j idx).0)

    round-Shut : (j : InstId) → has q.entry_states j ≡ true → (contains q.queue j ≡ true) ⊎ Shut q j
    round-Shut j h = elim (step.new_state j h) [
      | inr (queued, leads) ↦ inl queued
      | inl old ↦ elim (had_state j old) [
        | inl same ↦ inr (subst (Shut q) (sym same) step.all_states)
        | inr older ↦ elim (inv.shut j older) [
          | inr closed ↦ inr (λ t leads. kept t (closed t leads))
          | inl waiting ↦ elim (in_queue j waiting) [
            | inl same ↦ inr (subst (Shut q) (sym same) step.all_states)
            | inr behind ↦ inl (step.keeps_queue j behind)
          ]
        ]
      ]
    ]

    pub round-Explored : Explored q
    round-Explored = record {
      queued = λ j h. elim (step.new_queue j h) [
        | inl old ↦ inv.queued j (rest_queued j old)
        | inr leads ↦ later current leads
      ];
      stored = λ j h. elim (step.new_state j h) [
        | inr (queued, leads) ↦ later current leads
        | inl old ↦ elim (had_state j old) [
          | inl same ↦ subst Visited (sym same) current
          | inr older ↦ inv.stored j older
        ]
      ];
      shut = round-Shut;
      begun = elim inv.begun [
        | inr has_state ↦ inr (kept d.initial_idx has_state)
        | inl waiting ↦ elim (in_queue d.initial_idx waiting) [
          | inl same ↦ inr (
              step.keeps_states d.initial_idx (
                has-insert_state p.entry_states idx s d.initial_idx
                ∙ ground (arith, (==_iff d.initial_idx idx).1 same)))
          | inr behind ↦ inl (step.keeps_queue d.initial_idx behind)
        ]
      ];
    }

  not_queued :
      (p : Progress State Recording) → p.queue ≡ [] → (j : InstId) → ¬ (contains p.queue j ≡ true)
  not_queued p e j h = ground (arith, sym (ap (λ l. contains l j) e) ∙ h)

  -- With an empty queue no edge leaves the blocks with a state.
  all_stored :
      (p : Progress State Recording)
      → p.queue ≡ []
      → Explored p
      → {j : InstId} → Visited j
      → has p.entry_states j ≡ true
  all_stored p e inv first = elim inv.begun [
    | inl waiting ↦ absurd (not_queued p e d.initial_idx waiting)
    | inr stored ↦ stored
  ]
  all_stored p e inv (later {i} {j} before leads) = elim (inv.shut i (all_stored p e inv before)) [
    | inl waiting ↦ absurd (not_queued p e i waiting)
    | inr closed ↦ closed j leads
  ]

  pub nothing_stored : Explored (started d)
  nothing_stored = record {
    queued = λ j h. subst Visited (sym ((==_iff j d.initial_idx).0 (ground (arith, h)))) first;
    stored = λ j h. cc;
    shut = λ j h. cc;
    begun = inl (ground arith);
  }

  run_from-Visited :
      (fuel : ℕ) (p : Progress State Recording) (queue : List InstId) (states : States State)
      → p.queue ≡ queue
      → Explored p
      → run_from d succs fuel p ≡ done states
      → (j : InstId) → (has states j ≡ true) ↔ Visited j
  unfolding run_from
  run_from-Visited zero p queue states e inv ran = cc
  run_from-Visited (suc fuel) p [] states e inv ran =
      let finished : ◌≡◌ {A = Fueled (States State)} (done p.entry_states) (done states) =
        rw e at ran in
      let same : p.entry_states ≡ states = cc in
      subst (λ states. (j : InstId) → (has states j ≡ true) ↔ Visited j) same
        (λ j. (inv.stored j, all_stored p e inv))
  run_from-Visited (suc fuel) p (idx ∷ queue) states e inv ran =
      let (q, visited, rest) =
        lift-eq-done (visit_block d succs idx (record p { queue = queue })) (run_from d succs fuel)
          (rw e at ran) in
      let (s, step) = visit_block-Extends d succs idx (record p { queue = queue }) q visited in
      run_from-Visited fuel q q.queue states refl (round-Explored p q idx queue s e inv step) rest

  -- If the worklist loop returns, it has recorded a state for exactly the initial block and those
  -- to which the edges at the ends of blocks lead from it.
  pub run-Visited :
      (fuel : ℕ) (states : States State)
      → run d succs fuel ≡ done states
      → (j : InstId) → (has states j ≡ true) ↔ Visited j
  unfolding run
  run-Visited fuel states ran =
      run_from-Visited fuel (started d) (d.initial_idx ∷ []) states refl nothing_stored ran
