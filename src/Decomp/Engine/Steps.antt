-- ===== src/Decomp/Engine/Steps.antt =====
-- What the rounds of the worklist loop add to the queue and to the states.
use doldisasm.Base.{Bool, true, false, ◌||◌, ◌==◌, ==_iff, Bool-cases, Option-cases, if◌then◌else◌}
use doldisasm.Base.{
  contains, Option, none, some, List, [], ◌∷◌, ◌≡◌, refl, sym, subst, ◌⊎◌, inl, inr, arith,
}
use doldisasm.Base.Checked.{returns, >>=-eq-returns}
use doldisasm.Base.BtreeMap.{get}
use doldisasm.Decomp.Cfg.{InstId, SuccessorTarget, id, return_target, Successors}
use doldisasm.Decomp.Reach.Paths.{leads_to}
use doldisasm.Decomp.Engine.{
  Dataflow, States, insert_state, Progress, joined_successor, visit_successor, visit_successors,
  leave_block, visit_items, entry_state, visit_block,
}

module _ {State : Type 0} where
  abbrev pub some_state : Option State → Bool
  some_state none = false
  some_state (some s) = true

  abbrev pub has : States State → InstId → Bool
  has states i = some_state (states i)

module _ {State Recording : Type 0} where
  -- What is added from `p` to `q` belongs to the targets of some edges, which all have a state, and
  -- a block that has got a state is queued.
  pub record Extends (p q : Progress State Recording) (edges : List SuccessorTarget) : Type 0 where
    pub keeps_states : (j : InstId) → has p.entry_states j ≡ true → has q.entry_states j ≡ true
    pub keeps_queue : (j : InstId) → contains p.queue j ≡ true → contains q.queue j ≡ true
    pub new_state :
        (j : InstId)
        → has q.entry_states j ≡ true
        → (has p.entry_states j ≡ true) ⊎ ((contains q.queue j ≡ true) × (leads_to edges j ≡ true))
    pub new_queue :
        (j : InstId)
        → contains q.queue j ≡ true
        → (contains p.queue j ≡ true) ⊎ (leads_to edges j ≡ true)
    pub all_states : (j : InstId) → leads_to edges j ≡ true → has q.entry_states j ≡ true

  pub Extends-refl : (p : Progress State Recording) → Extends p p []
  Extends-refl p = record {
    keeps_states = λ j h. h;
    keeps_queue = λ j h. h;
    new_state = λ j h. inl h;
    new_queue = λ j h. inl h;
    all_states = λ j h. cc;
  }

  -- One edge and the edges behind it.
  pub Extends-trans :
      (p q r : Progress State Recording) (succ : InstId) (edges : List SuccessorTarget)
      → Extends p q (id succ ∷ [])
      → Extends q r edges
      → Extends p r (id succ ∷ edges)
  Extends-trans p q r succ edges first rest = record {
    keeps_states = λ j h. rest.keeps_states j (first.keeps_states j h);
    keeps_queue = λ j h. rest.keeps_queue j (first.keeps_queue j h);
    new_state = λ j h. elim (rest.new_state j h) [
      | inl old ↦ elim (first.new_state j old) [
        | inl older ↦ inl older
        | inr (queued, leads) ↦ inr (rest.keeps_queue j queued, ground (arith, leads))
      ]
      | inr (queued, leads) ↦ inr (queued, ground (arith, leads))
    ];
    new_queue = λ j h. elim (rest.new_queue j h) [
      | inl old ↦ elim (first.new_queue j old) [
        | inl older ↦ inl older
        | inr leads ↦ inr (ground (arith, leads))
      ]
      | inr leads ↦ inr (ground (arith, leads))
    ];
    all_states = λ j h. elim (Bool-cases (j == succ)) [
      | inl same ↦ rest.keeps_states j (first.all_states j (ground (arith, same)))
      | inr other ↦ rest.all_states j (ground (arith, other, h))
    ];
  }

pub has-insert_state :
    {State : Type 0} (states : States State) (k : InstId) (s : State) (j : InstId)
    → has (insert_state states k s) j ≡ (j == k || has states j)
unfolding insert_state
has-insert_state states k s j = ground arith

-- The target of an edge gets a state, and is queued if it had none.
insert_state-Extends :
    {State Recording : Type 0} (p : Progress State Recording) (succ : InstId) (push : Bool)
    (s : State) (r : Recording)
    → (push ≡ true) ⊎ (has p.entry_states succ ≡ true)
    → Extends p
        (record {
          queue = if push then succ ∷ p.queue else p.queue;
          entry_states = insert_state p.entry_states succ s;
          record_state = r;
        })
        (id succ ∷ [])
insert_state-Extends p succ push s r known = record {
  keeps_states = λ j h. ground (arith, h, has-insert_state p.entry_states succ s j);
  keeps_queue = λ j h. ground (arith, h);
  new_state = λ j h. elim (Bool-cases (j == succ)) [
    | inl same ↦ elim known [
      | inl pushed ↦ inr (rw pushed (ground (arith, same)), ground (arith, same))
      | inr had ↦ inl (subst (λ k. has p.entry_states k ≡ true) (sym ((==_iff j succ).0 same)) had)
    ]
    | inr other ↦ inl (ground (arith, other, h, has-insert_state p.entry_states succ s j))
  ];
  new_queue = λ j h. ground (arith, h);
  all_states = λ j h. ground (arith, h, has-insert_state p.entry_states succ s j);
}

unchanged :
    {State Recording : Type 0} (p : Progress State Recording) (succ : InstId) (r : Recording)
    → has p.entry_states succ ≡ true
    → Extends p (record p { record_state = r }) (id succ ∷ [])
unchanged p succ r known = record {
  keeps_states = λ j h. h;
  keeps_queue = λ j h. h;
  new_state = λ j h. inl h;
  new_queue = λ j h. inl h;
  all_states = λ j h.
      subst (λ k. has p.entry_states k ≡ true) (sym ((==_iff j succ).0 (ground (arith, h)))) known;
}

module _ {State Item Recording : Type 0} (d : Dataflow State Item Recording) where
  joined_successor-Extends :
      (succ : InstId) (p : Progress State Recording) (old : State) (w : State × Recording)
      → has p.entry_states succ ≡ true
      → Extends p (joined_successor d p succ old w) (id succ ∷ [])
  joined_successor-Extends succ p old (new, r) known = elim (Bool-cases (d.same_state new old)) [
    | inl same ↦ rw same (unchanged p succ r known)
    | inr other ↦ rw other (insert_state-Extends p succ d.revisit_blocks new r (inr known))
  ]

  visit_successor-Extends :
      (state : State) (succ : InstId) (p : Progress State Recording) (o : Option State)
      → p.entry_states succ ≡ o
      → Extends p (visit_successor d state succ o p) (id succ ∷ [])
  unfolding insert_state
  visit_successor-Extends state succ p (some old) e =
      joined_successor-Extends succ p old (d.join old state p.record_state) (rw e refl)
  visit_successor-Extends state succ p none e =
      insert_state-Extends p succ true state p.record_state (inl refl)

  pub visit_successors-Extends :
      (state : State) (edges : List SuccessorTarget) (p : Progress State Recording)
      → Extends p (visit_successors d state edges p) edges
  unfolding visit_successors
  visit_successors-Extends state [] p = Extends-refl p
  visit_successors-Extends state (id succ ∷ edges) p =
      let q : Progress State Recording = visit_successor d state succ (p.entry_states succ) p in
      Extends-trans p q (visit_successors d state edges q) succ edges
        (visit_successor-Extends state succ p (p.entry_states succ) refl)
        (visit_successors-Extends state edges q)
  visit_successors-Extends state (return_target ∷ edges) p =
      let rest = visit_successors-Extends state edges p in
      record {
        keeps_states = rest.keeps_states;
        keeps_queue = rest.keeps_queue;
        new_state = rest.new_state;
        new_queue = rest.new_queue;
        all_states = rest.all_states;
      }

  -- The recording state does not matter.
  recorded :
      (p q : Progress State Recording) (r : Recording) (edges : List SuccessorTarget)
      → Extends (record p { record_state = r }) q edges
      → Extends p q edges
  recorded p q r edges x = record {
    keeps_states = x.keeps_states;
    keeps_queue = x.keeps_queue;
    new_state = x.new_state;
    new_queue = x.new_queue;
    all_states = x.all_states;
  }

  leave_block-Extends :
      (state : State) (edges : List SuccessorTarget) (p q : Progress State Recording)
      → leave_block d state edges p ≡ returns q
      → Extends p q edges
  unfolding leave_block
  leave_block-Extends state edges p q e =
      let ((r, state'), after, last) =
        >>=-eq-returns (d.post_block_record p.record_state state) _ e in
      let same : visit_successors d state' edges (record p { record_state = r }) ≡ q = cc in
      recorded p q r edges (
        subst (λ q. Extends (record p { record_state = r }) q edges) same
          (visit_successors-Extends state' edges (record p { record_state = r })))

  -- The edges of the first item that has any: those of the block.
  unfoldable pub exits : Successors → List (InstId × Item) → List SuccessorTarget
  exits succs [] = []
  exits succs ((idx, item) ∷ items) = elim (get succs idx) [
    | some edges ↦ edges
    | none ↦ exits succs items
  ]

  pub visit_items-Extends :
      (succs : Successors) (state : State) (items : List (InstId × Item))
      (p q : Progress State Recording)
      → visit_items d succs state items p ≡ returns q
      → Extends p q (exits succs items)
  unfolding visit_items exits
  visit_items-Extends succs state [] p q e =
      let same : p ≡ q = cc in subst (λ q. Extends p q []) same (Extends-refl p)
  visit_items-Extends succs state ((idx, item) ∷ items) p q e =
      let (state', applied, rest) = >>=-eq-returns (d.apply_effect state idx item) _ e in
      elim (Option-cases (get succs idx)) [
        | inl missing ↦
            rw (missing, exits) (visit_items-Extends succs state' items p q (rw missing at rest))
        | inr (edges, found) ↦
            rw (found, exits) (leave_block-Extends state' edges p q (rw found at rest))
      ]

  pub visit_block-Extends :
      (succs : Successors) (idx : InstId) (p q : Progress State Recording)
      → visit_block d succs idx p ≡ returns q
      → (s : State) × Extends
          (record p { entry_states = insert_state p.entry_states idx s })
          q
          (exits succs (d.iter_block idx))
  unfolding visit_block
  visit_block-Extends succs idx p q e =
      let (state, entered, rest) = >>=-eq-returns (entry_state d idx (p.entry_states idx)) _ e in
      let ((r, s), before, items) =
        >>=-eq-returns (d.pre_block_record p.record_state state) _ rest in
      (
        s,
        recorded (record p { entry_states = insert_state p.entry_states idx s }) q r
            (exits succs (d.iter_block idx))
            (visit_items-Extends succs s (d.iter_block idx)
              (record p { entry_states = insert_state p.entry_states idx s; record_state = r }) q
              items),
      )
