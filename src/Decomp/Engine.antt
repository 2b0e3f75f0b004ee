-- ===== src/Decomp/Engine.antt =====
-- decomp/src/dataflow/core.rs: the trait `Dataflow`, the worklist loop `run`, and the iteration over
-- its results. A hash map is a function; the queue is a list, its top first; the loop is on fuel.
pub mod Steps
pub mod Ends
pub mod Visited
pub mod Total
use package.doldisasm.Base.{
  ℕ, zero, suc, Bool, true, false, not, ◌==◌, if◌then◌else◌, Option, none, some, List, [], ◌∷◌,
}
use package.doldisasm.Base.Checked.{Checked, returns, panics, ◌>>=◌, ◌>>◌, assert}
use package.doldisasm.Base.Fueled.{Fueled, done, panicked, out_of_fuel, lift}
use package.doldisasm.Base.BtreeMap.{get}
use package.doldisasm.Decomp.Cfg.{InstId, SuccessorTarget, id, return_target, Successors}

-- `Dataflow`, with instruction indexes for `Idx`, the default states, and the equality of states.
pub record Dataflow (State Item Recording : Type 0) : Type 0 where
  pub default_state : State
  pub default_recording : Recording
  pub same_state : State → State → Bool
  pub join : State → State → Recording → State × Recording
  pub revisit_blocks : Bool
  pub initial_idx : InstId
  pub iter_block : InstId → List (InstId × Item)
  pub iter : List (InstId × Item)
  pub apply_effect : State → InstId → Item → Checked State
  pub pre_block_record : Recording → State → Checked (Recording × State)
  pub post_block_record : Recording → State → Checked (Recording × State)

-- `HashMap<Idx, BlockState>`
abbrev pub States : Type 0 → Type 0
States State = InstId → Option State

module _ {State : Type 0} where
  abbrev pub no_states : States State
  no_states i = none

  unfoldable pub insert_state : States State → InstId → State → States State
  insert_state states k s i = if i == k then some s else states i

-- What the loop changes.
pub record Progress (State Recording : Type 0) : Type 0 where
  pub queue : List InstId
  pub entry_states : States State
  pub record_state : Recording

pub record ForEachCtxt (State Item : Type 0) : Type 0 where
  pub idx : InstId
  pub item : Item
  pub state : State
  pub apply_effect_called : Bool
  pub is_entry : Bool

module _ {State Item Recording : Type 0} (d : Dataflow State Item Recording) where
  -- A successor that has a state: the joined state is kept if it is another.
  abbrev pub joined_successor :
      Progress State Recording → InstId → State → State × Recording → Progress State Recording
  joined_successor p succ old (new, recording) =
      if d.same_state new old then record p { record_state = recording } else record {
        queue = if d.revisit_blocks then succ ∷ p.queue else p.queue;
        entry_states = insert_state p.entry_states succ new;
        record_state = recording;
      }

  abbrev pub visit_successor :
      State → InstId → Option State → Progress State Recording → Progress State Recording
  visit_successor state succ (some old) p =
      joined_successor p succ old (d.join old state p.record_state)
  visit_successor state succ none p = record p {
    queue = succ ∷ p.queue;
    entry_states = insert_state p.entry_states succ state;
  }

  -- The loop over the edges of a block.
  unfoldable pub visit_successors :
      State → List SuccessorTarget → Progress State Recording → Progress State Recording
  visit_successors state [] p = p
  visit_successors state (id succ ∷ succs) p =
      visit_successors state succs (visit_successor state succ (p.entry_states succ) p)
  visit_successors state (return_target ∷ succs) p = visit_successors state succs p

  -- `post_block_record` and the edges.
  unfoldable pub leave_block :
      State → List SuccessorTarget → Progress State Recording → Checked (Progress State Recording)
  leave_block state succs p = d.post_block_record p.record_state state >>= λ w.
      returns (visit_successors w.1 succs (record p { record_state = w.0 }))

  -- The loop over the items of a block, which the first item with edges ends.
  unfoldable pub visit_items :
      Successors
      → State
      → List (InstId × Item)
      → Progress State Recording
      → Checked (Progress State Recording)
  visit_items succs state [] p = returns p
  visit_items succs state ((idx, item) ∷ items) p = d.apply_effect state idx item >>= λ state'.
      elim (get succs idx) [
        | some edges ↦ leave_block state' edges p
        | none ↦ visit_items succs state' items p
      ]

  -- The state that a block starts with.
  abbrev pub entry_state : InstId → Option State → Checked State
  entry_state idx (some state) = returns state
  entry_state idx none = assert (idx == d.initial_idx) >> returns d.default_state

  -- The body of `while let`, after `pop`.
  unfoldable pub visit_block :
      Successors → InstId → Progress State Recording → Checked (Progress State Recording)
  visit_block succs idx p = entry_state idx (p.entry_states idx) >>= λ state.
      d.pre_block_record p.record_state state >>= λ w.
      visit_items succs w.1 (d.iter_block idx)
        (record p { entry_states = insert_state p.entry_states idx w.1; record_state = w.0 })

  abbrev pub run_round :
      (Progress State Recording → Fueled (States State))
      → Successors
      → Progress State Recording
      → List InstId
      → Fueled (States State)
  run_round go_on succs p [] = done p.entry_states
  run_round go_on succs p (idx ∷ queue) =
      lift (visit_block succs idx (record p { queue = queue })) go_on

  unfoldable pub run_from : Successors → ℕ → Progress State Recording → Fueled (States State)
  run_from succs zero p = out_of_fuel
  run_from succs (suc fuel) p = run_round (run_from succs fuel) succs p p.queue

  abbrev pub started : Progress State Recording
  started = record {
    queue = d.initial_idx ∷ [];
    entry_states = no_states;
    record_state = d.default_recording;
  }

  unfoldable pub run : Successors → ℕ → Fueled (States State)
  run succs fuel = run_from succs fuel started

  -- `ForEachCtxt::effect`
  unfoldable pub effect : ForEachCtxt State Item → Checked (ForEachCtxt State Item)
  effect cx = assert (not cx.apply_effect_called) >> d.apply_effect cx.state cx.idx cx.item >>= λ s.
      returns (record cx { state = s; apply_effect_called = true })

  -- The context that the callback is given for an item.
  abbrev pub context : InstId → Item → Option State → State → ForEachCtxt State Item
  context i x (some new) state = record {
    idx = i;
    item = x;
    state = new;
    apply_effect_called = false;
    is_entry = true;
  }
  context i x none state = record {
    idx = i;
    item = x;
    state = state;
    apply_effect_called = false;
    is_entry = false;
  }

  -- The loop of `for_each_with_input`. The callback changes what it captures, and the context.
  module _ {Captured : Type 0}
      (on_instruction : Captured
        → ForEachCtxt State Item
        → Checked (Captured × ForEachCtxt State Item)) where
    unfoldable pub for_each_from :
        States State → List (InstId × Item) → Captured → State → Checked (Captured × State)
    for_each_from states [] captured state = returns (captured, state)
    for_each_from states ((i, x) ∷ items) captured state =
        on_instruction captured (context i x (states i) state) >>= λ w.
        assert w.1.apply_effect_called >> for_each_from states items w.0 w.1.state

    unfoldable pub for_each_with_input : States State → Captured → Checked (Captured × State)
    for_each_with_input states captured = for_each_from states d.iter captured d.default_state
