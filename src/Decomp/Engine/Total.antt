-- ===== src/Decomp/Engine/Total.antt =====
-- Where the worklist loop panics: in an operation of the analysis, since its own assertion holds.
use doldisasm.Base.{true}
use doldisasm.Base.{contains, none, some, List, [], ◌∷◌, ◌≡◌, ◌⊎◌}
use mathlib.Core.List.{Memᴰ}
use doldisasm.Base.Checked.{Checked, panics}
use doldisasm.Base.Fueled.{Fueled}
use doldisasm.Base.BtreeMap.{get}
use doldisasm.Decomp.Cfg.{InstId, Successors}
use doldisasm.Decomp.Engine.{Dataflow, Progress}
use doldisasm.Decomp.Engine.Steps.{has}
use doldisasm.Decomp.Engine.Visited.{Visited}

module _ {State Item Recording : Type 0} (d : Dataflow State Item Recording) where
  -- An operation of the analysis panics, on one of these items or at the start or the end of a
  -- block.
  pub data Fails (items : List (InstId × Item)) : Type 0 where
    effect_fails :
        (s : State) (i : InstId) (x : Item)
        → Memᴰ (i, x) items
        → d.apply_effect s i x ≡ panics
        → Fails items
    before_fails : (r : Recording) (s : State) → d.pre_block_record r s ≡ panics → Fails items
    after_fails : (r : Recording) (s : State) → d.post_block_record r s ≡ panics → Fails items

-- The items that the loop goes through: those up to the first one with edges, which is the last.
unfoldable pub until_exit :
    {Item : Type 0} → Successors → List (InstId × Item) → List (InstId × Item)
until_exit succs [] = []
until_exit succs ((idx, item) ∷ items) = elim (get succs idx) [
  | some edges ↦ (idx, item) ∷ []
  | none ↦ (idx, item) ∷ until_exit succs items
]

module _ {State Item Recording : Type 0} (d : Dataflow State Item Recording)
    (succs : Successors) where
  -- A block that is queued is the initial one or has a state.
  abbrev IsReady : Progress State Recording → Type 0
  IsReady p =
      (j : InstId) → contains p.queue j ≡ true → (j ≡ d.initial_idx) ⊎ (has p.entry_states j ≡ true)

  -- An operation fails in a block that the loop visits.
  abbrev pub FailsSomewhere : Type 0
  FailsSomewhere =
      (idx : InstId) × Visited d succs idx × Fails d (until_exit succs (d.iter_block idx))
