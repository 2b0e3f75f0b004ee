-- ===== src/Decomp/Reach/Paths.antt =====
-- Edges and paths between blocks, and sets of blocks that no edge leaves.
use doldisasm.Base.{ℕ, ◌<◌, Bool, true, false, ◌||◌, ◌==◌}
use doldisasm.Base.{Option, none, some, List, [], ◌∷◌, ◌≡◌}
use doldisasm.Base.BtreeMap.{first_from}
use doldisasm.Decomp.Cfg.{InstId, SuccessorTarget, id, return_target, Successors}
use doldisasm.Decomp.Reach.{Block}

abbrev pub leads_to : List SuccessorTarget → InstId → Bool
leads_to [] t = false
leads_to (id x ∷ edges) t = t == x || leads_to edges t
leads_to (return_target ∷ edges) t = leads_to edges t

abbrev pub block_leads_to : Option Block → InstId → Bool
block_leads_to none t = false
block_leads_to (some (end, edges)) t = leads_to edges t

-- Whether an edge leads from the block that starts at an instruction to another.
unfoldable pub edge : Successors → InstId → InstId → Bool
edge succs from t = block_leads_to (first_from succs from) t

-- A path of edges, as long as it may be.
pub data Reach (succs : Successors) (from : InstId) : InstId → Type 0 where
  here : Reach succs from from
  next : {t u : InstId} → Reach succs from t → edge succs t u ≡ true → Reach succs from u

module _ (succs : Successors) where
  pub Reach_first : {i j k : InstId} → edge succs i j ≡ true → Reach succs j k → Reach succs i k
  Reach_first e here = next here e
  Reach_first e (next path last) = next (Reach_first e path) last

  -- A set that a path enters and no edge leaves holds the path's end.
  pub Reach-closed :
      (closed : InstId → Bool) {i j : InstId}
      → ((k t : InstId) → closed k ≡ true → edge succs k t ≡ true → closed t ≡ true)
      → closed i ≡ true
      → Reach succs i j
      → closed j ≡ true
  Reach-closed closed stays start here = start
  Reach-closed closed stays start (next {t} {u} path last) =
      stays t u (Reach-closed closed stays start path) last

  -- Below a bound every instruction lies before the end of a block whose edges stay below it.
  abbrev pub IsBounded : ℕ → Type 0
  IsBounded n =
      (i : InstId)
      → i < n
      → (end : ℕ) × (edges : List SuccessorTarget) × (first_from succs i ≡ some (end, edges))
        × ((t : InstId) → leads_to edges t ≡ true → t < n)
