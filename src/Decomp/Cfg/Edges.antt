-- ===== src/Decomp/Cfg/Edges.antt =====
-- The loop of `compute_preds_and_succs` against the list of the instructions' edges: which edges
-- each of its two maps holds.
use doldisasm.Base.{ℕ, ◌+◌, Bool, true, ltb, ◌==◌, Bool-cases, ==_iff, inl, inr, if◌then◌else◌}
use doldisasm.Base.{
  Option, none, some, List, [], ◌∷◌, ◌++◌, length, append_assoc, append_nil, ◌≡◌, refl, sym, ap,
  ◌∙◌, arith,
}
use doldisasm.Base.Checked.{Checked, returns, panics, ◌>>=◌, add_u32}
use doldisasm.Base.BtreeMap.{
  BtreeMap, get, update, filter_by, IsSorted, get-update, update-IsSorted,
}
use doldisasm.Decomp.Cfg.{
  InstId, Instructions, SuccessorTarget, id, return_target, idx, Graph, push_entry, store_mapping,
  store_all, store_from,
}
use doldisasm.Decomp.Cfg.Targets.{edges_of, targets-edges_of}

-- Where control goes after every instruction, with its index.
abbrev pub EdgeList : Type 0
EdgeList = List (InstId × List SuccessorTarget)

unfoldable pub edges_from : ℕ → InstId → Instructions → Checked EdgeList
edges_from fn_address i [] = returns []
edges_from fn_address i ((off, inst) ∷ rest) = add_u32 i 1 >>= λ next.
    edges_of fn_address off next inst >>= λ ts.
    edges_from fn_address (i + 1) rest >>= λ es. returns ((i, ts) ∷ es)

-- The source, once for each of the targets that is the given one.
abbrev pub arrivals : InstId → InstId → List SuccessorTarget → List InstId
arrivals i t [] = []
arrivals i t (id x ∷ ts) = if t == x then i ∷ arrivals i t ts else arrivals i t ts
arrivals i t (return_target ∷ ts) = arrivals i t ts

abbrev pub incoming : InstId → EdgeList → List InstId
incoming t [] = []
incoming t ((i, ts) ∷ es) = arrivals i t ts ++ incoming t es

abbrev pub departures : InstId → InstId → List SuccessorTarget → List SuccessorTarget
departures i j ts = if j == i then ts else []

abbrev pub outgoing : InstId → EdgeList → List SuccessorTarget
outgoing j [] = []
outgoing j ((i, ts) ∷ es) = departures i j ts ++ outgoing j es

-- An entry that exists exactly if something was pushed to it.
abbrev pub non_empty {ℓ} : {A : Type ℓ} → List A → Option (List A)
non_empty [] = none
non_empty (x ∷ xs) = some (x ∷ xs)

-- Whether edges stay in the map: a single edge to a target with no other predecessor does not.
abbrev pub is_block_end : EdgeList → List SuccessorTarget → Bool
is_block_end es (id t ∷ []) = ltb 1 (length (incoming t es))
is_block_end es ts = true

abbrev pub Describes : Checked EdgeList → Checked Graph → Type 0
Describes panics r = r ≡ panics
Describes (returns es) r =
    (g : Graph) × (r ≡ returns g)
    × ((t : InstId) → get g.preds t ≡ non_empty (incoming t es))
    × ((i : InstId) → get g.succs i ≡ filter_by (is_block_end es) (non_empty (outgoing i es)))

-- Several pushes to one entry.
abbrev append_to {ℓ} : {A : Type ℓ} → Option (List A) → List A → Option (List A)
append_to none ys = non_empty ys
append_to (some xs) ys = some (xs ++ ys)

append_to-append {ℓ} :
    {A : Type ℓ} (o : Option (List A)) (xs ys : List A)
    → append_to (append_to o xs) ys ≡ append_to o (xs ++ ys)
append_to-append none [] ys = refl
append_to-append none (x ∷ xs) ys = refl
append_to-append (some zs) xs ys = ap some (append_assoc zs xs ys)

append_to-nil {ℓ} : {A : Type ℓ} (o : Option (List A)) → append_to o [] ≡ o
append_to-nil none = refl
append_to-nil (some xs) = ap some (append_nil xs)

push-append_to {ℓ} :
    {A : Type ℓ} (o : Option (List A)) (x : A) → some (push_entry x o) ≡ append_to o (x ∷ [])
push-append_to none x = refl
push-append_to (some xs) x = refl

get-push {ℓ} :
    {V : Type ℓ} (m : BtreeMap (List V)) (k j : ℕ) (v : V)
    → get (update (push_entry v) m k) j ≡ append_to (get m j) (if j == k then v ∷ [] else [])
get-push m k j v = elim (Bool-cases (j == k)) [
  | inl e ↦
      let same : j ≡ k = (==_iff j k).0 e in
      get-update (push_entry v) m k j ∙ rw (e, same) (push-append_to (get m k) v)
  | inr e ↦ get-update (push_entry v) m k j ∙ rw (e) (sym (append_to-nil (get m j)))
]

mapping-preds :
    (g : Graph) (i t : InstId) (to : SuccessorTarget)
    → get (store_mapping g i to).preds t ≡ append_to (get g.preds t) (arrivals i t (to ∷ []))
unfolding store_mapping idx
mapping-preds g i t (id x) = get-push g.preds x t i
mapping-preds g i t return_target = sym (append_to-nil (get g.preds t))

mapping-succs :
    (g : Graph) (i j : InstId) (to : SuccessorTarget)
    → get (store_mapping g i to).succs j ≡ append_to (get g.succs j) (departures i j (to ∷ []))
unfolding store_mapping
mapping-succs g i j to = get-push g.succs i j to

arrivals-cons :
    (i t : InstId) (to : SuccessorTarget) (ts : List SuccessorTarget)
    → arrivals i t (to ∷ []) ++ arrivals i t ts ≡ arrivals i t (to ∷ ts)
arrivals-cons i t (id x) ts = ground arith
arrivals-cons i t return_target ts = refl

departures-nil : (i j : InstId) → departures i j [] ≡ []
departures-nil i j = ground arith

departures-cons :
    (i j : InstId) (to : SuccessorTarget) (ts : List SuccessorTarget)
    → departures i j (to ∷ []) ++ departures i j ts ≡ departures i j (to ∷ ts)
departures-cons i j to ts = ground arith

store_all-preds :
    (g : Graph) (i t : InstId) (ts : List SuccessorTarget)
    → get (store_all g i ts).preds t ≡ append_to (get g.preds t) (arrivals i t ts)
unfolding store_all
store_all-preds g i t [] = sym (append_to-nil (get g.preds t))
store_all-preds g i t (to ∷ ts) =
    store_all-preds (store_mapping g i to) i t ts
    ∙ (ap (λ o. append_to o (arrivals i t ts)) (mapping-preds g i t to)
        ∙ (append_to-append (get g.preds t) (arrivals i t (to ∷ [])) (arrivals i t ts)
            ∙ ap (append_to (get g.preds t)) (arrivals-cons i t to ts)))

store_all-succs :
    (g : Graph) (i j : InstId) (ts : List SuccessorTarget)
    → get (store_all g i ts).succs j ≡ append_to (get g.succs j) (departures i j ts)
unfolding store_all
store_all-succs g i j [] =
    sym (ap (append_to (get g.succs j)) (departures-nil i j) ∙ append_to-nil (get g.succs j))
store_all-succs g i j (to ∷ ts) =
    store_all-succs (store_mapping g i to) i j ts
    ∙ (ap (λ o. append_to o (departures i j ts)) (mapping-succs g i j to)
        ∙ (append_to-append (get g.succs j) (departures i j (to ∷ [])) (departures i j ts)
            ∙ ap (append_to (get g.succs j)) (departures-cons i j to ts)))

store_all-IsSorted :
    (g : Graph) (i : InstId) (ts : List SuccessorTarget)
    → IsSorted g.succs
    → IsSorted (store_all g i ts).succs
unfolding store_all store_mapping
store_all-IsSorted g i [] h = h
store_all-IsSorted g i (to ∷ ts) h =
    store_all-IsSorted (store_mapping g i to) i ts (update-IsSorted (push_entry to) g.succs i h)

-- The graph that a list of edges makes.
pub store_edges : Graph → EdgeList → Graph
store_edges g [] = g
store_edges g ((i, ts) ∷ es) = store_edges (store_all g i ts) es

pub store_edges-preds :
    (g : Graph) (t : InstId) (es : EdgeList)
    → get (store_edges g es).preds t ≡ append_to (get g.preds t) (incoming t es)
unfolding store_edges
store_edges-preds g t [] = sym (append_to-nil (get g.preds t))
store_edges-preds g t ((i, ts) ∷ es) =
    store_edges-preds (store_all g i ts) t es
    ∙ (ap (λ o. append_to o (incoming t es)) (store_all-preds g i t ts)
        ∙ append_to-append (get g.preds t) (arrivals i t ts) (incoming t es))

pub store_edges-succs :
    (g : Graph) (j : InstId) (es : EdgeList)
    → get (store_edges g es).succs j ≡ append_to (get g.succs j) (outgoing j es)
unfolding store_edges
store_edges-succs g j [] = sym (append_to-nil (get g.succs j))
store_edges-succs g j ((i, ts) ∷ es) =
    store_edges-succs (store_all g i ts) j es
    ∙ (ap (λ o. append_to o (outgoing j es)) (store_all-succs g i j ts)
        ∙ append_to-append (get g.succs j) (departures i j ts) (outgoing j es))

pub store_edges-IsSorted :
    (g : Graph) (es : EdgeList) → IsSorted g.succs → IsSorted (store_edges g es).succs
unfolding store_edges
store_edges-IsSorted g [] h = h
store_edges-IsSorted g ((i, ts) ∷ es) h =
    store_edges-IsSorted (store_all g i ts) es (store_all-IsSorted g i ts h)

-- The loop stores the edges of the list, and fails where the list does.
abbrev pub stored : Graph → Checked EdgeList → Checked Graph
stored g r = r >>= λ es. returns (store_edges g es)

stored-bind {ℓ} :
    {A : Type ℓ} (g : Graph) (m : Checked A) (f : A → Checked Graph) (f' : A → Checked EdgeList)
    → ((a : A) → f a ≡ stored g (f' a))
    → (m >>= f) ≡ stored g (m >>= f')
stored-bind g (returns a) f f' h = h a
stored-bind g panics f f' h = refl

stored-cons :
    (g : Graph) (i : InstId) (ts : List SuccessorTarget) (r : Checked EdgeList)
    → stored (store_all g i ts) r ≡ stored g (r >>= λ es. returns ((i, ts) ∷ es))
unfolding store_edges
stored-cons g i ts (returns es) = refl
stored-cons g i ts panics = refl

pub store_from-edges :
    (fn_address : ℕ) (i : InstId) (insts : Instructions) (g : Graph)
    → store_from fn_address i insts g ≡ stored g (edges_from fn_address i insts)
unfolding store_from edges_from store_edges
store_from-edges fn_address i [] g = refl
store_from-edges fn_address i ((off, inst) ∷ rest) g = stored-bind g (add_u32 i 1) _ _ (λ next.
    rw (targets-edges_of fn_address off next inst) (
      stored-bind g (edges_of fn_address off next inst) _ _ (λ ts.
        store_from-edges fn_address (i + 1) rest (store_all g i ts)
        ∙ stored-cons g i ts (edges_from fn_address (i + 1) rest))))
