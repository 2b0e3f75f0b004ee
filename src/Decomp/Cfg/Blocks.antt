-- ===== src/Decomp/Cfg/Blocks.antt =====
-- The final `retain` of `compute_preds_and_succs` finds the predecessors of every target, and the
-- graph it leaves is the one that the instructions' edges describe.
use doldisasm.Base.{ℕ, ◌<◌, ltb}
use doldisasm.Base.{
  some, List, [], ◌∷◌, length, length-append, ◌≡◌, refl, sym, ap, subst, ◌∙◌, arith,
}
use doldisasm.Base.Checked.{Checked, returns, panics, ◌>>=◌}
use doldisasm.Base.BtreeMap.{
  BtreeMap, get, retain, kept, filter_by, IsSorted, get-kept, retain-kept,
}
use doldisasm.Decomp.Cfg.{
  InstId, Instructions, SuccessorTarget, id, return_target, Graph, has_many, ends_block,
  retain_blocks, compute_preds_and_succs,
}
use doldisasm.Decomp.Cfg.Edges.{
  EdgeList, arrivals, edges_from, incoming, outgoing, non_empty, is_block_end, Describes,
  store_edges, store_edges-preds, store_edges-succs, store_edges-IsSorted, stored, store_from-edges,
}

-- An edge arrives at its target.
arrives :
    (k t : InstId) (rest : List SuccessorTarget) (es : EdgeList)
    → outgoing k es ≡ id t ∷ rest
    → 0 < length (incoming t es)
arrives k t rest [] e = cc
arrives k t rest ((i, []) ∷ es) e = ground (arith, arrives k t rest es)
arrives k t rest ((i, x ∷ ts) ∷ es) e =
    ground (arith, arrives k t rest es, length-append (arrivals i t (x ∷ ts)) (incoming t es))

has_many-non_empty :
    (xs : List InstId) → 0 < length xs → has_many (non_empty xs) ≡ returns (ltb 1 (length xs))
has_many-non_empty [] h = absurd (omega arith)
has_many-non_empty (x ∷ xs) h = refl

non_empty-some {ℓ} : {A : Type ℓ} (xs ys : List A) → non_empty xs ≡ some ys → xs ≡ ys
non_empty-some [] ys e = cc
non_empty-some (x ∷ xs) ys e = cc

-- `preds[&target]` finds an entry for every edge that is stored.
ends_block-returns :
    (preds : BtreeMap (List InstId)) (es : EdgeList)
    → ((t : InstId) → get preds t ≡ non_empty (incoming t es))
    → (k : InstId) (ts : List SuccessorTarget) → outgoing k es ≡ ts
    → ends_block preds k ts ≡ returns (is_block_end es ts)
unfolding ends_block
ends_block-returns preds es found k [] e = refl
ends_block-returns preds es found k (id t ∷ []) e =
    ap has_many (found t) ∙ has_many-non_empty (incoming t es) (arrives k t [] es e)
ends_block-returns preds es found k (id t ∷ x ∷ ts) e = refl
ends_block-returns preds es found k (return_target ∷ ts) e = refl

abbrev no_edges : Graph
no_edges = record { preds = []; succs = [] }

retained : (es : EdgeList) → Describes (returns es) (retain_blocks (store_edges no_edges es))
unfolding retain_blocks get
retained es =
    let g : Graph = store_edges no_edges es in
    let found : (t : InstId) → get g.preds t ≡ non_empty (incoming t es) =
      λ t. store_edges-preds no_edges t es in
    let sent : (i : InstId) → get g.succs i ≡ non_empty (outgoing i es) =
      λ i. store_edges-succs no_edges i es in
    let sorted : IsSorted g.succs = store_edges-IsSorted no_edges es tt in
    let total : retain (ends_block g.preds) g.succs
        ≡ returns (kept (λ i. is_block_end es) g.succs) =
      retain-kept (ends_block g.preds) (λ i. is_block_end es) g.succs sorted
        (λ k ts e.
          ends_block-returns g.preds es found k ts
            (non_empty-some (outgoing k es) ts (sym (sent k) ∙ e))) in
    (
      record { preds = g.preds; succs = kept (λ i. is_block_end es) g.succs },
      ap (λ r. r >>= λ succs. returns (record { preds = g.preds; succs = succs })) total,
      found,
      λ i.
          get-kept (λ i. is_block_end es) g.succs i sorted
          ∙ ap (filter_by (is_block_end es)) (sent i),
    )

stored-Describes : (r : Checked EdgeList) → Describes r (stored no_edges r >>= retain_blocks)
stored-Describes (returns es) = retained es
stored-Describes panics = refl

-- For every list of instructions and every function address, `compute_preds_and_succs` panics
-- exactly where an index overflows or an instruction's edges, read off its meaning, are undefined
-- (the address of a non-linking branch outside 32 bits, a linking `bclr`, a return that counts
-- down). Else the predecessors of an instruction are the sources of the edges to it, in program
-- order and once per edge, and its entry among the successors holds its own edges in order, unless
-- these are one edge to a target with no other predecessor, in which case there is none. The final
-- `retain` finds an entry for every target.
pub compute_preds_and_succs-Describes :
    (insts : Instructions) (fn_address : ℕ)
    → Describes (edges_from fn_address 0 insts) (compute_preds_and_succs insts fn_address)
unfolding compute_preds_and_succs
compute_preds_and_succs-Describes insts fn_address =
    subst (λ r. Describes (edges_from fn_address 0 insts) (r >>= retain_blocks))
      (sym (store_from-edges fn_address 0 insts no_edges))
      (stored-Describes (edges_from fn_address 0 insts))
