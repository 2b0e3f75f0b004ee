-- ===== src/Decomp/Ssa/DefUse.antt =====
-- The definition-use map of a function, from the visitor's calls up.
use doldisasm.Base.{Bool, true, false, not, ◌&&◌, ◌||◌, ◌==◌}
use doldisasm.Base.{Option, none, some, List, [], ◌∷◌, ◌≡◌, refl, ap, sym, subst, ◌∙◌, arith}
use doldisasm.Base.Checked.{asserted, Checked, returns, panics, ◌>>=◌, ◌>>◌, assert, >>=-eq-returns}
use doldisasm.Ppc.Instruction.{Instruction, Result, ok, err, panic, Register}
use doldisasm.Ppc.Instruction.Visit.{
  Event, read_gpr, write_gpr, read_spr, write_spr, read_crf, write_crf, read_crb, write_crb, effect,
  visit_registers,
}
use doldisasm.Ppc.Instruction.Visit.Order.{only_writes, in_order, Returns, visit_registers-in_order}
use doldisasm.Decomp.Cfg.{InstId, Instructions, checked}
use doldisasm.Decomp.Registers.{element, by_register}
use doldisasm.Decomp.Generations.{Generation, Registers, apply_effect}
use doldisasm.Decomp.Engine
use doldisasm.Decomp.Engine.{
  Dataflow, States, ForEachCtxt, context, for_each_from, for_each_with_input,
}
use doldisasm.Decomp.Ssa.{
  analysis, items_from, DefUseMap, no_uses, Context, use_field, with_context, visit_use, visit_uses,
  visit_item, def_use_map, default_registers, default_local,
}
use doldisasm.Decomp.Ssa.Uses.{
  reads, any_reads, is_in, has_use, has_use-use_now, has_use-use_spr, has_use-use_field,
}

abbrev pub state_before : Option Registers → Registers → Registers
state_before (some recorded) state = recorded
state_before none state = state

context-state :
    (insts : Instructions) (i : InstId) (x : Instruction) (o : Option Registers) (state : Registers)
    → ((context (analysis insts) i x o state).state ≡ state_before o state)
      × (((context (analysis insts) i x o state).idx ≡ i)
          × ((context (analysis insts) i x o state).item ≡ x))
context-state insts i x (some s) state = (refl, (refl, refl))
context-state insts i x none state = (refl, (refl, refl))

module _ (r : Register) (g : Generation) (k : InstId) where
  -- Whether an instruction, in a state, reads the register while it is in the generation.
  abbrev pub used_by : Result (List Event) → Registers → Bool
  used_by (ok es) state = any_reads r es && is_in g (by_register state r)
  used_by _ state = false

  -- Whether the instruction of an index does so. The state before an instruction is that recorded
  -- for a block that starts with it, or else the one that the instruction before it left.
  unfoldable pub used : States Registers → List (InstId × Instruction) → Registers → Bool
  used states [] state = false
  used states ((i, x) ∷ items) state =
      let now = state_before (states i) state in
      (k == i && used_by (visit_registers x) now)
      || elim (apply_effect now x) [ returns after ↦ used states items after | panics ↦ false ]

  module _ (insts : Instructions) where
    -- What one of the visitor's calls adds to the map, the context unchanged.
    abbrev Adds : Bool → DefUseMap → Context → DefUseMap × Context → Type 0
    Adds b uses cx w =
        (has_use r g k w.0
          ≡ (has_use r g k uses || (k == cx.idx && (b && is_in g (by_register cx.state r)))))
        × (w.1 ≡ cx)

    added :
        (b : Bool) (uses : DefUseMap) (cx : Context) (m : Checked DefUseMap)
        (w : DefUseMap × Context)
        → with_context insts cx m ≡ returns w
        → ((u : DefUseMap)
            → m ≡ returns u
            → has_use r g k u
              ≡ (has_use r g k uses || (k == cx.idx && (b && is_in g (by_register cx.state r)))))
        → Adds b uses cx w
    added b uses cx m w e h =
        let (u, found, last) = >>=-eq-returns m _ e in
        let same : ◌≡◌ {A = DefUseMap × Context} (u, cx) w = cc in
        subst (Adds b uses cx) same (h u found, refl)

    abbrev is_read : Event → Bool
    is_read (read_gpr n) = true
    is_read (read_spr s) = true
    is_read (read_crf i) = true
    is_read (read_crb i b) = true
    is_read _ = false

    visit_use-read :
        (e : Event) (uses : DefUseMap) (cx : Context) (w : DefUseMap × Context)
        → is_read e ≡ true
        → visit_use insts e uses cx ≡ returns w
        → Adds (reads r e) uses cx w
    unfolding visit_use
    visit_use-read (read_gpr n) uses cx w h e =
        added _ uses cx _ w e
          (λ u found. has_use-use_now r g k cx.idx cx.state (Register.gpr n) uses u found)
    visit_use-read (read_crb i b) uses cx w h e =
        added _ uses cx _ w e
          (λ u found. has_use-use_now r g k cx.idx cx.state (Register.cr i b) uses u found)
    visit_use-read (read_spr s) uses cx w h e =
        added _ uses cx _ w e (λ u found. has_use-use_spr r g k cx.idx cx.state s uses u found)
    visit_use-read (read_crf i) uses cx w h e =
        let (field, found, last) = >>=-eq-returns (element cx.state.sprs.cr i) _ e in
        let same : ◌≡◌ {A = DefUseMap × Context} (use_field cx.idx i field uses, cx) w = cc in
        subst (Adds (reads r (read_crf i)) uses cx) same
          (has_use-use_field r g k cx.idx i cx.state field uses found, refl)
    visit_use-read e uses cx w h f = cc

    visit_uses-writes :
        (es : List Event) (uses : DefUseMap) (cx : Context)
        → only_writes es ≡ true
        → (visit_uses insts es uses cx ≡ returns (uses, cx)) × (any_reads r es ≡ false)
    unfolding visit_uses visit_use
    visit_uses-writes [] uses cx h = (refl, refl)
    visit_uses-writes (write_gpr n ∷ es) uses cx h = visit_uses-writes es uses cx h
    visit_uses-writes (write_spr s ∷ es) uses cx h = visit_uses-writes es uses cx h
    visit_uses-writes (write_crf i ∷ es) uses cx h = visit_uses-writes es uses cx h
    visit_uses-writes (write_crb i b ∷ es) uses cx h = visit_uses-writes es uses cx h
    visit_uses-writes (_ ∷ es) uses cx h = cc

    -- What the visitor makes of an instruction's calls.
    abbrev Visits : Bool → DefUseMap → Context → DefUseMap × Context → Type 0
    Visits b uses cx w =
        (has_use r g k w.0
          ≡ (has_use r g k uses || (k == cx.idx && (b && is_in g (by_register cx.state r)))))
        × (Engine.effect (analysis insts) cx ≡ returns w.1)

    read_first :
        (e : Event) (es : List Event) (uses : DefUseMap) (cx : Context) (w : DefUseMap × Context)
        → is_read e ≡ true
        → visit_uses insts (e ∷ es) uses cx ≡ returns w
        → ((u : DefUseMap) (cx : Context)
            → visit_uses insts es u cx ≡ returns w
            → Visits (any_reads r es) u cx w)
        → Visits (any_reads r (e ∷ es)) uses cx w
    unfolding visit_uses
    read_first e es uses cx w read ran rest =
        let ((u, cx'), one, more) = >>=-eq-returns (visit_use insts e uses cx) _ ran in
        let (adds, same) = visit_use-read e uses cx (u, cx') read one in
        let (visits, eff) =
          rest u cx (subst (λ c. visit_uses insts es u c ≡ returns w) same more) in
        (visits ∙ ground (arith, adds), eff)

    effect_first :
        (es : List Event) (uses : DefUseMap) (cx : Context) (w : DefUseMap × Context)
        → only_writes es ≡ true
        → visit_uses insts (effect ∷ es) uses cx ≡ returns w
        → Visits (any_reads r es) uses cx w
    unfolding visit_uses visit_use
    effect_first es uses cx w h ran =
        let ((u, cx'), one, more) = >>=-eq-returns (visit_use insts effect uses cx) _ ran in
        let (cx'', eff, last) = >>=-eq-returns (Engine.effect (analysis insts) cx) _ one in
        let (same, none_read) = visit_uses-writes es u cx' h in
        let same_w : ◌≡◌ {A = DefUseMap × Context} (uses, cx'') w =
          let here : ◌≡◌ {A = Checked (DefUseMap × Context)} (returns (u, cx')) (returns w) =
            sym same ∙ more in
          cc in
        subst (Visits (any_reads r es) uses cx) same_w (rw none_read (ground arith), eff)

    visit_uses-in_order :
        (es : List Event) (uses : DefUseMap) (cx : Context) (w : DefUseMap × Context)
        → in_order es ≡ true
        → visit_uses insts es uses cx ≡ returns w
        → Visits (any_reads r es) uses cx w
    visit_uses-in_order [] uses cx w h ran = cc
    visit_uses-in_order (read_gpr n ∷ es) uses cx w h ran =
        read_first (read_gpr n) es uses cx w refl ran (λ u c. visit_uses-in_order es u c w h)
    visit_uses-in_order (read_spr s ∷ es) uses cx w h ran =
        read_first (read_spr s) es uses cx w refl ran (λ u c. visit_uses-in_order es u c w h)
    visit_uses-in_order (read_crf i ∷ es) uses cx w h ran =
        read_first (read_crf i) es uses cx w refl ran (λ u c. visit_uses-in_order es u c w h)
    visit_uses-in_order (read_crb i b ∷ es) uses cx w h ran =
        read_first (read_crb i b) es uses cx w refl ran (λ u c. visit_uses-in_order es u c w h)
    visit_uses-in_order (effect ∷ es) uses cx w h ran = effect_first es uses cx w h ran
    visit_uses-in_order (_ ∷ es) uses cx w h ran = cc

    visit_item-Visits :
        (uses : DefUseMap) (cx : Context) (w : DefUseMap × Context) (m : Result (List Event))
        → Returns (λ es. in_order es ≡ true) m
        → (checked m >>= λ es. visit_uses insts es uses cx) ≡ returns w
        → (has_use r g k w.0 ≡ (has_use r g k uses || (k == cx.idx && used_by m cx.state)))
          × (Engine.effect (analysis insts) cx ≡ returns w.1)
    visit_item-Visits uses cx w (ok es) h ran = visit_uses-in_order es uses cx w h ran
    visit_item-Visits uses cx w (err e) h ran = cc
    visit_item-Visits uses cx w panic h ran = cc

    effect-state :
        (cx cx' : Context)
        → Engine.effect (analysis insts) cx ≡ returns cx'
        → apply_effect cx.state cx.item ≡ returns cx'.state
    unfolding Engine.effect analysis
    effect-state cx cx' e =
        let (s, found, last) =
          >>=-eq-returns (assert (not cx.apply_effect_called) >> apply_effect cx.state cx.item) _
            e in
        let same : s ≡ cx'.state = cc in
        subst (λ s. apply_effect cx.state cx.item ≡ returns s) same
          (asserted (not cx.apply_effect_called) (apply_effect cx.state cx.item) found)

    for_each_from-used :
        (states : States Registers) (items : List (InstId × Instruction)) (uses : DefUseMap)
        (state : Registers) (w : DefUseMap × Registers)
        → for_each_from (analysis insts) (visit_item insts) states items uses state ≡ returns w
        → has_use r g k w.0 ≡ (has_use r g k uses || used states items state)
    unfolding for_each_from visit_item used
    for_each_from-used states [] uses state w ran =
        let same : ◌≡◌ {A = DefUseMap × Registers} (uses, state) w = cc in
        subst (λ w. has_use r g k w.0 ≡ (has_use r g k uses || false)) same (ground arith)
    for_each_from-used states ((i, x) ∷ items) uses state w ran =
        let cx = context (analysis insts) i x (states i) state in
        let ((u, cx'), visited, rest) = >>=-eq-returns (visit_item insts uses cx) _ ran in
        let (same_state, (same_idx, same_item)) = context-state insts i x (states i) state in
        let (adds, eff) =
          visit_item-Visits uses cx (u, cx') (visit_registers cx.item)
            (visit_registers-in_order cx.item) visited in
        let after : apply_effect (state_before (states i) state) x ≡ returns cx'.state =
          rw (same_state, same_item) at (effect-state cx cx' eff) in
        let more = for_each_from-used states items u cx'.state w (
          asserted cx'.apply_effect_called
            (for_each_from (analysis insts) (visit_item insts) states items u cx'.state) rest) in
        let one : has_use r g k u ≡ (
            has_use r g k uses
            || (k == i && used_by (visit_registers x) (state_before (states i) state))) =
          rw (same_state, same_idx, same_item) at adds in
        rw after (more ∙ ground (arith, one))

    -- If the map is computed, the uses that it has for a register's generation are the instructions
    -- that read the register while it is in that generation, as a walk over the function describes
    -- it that starts from the recorded state at each block and else from what the instruction
    -- before left.
    pub def_use_map-used :
        (states : States Registers) (uses : DefUseMap)
        → def_use_map insts states ≡ returns uses
        → has_use r g k uses ≡ used states (items_from 0 insts) (default_registers default_local)
    unfolding def_use_map for_each_with_input items_from analysis
    def_use_map-used states uses ran =
        let (w, ran', last) =
          >>=-eq-returns (for_each_with_input (analysis insts) (visit_item insts) states no_uses) _
            ran in
        let same : w.0 ≡ uses = cc in
        ap (has_use r g k) (sym same)
        ∙ for_each_from-used states (items_from 0 insts) no_uses (default_registers default_local) w
            ran'
