-- ===== src/Decomp/Ssa.antt =====
-- decomp/src/dataflow/ssa.rs: the analysis `LocalGenerationAnalysis`, and the map from the
-- generations of registers to the instructions that use them. A hash map is a function.
pub mod Uses
pub mod DefUse
use package.doldisasm.Base.{
  ℕ, zero, suc, ◌+◌, Bool, true, false, not, ◌&&◌, ◌==◌, if◌then◌else◌, contains, drop, Option,
  none, some, List, [], ◌∷◌, ◌++◌,
}
use package.doldisasm.Base.Checked.{Checked, returns, panics, ◌>>=◌}
use package.doldisasm.Ppc.Instruction.{Instruction, Crf, Crb, Spr, MicroSpr, Register}
use package.doldisasm.Ppc.Instruction.Visit.{
  Event, read_gpr, write_gpr, read_spr, write_spr, read_crf, write_crf, read_crb, write_crb, effect,
  visit_registers,
}
use package.doldisasm.Decomp.Cfg.{InstId, Instructions, checked}
use package.doldisasm.Decomp.Registers.{
  CrFieldState, XerState, SprState, RegisterState, element, by_register,
}
use package.doldisasm.Decomp.Registers.Lens.{same_register}
use package.doldisasm.Decomp.Registers.Join.{join_registers}
use package.doldisasm.Decomp.Generations.{
  Generation, initial, LocalRegisterState, join, Registers, apply_effect,
}
use package.doldisasm.Decomp.Engine
use package.doldisasm.Decomp.Engine.{Dataflow, States, ForEachCtxt, for_each_with_input}

-- `Default` of a state of all registers.
abbrev pub repeat {ℓ} : {A : Type ℓ} → ℕ → A → List A
repeat zero x = []
repeat (suc n) x = x ∷ repeat n x

abbrev pub default_field {ℓ} : {S : Type ℓ} → S → CrFieldState S
default_field s = record { lt = s; gt = s; eq = s; so = s }

abbrev pub default_registers {ℓ} : {S : Type ℓ} → S → RegisterState S
default_registers s = record {
  gprs = repeat 32 s;
  sprs = record {
    lr = s;
    ctr = s;
    xer = record { so = s; ov = s; ca = s };
    msr = s;
    cr = repeat 8 (default_field s);
  };
}

abbrev pub default_local : LocalRegisterState
default_local = record { generation = initial; phi_origins = none; highest_generation = initial }

-- `PartialEq` of block states.
abbrev pub same_origins : Option (Generation × Generation) → Option (Generation × Generation) → Bool
same_origins none none = true
same_origins (some (a, b)) (some (c, d)) = a == c && b == d
same_origins _ _ = false

abbrev pub same_local : LocalRegisterState → LocalRegisterState → Bool
same_local a b =
    a.generation == b.generation
    && (same_origins a.phi_origins b.phi_origins && a.highest_generation == b.highest_generation)

abbrev pub all_same {ℓ} : {A : Type ℓ} → (A → A → Bool) → List A → List A → Bool
all_same same [] [] = true
all_same same (x ∷ xs) (y ∷ ys) = same x y && all_same same xs ys
all_same same _ _ = false

abbrev pub same_field : CrFieldState LocalRegisterState → CrFieldState LocalRegisterState → Bool
same_field a b =
    same_local a.lt b.lt && (same_local a.gt b.gt && (same_local a.eq b.eq && same_local a.so b.so))

abbrev pub same_xer : XerState LocalRegisterState → XerState LocalRegisterState → Bool
same_xer a b = same_local a.so b.so && (same_local a.ov b.ov && same_local a.ca b.ca)

abbrev pub same_sprs : SprState LocalRegisterState → SprState LocalRegisterState → Bool
same_sprs a b =
    same_local a.lr b.lr
    && (same_local a.ctr b.ctr
        && (same_xer a.xer b.xer && (same_local a.msr b.msr && all_same same_field a.cr b.cr)))

unfoldable pub same_registers : Registers → Registers → Bool
same_registers a b = all_same same_local a.gprs b.gprs && same_sprs a.sprs b.sprs

-- Two runs of `register_iter_mut` side by side, each of which leaves XER out, with an assignment to
-- the first. The arrays have the same length, so that the registers are the same.
unfoldable pub zip_with {ℓ κ} : {A : Type ℓ} {B : Type κ} → (A → B → A) → List A → List B → List A
zip_with f (x ∷ xs) (y ∷ ys) = f x y ∷ zip_with f xs ys
zip_with f xs _ = xs

abbrev pub zip_field {ℓ κ} :
    {S : Type ℓ} {T : Type κ} → (S → T → S) → CrFieldState S → CrFieldState T → CrFieldState S
zip_field f a b = record { lt = f a.lt b.lt; gt = f a.gt b.gt; eq = f a.eq b.eq; so = f a.so b.so }

unfoldable pub zip_registers {ℓ κ} :
    {S : Type ℓ} {T : Type κ} → (S → T → S) → RegisterState S → RegisterState T → RegisterState S
unfolding zip_with
zip_registers f a b = record {
  gprs = zip_with f a.gprs b.gprs;
  sprs = record {
    lr = f a.sprs.lr b.sprs.lr;
    ctr = f a.sprs.ctr b.sprs.ctr;
    xer = a.sprs.xer;
    msr = f a.sprs.msr b.sprs.msr;
    cr = zip_with (zip_field f) a.sprs.cr b.sprs.cr;
  };
}

-- `RecordingState`
abbrev pub Recording : Type 0
Recording = RegisterState Generation

abbrev pub take_highest : LocalRegisterState → Generation → LocalRegisterState
take_highest s g = record s { highest_generation = g }

abbrev pub give_highest : Generation → LocalRegisterState → Generation
give_highest g s = s.highest_generation

unfoldable pub pre_block_record : Recording → Registers → Recording × Registers
pre_block_record rec state = (rec, zip_registers take_highest state rec)

unfoldable pub post_block_record : Recording → Registers → Recording × Registers
post_block_record rec state = (zip_registers give_highest rec state, state)

-- The join of one register, with the recording state that it leaves alone.
abbrev pub join_local :
    LocalRegisterState → LocalRegisterState → Generation → LocalRegisterState × Generation
join_local a b rec = (join a b rec, rec)

-- `ti_iter` of the instructions, from an index on.
unfoldable pub items_from : InstId → Instructions → List (InstId × Instruction)
items_from i [] = []
items_from i ((address, inst) ∷ insts) = (i, inst) ∷ items_from (i + 1) insts

unfoldable pub analysis : Instructions → Dataflow Registers Instruction Recording
analysis insts = record {
  default_state = default_registers default_local;
  default_recording = default_registers initial;
  same_state = same_registers;
  join = join_registers join_local;
  revisit_blocks = false;
  initial_idx = 0;
  iter_block = λ i. drop i (items_from 0 insts);
  iter = items_from 0 insts;
  apply_effect = λ state i inst. apply_effect state inst;
  pre_block_record = λ rec state. returns (pre_block_record rec state);
  post_block_record = λ rec state. returns (post_block_record rec state);
}

-- `DefUseMap`
abbrev pub DefUseMap : Type 0
DefUseMap = Register → Generation → List InstId

abbrev pub no_uses : DefUseMap
no_uses reg generation = []

unfoldable pub has_uses : DefUseMap → Register → Generation → Bool
has_uses uses_of reg generation = elim (uses_of reg generation) [ [] ↦ false | _ ∷ _ ↦ true ]

abbrev pub add_use : InstId → List InstId → List InstId
add_use i uses = if contains uses i then uses else uses ++ i ∷ []

unfoldable pub register_use : InstId → Register → Generation → DefUseMap → DefUseMap
register_use i reg generation uses r g =
    if same_register r reg && g == generation then add_use i (uses r g) else uses r g

abbrev pub Context : Type 0
Context = ForEachCtxt Registers Instruction

-- The visitor's `read_*` functions, each with the generation of the moment.
abbrev pub use_now : InstId → Registers → Register → DefUseMap → Checked DefUseMap
use_now i state reg uses =
    by_register state reg >>= λ s. returns (register_use i reg s.generation uses)

abbrev pub use_field : InstId → Crf → CrFieldState LocalRegisterState → DefUseMap → DefUseMap
use_field i crf field uses = register_use i (Register.cr crf Crb.overflow) field.so.generation (
    register_use i (Register.cr crf Crb.zero_bit) field.eq.generation (
      register_use i (Register.cr crf Crb.positive) field.gt.generation
        (register_use i (Register.cr crf Crb.negative) field.lt.generation uses)))

abbrev pub use_spr : InstId → Registers → MicroSpr → DefUseMap → Checked DefUseMap
use_spr i state Spr.ctr uses = panics
use_spr i state Spr.pc uses = panics
use_spr i state (Spr.other n) uses = panics
use_spr i state s uses = use_now i state (Register.spr s) uses

module _ (insts : Instructions) where
  abbrev pub with_context : Context → Checked DefUseMap → Checked (DefUseMap × Context)
  with_context cx m = m >>= λ uses. returns (uses, cx)

  unfoldable pub visit_use : Event → DefUseMap → Context → Checked (DefUseMap × Context)
  visit_use (read_crb crf crb) uses cx =
      with_context cx (use_now cx.idx cx.state (Register.cr crf crb) uses)
  visit_use (read_crf crf) uses cx =
      element cx.state.sprs.cr crf >>= λ field. returns (use_field cx.idx crf field uses, cx)
  visit_use (read_gpr gpr) uses cx =
      with_context cx (use_now cx.idx cx.state (Register.gpr gpr) uses)
  visit_use (read_spr spr) uses cx = with_context cx (use_spr cx.idx cx.state spr uses)
  visit_use effect uses cx = Engine.effect (analysis insts) cx >>= λ cx'. returns (uses, cx')
  visit_use _ uses cx = returns (uses, cx)

  unfoldable pub visit_uses : List Event → DefUseMap → Context → Checked (DefUseMap × Context)
  visit_uses [] uses cx = returns (uses, cx)
  visit_uses (e ∷ es) uses cx = visit_use e uses cx >>= λ w. visit_uses es w.0 w.1

  -- The closure that `for_each_with_input` is given.
  unfoldable pub visit_item : DefUseMap → Context → Checked (DefUseMap × Context)
  visit_item uses cx = checked (visit_registers cx.item) >>= λ es. visit_uses es uses cx

  unfoldable pub def_use_map : States Registers → Checked DefUseMap
  def_use_map states =
      for_each_with_input (analysis insts) visit_item states no_uses >>= λ w. returns w.0
