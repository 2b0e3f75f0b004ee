-- ===== src/Decomp/Ssa/Uses.antt =====
-- The definition-use map against an independent description of the uses.
use doldisasm.Base.{ℕ, Bool, false, ◌&&◌, ◌||◌, ◌==◌, ==_iff, Bool-cases, contains}
use doldisasm.Base.{List, [], ◌∷◌, ◌++◌, ◌≡◌, refl, ap, sym, ◌∙◌, inl, inr, arith}
use doldisasm.Base.Checked.{Checked, returns, panics, >>=-eq-returns}
use doldisasm.Ppc.Instruction.{Crf, Crb, Spr, MicroSpr, Register}
use doldisasm.Ppc.Instruction.Visit.{Event, read_gpr, read_spr, read_crf, read_crb}
use doldisasm.Decomp.Cfg.{InstId}
use doldisasm.Decomp.Registers.{CrFieldState, element, cr, by_register}
use doldisasm.Decomp.Registers.Lens.{same_register, same_register_sound}
use doldisasm.Decomp.Generations.{Generation, LocalRegisterState, Registers}
use doldisasm.Decomp.Ssa.{DefUseMap, add_use, register_use, use_now, use_field, use_spr}

-- Whether a call of the visitor reads a register.
abbrev pub reads : Register → Event → Bool
reads r (read_gpr g) = same_register r (Register.gpr g)
reads r (read_crb crf crb) = same_register r (Register.cr crf crb)
reads r (read_spr s) = same_register r (Register.spr s)
reads (Register.cr j c) (read_crf i) = j == i
reads _ _ = false

abbrev pub any_reads : Register → List Event → Bool
any_reads r [] = false
any_reads r (e ∷ es) = reads r e || any_reads r es

-- Whether a register is in a generation.
abbrev pub is_in : Generation → Checked LocalRegisterState → Bool
is_in g (returns s) = g == s.generation
is_in g panics = false

contains-append : (xs : List ℕ) (i k : ℕ) → contains (xs ++ i ∷ []) k ≡ (contains xs k || k == i)
contains-append [] i k = ground arith
contains-append (x ∷ xs) i k = ground (arith, contains-append xs i k)

contains-add_use :
    (i : InstId) (xs : List InstId) (k : InstId)
    → contains (add_use i xs) k ≡ (contains xs k || k == i)
contains-add_use i xs k = elim (Bool-cases (contains xs i)) [
  | inr new ↦ rw new (contains-append xs i k)
  | inl old ↦ elim (Bool-cases (k == i)) [
    | inl same ↦ ground (arith, old, same, ap (contains xs) ((==_iff k i).0 same))
    | inr other ↦ ground (arith, old, other)
  ]
]

module _ (r : Register) (g : Generation) (k : InstId) where
  -- Whether the map has an instruction among the uses of a register's generation.
  abbrev pub has_use : DefUseMap → Bool
  has_use uses = contains (uses r g) k

  has_use-register_use :
      (i : InstId) (reg : Register) (gen : Generation) (uses : DefUseMap)
      → has_use (register_use i reg gen uses)
        ≡ (has_use uses || (k == i && (same_register r reg && g == gen)))
  unfolding register_use
  has_use-register_use i reg gen uses = ground (arith, contains-add_use i (uses r g) k)

  pub has_use-use_now :
      (i : InstId) (state : Registers) (reg : Register) (uses uses' : DefUseMap)
      → use_now i state reg uses ≡ returns uses'
      → has_use uses'
        ≡ (has_use uses || (k == i && (same_register r reg && is_in g (by_register state r))))
  has_use-use_now i state reg uses uses' e =
      let (s, found, last) = >>=-eq-returns (by_register state reg) _ e in
      let same_map : register_use i reg s.generation uses ≡ uses' = cc in
      ap has_use (sym same_map)
      ∙ has_use-register_use i reg s.generation uses
      ∙ elim (Bool-cases (same_register r reg)) [
        | inl same ↦ rw (same, same_register_sound r reg same, found) refl
        | inr other ↦ rw other refl
      ]

  pub has_use-use_spr :
      (i : InstId) (state : Registers) (s : MicroSpr) (uses uses' : DefUseMap)
      → use_spr i state s uses ≡ returns uses'
      → has_use uses' ≡ (
          has_use uses
          || (k == i && (same_register r (Register.spr s) && is_in g (by_register state r))))
  has_use-use_spr i state Spr.ctr uses uses' e = cc
  has_use-use_spr i state Spr.pc uses uses' e = cc
  has_use-use_spr i state (Spr.other n) uses uses' e = cc
  has_use-use_spr i state Spr.lr uses uses' e =
      has_use-use_now i state (Register.spr Spr.lr) uses uses' e
  has_use-use_spr i state Spr.msr uses uses' e =
      has_use-use_now i state (Register.spr Spr.msr) uses uses' e
  has_use-use_spr i state (Spr.xer x) uses uses' e =
      has_use-use_now i state (Register.spr (Spr.xer x)) uses uses' e

-- The four bits of a field, registered one after the other.
register_use-bits :
    (r : Register) (g : Generation) (k i : InstId) (crf : Crf)
    (field : CrFieldState LocalRegisterState) (uses : DefUseMap)
    → has_use r g k (use_field i crf field uses) ≡ (
        has_use r g k uses
        || (k == i
            && ((same_register r (Register.cr crf Crb.negative) && g == field.lt.generation)
                || ((same_register r (Register.cr crf Crb.positive) && g == field.gt.generation)
                    || ((same_register r (Register.cr crf Crb.zero_bit) && g == field.eq.generation)
                        || (same_register r (Register.cr crf Crb.overflow)
                            && g == field.so.generation))))))
register_use-bits r g k i crf field uses =
    let first = register_use i (Register.cr crf Crb.negative) field.lt.generation uses in
    let second = register_use i (Register.cr crf Crb.positive) field.gt.generation first in
    let third = register_use i (Register.cr crf Crb.zero_bit) field.eq.generation second in
    ground (
      arith,
      has_use-register_use r g k i (Register.cr crf Crb.negative) field.lt.generation uses,
      has_use-register_use r g k i (Register.cr crf Crb.positive) field.gt.generation first,
      has_use-register_use r g k i (Register.cr crf Crb.zero_bit) field.eq.generation second,
      has_use-register_use r g k i (Register.cr crf Crb.overflow) field.so.generation third,
    )

pub has_use-use_field :
    (r : Register) (g : Generation) (k i : InstId) (crf : Crf) (state : Registers)
    (field : CrFieldState LocalRegisterState) (uses : DefUseMap)
    → element state.sprs.cr crf ≡ returns field
    → has_use r g k (use_field i crf field uses) ≡ (
        has_use r g k uses || (k == i && (reads r (read_crf crf) && is_in g (by_register state r))))
unfolding by_register cr
has_use-use_field (Register.gpr n) g k i crf state field uses e =
    register_use-bits (Register.gpr n) g k i crf field uses ∙ ground arith
has_use-use_field (Register.spr s) g k i crf state field uses e =
    register_use-bits (Register.spr s) g k i crf field uses ∙ ground arith
has_use-use_field (Register.cr j c) g k i crf state field uses e =
    register_use-bits (Register.cr j c) g k i crf field uses ∙ elim (Bool-cases (j == crf)) [
      | inr other ↦ rw other (ground arith)
      | inl same ↦
          rw (same, (==_iff j crf).0 same, e)
            (elim c [
              | Crb.negative ↦ ground arith
              | Crb.positive ↦ ground arith
              | Crb.zero_bit ↦ ground arith
              | Crb.overflow ↦ ground arith
            ])
    ]
