-- ===== src/Decomp/Generations/Fresh.antt =====
-- The effect of an instruction on each register's generation.
use doldisasm.Base.{ℕ, zero, suc, ◌+◌, Bool, false, ◌==◌, if◌then◌else◌}
use doldisasm.Base.{List, [], ◌∷◌, ◌≡◌, refl, sym, ap, ◌∙◌, ◌⊎◌, inl, inr, arith}
use doldisasm.Base.Checked.{Checked, returns, panics, ◌>>=◌, >>=-eq-returns}
use doldisasm.Ppc.Instruction.{Instruction, Result, ok, err, panic, Crb, Spr, MicroSpr, Register}
use doldisasm.Ppc.Instruction.Visit.{
  Event, write_gpr, write_spr, write_crf, write_crb, visit_registers,
}
use doldisasm.Decomp.Cfg.{checked}
use doldisasm.Decomp.Registers.{CrFieldState, change, bit_of, cr, by_spr, by_register}
use doldisasm.Decomp.Registers.Lens.{
  same_register, element-change, change-element, by_register-change_register_at,
}
use doldisasm.Decomp.Generations.{
  LocalRegisterState, Registers, next_generation, next_field, visit, visit_all, apply_effect,
}

-- Whether a call of the visitor writes a register.
abbrev pub writes : Register → Event → Bool
writes r (write_gpr g) = same_register r (Register.gpr g)
writes r (write_crb i b) = same_register r (Register.cr i b)
writes r (write_spr s) = same_register r (Register.spr s)
writes (Register.cr j c) (write_crf i) = j == i
writes _ _ = false

abbrev pub count_writes : Register → List Event → ℕ
count_writes r [] = 0
count_writes r (e ∷ es) = if writes r e then suc (count_writes r es) else count_writes r es

-- The state of a register after a number of writes: a generation above all that were in use.
abbrev pub renewed : ℕ → LocalRegisterState → LocalRegisterState
renewed zero s = s
renewed (suc n) s = record {
  generation = s.highest_generation + suc n;
  phi_origins = s.phi_origins;
  highest_generation = s.highest_generation + suc n;
}

field-next_field :
    (field field' : CrFieldState LocalRegisterState) (c : Crb)
    → next_field field ≡ returns field'
    → next_generation (bit_of field c) ≡ returns (bit_of field' c)
field-next_field field field' c e = ground arith

spr-written :
    (rs rs' : Registers) (fields : List (CrFieldState LocalRegisterState)) (t : MicroSpr)
    → returns (record rs { sprs = record rs.sprs { cr = fields } }) ≡ returns rs'
    → by_spr rs'.sprs t ≡ by_spr rs.sprs t
unfolding by_spr
spr-written rs rs' fields t e = ground arith

crf-writes :
    (i : ℕ) (rs rs' : Registers) (r : Register)
    → visit (write_crf i) rs ≡ returns rs'
    → by_register rs' r
      ≡ (if writes r (write_crf i) then by_register rs r >>= next_generation else by_register rs r)
unfolding visit by_register cr
crf-writes i rs rs' (Register.gpr g) e = ground arith
crf-writes i rs rs' (Register.spr t) e =
    let (fields, changed, same) = >>=-eq-returns (change rs.sprs.cr i next_field) _ e in
    spr-written rs rs' fields t same
crf-writes i rs rs' (Register.cr j c) e =
    let (fields, changed, same) = >>=-eq-returns (change rs.sprs.cr i next_field) _ e in
    let (field, field', found, made) = change-element rs.sprs.cr fields i next_field changed in
    ground (
      arith,
      element-change rs.sprs.cr fields i j next_field changed,
      field-next_field field field' c made,
    )

visit-writes :
    (e : Event) (rs rs' : Registers) (r : Register)
    → visit e rs ≡ returns rs'
    → by_register rs' r
      ≡ (if writes r e then by_register rs r >>= next_generation else by_register rs r)
unfolding visit
visit-writes (write_gpr g) rs rs' r e =
    by_register-change_register_at rs rs' (Register.gpr g) r next_generation e
visit-writes (write_crb i b) rs rs' r e =
    by_register-change_register_at rs rs' (Register.cr i b) r next_generation e
visit-writes (write_spr Spr.ctr) rs rs' r e = cc
visit-writes (write_spr Spr.pc) rs rs' r e = cc
visit-writes (write_spr (Spr.other n)) rs rs' r e = cc
visit-writes (write_spr Spr.lr) rs rs' r e =
    by_register-change_register_at rs rs' (Register.spr Spr.lr) r next_generation e
visit-writes (write_spr Spr.msr) rs rs' r e =
    by_register-change_register_at rs rs' (Register.spr Spr.msr) r next_generation e
visit-writes (write_spr (Spr.xer x)) rs rs' r e =
    by_register-change_register_at rs rs' (Register.spr (Spr.xer x)) r next_generation e
visit-writes (write_crf i) rs rs' r e = crf-writes i rs rs' r e
visit-writes (Event.read_gpr g) rs rs' r e = cc
visit-writes (Event.read_spr s) rs rs' r e = cc
visit-writes (Event.read_crf i) rs rs' r e = cc
visit-writes (Event.read_crb i b) rs rs' r e = cc
visit-writes Event.effect rs rs' r e = cc

-- Several generations in a row.
renewed_by : ℕ → Checked LocalRegisterState → Checked LocalRegisterState
renewed_by zero s = s
renewed_by (suc n) s = renewed_by n (s >>= next_generation)

visit_all-writes :
    (es : List Event) (rs rs' : Registers) (r : Register)
    → visit_all es rs ≡ returns rs'
    → by_register rs' r ≡ renewed_by (count_writes r es) (by_register rs r)
unfolding visit_all renewed_by
visit_all-writes [] rs rs' r e = cc
visit_all-writes (x ∷ es) rs rs' r e =
    let (rs1, first, rest) = >>=-eq-returns (visit x rs) (visit_all es) e in
    ground (arith, visit-writes x rs rs1 r first, visit_all-writes es rs1 rs' r rest)

Checked-cases {ℓ} : {A : Type ℓ} (r : Checked A) → ((a : A) × (r ≡ returns a)) ⊎ (r ≡ panics)
Checked-cases (returns a) = inl (a, refl)
Checked-cases panics = inr refl

returns-panics {ℓ} : {A : Type ℓ} {a : A} → ¬ (returns a ≡ panics)
returns-panics e = cc

checked-returns {ℓ} : {A : Type ℓ} (r : Result A) (a : A) → checked r ≡ returns a → r ≡ ok a
checked-returns (ok b) a e = cc
checked-returns (err d) a e = cc
checked-returns panic a e = cc

-- A write that returns makes the next generation.
next_generation-returns :
    (s s' : LocalRegisterState) → next_generation s ≡ returns s' → s' ≡ renewed 1 s
unfolding next_generation
next_generation-returns s s' e = ground arith

renewed_by-panics : (n : ℕ) → renewed_by n panics ≡ panics
unfolding renewed_by
renewed_by-panics zero = refl
renewed_by-panics (suc n) = renewed_by-panics n

renewed-renewed : (n : ℕ) (s : LocalRegisterState) → renewed n (renewed 1 s) ≡ renewed (suc n) s
renewed-renewed zero s = refl
renewed-renewed (suc n) s = ground arith

renewed_by-returns :
    (n : ℕ) (s s' : LocalRegisterState) → renewed_by n (returns s) ≡ returns s' → s' ≡ renewed n s
unfolding renewed_by
renewed_by-returns zero s s' e = ground arith
renewed_by-returns (suc n) s s' e = elim (Checked-cases (next_generation s)) [
  | inl (s1, p) ↦
      renewed_by-returns n s1 s' (sym (ap (renewed_by n) p) ∙ e)
      ∙ (ap (renewed n) (next_generation-returns s s1 p) ∙ renewed-renewed n s)
  | inr p ↦ absurd (returns-panics (sym e ∙ (ap (renewed_by n) p ∙ renewed_by-panics n)))
]

-- If the effect of an instruction on a state returns, then `visit_registers` does, and a register
-- that the state before and the state after have got there by as many generations as the calls
-- write it: each write gives it the next generation above the highest that it had.
pub apply_effect-renewed :
    (inst : Instruction) (rs rs' : Registers) (r : Register) (s s' : LocalRegisterState)
    → apply_effect rs inst ≡ returns rs'
    → by_register rs r ≡ returns s
    → by_register rs' r ≡ returns s'
    → (es : List Event) × (visit_registers inst ≡ ok es) × (s' ≡ renewed (count_writes r es) s)
unfolding apply_effect
apply_effect-renewed inst rs rs' r s s' e before after =
    let (es, visited, done) = >>=-eq-returns (checked (visit_registers inst)) _ e in
    (
      es,
      checked-returns (visit_registers inst) es visited,
      renewed_by-returns (count_writes r es) s s' (
          sym (ap (renewed_by (count_writes r es)) before)
          ∙ (sym (visit_all-writes es rs rs' r done) ∙ after)),
    )
