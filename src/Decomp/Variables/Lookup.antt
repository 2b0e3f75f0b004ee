-- ===== src/Decomp/Variables/Lookup.antt =====
-- What a new variable changes of the table.
use doldisasm.Base.{
  ℕ, zero, suc, ◌<◌, true, false, ◌&&◌, ◌==◌, Bool-cases, Option-cases, if◌then◌else◌,
}
use doldisasm.Base.{length, none, some, List, [], ◌∷◌, ◌++◌, ◌≡◌, refl, subst, inl, inr, arith}
use doldisasm.Base.Checked.{Checked, returns, panics}
use doldisasm.Ppc.Instruction.{Register}
use doldisasm.Decomp.Registers.{element}
use doldisasm.Decomp.Registers.Lens.{same_register}
use doldisasm.Decomp.Generations.{Generation}
use doldisasm.Decomp.Ast.{VarId, VariableVisibility, VariableFlags, from_vis, vis}
use doldisasm.Decomp.Variables.{
  Variables, get_vis, register_flags, mk_root_reg_var, optional_id_by_reg,
}

-- What is documented of flags: which bits a set has after it was made and after one was added.
pub record VisibleBit (fl : VariableFlags) : Type 0 where
  pub visible_has : fl.contains fl.visible_flag fl.visible_flag ≡ true
  pub empty_lacks : fl.contains fl.empty_flags fl.visible_flag ≡ false
  pub rsp_keeps :
      (f : fl.Flags)
      → fl.contains (fl.insert f fl.rsp_flag) fl.visible_flag ≡ fl.contains f fl.visible_flag

element-append : {A : Type 0} (xs : List A) (x : A) → element (xs ++ x ∷ []) (length xs) ≡ returns x
unfolding element
element-append [] x = refl
element-append (y ∷ xs) x = element-append xs x

element-append_old :
    {A : Type 0} (xs : List A) (x : A) (i : ℕ)
    → i < length xs
    → element (xs ++ x ∷ []) i ≡ element xs i
unfolding element
element-append_old [] x i h = absurd (omega arith)
element-append_old (y ∷ xs) x zero h = refl
element-append_old (y ∷ xs) x (suc i) h = element-append_old xs x i (omega (arith, h))

panics-returns : {A : Type 0} {a : A} → ¬ (panics ≡ returns a)
panics-returns e = cc

module _ (fl : VariableFlags) (laws : VisibleBit fl) where
  vis-from_vis : (v : VariableVisibility) → vis fl (from_vis fl v) ≡ v
  unfolding vis from_vis
  vis-from_vis VariableVisibility.visible = rw (laws.visible_has) refl
  vis-from_vis VariableVisibility.hidden = rw (laws.empty_lacks) refl

  vis-register_flags :
      (reg : Register) (v : VariableVisibility) → vis fl (register_flags fl reg v) ≡ v
  unfolding vis
  vis-register_flags reg v = elim (Bool-cases (same_register reg (Register.gpr 1))) [
    | inl stack ↦ rw (stack, laws.rsp_keeps (from_vis fl v)) (vis-from_vis v)
    | inr other ↦ rw other (vis-from_vis v)
  ]

  abbrev new_table : Variables fl → Register → Generation → VariableVisibility → Variables fl
  new_table t reg generation v = record t {
    list = t.list ++ register_flags fl reg v ∷ [];
    reg_to_var = λ r g.
        if same_register r reg && g == generation then some (length t.list) else t.reg_to_var r g;
  }

  -- What holds of a table and a variable that was made.
  abbrev Made :
      Variables fl → Register → Generation → VariableVisibility → Variables fl × VarId → Type 0
  Made t reg generation v w =
      (optional_id_by_reg fl t reg generation ≡ none)
      × ((r : Register) (g : Generation)
          → optional_id_by_reg fl w.0 r g ≡ (
              if same_register r reg && g == generation
              then some w.1
              else optional_id_by_reg fl t r g))
      × (get_vis fl w.0 w.1 ≡ returns v)
      × ((var : VarId) → var < length t.list → get_vis fl w.0 var ≡ get_vis fl t var)

  -- If a variable is made for a register in a generation, there was none; afterwards it is found
  -- there with the visibility that was asked for, every other register and generation has the
  -- variable that it had, and every variable of the list the visibility that it had.
  pub mk_root_reg_var-lookup :
      (t t' : Variables fl) (reg : Register) (generation : Generation) (v : VariableVisibility)
      (key : VarId)
      → mk_root_reg_var fl t reg generation v ≡ returns (t', key)
      → (optional_id_by_reg fl t reg generation ≡ none)
        × ((r : Register) (g : Generation)
            → optional_id_by_reg fl t' r g ≡ (
                if same_register r reg && g == generation
                then some key
                else optional_id_by_reg fl t r g))
        × (get_vis fl t' key ≡ returns v)
        × ((var : VarId) → var < length t.list → get_vis fl t' var ≡ get_vis fl t var)
  unfolding mk_root_reg_var optional_id_by_reg get_vis
  mk_root_reg_var-lookup t t' reg generation v key e =
      elim (Option-cases (t.reg_to_var reg generation)) [
        | inr (old, found) ↦ absurd (panics-returns (rw found at e))
        | inl fresh ↦
            let made : ◌≡◌ {A = Checked (Variables fl × VarId)}
                (returns (new_table t reg generation v, length t.list)) (returns (t', key)) =
              rw fresh at e in
            let same : ◌≡◌ {A = Variables fl × VarId} (new_table t reg generation v, length t.list)
                (t', key) =
              cc in
            subst (Made t reg generation v) same (
              fresh,
              (λ r g. refl),
              rw (element-append t.list (register_flags fl reg v), vis-register_flags reg v) refl,
              λ var lt. rw (element-append_old t.list (register_flags fl reg v) var lt) refl,
            )
      ]
