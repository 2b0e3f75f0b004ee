-- ===== src/Decomp/Registers/Iter.antt =====
-- What `register_iter` lists.
use doldisasm.Base.{ℕ, suc, ◌+◌, List, [], ◌∷◌, ◌++◌, ◌≡◌, refl, subst, arith, All, ◌&◌}
use doldisasm.Base.Checked.{returns}
use doldisasm.Ppc.Instruction.{Register}
use doldisasm.Decomp.Registers.{
  RegisterState, element, cr, by_spr, by_register, numbered, field_iter, register_iter,
}

-- An entry of the list shows the register's value.
abbrev pub Shows : {S : Type 0} → RegisterState S → Register × S → Type 0
Shows rs (r, s) = by_register rs r ≡ returns s

All-append {ℓ κ} :
    {A : Type ℓ} (holds : A → Type κ) (left right : List A)
    → All holds left
    → All holds right
    → All holds (left ++ right)
All-append holds [] right p q = q
All-append holds (x ∷ left) right p q = (p.0, All-append holds left right p.1 q)

-- A predicate of what is made of an element at its place holds of all that is made.
numbered-All :
    {A B : Type 0} (holds : B → Type 0) (f : ℕ → A → List B) (i : ℕ) (xs : List A)
    → ((k : ℕ) (x : A) → element xs k ≡ returns x → All holds (f (i + k) x))
    → All holds (numbered f i xs)
unfolding numbered element
numbered-All holds f i [] h = tt
numbered-All holds f i (x ∷ xs) h =
    All-append holds (f i x) (numbered f (i + 1) xs)
      (subst (λ k. All holds (f k x)) (omega arith) (h 0 x refl))
      (numbered-All holds f (i + 1) xs
        (λ k y e. subst (λ j. All holds (f j y)) (omega arith) (h (suc k) y e)))

-- Every entry that `register_iter` lists pairs a register with the value that `by_register` finds
-- for it.
pub register_iter-Shows : {S : Type 0} (rs : RegisterState S) → All (Shows rs) (register_iter rs)
unfolding register_iter by_register by_spr cr
register_iter-Shows rs =
    All-append (Shows rs) (numbered (λ i s. (Register.gpr i, s) ∷ []) 0 rs.gprs) _
      (numbered-All (Shows rs) (λ i s. (Register.gpr i, s) ∷ []) 0 rs.gprs
        (λ k x e. let at_zero : 0 + k ≡ k = omega arith in (rw at_zero e, tt)))
      (refl
        & refl
        & refl
        & numbered-All (Shows rs) field_iter 0 rs.sprs.cr (λ k x e.
          let at_zero : 0 + k ≡ k = omega arith in
          rw at_zero (rw e refl & rw e refl & rw e refl & rw e refl & tt)))
