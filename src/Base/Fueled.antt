-- ===== src/Base/Fueled.antt =====
-- Computations on fuel that may panic. A recursion without a structural argument takes fuel, and
-- `out_of_fuel` says that it was too little.
use mathlib.Core.Path.{◌≡◌, refl}
use mathlib.Core.Logic.{◌⊎◌, inl, inr}
use doldisasm.Base.Checked.{Checked, returns, panics}

pub data Fueled {ℓ} (A : Type ℓ) : Type ℓ where
  done : A → Fueled A
  panicked : Fueled A
  out_of_fuel : Fueled A

infixl 5 ◌>>=◌
abbrev pub ◌>>=◌ {ℓ κ} : {A : Type ℓ} {B : Type κ} → Fueled A → (A → Fueled B) → Fueled B
done a >>= f = f a
panicked >>= f = panicked
out_of_fuel >>= f = out_of_fuel

-- A step that takes no fuel, and what follows it.
abbrev pub lift {ℓ κ} : {A : Type ℓ} {B : Type κ} → Checked A → (A → Fueled B) → Fueled B
lift (returns a) f = f a
lift panics f = panicked

-- The fuel was enough: the computation returned or panicked.
abbrev pub Ends {ℓ} : {A : Type ℓ} → Fueled A → Type 0
Ends (done a) = Unit
Ends panicked = Unit
Ends out_of_fuel = ⊥

-- Inversion of a computation that returned.
pub >>=-eq-done {ℓ κ} :
    {A : Type ℓ} {B : Type κ} (m : Fueled A) (f : A → Fueled B) {b : B}
    → (m >>= f) ≡ done b
    → (a : A) × (m ≡ done a) × (f a ≡ done b)
>>=-eq-done (done a) f h = (a, refl, h)
>>=-eq-done panicked f h = cc
>>=-eq-done out_of_fuel f h = cc

pub >>=-Ends {ℓ κ} :
    {A : Type ℓ} {B : Type κ} (m : Fueled A) (f : A → Fueled B)
    → Ends m
    → ((a : A) → m ≡ done a → Ends (f a))
    → Ends (m >>= f)
>>=-Ends (done a) f h k = k a refl
>>=-Ends panicked f h k = tt
>>=-Ends out_of_fuel f h k = h

pub lift-eq-done {ℓ κ} :
    {A : Type ℓ} {B : Type κ} (c : Checked A) (f : A → Fueled B) {b : B}
    → lift c f ≡ done b
    → (a : A) × (c ≡ returns a) × (f a ≡ done b)
lift-eq-done (returns a) f e = (a, refl, e)
lift-eq-done panics f e = cc

pub lift-eq-panicked {ℓ κ} :
    {A : Type ℓ} {B : Type κ} (c : Checked A) (f : A → Fueled B)
    → lift c f ≡ panicked
    → (c ≡ panics) ⊎ ((a : A) × (c ≡ returns a) × (f a ≡ panicked))
lift-eq-panicked (returns a) f e = inr (a, refl, e)
lift-eq-panicked panics f e = inl refl
