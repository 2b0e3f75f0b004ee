-- ===== src/Base/Checked.antt =====
-- Computations that may panic: an assertion, an index or an arithmetic check that fails.
use Prim.Native.Nat.{ℕ, ◌+◌, ◌^◌}
use mathlib.Core.Path.{◌≡◌, refl}
use mathlib.Core.Logic.{◌⊎◌, inl, inr}
use mathlib.Core.Bool.{Bool, true, false}
use doldisasm.Base.Tests.{ltb, if◌then◌else◌}

pub data Checked {ℓ} (A : Type ℓ) : Type ℓ where
  returns : A → Checked A
  panics : Checked A

infixl 5 ◌>>=◌ ◌>>◌
abbrev pub ◌>>=◌ {ℓ κ} : {A : Type ℓ} {B : Type κ} → Checked A → (A → Checked B) → Checked B
returns a >>= f = f a
panics >>= f = panics

abbrev pub ◌>>◌ {ℓ} : {B : Type ℓ} → Checked (Unit {0}) → Checked B → Checked B
m >> k = m >>= λ _. k

-- `assert!(b)`
abbrev pub assert : Bool → Checked (Unit {0})
assert true = returns tt
assert false = panics

-- `a + b` on `u32`, with overflow checks.
abbrev pub add_u32 : ℕ → ℕ → Checked ℕ
add_u32 a b = if ltb (a + b) (2 ^ 32) then returns (a + b) else panics

-- Inversion of a computation that returned.
pub >>=-eq-returns {ℓ κ} :
    {A : Type ℓ} {B : Type κ} (m : Checked A) (f : A → Checked B) {b : B}
    → (m >>= f) ≡ returns b
    → (a : A) × (m ≡ returns a) × (f a ≡ returns b)
>>=-eq-returns (returns a) f h = (a, refl, h)
>>=-eq-returns panics f h = cc

-- Inversion of an assertion before a computation that returned.
pub asserted {ℓ} :
    {A : Type ℓ} (b : Bool) (m : Checked A) {a : A} → (assert b >> m) ≡ returns a → m ≡ returns a
asserted true m e = e
asserted false m e = cc

pub assert_holds {ℓ} :
    {A : Type ℓ} (b : Bool) (m : Checked A) {a : A} → (assert b >> m) ≡ returns a → b ≡ true
assert_holds true m e = refl
assert_holds false m e = cc

-- Where a computation that panicked did so.
pub >>=-eq-panics {ℓ κ} :
    {A : Type ℓ} {B : Type κ} (m : Checked A) (f : A → Checked B)
    → (m >>= f) ≡ panics
    → (m ≡ panics) ⊎ ((a : A) × (m ≡ returns a) × (f a ≡ panics))
>>=-eq-panics (returns a) f h = inr (a, refl, h)
>>=-eq-panics panics f h = inl refl
