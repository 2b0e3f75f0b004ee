-- ===== src/Base/Absent.antt =====
-- How many numbers below a bound fail a test: a measure for a set that grows.
use Prim.Native.Nat.{ℕ, zero, suc, ◌≤◌, ◌<◌}
use mathlib.Core.Bool.{Bool, true, false}
use mathlib.Core.Logic.{inl, inr}
use mathlib.Core.Path.{◌≡◌, ap}
use native.Mathlib.Omega.{arith}
use doldisasm.Base.Tests.{◌==◌, ==_iff, if◌then◌else◌, Bool-cases}

abbrev pub absent : (ℕ → Bool) → ℕ → ℕ
absent test zero = 0
absent test (suc n) = if test n then absent test n else suc (absent test n)

pub absent-le :
    (test test' : ℕ → Bool) (n : ℕ)
    → ((k : ℕ) → test k ≡ true → test' k ≡ true)
    → absent test' n ≤ absent test n
absent-le test test' zero more = omega arith
absent-le test test' (suc n) more = ground (arith, more n, absent-le test test' n more)

-- A new member below the bound makes the number fall.
pub absent-lt :
    (test test' : ℕ → Bool) (n i : ℕ)
    → ((k : ℕ) → test k ≡ true → test' k ≡ true)
    → i < n
    → test i ≡ false
    → test' i ≡ true
    → absent test' n < absent test n
absent-lt test test' zero i more lt old new = absurd (omega arith)
absent-lt test test' (suc n) i more lt old new = elim (Bool-cases (i == n)) [
  | inl same ↦
      let e : i ≡ n = (==_iff i n).0 same in
      ground (arith, absent-le test test' n more, ap test e, ap test' e)
  | inr other ↦ ground (arith, more n, absent-lt test test' n i more)
]

pub absent-le_self : (test : ℕ → Bool) (n : ℕ) → absent test n ≤ n
absent-le_self test zero = omega arith
absent-le_self test (suc n) = ground (arith, absent-le_self test n)
