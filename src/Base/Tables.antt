-- ===== src/Base/Tables.antt =====
-- Checks of every number below a bound, by evaluation.
use Prim.Native.Nat.{ℕ, zero, suc, ◌<◌}
use mathlib.Core.Bool.{Bool, false, true}
use mathlib.Core.Path.{◌≡◌}
use native.Mathlib.Omega.{arith}
use doldisasm.Base.Tests.{if◌then◌else◌}

unfoldable pub passes_below : (ℕ → Bool) → ℕ → Bool
passes_below test zero = true
passes_below test (suc bound) = if test bound then passes_below test bound else false

-- Every number below a bound up to which the test passes itself passes.
pub passes_below-test :
    {bound : ℕ} (test : ℕ → Bool) (value : ℕ)
    → passes_below test bound ≡ true
    → value < bound
    → test value ≡ true
unfolding passes_below
passes_below-test {bound = zero} test value passed small = absurd (omega arith)
passes_below-test {bound = suc bound} test value passed small =
    ground (arith, passes_below-test {bound = bound} test value)
