-- ===== src/Base/Bits.antt =====
-- `x & mask` for a mask of consecutive ones, as arithmetic, at every width and position.
use Prim.Native.Nat.{ℕ, zero, suc, ◌+◌, ◌-◌, ◌*◌, ◌/◌, ◌%◌, ◌^◌, ◌≤◌, ◌<◌}
use Prim.Native.Nat.{min, bit_and, digits, bit_and-bitwise}
use mathlib.Core.Path.{◌≡◌, refl, sym, ap, ◌∙◌}
use native.Mathlib.Omega.{arith}
use native.Mathlib.Nat.{
  pow-suc, pow-succ', one-le-pow, mod-lt, mod-eq_of_lt, div-add-mod, div-div-eq-div-mul, zero-div,
  zero-mod, zero-mul, div-one, add-mul-mod_self_right,
}

-- The native operation is the digitwise minimum, on as much fuel as its first operand.
abbrev ands : ℕ → ℕ → ℕ → ℕ
ands = digits (λ b. zero) min

ands-zero : (n b : ℕ) → ands n 0 b ≡ 0
ands-zero zero b = refl
ands-zero (suc n) b = refl

abbrev pub ones : ℕ → ℕ
ones k = 2 ^ k - 1

double-pow : (q s : ℕ) → q * 2 ^ suc s ≡ q * 2 ^ s * 2
double-pow q s = omega (arith, ap (λ (t : ℕ). q * t) (pow-suc 2 s))

-- A shift to the right by one more place, in two steps.
div-pow_suc : (a s : ℕ) → a / 2 ^ suc s ≡ a / 2 / 2 ^ s
div-pow_suc a s = ap (λ t. a / t) (pow-succ' 2 s) ∙ sym (div-div-eq-div-mul a 2 (2 ^ s))

-- The remainder by the next power of two: the lowest digit, and the rest's remainder.
mod-pow_suc : (a k : ℕ) → a % 2 ^ suc k ≡ a / 2 % 2 ^ k * 2 + a % 2
mod-pow_suc a k =
    ap (λ t. t % 2 ^ suc k) split ∙ (add-mul-mod_self_right r q (2 ^ suc k) ∙ mod-eq_of_lt small)
  where
    q : ℕ
    q = a / 2 / 2 ^ k

    r : ℕ
    r = a / 2 % 2 ^ k * 2 + a % 2

    split : a ≡ r + q * 2 ^ suc k
    split = omega (arith, double-pow q k, div-add-mod (a / 2) (2 ^ k))

    small : r < 2 ^ suc k
    small = omega (arith, pow-suc 2 k, mod-lt (a / 2) (one-le-pow k 2 (omega arith)))

-- Every fuel that reaches the first operand is enough.
ands-mask : (n k s a : ℕ) → a ≤ n → ands n a (ones k * 2 ^ s) ≡ a / 2 ^ s % 2 ^ k * 2 ^ s
ands-mask n k s zero h = rw (ands-zero, zero-div, zero-mod, zero-mul)
ands-mask zero k s (suc a) h = absurd (omega arith)
ands-mask (suc n) zero zero (suc a) h =
    omega (arith, ands-mask n zero zero (suc a / 2) (omega arith))
ands-mask (suc n) (suc k) zero (suc a) h =
    let half : ones (suc k) * 1 / 2 ≡ ones k * 2 ^ 0 =
      omega (arith, pow-suc 2 k, one-le-pow k 2 (omega arith)) in
    let odd : ones (suc k) * 1 % 2 ≡ 1 = omega (arith, pow-suc 2 k, one-le-pow k 2 (omega arith)) in
    rw
      (
        half,
        odd,
        ands-mask n k zero (suc a / 2) (omega arith),
        div-one (suc a),
        div-one (suc a / 2),
      )
      (omega (arith, mod-pow_suc (suc a) k))
ands-mask (suc n) k (suc s) (suc a) h =
    let half : ones k * 2 ^ suc s / 2 ≡ ones k * 2 ^ s = omega (arith, double-pow (ones k) s) in
    let even : ones k * 2 ^ suc s % 2 ≡ 0 = omega (arith, double-pow (ones k) s) in
    rw (half, even, ands-mask n k s (suc a / 2) (omega arith), div-pow_suc (suc a) s)
      (omega (arith, double-pow (suc a / 2 / 2 ^ s % 2 ^ k) s))

-- A mask of `k` ones from bit `s` on keeps exactly those bits.
pub bit_and-mask : (a k s : ℕ) → bit_and a (ones k * 2 ^ s) ≡ a / 2 ^ s % 2 ^ k * 2 ^ s
bit_and-mask a k s = bit_and-bitwise a (ones k * 2 ^ s) ∙ ands-mask a k s a (omega arith)
