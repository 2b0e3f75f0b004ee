-- ===== src/Ppc/Word/Slice.antt =====
-- ppc32/src/word.rs: the masked accessors, read as division and remainder.
use native.Mathlib.Nat.{add-zero, add-suc, zero-add, mul-one, pow-suc, one-le-pow, pow-le-pow_right}
use native.Mathlib.Nat.{mod-lt, mod-eq_of_lt, mul-div_cancel, add-mul-div_right, div-eq_of_lt}
use native.Mathlib.Nat.{le_trans}
use doldisasm.Base.{ℕ, zero, suc, ◌+◌, ◌-◌, ◌*◌, ◌/◌, ◌%◌, ◌^◌, ◌≤◌, ◌<◌}
use doldisasm.Base.{◌≡◌, ap, ◌∙◌, ◌==◌, arith}
use doldisasm.Base.Bits.{ones, bit_and-mask}
use doldisasm.Ppc.Word.{Word, field_mask, u32, u8, bit, bit_set}

pub pow_add : (a b : ℕ) → 2 ^ (a + b) ≡ 2 ^ a * 2 ^ b
pow_add a zero = rw (add-zero, mul-one)
pow_add a (suc b) =
    let next : 2 ^ (a + suc b) ≡ 2 ^ (a + b) * 2 = rw add-suc (pow-suc 2 (a + b)) in
    omega (arith, next, pow_add a b, ap (λ (t : ℕ). 2 ^ a * t) (pow-suc 2 b))

pub pow-pos : (k : ℕ) → 0 < 2 ^ k
pow-pos k = one-le-pow k 2 (omega arith)

pub pred_mul : (p s : ℕ) → 0 < p → (p - 1) * s + s ≡ p * s
pred_mul zero s h = absurd (omega arith)
pred_mul (suc p) s h = let e : suc p - 1 ≡ p = omega arith in rw e (omega arith)

-- Dropping the low bits of a row of ones leaves a shorter row.
ones-div : (k s : ℕ) → ones (k + s) / 2 ^ s ≡ ones k
ones-div k s =
    let split : ones (k + s) ≡ (2 ^ s - 1) + ones k * 2 ^ s =
      omega (arith, pow_add k s, pow-pos s, pred_mul (2 ^ k) (2 ^ s) (pow-pos k)) in
    rw split (
      add-mul-div_right (2 ^ s - 1) (ones k) (pow-pos s)
      ∙ ap (λ t. t + ones k) (div-eq_of_lt (omega (arith, pow-pos s)))
      ∙ zero-add (ones k))

field_mask_lem :
    (from to : ℕ) → from ≤ to → to ≤ 31 → field_mask from to ≡ ones (to - from + 1) * 2 ^ (31 - to)
field_mask_lem from to h k =
    let width : 32 ≡ (to - from + 1) + (from + (31 - to)) = omega arith in
    let row : (2 ^ 32 - 1) / 2 ^ (from + (31 - to)) ≡ ones (to - from + 1) =
      ap (λ (t : ℕ). ones t / 2 ^ (from + (31 - to))) width
      ∙ ones-div (to - from + 1) (from + (31 - to)) in
    let total : 2 ^ (to - from + 1) * 2 ^ (31 - to) ≤ 2 ^ 32 =
      rw (← pow_add (to - from + 1) (31 - to))
        (pow-le-pow_right (omega arith) {j = 32} (omega arith)) in
    let small : ones (to - from + 1) * 2 ^ (31 - to) < 2 ^ 32 = omega (
      arith,
      pow-pos (31 - to),
      pred_mul (2 ^ (to - from + 1)) (2 ^ (31 - to)) (pow-pos (to - from + 1)),
    ) in
    rw row (mod-eq_of_lt small)

-- `u32::<FROM, TO>` is the field of bits FROM to TO, counted from the most significant bit: the
-- word shifted down and reduced to the field's width, for every field inside the word.
pub u32-slice :
    (from to : ℕ) (w : Word)
    → from ≤ to
    → to ≤ 31
    → u32 from to w ≡ w / 2 ^ (31 - to) % 2 ^ (to - from + 1)
unfolding u32
u32-slice from to w h k =
    rw (field_mask_lem from to h k, bit_and-mask)
      (mul-div_cancel (w / 2 ^ (31 - to) % 2 ^ (to - from + 1)) (pow-pos (31 - to)))

pub u32-lt : (from to : ℕ) (w : Word) → from ≤ to → to ≤ 31 → u32 from to w < 2 ^ (to - from + 1)
u32-lt from to w h k = rw (u32-slice from to w h k) (mod-lt _ (pow-pos (to - from + 1)))

pub u8-slice :
    (from to : ℕ) (w : Word)
    → from ≤ to
    → to ≤ 31
    → to - from < 8
    → u8 from to w ≡ w / 2 ^ (31 - to) % 2 ^ (to - from + 1)
unfolding u8
u8-slice from to w h k n =
    let fits : 2 ^ (to - from + 1) ≤ 2 ^ 8 = pow-le-pow_right (omega arith) {j = 8} (omega arith) in
    rw (u32-slice from to w h k)
      (mod-eq_of_lt (le_trans (mod-lt (w / 2 ^ (31 - to)) (pow-pos (to - from + 1))) fits))

pub u8-lt :
    (from to : ℕ) (w : Word)
    → from ≤ to
    → to ≤ 31
    → to - from < 8
    → u8 from to w < 2 ^ (to - from + 1)
u8-lt from to w h k n = rw (u8-slice from to w h k n) (mod-lt _ (pow-pos (to - from + 1)))

pub bit_set-slice : (b : ℕ) (w : Word) → b ≤ 31 → bit_set b w ≡ (w / 2 ^ (31 - b) % 2 == 1)
unfolding bit
bit_set-slice b w h = rw (bit_and-mask w 1 (31 - b)) (ground (arith, pow-pos (31 - b)))
