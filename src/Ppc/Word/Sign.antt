-- ===== src/Ppc/Word/Sign.antt =====
-- ppc32/src/word.rs, `i32`: which integer the two shifts leave.
use native.Mathlib.Nat.{mul-div_cancel, add-mul-div_right, add-mul-mod_self_right, div-eq_of_lt}
use native.Mathlib.Nat.{
  mod-eq_of_lt, mod-eq-sub-mod, mod-lt, div-add-mod', pow-suc, mul-le-mul_right, zero-add,
}
use mathlib.Core.Path.{ap₂}
use doldisasm.Base.{ℕ, suc, ◌+◌, ◌-◌, ◌*◌, ◌/◌, ◌%◌, ◌^◌, ◌≤◌, ◌<◌, ltb, ltb_iff, ltb-false_iff}
use doldisasm.Base.{
  ◌≡◌, ◌↔◌, ◌⊎◌, inl, inr, sym, ap, ◌∙◌, Bool-cases, true, false, arith, if◌then◌else◌,
}
use doldisasm.Base.Signed.{ℤ, pos, negsuc, signed}
use doldisasm.Ppc.Word.{Word, u32, i32, shift_right}
use doldisasm.Ppc.Word.Slice.{pow_add, pow-pos, u32-lt}

-- Scaling keeps a strict order, with room for one more unit.
mul_lt : (a b s : ℕ) → a < b → a * s + s ≤ b * s
mul_lt a b s h = omega (arith, mul-le-mul_right s h)

-- A field shifted to the top of the register loses the bits above its low `k` ones.
shift_up : (k s v : ℕ) → v * 2 ^ s % 2 ^ (k + s) ≡ v % 2 ^ k * 2 ^ s
shift_up k s v =
    ap (λ t. t % 2 ^ (k + s)) split
    ∙ (add-mul-mod_self_right (r * 2 ^ s) q (2 ^ (k + s)) ∙ mod-eq_of_lt small)
  where
    q : ℕ
    q = v / 2 ^ k

    r : ℕ
    r = v % 2 ^ k

    split : v * 2 ^ s ≡ r * 2 ^ s + q * 2 ^ (k + s)
    split = omega (
      arith,
      ap (λ (t : ℕ). t * 2 ^ s) (div-add-mod' v (2 ^ k)),
      ap (λ (t : ℕ). q * t) (pow_add k s),
    )

    small : r * 2 ^ s < 2 ^ (k + s)
    small = rw pow_add (omega (arith, pow-pos s, mul_lt r (2 ^ k) (2 ^ s) (mod-lt v (pow-pos k))))

-- Two's complement with sign bit worth `half`, in a range of `full` values.
abbrev complement : ℕ → ℕ → ℕ → ℤ
complement half full x = if ltb x half then pos x else negsuc (full - x - 1)

-- The sign test and the two's complement, at half range `h` and shift factor `2 ^ s`.
shift_down :
    (h s r : ℕ)
    → r < 2 * h
    → shift_right (complement (h * 2 ^ s) (2 * h * 2 ^ s) (r * 2 ^ s)) s ≡ complement h (2 * h) r
shift_down h s r lt = elim (Bool-cases (ltb r h)) [
  | inl small ↦
      let up : ltb (r * 2 ^ s) (h * 2 ^ s) ≡ true =
        (ltb_iff _ _).1 (omega (arith, pow-pos s, mul_lt r h (2 ^ s) ((ltb_iff r h).0 small))) in
      rw (up, small) (ap pos (mul-div_cancel r (pow-pos s)))
  | inr large ↦
      let up : ltb (r * 2 ^ s) (h * 2 ^ s) ≡ false =
        (ltb-false_iff _ _).1 (mul-le-mul_right (2 ^ s) ((ltb-false_iff r h).0 large)) in
      let split : 2 * h * 2 ^ s - r * 2 ^ s - 1 ≡ (2 ^ s - 1) + (2 * h - r - 1) * 2 ^ s =
        let e : 2 * h ≡ (2 * h - r - 1) + suc r = omega arith in
        omega (arith, pow-pos s, ap (λ (t : ℕ). t * 2 ^ s) e) in
      rw (up, large, split)
        (ap negsuc (
          add-mul-div_right _ _ (pow-pos s)
          ∙ ap (λ t. t + (2 * h - r - 1)) (div-eq_of_lt (omega (arith, pow-pos s)))
          ∙ zero-add _))
]

two_shifts :
    (m s v : ℕ)
    → suc m + s ≡ 32
    → shift_right (signed 32 (v * 2 ^ s % 2 ^ 32)) s ≡ signed (suc m) (v % 2 ^ suc m)
two_shifts m s v e =
    ap (λ t. shift_right (signed 32 t) s) moved
    ∙ ap₂ (λ h f. shift_right (complement h f (r * 2 ^ s)) s) top whole
    ∙ shift_down (2 ^ m) s r (omega (arith, double, mod-lt v (pow-pos (suc m))))
    ∙ ap₂ (λ h f. complement h f r) (ap (λ t. 2 ^ t) (omega arith)) (sym double)
  where
    r : ℕ
    r = v % 2 ^ suc m

    moved : v * 2 ^ s % 2 ^ 32 ≡ r * 2 ^ s
    moved = ap (λ t. v * 2 ^ s % 2 ^ t) (sym e) ∙ shift_up (suc m) s v

    double : 2 ^ suc m ≡ 2 * 2 ^ m
    double = omega (arith, pow-suc 2 m)

    top : 2 ^ 31 ≡ 2 ^ m * 2 ^ s
    top = ap {A = ℕ} (λ t. 2 ^ t) {x = 31} {y = m + s} (omega arith) ∙ pow_add m s

    whole : 2 ^ 32 ≡ 2 * 2 ^ m * 2 ^ s
    whole = omega (arith, top)

-- The two shifts of `i32` read the field's low TO - FROM bits in two's complement; the field has
-- one bit more, which is lost.
pub i32-signed :
    (from to : ℕ) (w : Word)
    → from < to
    → to ≤ 31
    → i32 from to w ≡ signed (to - from) (u32 from to w % 2 ^ (to - from))
unfolding i32
i32-signed from to w h k =
    let m = to - from - 1 in
    let width : to - from ≡ suc m = omega arith in
    rw width (two_shifts m (32 - suc m) (u32 from to w) (omega arith))

-- Sign extension of the whole field, for comparison.
abbrev pub sign_extended : ℕ → ℕ → Word → ℤ
sign_extended from to w = signed (to - from + 1) (u32 from to w)

-- The remainder by half of the range, on each half.
half_cases :
    (p v : ℕ)
    → v < 4 * p
    → ((v < 2 * p) × (v % (2 * p) ≡ v)) ⊎ ((2 * p ≤ v) × (v % (2 * p) ≡ v - 2 * p))
half_cases p v h = elim (Bool-cases (ltb v (2 * p))) [
  | inl low ↦ let lt = (ltb_iff v (2 * p)).0 low in inl (lt, mod-eq_of_lt lt)
  | inr high ↦
      let ge = (ltb-false_iff v (2 * p)).0 high in
      inr (ge, mod-eq-sub-mod ge ∙ mod-eq_of_lt (omega arith))
]

quarters_at :
    (p v : ℕ)
    → v < 4 * p
    → (complement p (2 * p) (v % (2 * p)) ≡ complement (2 * p) (4 * p) v) ↔ ((v < p) ⊎ (3 * p ≤ v))
quarters_at p v h = ground (arith, half_cases p v h)

quarters :
    (m v : ℕ)
    → v < 2 ^ (suc m + 1)
    → (signed (suc m) (v % 2 ^ suc m) ≡ signed (suc m + 1) v)
      ↔ ((v < 2 ^ (suc m - 1)) ⊎ (3 * 2 ^ (suc m - 1) ≤ v))
quarters m v h =
    let one : 2 ^ (suc m - 1) ≡ 2 ^ m = ap (λ t. 2 ^ t) (omega arith) in
    let two : 2 ^ suc m ≡ 2 * 2 ^ m = omega (arith, pow-suc 2 m) in
    let next : 2 ^ (suc m + 1 - 1) ≡ 2 * 2 ^ m = ap (λ t. 2 ^ t) (omega arith) ∙ two in
    let four : 2 ^ (suc m + 1) ≡ 4 * 2 ^ m = omega (arith, pow_add (suc m) 1, two) in
    rw (next, four, two, one) (quarters_at (2 ^ m) v (omega arith))

-- `i32` agrees with the sign extension of the whole field exactly when the field's two top bits
-- are equal: below the first quarter of the field's range, or from the last quarter on.
pub i32_agrees_iff :
    (from to : ℕ) (w : Word)
    → from < to
    → to ≤ 31
    → (i32 from to w ≡ sign_extended from to w)
      ↔ ((u32 from to w < 2 ^ (to - from - 1)) ⊎ (3 * 2 ^ (to - from - 1) ≤ u32 from to w))
i32_agrees_iff from to w h k =
    let m = to - from - 1 in
    let width : to - from ≡ suc m = omega arith in
    let field = u32 from to w in
    let range : field < 2 ^ (suc m + 1) =
      omega (arith, u32-lt from to w (omega arith) k, ap (λ (t : ℕ). 2 ^ (t + 1)) width) in
    rw (i32-signed from to w h k, width) (quarters m field range)
