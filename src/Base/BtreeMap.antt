-- ===== src/Base/BtreeMap.antt =====
-- `BTreeMap` with number keys, as the list of its entries in the order of the keys.
use Prim.Native.Nat.{ℕ, ◌<◌, ◌≤◌}
use mathlib.Core.Path.{◌≡◌, refl}
use mathlib.Core.Bool.{Bool, true, false}
use mathlib.Core.Option.{Option, none, some}
use mathlib.Core.List.{List, [], ◌∷◌}
use native.Mathlib.Omega.{arith}
use doldisasm.Base.Tests.{ltb, ◌==◌, if◌then◌else◌}
use doldisasm.Base.Checked.{Checked, returns, ◌>>=◌}

abbrev pub BtreeMap {ℓ} : Type ℓ → Type ℓ
BtreeMap V = List (ℕ × V)

module _ {ℓ} {V : Type ℓ} where
  -- `get`: the search ends at the first larger key.
  unfoldable pub get : BtreeMap V → ℕ → Option V
  get [] k = none
  get ((k', v) ∷ m) k = if k == k' then some v else if ltb k k' then none else get m k

  -- The entry of a key changed in place, or made: `entry` and what is done with it, and `insert`.
  unfoldable pub update : (Option V → V) → BtreeMap V → ℕ → BtreeMap V
  update f [] k = (k, f none) ∷ []
  update f ((k', v) ∷ m) k =
      if k == k'
      then (k', f (some v)) ∷ m
      else if ltb k k'
      then (k, f none) ∷ (k', v) ∷ m
      else (k', v) ∷ update f m k

  -- `range(k..).next()`
  unfoldable pub first_from : BtreeMap V → ℕ → Option (ℕ × V)
  first_from [] k = none
  first_from ((k', v) ∷ m) k = if ltb k' k then first_from m k else some (k', v)

  abbrev pub keep_if : Bool → ℕ × V → BtreeMap V → BtreeMap V
  keep_if b e m = if b then e ∷ m else m

  -- `retain`, with a test that may panic.
  unfoldable pub retain : (ℕ → V → Checked Bool) → BtreeMap V → Checked (BtreeMap V)
  retain keep [] = returns []
  retain keep ((k, v) ∷ m) = keep k v >>= λ b. retain keep m >>= λ m'. returns (keep_if b (k, v) m')

  -- The keys of the entries, increasing from above a bound.
  abbrev pub IsAbove : ℕ → BtreeMap V → Type 0
  IsAbove b [] = Unit
  IsAbove b ((k, v) ∷ m) = (b < k) × IsAbove k m

  abbrev pub IsSorted : BtreeMap V → Type 0
  IsSorted [] = Unit
  IsSorted ((k, v) ∷ m) = IsAbove k m

  pub get-update :
      (f : Option V → V) (m : BtreeMap V) (k j : ℕ)
      → get (update f m k) j ≡ (if j == k then some (f (get m k)) else get m j)
  unfolding get update
  get-update f [] k j = ground arith
  get-update f ((k', v) ∷ m) k j = ground (arith, get-update f m k j)

  update-IsAbove :
      (f : Option V → V) (m : BtreeMap V) (k b : ℕ) → IsAbove b m → b < k → IsAbove b (update f m k)
  unfolding update
  update-IsAbove f [] k b h lt = (lt, tt)
  update-IsAbove f ((k', v) ∷ m) k b h lt = ground (arith, update-IsAbove f m k k')

  pub update-IsSorted :
      (f : Option V → V) (m : BtreeMap V) (k : ℕ) → IsSorted m → IsSorted (update f m k)
  unfolding update
  update-IsSorted f [] k h = tt
  update-IsSorted f ((k', v) ∷ m) k h = ground (arith, update-IsAbove f m k k')

  -- Below every key nothing is found.
  get-IsAbove : (m : BtreeMap V) (b j : ℕ) → IsAbove b m → j ≤ b → get m j ≡ none
  unfolding get
  get-IsAbove [] b j h le = refl
  get-IsAbove ((k, v) ∷ m) b j h le = ground arith

  IsAbove-IsSorted : (m : BtreeMap V) (b : ℕ) → IsAbove b m → IsSorted m
  IsAbove-IsSorted [] b h = tt
  IsAbove-IsSorted ((k, v) ∷ m) b h = h.1

  IsAbove-lower : (m : BtreeMap V) (b c : ℕ) → b ≤ c → IsAbove c m → IsAbove b m
  IsAbove-lower [] b c le h = tt
  IsAbove-lower ((k, v) ∷ m) b c le h = (omega arith, h.1)

  -- The entries that pass a test.
  unfoldable pub kept : (ℕ → V → Bool) → BtreeMap V → BtreeMap V
  kept test [] = []
  kept test ((k, v) ∷ m) = keep_if (test k v) (k, v) (kept test m)

  kept-IsAbove :
      (test : ℕ → V → Bool) (m : BtreeMap V) (b : ℕ) → IsAbove b m → IsAbove b (kept test m)
  unfolding kept
  kept-IsAbove test [] b h = tt
  kept-IsAbove test ((k, v) ∷ m) b h =
      elim (test k v) as (λ t. IsAbove b (keep_if t (k, v) (kept test m))) [
        | true ↦ (h.0, kept-IsAbove test m k h.1)
        | false ↦ IsAbove-lower (kept test m) b k (omega arith) (kept-IsAbove test m k h.1)
      ]

  abbrev pub filter_by : (V → Bool) → Option V → Option V
  filter_by test none = none
  filter_by test (some v) = if test v then some v else none

  pub get-kept :
      (test : ℕ → V → Bool) (m : BtreeMap V) (j : ℕ)
      → IsSorted m
      → get (kept test m) j ≡ filter_by (test j) (get m j)
  unfolding get kept
  get-kept test [] j h = refl
  get-kept test ((k, v) ∷ m) j h =
      ground (arith, get-kept test m j (IsAbove-IsSorted m k h), get-IsAbove m k j h)

  found_above : (m : BtreeMap V) (b j : ℕ) (u : V) → IsAbove b m → get m j ≡ some u → b < j
  unfolding get
  found_above [] b j u h e = cc
  found_above ((k, v) ∷ m) b j u h e = ground (arith, found_above m k j u)

  get-tail :
      (k : ℕ) (v : V) (m : BtreeMap V) (j : ℕ) (u : V)
      → IsAbove k m
      → get m j ≡ some u
      → get ((k, v) ∷ m) j ≡ some u
  unfolding get
  get-tail k v m j u h e =
      let lt : k < j = found_above m k j u h e in
      let other : (j == k) ≡ false = ground arith in
      let later : ltb j k ≡ false = ground arith in rw (other, later) e

  pub retain-kept :
      (keep : ℕ → V → Checked Bool) (test : ℕ → V → Bool) (m : BtreeMap V)
      → IsSorted m
      → ((k : ℕ) (v : V) → get m k ≡ some v → keep k v ≡ returns (test k v))
      → retain keep m ≡ returns (kept test m)
  unfolding get retain kept
  retain-kept keep test [] h total = refl
  retain-kept keep test ((k, v) ∷ m) h total =
      let here : keep k v ≡ returns (test k v) = total k v (ground arith) in
      let rest : retain keep m ≡ returns (kept test m) =
        retain-kept keep test m (IsAbove-IsSorted m k h)
          (λ j u e. total j u (get-tail k v m j u h e)) in
      rw (here, rest)
