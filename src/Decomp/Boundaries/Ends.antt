-- ===== src/Decomp/Boundaries/Ends.antt =====
-- The search for a function's end returns or panics, and the end that it finds lies in the buffer.
use doldisasm.Base.{
  ℕ, zero, suc, ◌+◌, ◌-◌, ◌*◌, ◌<◌, ◌≤◌, ◌%◌, ◌^◌, true, false, ◌&&◌, ltb, leb, Bool-cases,
}
use doldisasm.Base.{
  contains, length, take, drop, length-drop, Option, none, some, List, [], ◌∷◌, ◌≡◌, refl, ◌⊎◌, inl,
  inr, arith,
}
use native.Mathlib.Nat.{mul-le-mul_right}
use doldisasm.Base.Absent.{absent, absent-le, absent-lt, absent-le_self}
use doldisasm.Base.Checked.{Checked, returns, panics, add_u32}
use doldisasm.Base.Fueled.{done, panicked, lift}
use doldisasm.Ppc.Instruction.{Instruction, Result, ok, err, panic, BranchOptions}
use doldisasm.Ppc.Decoder.{Decoder, new, word, decode_instruction}
use doldisasm.Decomp.Reach.Explore.{Grows}
use doldisasm.Decomp.Boundaries.Visit.{
  End, later, both_ends, follow, handle, visit_block, scan, detect_fn_boundaries,
}

decoded :
    (offset : ℕ) (input : List ℕ) (i : Instruction)
    → (decode_instruction (record { input = input; offset = offset })).0 ≡ ok i
    → ((decode_instruction (record { input = input; offset = offset })).1.offset ≡ offset + 4)
      × (length input
          ≡ length (decode_instruction (record { input = input; offset = offset })).1.input + 4)
unfolding decode_instruction word
decoded offset [] i e = cc
decoded offset (a ∷ []) i e = cc
decoded offset (a ∷ b ∷ []) i e = cc
decoded offset (a ∷ b ∷ c ∷ []) i e = cc
decoded offset (a ∷ b ∷ c ∷ x ∷ input) i e = (refl, omega arith)

-- Where an instruction was decoded, four bytes were taken.
decode_instruction-ok :
    (d : Decoder) (i : Instruction)
    → (decode_instruction d).0 ≡ ok i
    → ((decode_instruction d).1.offset ≡ d.offset + 4)
      × (length d.input ≡ length (decode_instruction d).1.input + 4)
decode_instruction-ok d i e = decoded d.offset d.input i e

module _ (n : ℕ) where
  -- What an end that was found satisfies: more blocks were entered, and all of them and the end lie
  -- in the buffer.
  abbrev IsWithin : List ℕ → Type 0
  IsWithin seen = (k : ℕ) → contains seen k ≡ true → k ≤ n

  abbrev Found : List ℕ → End → Type 0
  Found seen r =
      (r ≡ panicked)
      ⊎ ((w : ℕ × List ℕ) × (r ≡ done w) × (Grows seen w.1) × (w.0 ≤ n) × IsWithin w.1)

  -- The blocks that have not been entered.
  abbrev rest : List ℕ → ℕ
  rest seen = absent (contains seen) (suc n)

  abbrev Finding : ℕ → (ℕ → List ℕ → End) → Type 0
  Finding fuel visit =
      (start : ℕ) (seen : List ℕ)
      → IsWithin seen
      → rest seen * (n + 4) < fuel
      → Found seen (visit start seen)

  lift-Found :
      {A : Type 0} (m : Checked A) (f : A → End) (seen : List ℕ)
      → ((a : A) → Found seen (f a))
      → Found seen (lift m f)
  lift-Found (returns a) f seen h = h a
  lift-Found panics f seen h = inl refl

  rest-le : (seen seen' : List ℕ) → Grows seen seen' → rest seen' * (n + 4) ≤ rest seen * (n + 4)
  rest-le seen seen' grows =
      mul-le-mul_right (n + 4) (absent-le (contains seen) (contains seen') (suc n) grows)

  Found-trans : (seen seen' : List ℕ) (r : End) → Grows seen seen' → Found seen' r → Found seen r
  Found-trans seen seen' r grows (inl e) = inl e
  Found-trans seen seen' r grows (inr (w, e, more, le, within)) =
      inr (w, e, (λ k h. more k (grows k h)), le, within)

  module _ (fuel : ℕ) (visit : ℕ → List ℕ → End) (finding : Finding fuel visit) where
    both_ends-Found :
        (after : ℕ) (seen : List ℕ) (o : Option ℕ)
        → IsWithin seen
        → rest seen * (n + 4) < fuel
        → Found seen (both_ends visit after seen o)
    both_ends-Found after seen none within few = finding after seen within few
    both_ends-Found after seen (some target) within few = elim (finding target seen within few) [
      | inl failed ↦ inl (rw failed refl)
      | inr (w, e, grows, le, within1) ↦
          elim (finding after w.1 within1 (omega (arith, rest-le seen w.1 grows))) [
            | inl failed ↦ inl (rw (e, failed) refl)
            | inr (w', e', grows', le', within') ↦ inr (
              (later w.0 w'.0, w'.1),
              rw (e, e') refl,
              (λ k h. grows' k (grows k h)),
              ground arith,
              within',
            )
          ]
    ]

    follow-Found :
        (go_on : List ℕ → End) (seen : List ℕ) (o : Option ℕ)
        → Found seen (go_on seen)
        → IsWithin seen
        → rest seen * (n + 4) < fuel
        → Found seen (follow visit go_on seen o)
    follow-Found go_on seen none more within few = more
    follow-Found go_on seen (some t) more within few = finding t seen within few

    handle-Found :
        (go_on : List ℕ → End) (buf : List ℕ) (fn_address off addr : ℕ) (r : Result Instruction)
        (seen : List ℕ)
        → off ≤ n
        → ((i : Instruction) → r ≡ ok i → (off + 4 ≤ n) × Found seen (go_on seen))
        → IsWithin seen
        → rest seen * (n + 4) < fuel
        → Found seen (handle visit go_on buf fn_address off addr r seen)
    unfolding handle
    handle-Found go_on buf fn_address off addr
          (ok (Instruction.bclr BranchOptions.branch_always bi false)) seen le more within few =
        inr ((off + 4, seen), refl, (λ k h. h), (more _ refl).0, within)
    handle-Found go_on buf fn_address off addr (ok (Instruction.bc bo bi target mode link)) seen le
          more within few =
        lift-Found _ _ seen (λ o. both_ends-Found (off + 4) seen o within few)
    handle-Found go_on buf fn_address off addr (ok (Instruction.branch target mode link)) seen le
          more within few =
        lift-Found _ _ seen (λ o. follow-Found go_on seen o (more _ refl).1 within few)
    handle-Found go_on buf fn_address off addr (ok i) seen le more within few = (more _ refl).1
    handle-Found go_on buf fn_address off addr (err e) seen le more within few =
        inr ((off, seen), refl, (λ k h. h), le, within)
    handle-Found go_on buf fn_address off addr panic seen le more within few = inl refl

module _ (buf : List ℕ) (fn_address : ℕ) where
  abbrev n : ℕ
  n = length buf

  abbrev Scanning : ℕ → Type 0
  Scanning fuel =
      (start : ℕ) (d : Decoder) (seen : List ℕ)
      → start + d.offset + length d.input ≡ n
      → IsWithin n seen
      → rest n seen * (n + 4) + length d.input + 1 < fuel
      → Found n seen (scan buf fn_address fuel start d seen)

  enter :
      (fuel : ℕ)
      → Scanning fuel
      → (start : ℕ) (seen : List ℕ) → IsWithin n seen
      → rest n seen * (n + 4) < suc fuel
      → contains seen start ≡ false
      → start ≤ n
      → Found n seen (scan buf fn_address fuel start (new (drop start buf)) (start ∷ seen))
  unfolding new
  enter fuel scanning start seen within few fresh le =
      let grows : Grows seen (start ∷ seen) = λ k h. ground (arith, h) in
      let fewer : rest n (start ∷ seen) < rest n seen =
        absent-lt (contains seen) (contains (start ∷ seen)) (suc n) start grows (omega arith) fresh
          (ground arith) in
      let less : suc (rest n (start ∷ seen)) * (n + 4) ≤ rest n seen * (n + 4) =
        mul-le-mul_right (n + 4) (omega (arith, fewer)) in
      Found-trans n seen (start ∷ seen) _ grows (
        scanning start (new (drop start buf)) (start ∷ seen) (omega (arith, length-drop start buf))
          (λ k h. ground (arith, h, within k)) (omega (arith, length-drop start buf, less)))

  ends : (fuel : ℕ) → Finding n fuel (visit_block buf fn_address fuel) × Scanning fuel
  unfolding visit_block scan
  ends zero = (
    λ start seen within few. absurd (omega arith),
    λ start d seen e within few. absurd (omega arith),
  )
  ends (suc fuel) =
      let (finding, scanning) = ends fuel in
      (
        λ start seen within few. elim (Bool-cases (contains seen start)) [
          | inl old ↦ rw old (inr ((start, seen), refl, (λ k h. h), within start old, within))
          | inr fresh ↦ elim (Bool-cases (ltb (length buf) start)) [
            | inl outside ↦ rw (fresh, outside) (inl refl)
            | inr inside ↦
                rw (fresh, inside)
                  (enter fuel scanning start seen within few fresh (ground (arith, inside)))
          ]
        ],
        λ start d seen e within few.
            lift-Found n (add_u32 fn_address ((start + d.offset) % 2 ^ 32)) _ seen (λ addr.
              handle-Found n fuel (visit_block buf fn_address fuel) finding
                (scan buf fn_address fuel start (decode_instruction d).1) buf fn_address
                (start + d.offset) addr (decode_instruction d).0 seen (omega arith)
                (λ i read.
                  let (offset, input) = decode_instruction-ok d i read in
                  (
                    omega arith,
                    scanning start (decode_instruction d).1 seen (omega arith) within (omega arith),
                  ))
                within (omega arith)),
      )

  -- On fuel that grows with the square of the buffer's length, the search for the end of the block
  -- at `start` panics, or it returns an end that lies in the buffer, and then
  -- `detect_fn_boundaries` returns the bytes from `start` to there, unless the end lies before
  -- `start`.
  pub detect_fn_boundaries-Found :
      (start : ℕ)
      → (visit_block buf fn_address (suc (suc n * (n + 4))) start [] ≡ panicked)
        ⊎ ((end : ℕ) × (seen : List ℕ) × (visit_block buf fn_address
                (suc (suc n * (n + 4)))
                start
                []
              ≡ done (end, seen))
            × (end ≤ n)
            × (start ≤ end
                → detect_fn_boundaries buf fn_address (suc (suc n * (n + 4))) start
                  ≡ done (take (end - start) (drop start buf))))
  unfolding detect_fn_boundaries
  detect_fn_boundaries-Found start =
      elim ((ends (suc (suc n * (n + 4)))).0 start [] (λ k h. ground (arith, h))
        (omega (arith, mul-le-mul_right (n + 4) (absent-le_self (contains []) (suc n))))) [
          | inl failed ↦ inl failed
          | inr ((end, seen), e, grows, le, within) ↦ inr (
            end,
            seen,
            e,
            le,
            λ ordered.
                let fits : (leb start end && leb end (length buf)) ≡ true = ground arith in
                rw (e, fits) refl,
          )
        ]
