-- ===== src/Decomp/Boundaries/Inside.antt =====
-- A branch that counts as part of its function stays in the buffer and near.
use doldisasm.Base.{ℕ, ◌+◌, ◌-◌, ◌/◌, ◌<◌, ◌≤◌, Bool, false, ◌||◌, ltb, leb, Bool-cases}
use doldisasm.Base.{length, Option, none, some, List, ◌≡◌, refl, ap, subst, ◌∙◌, inl, inr, arith}
use doldisasm.Base.Signed.{ℤ}
use doldisasm.Base.Checked.{returns, panics, >>=-eq-returns}
use doldisasm.Ppc.Instruction.{Instruction, Result, ok, err, panic, AddressingMode}
use doldisasm.Ppc.Instruction.Fields.{compute_branch_target}
use doldisasm.Ppc.Decoder.{new, decode_instruction}
use doldisasm.Decomp.Cfg.{checked, checked_sub}
use doldisasm.Decomp.Boundaries.{
  abs_diff, distance_confidence, get_range, before_confidence, is_mflr_instr,
  is_stack_reserve_instr, target_confidence, aligned_confidence, around_target, offset_is_fn_call,
  branch_is_fn_call,
}

-- A function's usual first instruction.
abbrev pub is_prologue : Result Instruction → Bool
is_prologue (ok i) = is_mflr_instr i || is_stack_reserve_instr i
is_prologue _ = false

prologue-confidence :
    (m : Result Instruction) (c : ℕ)
    → target_confidence m ≡ returns c
    → c < 10
    → is_prologue m ≡ false
prologue-confidence (ok i) c e few = ground arith
prologue-confidence (err e) c f few = refl
prologue-confidence panic c e few = refl

distance_confidence-near : (d : ℕ) → distance_confidence d < 10 → d < 512
unfolding distance_confidence
distance_confidence-near d few = ground arith

panics-returns : {A : Type 0} {a : A} → ¬ (panics ≡ returns a)
panics-returns e = cc

checked-ok : {A : Type 0} {a : A} (m : Result A) → checked m ≡ returns a → m ≡ ok a
checked-ok (ok b) e = cc
checked-ok (err x) e = cc
checked-ok panic e = cc

-- The word before a target in the buffer, and the one at it.
abbrev pub word_at : List ℕ → Result Instruction
word_at bytes = (decode_instruction (decode_instruction (new bytes)).1).0

around_target-false :
    (target d : ℕ) (o : Option (List ℕ))
    → around_target target d o ≡ returns false
    → (bytes : List ℕ) × (o ≡ some bytes) × (d < 512) × (is_prologue (word_at bytes) ≡ false)
around_target-false target d none e = cc
around_target-false target d (some bytes) e =
    let (c2, before, rest) =
      >>=-eq-returns (before_confidence (decode_instruction (new bytes)).0) _ e in
    let (c3, at, last) = >>=-eq-returns (target_confidence (word_at bytes)) _ rest in
    let low : leb 10 (distance_confidence d + c2 + c3 + aligned_confidence target) ≡ false = cc in
    let few : distance_confidence d + c2 + c3 + aligned_confidence target < 10 =
      ground (arith, low) in
    (
      bytes,
      refl,
      distance_confidence-near d (omega (arith, few)),
      prologue-confidence (word_at bytes) c3 at (omega (arith, few)),
    )

get_range-some :
    (buf : List ℕ) (a b : ℕ) (bytes : List ℕ) → get_range buf a b ≡ some bytes → b ≤ length buf
unfolding get_range
get_range-some buf a b bytes e = ground arith

offset-false :
    (buf : List ℕ) (target inst_addr : ℕ) (o : Option ℕ)
    → offset_is_fn_call buf target inst_addr o ≡ returns false
    → (off : ℕ) × (bytes : List ℕ) × (o ≡ some off)
      × (4 ≤ off)
      × (off + 4 ≤ length buf)
      × (abs_diff inst_addr target / 4 < 512)
      × (get_range buf (off - 4) (off + 4) ≡ some bytes)
      × (is_prologue (word_at bytes) ≡ false)
offset-false buf target inst_addr none e = cc
offset-false buf target inst_addr (some off) e = elim (Bool-cases (ltb off 4)) [
  | inl low ↦ absurd (panics-returns (rw low at e))
  | inr high ↦
      let (bytes, range, near, plain) =
        around_target-false target (abs_diff inst_addr target / 4)
          (get_range buf (off - 4) (off + 4)) (rw high at e) in
      (
        off,
        bytes,
        refl,
        ground (arith, high),
        get_range-some buf (off - 4) (off + 4) bytes range,
        near,
        range,
        plain,
      )
]

-- If a `b` does not count as a function call, its target can be computed and lies four bytes or more
-- into the function, with a whole word in the buffer, less than 512 instructions from the branch,
-- and the word there decodes to none of the usual first instructions of a function.
pub branch_is_fn_call-false :
    (buf : List ℕ) (fn_addr inst_addr : ℕ) (target : ℤ) (mode : AddressingMode) (link : Bool)
    → branch_is_fn_call buf fn_addr (Instruction.branch target mode link) inst_addr ≡ returns false
    → (off : ℕ) × (bytes : List ℕ) × (compute_branch_target inst_addr mode target
        ≡ ok (fn_addr + off))
      × (4 ≤ off)
      × (off + 4 ≤ length buf)
      × (abs_diff inst_addr (fn_addr + off) / 4 < 512)
      × (get_range buf (off - 4) (off + 4) ≡ some bytes)
      × (is_prologue (word_at bytes) ≡ false)
unfolding branch_is_fn_call
branch_is_fn_call-false buf fn_addr inst_addr target mode link e =
    let (t, computed, rest) =
      >>=-eq-returns (checked (compute_branch_target inst_addr mode target)) _ e in
    let (off, bytes, inside, low, high, near, range, plain) =
      offset-false buf t inst_addr (checked_sub t fn_addr) rest in
    let same : t ≡ fn_addr + off = ground (arith, inside) in
    (
      off,
      bytes,
      checked-ok (compute_branch_target inst_addr mode target) (computed ∙ ap returns same),
      low,
      high,
      subst (λ t. abs_diff inst_addr t / 4 < 512) same near,
      range,
      plain,
    )
