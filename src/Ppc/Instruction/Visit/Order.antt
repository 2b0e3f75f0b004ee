-- ===== src/Ppc/Instruction/Visit/Order.antt =====
-- ppc32/src/instruction.rs, `visit_registers`: the order of its calls, and the registers it names.
use doldisasm.Base.{ℕ, ◌+◌, ◌*◌, ◌<◌, ◌≡◌, refl, Bool, true, false, List, [], ◌∷◌, All, arith}
use doldisasm.Ppc.Word.{Word}
use doldisasm.Ppc.Instruction.{Crf, Crb, BranchOptions, Instruction, Result, ok, err, panic, ◌>>=◌}
use doldisasm.Ppc.Instruction.Fields.{crb_from_index}
use doldisasm.Ppc.Instruction.Fields.Operands.{crb_from_index-repr, crb_repr}
use doldisasm.Ppc.Instruction.Decode.{decode_from_word}
use doldisasm.Ppc.Instruction.Decode.Shape.{HasRanges, decode-HasRanges}
use doldisasm.Ppc.Instruction.Visit.{
  Event, read_gpr, write_gpr, read_spr, write_spr, read_crf, write_crf, read_crb, write_crb, effect,
  visit_registers, read_condition, micro_sprs,
}

abbrev pub only_writes : List Event → Bool
only_writes [] = true
only_writes (write_gpr _ ∷ es) = only_writes es
only_writes (write_spr _ ∷ es) = only_writes es
only_writes (write_crf _ ∷ es) = only_writes es
only_writes (write_crb _ _ ∷ es) = only_writes es
only_writes (_ ∷ es) = false

-- Reads, then one effect, then writes.
abbrev pub in_order : List Event → Bool
in_order (effect ∷ es) = only_writes es
in_order (read_gpr _ ∷ es) = in_order es
in_order (read_spr _ ∷ es) = in_order es
in_order (read_crf _ ∷ es) = in_order es
in_order (read_crb _ _ ∷ es) = in_order es
in_order _ = false

-- Total correctness of a computation: it returns, and the result satisfies `P`.
abbrev pub Returns : {A : Type 0} → (A → Type 0) → Result A → Type 0
Returns P (ok a) = P a
Returns P _ = ⊥

-- A condition bit's index yields a field and a bit; a field below 8 if the index is below 32.
index_rule :
    (P : Crf × Crb → Type 0) (bi : ℕ)
    → ((crf : Crf) (crb : Crb) → 4 * crf + crb_repr crb ≡ bi → P (crf, crb))
    → Returns P (crb_from_index bi)
index_rule P bi h = let (crf, crb, e, r) = crb_from_index-repr bi in rw e (h crf crb r)

Returns->>= :
    {A B : Type 0} (P : B → Type 0) (m : Result A) (f : A → Result B)
    → Returns (λ a. Returns P (f a)) m
    → Returns P (m >>= f)
Returns->>= P (ok a) f h = h
Returns->>= P (err e) f h = absurd h
Returns->>= P panic f h = absurd h

condition_rule :
    (P : List Event → Type 0) (bo : BranchOptions) (bi : ℕ)
    → P (effect ∷ [])
    → ((crf : Crf) (crb : Crb) → 4 * crf + crb_repr crb ≡ bi → P (read_crb crf crb ∷ effect ∷ []))
    → Returns P (read_condition bo bi)
unfolding read_condition
condition_rule P BranchOptions.branch_always bi always reads = always
condition_rule P bo bi always reads = Returns->>= P (crb_from_index bi) _ (index_rule _ bi reads)

crxor_rule :
    (P : List Event → Type 0) (d a b : ℕ)
    → ((df : Crf) (db : Crb) (af : Crf) (ab : Crb) (bf : Crf) (bb : Crb)
        → 4 * df + crb_repr db ≡ d
        → 4 * af + crb_repr ab ≡ a
        → 4 * bf + crb_repr bb ≡ b
        → P (read_crb af ab ∷ read_crb bf bb ∷ effect ∷ write_crb df db ∷ []))
    → Returns P (visit_registers (Instruction.crxor d a b))
unfolding visit_registers
crxor_rule P d a b h = Returns->>= P (crb_from_index d) _ (
    index_rule _ d λ df db e. Returns->>= P (crb_from_index a) _ (
      index_rule _ a λ af ab e'.
        Returns->>= P (crb_from_index b) _
          (index_rule _ b λ bf bb e''. h df db af ab bf bb e e' e'')))

-- For every instruction `visit_registers` returns, and makes its calls in the order reads, one
-- effect, writes: `effect` is called exactly once, between the registers' states before and after.
pub visit_registers-in_order :
    (i : Instruction) → Returns (λ es. in_order es ≡ true) (visit_registers i)
unfolding visit_registers
visit_registers-in_order (Instruction.bc bo bi t m lk) =
    condition_rule (λ es. in_order es ≡ true) bo bi refl (λ crf crb e. refl)
visit_registers-in_order (Instruction.bclr bo bi lk) =
    condition_rule (λ es. in_order es ≡ true) bo bi refl (λ crf crb e. refl)
visit_registers-in_order (Instruction.crxor d a b) =
    crxor_rule (λ es. in_order es ≡ true) d a b (λ df db af ab bf bb e e' e''. refl)
visit_registers-in_order i = ground arith

-- The register that a call names exists: one of 32 general registers, one of 8 condition fields.
abbrev pub InRange : Event → Type 0
InRange (read_gpr r) = r < 32
InRange (write_gpr r) = r < 32
InRange (read_crf c) = c < 8
InRange (write_crf c) = c < 8
InRange (read_crb c _) = c < 8
InRange (write_crb c _) = c < 8
InRange _ = Unit

-- `mtfsb1` names a bit of the floating-point status by a number below 32.
abbrev pub IsMtfsb1 : Instruction → Type 0
IsMtfsb1 (Instruction.mtfsb1 field rc) = Unit
IsMtfsb1 _ = ⊥

visit-InRange :
    (i : Instruction) → HasRanges i → ¬ IsMtfsb1 i → Returns (All InRange) (visit_registers i)
unfolding visit_registers micro_sprs
visit-InRange (Instruction.bc bo bi t m lk) h n =
    condition_rule (All InRange) bo bi (tt, tt) (λ crf crb e. omega arith)
visit-InRange (Instruction.bclr bo bi lk) h n =
    condition_rule (All InRange) bo bi (tt, tt) (λ crf crb e. omega arith)
visit-InRange (Instruction.crxor d a b) h n =
    crxor_rule (All InRange) d a b (λ df db af ab bf bb e e' e''. omega arith)
visit-InRange (Instruction.mtfsb1 field rc) h n = absurd (n tt)
visit-InRange i h n = ground arith

-- Of a decoded instruction other than `mtfsb1`, every call of `visit_registers` names a register
-- that exists, so no table of 32 general registers or 8 condition fields is indexed out of bounds.
pub decoded-InRange :
    (w : Word) (offset : ℕ) (i : Instruction)
    → decode_from_word w offset ≡ ok i
    → ¬ IsMtfsb1 i
    → Returns (All InRange) (visit_registers i)
decoded-InRange w offset i e n = visit-InRange i (decode-HasRanges w offset i e) n
