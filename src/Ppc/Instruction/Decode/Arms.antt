-- ===== src/Ppc/Instruction/Decode/Arms.antt =====
-- Reasoning about the table of `Decoder::decode_from_word`: what holds of each arm's result under
-- the arm's own opcodes holds of the decoder's.
use doldisasm.Base.{ℕ, ◌≡◌, true, ◌&&◌, ◌==◌, inl, inr, Bool-cases, List, [], ◌∷◌, All}
use doldisasm.Ppc.Word.{Word, opcode, xform_opcode}
use doldisasm.Ppc.Instruction.{Instruction, Result, ok, err, panic, unhandled_opcode, ◌>>=◌}
use doldisasm.Ppc.Instruction.Decode.{Arm, arms, fits, select, decode_from_word}

abbrev pub Taken : Arm → ℕ → ℕ → Type 0
Taken a op xop = ((op == a.op && fits a.xform_op xop) ≡ true)

pub select-All {ℓ} :
    (P : Result Instruction → Type ℓ) (table : List Arm) (op xop : ℕ) (w : Word) (offset : ℕ)
    → All (λ a. Taken a op xop → P (a.parse w)) table
    → P (err (unhandled_opcode w offset))
    → P (select table op xop w offset)
unfolding select
select-All P [] op xop w offset each none = none
select-All P (a ∷ rest) op xop w offset each none =
    elim (Bool-cases (op == a.op && fits a.xform_op xop)) [
      | inl taken ↦ rw taken (each.0 taken)
      | inr passed ↦ rw passed (select-All P rest op xop w offset each.1 none)
    ]

-- A property of an instruction that was decoded; nothing is claimed of an error.
abbrev pub OnOk {ℓ} : (Instruction → Type ℓ) → Result Instruction → Type ℓ
OnOk Q (ok i) = Q i
OnOk Q (err e) = Unit
OnOk Q panic = Unit

pub OnOk->>= {ℓ} :
    {A : Type 0} (Q : Instruction → Type ℓ) (m : Result A) (f : A → Result Instruction)
    → ((a : A) → OnOk Q (f a))
    → OnOk Q (m >>= f)
OnOk->>= Q (ok a) f h = h a
OnOk->>= Q (err e) f h = tt
OnOk->>= Q panic f h = tt

pub OnOk-eq {ℓ} :
    (Q : Instruction → Type ℓ) (r : Result Instruction) {i : Instruction}
    → OnOk Q r
    → r ≡ ok i
    → Q i
OnOk-eq Q r q e = rw e at q

-- The search runs on the two opcodes.
pub decode-select :
    (w : Word) (offset : ℕ) {op xop : ℕ}
    → opcode w ≡ op
    → xform_opcode w ≡ xop
    → decode_from_word w offset ≡ select arms op xop w offset
unfolding decode_from_word
decode-select w offset p q = rw (p, q)
