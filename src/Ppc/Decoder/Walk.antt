-- ===== src/Ppc/Decoder/Walk.antt =====
-- ppc32/src/decoder.rs: the iterator against the list of the input's words.
use doldisasm.Base.{ℕ, zero, suc, ◌+◌, ◌-◌, ◌%◌, ◌^◌, ◌<◌, ◌≡◌, ◌⊎◌, inl, inr, refl, ap, arith}
use doldisasm.Base.{none, some, List, [], ◌∷◌, length}
use doldisasm.Ppc.Word.{Word}
use doldisasm.Ppc.Instruction.{
  Instruction, Result, DecodeError, ok, err, panic, ◌>>=◌, unexpected_eof, unhandled_opcode,
}
use doldisasm.Ppc.Instruction.Decode.{decode_from_word}
use doldisasm.Ppc.Instruction.Decode.Panics.{decode-err}
use doldisasm.Ppc.Decoder.{
  Decoder, Item, Collection, from_be_bytes, split_word, word, decode_instruction, located, item_of,
  next, prepend, resume, collect,
}

-- The big-endian words of a buffer; up to three bytes at the end belong to none.
unfoldable pub words : List ℕ → List Word
words (b0 ∷ b1 ∷ b2 ∷ b3 ∷ rest) = from_be_bytes b0 b1 b2 b3 ∷ words rest
words _ = []

-- Every word decoded at its offset and paired with its address, up to the first failure.
unfoldable pub walk : ℕ → ℕ → List Word → Collection
walk fn_addr offset [] = ok []
walk fn_addr offset (w ∷ ws) =
    let rest = walk fn_addr (offset + 4) ws in
    do
      i ← decode_from_word w offset
      entry ← located fn_addr (offset % 2 ^ 32) i
      entries ← rest
      ok (entry ∷ entries)

split_word_cases :
    (bytes : List ℕ)
    → (split_word bytes ≡ none) × (words bytes ≡ [])
      ⊎ ((w : Word) × (rest : List ℕ) × (split_word bytes ≡ some (w, rest))
          × (words bytes ≡ w ∷ words rest))
unfolding words
split_word_cases [] = inl (refl, refl)
split_word_cases (a ∷ []) = inl (refl, refl)
split_word_cases (a ∷ b ∷ []) = inl (refl, refl)
split_word_cases (a ∷ b ∷ c ∷ []) = inl (refl, refl)
split_word_cases (a ∷ b ∷ c ∷ e ∷ rest) = inr (from_be_bytes a b c e, rest, refl, refl)

module _ (fn_addr offset : ℕ) (input : List ℕ) where
  abbrev here : Decoder
  here = record { input = input; offset = offset }

  word-stop : split_word input ≡ none → word here ≡ none
  unfolding word
  word-stop e = rw (e, word)

  -- One call of `next`, where no word is left.
  next-stop : split_word input ≡ none → next fn_addr here ≡ (none, here)
  unfolding next decode_instruction
  next-stop e = rw (word-stop e, decode_instruction, next)

  module _ (w : Word) (rest : List ℕ) (step : split_word input ≡ some (w, rest)) where
    abbrev there : Decoder
    there = record { input = rest; offset = offset + 4 }

    word-step : word here ≡ some (w, there)
    unfolding word
    word-step = rw (step, word)

    decode_instruction-step : decode_instruction here ≡ (decode_from_word w offset, there)
    unfolding decode_instruction
    decode_instruction-step =
        let back : offset + 4 - 4 ≡ offset = omega arith in rw (word-step, decode_instruction, back)

    -- One call of `next`, where a word is left.
    next-step :
        next fn_addr here ≡ (item_of fn_addr (offset % 2 ^ 32) (decode_from_word w offset), there)
    unfolding next
    next-step = rw (decode_instruction-step, next)

prepend_lem :
    (x : Item) (rest : Collection)
    → prepend x (some rest) ≡ some (do entry ← x; entries ← rest; ok (entry ∷ entries))
prepend_lem (ok entry) (ok entries) = refl
prepend_lem (ok entry) (err e) = refl
prepend_lem (ok entry) panic = refl
prepend_lem (err e) rest = refl
prepend_lem panic rest = refl

-- One item is what the decoder says of the word, since its only error is not the one that ends the
-- iteration.
item_lem :
    (fn_addr offset : ℕ) (w : Word) (rest : Collection) (r : Result Instruction)
    → ((e : DecodeError) → r ≡ err e → e ≡ unhandled_opcode w offset)
    → resume (item_of fn_addr (offset % 2 ^ 32) r) (some rest)
      ≡ some (do
        i ← r
        entry ← located fn_addr (offset % 2 ^ 32) i
        entries ← rest
        ok (entry ∷ entries))
item_lem fn_addr offset w rest (ok i) h = prepend_lem (located fn_addr (offset % 2 ^ 32) i) rest
item_lem fn_addr offset w rest (err (unhandled_opcode v at)) h = refl
item_lem fn_addr offset w rest (err (unexpected_eof at)) h = cc (h (unexpected_eof at) refl)
item_lem fn_addr offset w rest panic h = refl

-- From any state, with more fuel than words left, the iterator yields exactly the words that are
-- left, decoded in order at their offsets, up to the first failure.
pub collect-walk :
    (fuel fn_addr offset : ℕ) (input : List ℕ)
    → length (words input) < fuel
    → collect fuel fn_addr (record { input = input; offset = offset })
      ≡ some (walk fn_addr offset (words input))
unfolding collect walk
collect-walk zero fn_addr offset input h = absurd (omega arith)
collect-walk (suc fuel) fn_addr offset input h = elim (split_word_cases input) [
  | inl (stop, empty) ↦ rw (next-stop fn_addr offset input stop, empty, collect)
  | inr (w, rest, step, more) ↦
      rw
        (
          next-step fn_addr offset input w rest step,
          more,
          collect-walk fuel fn_addr (offset + 4) rest (omega (arith, ap length more)),
          collect,
        )
        (item_lem fn_addr offset w (walk fn_addr (offset + 4) (words rest))
          (decode_from_word w offset) (decode-err w offset))
]
