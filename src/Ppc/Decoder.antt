-- ===== src/Ppc/Decoder.antt =====
-- ppc32/src/decoder.rs: the decoder's state (what is left of the input, and how many bytes were
-- taken) and its methods; `&mut self` is a returned state. `collect` is the loop by which
-- cli/src/disasm.rs drives the iterator of `iter_until_eof`, which stops at the first error.
pub mod Walk
pub mod Program
use package.doldisasm.Base.{ℕ, zero, suc, ◌+◌, ◌-◌, ◌*◌, ◌%◌, ◌^◌, ltb, if◌then◌else◌}
use package.doldisasm.Base.{Option, none, some, List, [], ◌∷◌}
use package.doldisasm.Ppc.Word.{Word}
use package.doldisasm.Ppc.Instruction.{Instruction, Result, ok, err, panic, ◌>>=◌}
use package.doldisasm.Ppc.Instruction.{unexpected_eof, unhandled_opcode}
use package.doldisasm.Ppc.Instruction.Decode.{decode_from_word}

-- `AddrRangeEnd` and `AddrRange`.
pub data AddrRangeEnd : Type 0 where
  unbounded : AddrRangeEnd
  bounded : ℕ → AddrRangeEnd

abbrev pub Address : Type 0
Address = ℕ

abbrev pub AddrRange : Type 0
AddrRange = ℕ × AddrRangeEnd

pub record Decoder : Type 0 where
  pub input : List ℕ
  pub offset : ℕ

unfoldable pub new : List ℕ → Decoder
new input = record { input = input; offset = 0 }

-- `u32::from_be_bytes`
abbrev pub from_be_bytes : ℕ → ℕ → ℕ → ℕ → Word
from_be_bytes b0 b1 b2 b3 = b0 * 2 ^ 24 + b1 * 2 ^ 16 + b2 * 2 ^ 8 + b3

-- `split_at_checked(4)`, and the word of the first part.
abbrev pub split_word : List ℕ → Option (Word × List ℕ)
split_word (b0 ∷ b1 ∷ b2 ∷ b3 ∷ rest) = some (from_be_bytes b0 b1 b2 b3, rest)
split_word _ = none

-- `Decoder::word`, which leaves the decoder alone where fewer than four bytes are left.
unfoldable pub word : Decoder → Option (Word × Decoder)
word d = elim (split_word d.input) [
  | none ↦ none
  | some (w, rest) ↦ some (w, record { input = rest; offset = d.offset + 4 })
]

abbrev pub offset_u32 : Decoder → ℕ
offset_u32 d = d.offset % 2 ^ 32

unfoldable pub decode_instruction : Decoder → Result Instruction × Decoder
decode_instruction d = elim (word d) [
  | none ↦ (err (unexpected_eof d.offset), d)
  | some (w, d') ↦ (decode_from_word w (d'.offset - 4), d')
]

abbrev pub Item : Type 0
Item = Result (Address × Instruction)

-- `Address(fn_addr + offset)`, a checked sum.
abbrev pub located : ℕ → ℕ → Instruction → Item
located fn_addr offset i =
    if ltb (fn_addr + offset) (2 ^ 32) then ok (fn_addr + offset, i) else panic

abbrev pub item_of : ℕ → ℕ → Result Instruction → Option Item
item_of fn_addr offset (ok i) = some (located fn_addr offset i)
item_of fn_addr offset (err (unexpected_eof at)) = none
item_of fn_addr offset (err (unhandled_opcode w at)) = some (err (unhandled_opcode w at))
item_of fn_addr offset panic = some panic

-- The closure of `iter_until_eof`: one call of `next`.
unfoldable pub next : ℕ → Decoder → Option Item × Decoder
next fn_addr d = let (r, d') = decode_instruction d in (item_of fn_addr (offset_u32 d) r, d')

-- An item in front of the others: the first error, or panic, ends the collection.
abbrev pub Collection : Type 0
Collection = Result (List (Address × Instruction))

abbrev pub prepend : Item → Option Collection → Option Collection
prepend (ok entry) (some (ok entries)) = some (ok (entry ∷ entries))
prepend (ok entry) rest = rest
prepend (err e) rest = some (err e)
prepend panic rest = some panic

-- `None` ends the iteration.
abbrev pub resume : Option Item → Option Collection → Option Collection
resume none rest = some (ok [])
resume (some r) rest = prepend r rest

-- `.collect::<Result<Instructions, _>>()` over the iterator. Fuel counts the calls of `next`, and
-- `none` says that it ran out.
unfoldable pub collect : ℕ → ℕ → Decoder → Option Collection
collect zero fn_addr d = none
collect (suc fuel) fn_addr d =
    let (item, d') = next fn_addr d in let rest = collect fuel fn_addr d' in resume item rest
