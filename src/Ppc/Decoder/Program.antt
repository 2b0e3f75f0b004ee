-- ===== src/Ppc/Decoder/Program.antt =====
-- Whole programs: an assembler for the encoder's words, which the decoding loop inverts.
use doldisasm.Base.{ℕ, suc, ◌+◌, ◌*◌, ◌/◌, ◌%◌, ◌^◌, ◌≤◌, ◌≡◌, refl, ap, ap₂, ◌∙◌, arith}
use doldisasm.Base.{some, List, [], ◌∷◌, map, length, All, true, ltb, ltb_iff, length-map}
use doldisasm.Ppc.Instruction.{Instruction, ok}
use doldisasm.Ppc.Instruction.Encode.{encode, Encodes}
use doldisasm.Ppc.Instruction.Encode.RoundTrip.{decode-encode}
use doldisasm.Ppc.Instruction.Encode.Bounds.{encode-lt}
use doldisasm.Ppc.Decoder.{Address, collect, new}
use doldisasm.Ppc.Decoder.Walk.{words, walk, collect-walk}

-- The four bytes of each instruction's word, most significant first.
unfoldable pub assemble : List Instruction → List ℕ
assemble [] = []
assemble (i ∷ is) =
    let w = encode i in w / 2 ^ 24 ∷ w / 2 ^ 16 % 256 ∷ w / 2 ^ 8 % 256 ∷ w % 256 ∷ assemble is

-- The instructions with consecutive addresses.
unfoldable pub listing : Address → List Instruction → List (Address × Instruction)
listing addr [] = []
listing addr (i ∷ is) = (addr, i) ∷ listing (addr + 4) is

words-assemble : (is : List Instruction) → All Encodes is → words (assemble is) ≡ map encode is
unfolding words assemble
words-assemble [] h = refl
words-assemble (i ∷ is) h = ap₂ ◌∷◌ (omega (arith, encode-lt i h.0)) (words-assemble is h.1)

walk-listing :
    (fn_addr offset : ℕ) (is : List Instruction)
    → All Encodes is
    → fn_addr + offset + 4 * length is ≤ 2 ^ 32
    → walk fn_addr offset (map encode is) ≡ ok (listing (fn_addr + offset) is)
unfolding walk listing
walk-listing fn_addr offset [] h fits = refl
walk-listing fn_addr offset (i ∷ is) h fits =
    let small : offset % 2 ^ 32 ≡ offset = omega arith in
    let next : fn_addr + (offset + 4) ≡ fn_addr + offset + 4 = omega arith in
    let inside : ltb (fn_addr + offset) (2 ^ 32) ≡ true = (ltb_iff _ _).1 (omega arith) in
    rw (
      decode-encode i offset h.0,
      small,
      inside,
      walk-listing fn_addr (offset + 4) is h.1 (omega arith),
      next,
    )

-- Disassembling an assembled program gives the program back, each instruction at its address, and
-- the decoding loop ends without an error on one unit of fuel more than there are instructions, if
-- the program's addresses fit 32 bits and of every instruction the registers, numbers and
-- immediates fit their fields, an optional addend is not register 0, a branch displacement is a
-- multiple of four that fits one bit less than its field (25 bits for b, 15 for bc), the oe flag
-- is clear, and a special register is not msr or pc, nor an unnamed one with the number of a named
-- one (1, 8 or 9).
pub collect-assemble :
    (fn_addr : ℕ) (is : List Instruction)
    → All Encodes is
    → fn_addr + 4 * length is ≤ 2 ^ 32
    → collect (suc (length is)) fn_addr (new (assemble is)) ≡ some (ok (listing fn_addr is))
unfolding new
collect-assemble fn_addr is h fits =
    let size : length (words (assemble is)) ≡ length is =
      ap length (words-assemble is h) ∙ length-map is encode in
    let start : fn_addr + 0 ≡ fn_addr = omega arith in
    collect-walk (suc (length is)) fn_addr 0 (assemble is) (omega (arith, size))
    ∙ ap some (
        ap (walk fn_addr 0) (words-assemble is h)
        ∙ walk-listing fn_addr 0 is h (omega arith)
        ∙ ap (λ a. ok (listing a is)) start)
