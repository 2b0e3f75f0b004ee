-- ===== src/Tests/Programs.antt =====
-- A function of two instructions: `addi r3, r3, 1` and `blr`.
use doldisasm.Base.{ℕ, ◌<◌, ◌≡◌, refl, false, some, List, [], ◌∷◌, length, arith}
use doldisasm.Base.Signed.{pos}
use doldisasm.Ppc.Instruction.{Instruction, BranchOptions, ok}
use doldisasm.Ppc.Instruction.Encode.{encode}
use doldisasm.Ppc.Decoder.{new, collect}
use doldisasm.Ppc.Decoder.Walk.{words, walk, collect-walk}
use doldisasm.Ppc.Decoder.Program.{assemble, listing, collect-assemble}

abbrev increment : List Instruction
increment = Instruction.addi 3 3 (pos 1) ∷ Instruction.bclr BranchOptions.branch_always 0 false ∷ []

increment_bytes : assemble increment ≡ 0x38 ∷ 0x63 ∷ 0 ∷ 1 ∷ 0x4e ∷ 0x80 ∷ 0 ∷ 0x20 ∷ []
unfolding assemble encode
increment_bytes = refl

collect-assemble_example :
    collect 3 0x80004000 (new (assemble increment)) ≡ some (ok (listing 0x80004000 increment))
collect-assemble_example = collect-assemble 0x80004000 increment (omega arith) (omega arith)

-- Three bytes are left over, and ignored.
abbrev odd_tail : List ℕ
odd_tail = 0x38 ∷ 0x63 ∷ 0 ∷ 1 ∷ 0x4e ∷ 0x80 ∷ 0 ∷ []

one_word : length (words odd_tail) < 2
unfolding words
one_word = omega arith

collect-walk_example :
    collect 2 0x80004000 (record { input = odd_tail; offset = 0 })
    ≡ some (walk 0x80004000 0 (words odd_tail))
collect-walk_example = collect-walk 2 0x80004000 0 odd_tail one_word
