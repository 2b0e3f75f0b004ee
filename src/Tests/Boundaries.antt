-- ===== src/Tests/Boundaries.antt =====
-- A function that loops for ever: `addi r3, r3, 1`, `addi r4, r4, 1`, and a `b` back to the second.
use doldisasm.Base.{
  ℕ, ◌+◌, ◌-◌, ◌/◌, ◌<◌, ◌≤◌, false, some, List, [], ◌∷◌, ◌≡◌, ◌⊎◌, refl, take, drop,
}
use doldisasm.Base.Signed.{negsuc}
use doldisasm.Base.Checked.{returns}
use doldisasm.Base.Fueled.{done, panicked}
use doldisasm.Ppc.Instruction.{Instruction, AddressingMode, ok}
use doldisasm.Ppc.Instruction.Fields.{compute_branch_target, checked_add_signed, from_absolute_bit}
use doldisasm.Ppc.Word
use doldisasm.Ppc.Instruction.Parse
use doldisasm.Ppc.Instruction.Decode.{decode_from_word}
use doldisasm.Ppc.Decoder.{new, word, decode_instruction}
use doldisasm.Decomp.Boundaries.{abs_diff, distance_confidence, get_range, branch_is_fn_call}
use doldisasm.Decomp.Boundaries.Visit.{handle, visit_block, scan, detect_fn_boundaries}
use doldisasm.Decomp.Boundaries.Ends.{detect_fn_boundaries-Found}
use doldisasm.Decomp.Boundaries.Inside.{is_prologue, word_at, branch_is_fn_call-false}

abbrev endless : List ℕ
endless = 0x38 ∷ 0x63 ∷ 0 ∷ 1 ∷ 0x38 ∷ 0x84 ∷ 0 ∷ 1 ∷ 0x4b ∷ 0xff ∷ 0xff ∷ 0xfc ∷ []

abbrev back : Instruction
back = Instruction.branch (negsuc 3) AddressingMode.relative false

stays_inside : branch_is_fn_call endless 0x80004000 back 0x80004008 ≡ returns false
unfolding branch_is_fn_call compute_branch_target checked_add_signed distance_confidence get_range
    new word decode_instruction decode_from_word Parse.parse_addi Parse.parse_branch
    from_absolute_bit Word.opcode Word.xform_opcode Word.u8 Word.u32 Word.i16 Word.u16 Word.i32
    Word.bit
stays_inside = refl

-- The end that is found is the target of the `b`, so that only the first instruction is left.
cut_short : detect_fn_boundaries endless 0x80004000 209 0 ≡ done (0x38 ∷ 0x63 ∷ 0 ∷ 1 ∷ [])
unfolding branch_is_fn_call compute_branch_target checked_add_signed distance_confidence get_range
    new word decode_instruction decode_from_word Parse.parse_addi Parse.parse_branch
    from_absolute_bit Word.opcode Word.xform_opcode Word.u8 Word.u32 Word.i16 Word.u16 Word.i32
    Word.bit visit_block scan handle detect_fn_boundaries
cut_short = refl

detect_fn_boundaries-Found_example :
    (visit_block endless 0x80004000 209 0 [] ≡ panicked)
    ⊎ ((end : ℕ) × (seen : List ℕ) × (visit_block endless 0x80004000 209 0 [] ≡ done (end, seen))
        × (end ≤ 12)
        × (0 ≤ end
            → detect_fn_boundaries endless 0x80004000 209 0
              ≡ done (take (end - 0) (drop 0 endless))))
detect_fn_boundaries-Found_example = detect_fn_boundaries-Found endless 0x80004000 0

branch_is_fn_call-false_example :
    (off : ℕ) × (bytes : List ℕ) × (compute_branch_target 0x80004008 AddressingMode.relative
        (negsuc 3)
      ≡ ok (0x80004000 + off))
    × (4 ≤ off)
    × (off + 4 ≤ 12)
    × (abs_diff 0x80004008 (0x80004000 + off) / 4 < 512)
    × (get_range endless (off - 4) (off + 4) ≡ some bytes)
    × (is_prologue (word_at bytes) ≡ false)
branch_is_fn_call-false_example =
    branch_is_fn_call-false endless 0x80004000 0x80004008 (negsuc 3) AddressingMode.relative false
      stays_inside
