-- ===== src/Tests/Instructions.antt =====
-- Operands, instructions, the registers they visit.
use doldisasm.Base.{◌+◌, ◌*◌, ◌/◌, ◌%◌, ◌^◌, ◌<◌, ◌≡◌, ◌↔◌, refl, true, false, All, arith}
use doldisasm.Base.Signed.{negsuc}
use doldisasm.Ppc.Instruction.{
  Instruction, AddressingMode, Crf, Crb, ok, err, panic, unhandled_opcode,
}
use doldisasm.Ppc.Word
use doldisasm.Ppc.Instruction.Fields.{
  crb_from_index, bo_from_word, split_register, compute_branch_target,
}
use doldisasm.Ppc.Instruction.Fields.Operands.{
  crb_repr, bo_meaning, crb_from_index-repr, bo_from_word-bo_meaning, split_register_lem,
}
use doldisasm.Ppc.Instruction.Fields.Target.{compute_branch_target_iff}
use doldisasm.Ppc.Instruction.Parse
use doldisasm.Ppc.Instruction.Decode.{decode_from_word}
use doldisasm.Ppc.Instruction.Decode.Shape.{HasRanges, decode-HasRanges}
use doldisasm.Ppc.Instruction.Decode.Overflow.{OeClear, decode-OeClear}
use doldisasm.Ppc.Instruction.Decode.Panics.{IsBadTimeBase, decode_panics_iff}
use doldisasm.Ppc.Instruction.Encode.{encode}
use doldisasm.Ppc.Instruction.Encode.RoundTrip.{decode-encode}
use doldisasm.Ppc.Instruction.Visit.{visit_registers}
use doldisasm.Ppc.Instruction.Visit.Order.{
  Returns, in_order, InRange, visit_registers-in_order, decoded-InRange,
}

-- `stwu r1, -32(r1)`
abbrev push_frame : Instruction
push_frame = Instruction.stwu 1 1 (negsuc 31)

-- The word that the README's listing shows for it.
push_frame_word : encode push_frame ≡ 0x9421ffe0
unfolding encode
push_frame_word = refl

push_frame_decodes : decode_from_word 0x9421ffe0 0 ≡ ok push_frame
unfolding decode_from_word Parse.parse_stwu Word.opcode Word.xform_opcode Word.u8 Word.u32 Word.i16
    Word.u16
push_frame_decodes = refl

-- `add r3, r4, r5`
abbrev sum : Instruction
sum = Instruction.add 3 4 5 false false

sum_decodes : decode_from_word 0x7c642a14 0 ≡ ok sum
unfolding decode_from_word Parse.parse_add Word.opcode Word.xform_opcode Word.u8 Word.u32 Word.bit
sum_decodes = refl

-- `addo r3, r4, r5`
overflow_run : decode_from_word 0x7c642e14 8 ≡ err (unhandled_opcode 0x7c642e14 8)
unfolding decode_from_word Word.opcode Word.xform_opcode Word.u32
overflow_run = refl

decode-encode_example : decode_from_word (encode push_frame) 4 ≡ ok push_frame
decode-encode_example = decode-encode push_frame 4 (omega arith)

decode-HasRanges_example : HasRanges push_frame
decode-HasRanges_example = decode-HasRanges 0x9421ffe0 0 push_frame push_frame_decodes

decode-OeClear_example : OeClear sum
decode-OeClear_example = decode-OeClear 0x7c642a14 0 sum sum_decodes

decode_panics_iff_example : (decode_from_word 0x9421ffe0 0 ≡ panic) ↔ IsBadTimeBase 0x9421ffe0
decode_panics_iff_example = decode_panics_iff 0x9421ffe0 0

visit_registers-in_order_example :
    Returns (λ es. in_order es ≡ true) (visit_registers (Instruction.subfe 3 4 5 true true))
visit_registers-in_order_example = visit_registers-in_order (Instruction.subfe 3 4 5 true true)

decoded-InRange_example : Returns (All InRange) (visit_registers push_frame)
decoded-InRange_example = decoded-InRange 0x9421ffe0 0 push_frame push_frame_decodes (λ h. h)

bo_from_word-bo_meaning_example :
    bo_from_word 0x4e800020 ≡ ok (bo_meaning (0x4e800020 / 2 ^ 21 % 32))
bo_from_word-bo_meaning_example = bo_from_word-bo_meaning 0x4e800020

crb_from_index-repr_example :
    (crf : Crf) × (crb : Crb) × (crb_from_index 30 ≡ ok (crf, crb)) × (4 * crf + crb_repr crb ≡ 30)
crb_from_index-repr_example = crb_from_index-repr 30

-- `mflr r0`
split_register_lem_example :
    split_register 0x7c0802a6 ≡ 0x7c0802a6 / 2 ^ 11 % 32 * 32 + 0x7c0802a6 / 2 ^ 16 % 32
split_register_lem_example = split_register_lem 0x7c0802a6

compute_branch_target_iff_example :
    (compute_branch_target 0x80006270 AddressingMode.relative (negsuc 15) ≡ ok 0x80006260)
    ↔ ((0x80006270 + 0 ≡ 0x80006260 + 16) × (0x80006260 < 2 ^ 32))
compute_branch_target_iff_example =
    compute_branch_target_iff 0x80006270 0x80006260 (negsuc 15) (omega arith)
