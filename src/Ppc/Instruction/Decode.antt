-- ===== src/Ppc/Instruction/Decode.antt =====
-- ppc32/src/instruction.rs, `Decoder::decode_from_word`: the match that `define_instructions!`
-- makes of its table, as the table itself and the search for the first arm that fits.
pub mod Arms
pub mod Shape
pub mod Overflow
pub mod Panics
use package.doldisasm.Base.{
  ℕ, Bool, true, ◌&&◌, ◌==◌, if◌then◌else◌, Option, none, some, List, [], ◌∷◌,
}
use package.doldisasm.Ppc.Word.{Word, opcode, xform_opcode}
use package.doldisasm.Ppc.Instruction.{Instruction, Result, err, unhandled_opcode}
use package.doldisasm.Ppc.Instruction.Parse.{
  parse_branch, parse_rlwnm, parse_rlwinm, parse_addis, parse_addi, parse_ori, parse_cmpli,
  parse_cmpi, parse_cmpl, parse_cmp, parse_bc, parse_bclr, parse_stwu, parse_stwux, parse_subf,
  parse_subfic, parse_subfe, parse_mfspr, parse_mtspr, parse_mfmsr, parse_mtmsr, parse_or,
  parse_and, parse_andi, parse_stw, parse_stmw, parse_lwz, parse_lwzu, parse_isync, parse_hwsync,
  parse_oris, parse_mtfsb1, parse_lmw, parse_mftb, parse_lhz, parse_lbz, parse_neg, parse_crxor,
  parse_add, parse_addic_rc,
}

-- An arm `(op, xform_op) => parse(word)`, where no `xform_op` is the pattern `_`.
pub record Arm : Type 0 where
  pub op : ℕ
  pub xform_op : Option ℕ
  pub parse : Word → Result Instruction

-- The value of EXTENDED_OPCODE.
abbrev pub extended_opcode : ℕ
extended_opcode = 0b011111

abbrev pub arms : List Arm
arms =
    record { op = 18; xform_op = none; parse = parse_branch }
    ∷ record { op = 23; xform_op = none; parse = parse_rlwnm }
    ∷ record { op = 21; xform_op = none; parse = parse_rlwinm }
    ∷ record { op = 15; xform_op = none; parse = parse_addis }
    ∷ record { op = 14; xform_op = none; parse = parse_addi }
    ∷ record { op = 24; xform_op = none; parse = parse_ori }
    ∷ record { op = 10; xform_op = none; parse = parse_cmpli }
    ∷ record { op = 11; xform_op = none; parse = parse_cmpi }
    ∷ record { op = extended_opcode; xform_op = some 32; parse = parse_cmpl }
    ∷ record { op = extended_opcode; xform_op = some 0; parse = parse_cmp }
    ∷ record { op = 16; xform_op = none; parse = parse_bc }
    ∷ record { op = 19; xform_op = some 16; parse = parse_bclr }
    ∷ record { op = 37; xform_op = none; parse = parse_stwu }
    ∷ record { op = extended_opcode; xform_op = some 183; parse = parse_stwux }
    ∷ record { op = extended_opcode; xform_op = some 40; parse = parse_subf }
    ∷ record { op = 8; xform_op = none; parse = parse_subfic }
    ∷ record { op = extended_opcode; xform_op = some 136; parse = parse_subfe }
    ∷ record { op = extended_opcode; xform_op = some 339; parse = parse_mfspr }
    ∷ record { op = extended_opcode; xform_op = some 467; parse = parse_mtspr }
    ∷ record { op = extended_opcode; xform_op = some 83; parse = parse_mfmsr }
    ∷ record { op = extended_opcode; xform_op = some 146; parse = parse_mtmsr }
    ∷ record { op = extended_opcode; xform_op = some 444; parse = parse_or }
    ∷ record { op = extended_opcode; xform_op = some 28; parse = parse_and }
    ∷ record { op = 28; xform_op = none; parse = parse_andi }
    ∷ record { op = 36; xform_op = none; parse = parse_stw }
    ∷ record { op = 47; xform_op = none; parse = parse_stmw }
    ∷ record { op = 32; xform_op = none; parse = parse_lwz }
    ∷ record { op = 33; xform_op = none; parse = parse_lwzu }
    ∷ record { op = 19; xform_op = some 150; parse = parse_isync }
    ∷ record { op = extended_opcode; xform_op = some 598; parse = parse_hwsync }
    ∷ record { op = 25; xform_op = none; parse = parse_oris }
    ∷ record { op = 63; xform_op = some 38; parse = parse_mtfsb1 }
    ∷ record { op = 46; xform_op = none; parse = parse_lmw }
    ∷ record { op = extended_opcode; xform_op = some 371; parse = parse_mftb }
    ∷ record { op = 40; xform_op = none; parse = parse_lhz }
    ∷ record { op = 34; xform_op = none; parse = parse_lbz }
    ∷ record { op = extended_opcode; xform_op = some 104; parse = parse_neg }
    ∷ record { op = 19; xform_op = some 193; parse = parse_crxor }
    ∷ record { op = extended_opcode; xform_op = some 266; parse = parse_add }
    ∷ record { op = 13; xform_op = none; parse = parse_addic_rc }
    ∷ []

abbrev pub fits : Option ℕ → ℕ → Bool
fits none x = true
fits (some k) x = x == k

-- The first arm that fits takes the word; `offset` is that of the word's first byte.
unfoldable pub select : List Arm → ℕ → ℕ → Word → ℕ → Result Instruction
select [] op xop w offset = err (unhandled_opcode w offset)
select (a ∷ rest) op xop w offset =
    if op == a.op && fits a.xform_op xop then a.parse w else select rest op xop w offset

unfoldable pub decode_from_word : Word → ℕ → Result Instruction
unfolding select
decode_from_word w offset = select arms (opcode w) (xform_opcode w) w offset
