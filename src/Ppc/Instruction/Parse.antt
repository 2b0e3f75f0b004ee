-- ===== src/Ppc/Instruction/Parse.antt =====
-- ppc32/src/instruction.rs: the functions `parse_*` that `define_instructions!` makes of its table,
-- one for each entry, in the table's order; a field is read by the entry's closure.
use doldisasm.Base.{ℕ, ◌*◌, ◌%◌, ◌^◌, ◌==◌, if◌then◌else◌, Option, none, some}
use doldisasm.Base.Signed.{ℤ, signed, unsigned}
use doldisasm.Ppc.Word.{Word, i32, u16, i16, u8, bit, bit_set}
use doldisasm.Ppc.Instruction.{Gpr, Instruction, Result, ok, ◌>>=◌}
use doldisasm.Ppc.Instruction.Fields.{from_absolute_bit, spr_from_word, tbr_from_word, bo_from_word}

-- `x << k` on an `i32`, which drops what leaves the register.
abbrev pub shift_left : ℤ → ℕ → ℤ
shift_left x k = signed 32 (unsigned 32 x * 2 ^ k % 2 ^ 32)

-- `Some(r).filter(|&r| r != 0)`: register 0 stands for no addend.
abbrev pub nonzero : ℕ → Option Gpr
nonzero r = if r == 0 then none else some r

unfoldable pub parse_branch : Word → Result Instruction
parse_branch w =
    ok
      (Instruction.branch (shift_left (i32 6 29 w) 2) (from_absolute_bit (bit 30 w)) (bit_set 31 w))

unfoldable pub parse_rlwnm : Word → Result Instruction
parse_rlwnm w = ok (
    Instruction.rlwnm (u8 6 10 w) (u8 11 15 w) (u8 16 20 w) (u8 21 25 w) (u8 26 30 w)
      (bit_set 31 w))

unfoldable pub parse_rlwinm : Word → Result Instruction
parse_rlwinm w = ok (
    Instruction.rlwinm (u8 6 10 w) (u8 11 15 w) (u8 16 20 w) (u8 21 25 w) (u8 26 30 w)
      (bit_set 31 w))

unfoldable pub parse_addis : Word → Result Instruction
parse_addis w = ok (Instruction.addis (u8 6 10 w) (nonzero (u8 11 15 w)) (i16 16 31 w))

unfoldable pub parse_addi : Word → Result Instruction
parse_addi w = ok (Instruction.addi (u8 6 10 w) (u8 11 15 w) (i16 16 31 w))

unfoldable pub parse_ori : Word → Result Instruction
parse_ori w = ok (Instruction.ori (u8 6 10 w) (u8 11 15 w) (u16 16 31 w))

unfoldable pub parse_cmpli : Word → Result Instruction
parse_cmpli w = ok (Instruction.cmpli (u8 11 15 w) (u16 16 31 w) (u8 6 8 w) (bit_set 10 w))

unfoldable pub parse_cmpi : Word → Result Instruction
parse_cmpi w = ok (Instruction.cmpi (u8 11 15 w) (u16 16 31 w) (u8 6 8 w))

unfoldable pub parse_cmpl : Word → Result Instruction
parse_cmpl w = ok (Instruction.cmpl (u8 11 15 w) (u8 16 20 w) (u8 6 8 w) (bit_set 10 w))

unfoldable pub parse_cmp : Word → Result Instruction
parse_cmp w = ok (Instruction.cmp (u8 11 15 w) (u8 16 20 w) (u8 6 8 w) (bit_set 10 w))

unfoldable pub parse_bc : Word → Result Instruction
parse_bc w = do
  bo ← bo_from_word w
  ok (
      Instruction.bc bo (u8 11 15 w) (shift_left (i32 16 29 w) 2) (from_absolute_bit (bit 30 w))
        (bit_set 31 w))

unfoldable pub parse_bclr : Word → Result Instruction
parse_bclr w = do bo ← bo_from_word w; ok (Instruction.bclr bo (u8 11 15 w) (bit_set 31 w))

unfoldable pub parse_stwu : Word → Result Instruction
parse_stwu w = ok (Instruction.stwu (u8 6 10 w) (u8 11 15 w) (i16 16 31 w))

unfoldable pub parse_stwux : Word → Result Instruction
parse_stwux w = ok (Instruction.stwux (u8 6 10 w) (u8 11 15 w) (u8 16 20 w))

unfoldable pub parse_subf : Word → Result Instruction
parse_subf w =
    ok (Instruction.subf (u8 6 10 w) (u8 11 15 w) (u8 16 20 w) (bit_set 21 w) (bit_set 31 w))

unfoldable pub parse_subfic : Word → Result Instruction
parse_subfic w = ok (Instruction.subfic (u8 6 10 w) (u8 11 15 w) (i16 16 31 w))

unfoldable pub parse_subfe : Word → Result Instruction
parse_subfe w =
    ok (Instruction.subfe (u8 6 10 w) (u8 11 15 w) (u8 16 20 w) (bit_set 21 w) (bit_set 31 w))

unfoldable pub parse_mfspr : Word → Result Instruction
parse_mfspr w = ok (Instruction.mfspr (u8 6 10 w) (spr_from_word w))

unfoldable pub parse_mtspr : Word → Result Instruction
parse_mtspr w = ok (Instruction.mtspr (u8 6 10 w) (spr_from_word w))

unfoldable pub parse_mfmsr : Word → Result Instruction
parse_mfmsr w = ok (Instruction.mfmsr (u8 6 10 w))

unfoldable pub parse_mtmsr : Word → Result Instruction
parse_mtmsr w = ok (Instruction.mtmsr (u8 6 10 w))

unfoldable pub parse_or : Word → Result Instruction
parse_or w = ok (Instruction.or (u8 6 10 w) (u8 11 15 w) (u8 16 20 w) (bit_set 31 w))

unfoldable pub parse_and : Word → Result Instruction
parse_and w = ok (Instruction.and (u8 6 10 w) (u8 16 20 w) (u8 11 15 w))

unfoldable pub parse_andi : Word → Result Instruction
parse_andi w = ok (Instruction.andi (u8 6 10 w) (u8 11 15 w) (i16 16 31 w))

unfoldable pub parse_stw : Word → Result Instruction
parse_stw w = ok (Instruction.stw (u8 6 10 w) (u8 11 15 w) (i16 16 31 w))

unfoldable pub parse_stmw : Word → Result Instruction
parse_stmw w = ok (Instruction.stmw (u8 6 10 w) (u8 11 15 w) (i16 16 31 w))

unfoldable pub parse_lwz : Word → Result Instruction
parse_lwz w = ok (Instruction.lwz (u8 6 10 w) (u8 11 15 w) (i16 16 31 w))

unfoldable pub parse_lwzu : Word → Result Instruction
parse_lwzu w = ok (Instruction.lwzu (u8 6 10 w) (u8 11 15 w) (i16 16 31 w))

unfoldable pub parse_isync : Word → Result Instruction
parse_isync _ = ok Instruction.isync

unfoldable pub parse_hwsync : Word → Result Instruction
parse_hwsync _ = ok Instruction.hwsync

unfoldable pub parse_oris : Word → Result Instruction
parse_oris w = ok (Instruction.oris (u8 6 10 w) (u8 11 15 w) (u16 16 31 w))

unfoldable pub parse_mtfsb1 : Word → Result Instruction
parse_mtfsb1 w = ok (Instruction.mtfsb1 (u8 6 10 w) (bit_set 31 w))

unfoldable pub parse_lmw : Word → Result Instruction
parse_lmw w = ok (Instruction.lmw (u8 6 10 w) (u8 11 15 w) (i16 16 31 w))

unfoldable pub parse_mftb : Word → Result Instruction
parse_mftb w = do tbr ← tbr_from_word w; ok (Instruction.mftb (u8 6 10 w) tbr)

unfoldable pub parse_lhz : Word → Result Instruction
parse_lhz w = ok (Instruction.lhz (u8 6 10 w) (u8 11 15 w) (i16 16 31 w))

unfoldable pub parse_lbz : Word → Result Instruction
parse_lbz w = ok (Instruction.lbz (u8 6 10 w) (u8 11 15 w) (i16 16 31 w))

unfoldable pub parse_neg : Word → Result Instruction
parse_neg w = ok (Instruction.neg (u8 6 10 w) (u8 11 15 w) (bit_set 31 w) (bit_set 21 w))

unfoldable pub parse_crxor : Word → Result Instruction
parse_crxor w = ok (Instruction.crxor (u8 6 10 w) (u8 11 15 w) (u8 16 20 w))

unfoldable pub parse_add : Word → Result Instruction
parse_add w =
    ok (Instruction.add (u8 6 10 w) (u8 11 15 w) (u8 16 20 w) (bit_set 21 w) (bit_set 31 w))

unfoldable pub parse_addic_rc : Word → Result Instruction
parse_addic_rc w = ok (Instruction.addic_rc (u8 6 10 w) (u8 11 15 w) (i16 16 31 w))
