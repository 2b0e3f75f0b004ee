-- ===== src/Ppc/Instruction/Decode/Panics.antt =====
-- How `Decoder::decode_from_word` can fail: its one error, and its one panic.
use doldisasm.Base.{ℕ, ◌+◌, ◌*◌, ◌/◌, ◌%◌, ◌^◌, ◌≡◌, ◌≢◌, ◌↔◌, refl, ◌∙◌, true, ◌&&◌, ◌==◌}
use doldisasm.Base.{Bool-cases, inl, inr, ◌&◌, arith}
use doldisasm.Ppc.Word.{Word, opcode, xform_opcode}
use doldisasm.Ppc.Instruction.{Instruction, Result, ok, err, panic, DecodeError, unhandled_opcode}
use doldisasm.Ppc.Instruction.Fields.{split_register, tbr_from_word}
use doldisasm.Ppc.Instruction.Fields.Operands.{split_register_lem, bo_from_word-bo_meaning}
use doldisasm.Ppc.Instruction.Parse.{
  parse_branch, parse_rlwnm, parse_rlwinm, parse_addis, parse_addi, parse_ori, parse_cmpli,
  parse_cmpi, parse_cmpl, parse_cmp, parse_bc, parse_bclr, parse_stwu, parse_stwux, parse_subf,
  parse_subfic, parse_subfe, parse_mfspr, parse_mtspr, parse_mfmsr, parse_mtmsr, parse_or,
  parse_and, parse_andi, parse_stw, parse_stmw, parse_lwz, parse_lwzu, parse_isync, parse_hwsync,
  parse_oris, parse_mtfsb1, parse_lmw, parse_mftb, parse_lhz, parse_lbz, parse_neg, parse_crxor,
  parse_add, parse_addic_rc,
}
use doldisasm.Ppc.Instruction.Decode.{arms, select, decode_from_word}
use doldisasm.Ppc.Instruction.Decode.Arms.{select-All, decode-select}

-- The register number of an `mftb` word, its halves in order.
abbrev pub time_base_number : Word → ℕ
time_base_number w = w / 2 ^ 11 % 32 * 32 + w / 2 ^ 16 % 32

-- A word with the opcodes of `mftb` whose register is neither half of the time base.
pub record IsBadTimeBase (w : Word) : Type 0 where
  pub primary : opcode w ≡ 31
  pub extended : xform_opcode w ≡ 371
  pub upper : time_base_number w ≢ 268
  pub lower : time_base_number w ≢ 269

abbrev pub Outcome : Word → ℕ → Result Instruction → Type 0
Outcome w offset (ok i) = Unit
Outcome w offset (err e) = e ≡ unhandled_opcode w offset
Outcome w offset panic = IsBadTimeBase w

bc-Outcome : (w : Word) (offset : ℕ) → Outcome w offset (parse_bc w)
unfolding parse_bc
bc-Outcome w offset = rw (bo_from_word-bo_meaning w) tt

bclr-Outcome : (w : Word) (offset : ℕ) → Outcome w offset (parse_bclr w)
unfolding parse_bclr
bclr-Outcome w offset = rw (bo_from_word-bo_meaning w) tt

mftb-Outcome :
    (w : Word) (offset : ℕ)
    → (opcode w == 31 && xform_opcode w == 371) ≡ true
    → Outcome w offset (parse_mftb w)
unfolding parse_mftb tbr_from_word
mftb-Outcome w offset taken = elim (Bool-cases (split_register w == 268)) [
  | inl upper ↦ rw upper tt
  | inr upper ↦ elim (Bool-cases (split_register w == 269)) [
    | inl lower ↦ rw (upper, lower) tt
    | inr lower ↦
        rw (upper, lower)
          (record {
            primary = ground arith;
            extended = ground arith;
            upper = λ e. ground (arith, split_register_lem w);
            lower = λ e. ground (arith, split_register_lem w);
          })
  ]
]

decode-Outcome : (w : Word) (offset : ℕ) → Outcome w offset (decode_from_word w offset)
unfolding decode_from_word parse_branch parse_rlwnm parse_rlwinm parse_addis parse_addi parse_ori
    parse_cmpli parse_cmpi parse_cmpl parse_cmp parse_stwu parse_stwux parse_subf parse_subfic
    parse_subfe parse_mfspr parse_mtspr parse_mfmsr parse_mtmsr parse_or parse_and parse_andi
    parse_stw parse_stmw parse_lwz parse_lwzu parse_isync parse_hwsync parse_oris parse_mtfsb1
    parse_lmw parse_lhz parse_lbz parse_neg parse_crxor parse_add parse_addic_rc
decode-Outcome w offset =
    select-All (Outcome w offset) arms (opcode w) (xform_opcode w) w offset
      ((λ _. tt)
        & (λ _. tt)
        & (λ _. tt)
        & (λ _. tt)
        & (λ _. tt)
        & (λ _. tt)
        & (λ _. tt)
        & (λ _. tt)
        & (λ _. tt)
        & (λ _. tt)
        & (λ _. bc-Outcome w offset)
        & (λ _. bclr-Outcome w offset)
        & (λ _. tt)
        & (λ _. tt)
        & (λ _. tt)
        & (λ _. tt)
        & (λ _. tt)
        & (λ _. tt)
        & (λ _. tt)
        & (λ _. tt)
        & (λ _. tt)
        & (λ _. tt)
        & (λ _. tt)
        & (λ _. tt)
        & (λ _. tt)
        & (λ _. tt)
        & (λ _. tt)
        & (λ _. tt)
        & (λ _. tt)
        & (λ _. tt)
        & (λ _. tt)
        & (λ _. tt)
        & (λ _. tt)
        & mftb-Outcome w offset
        & (λ _. tt)
        & (λ _. tt)
        & (λ _. tt)
        & (λ _. tt)
        & (λ _. tt)
        & (λ _. tt)
        & tt)
      refl

bad_time_base-panics :
    (w : Word) (offset : ℕ) → IsBadTimeBase w → select arms 31 371 w offset ≡ panic
unfolding select parse_mftb tbr_from_word
bad_time_base-panics w offset bad = ground (arith, split_register_lem w, bad.upper, bad.lower)

-- Decoding panics exactly on the words of `mftb` that name a register other than 268 (TBU) and
-- 269 (TBL); in particular no BO field makes it panic.
pub decode_panics_iff :
    (w : Word) (offset : ℕ) → (decode_from_word w offset ≡ panic) ↔ IsBadTimeBase w
decode_panics_iff w offset = (
  λ e. rw e at (decode-Outcome w offset),
  λ bad. decode-select w offset bad.primary bad.extended ∙ bad_time_base-panics w offset bad,
)

-- The only error of decoding is that no arm fits, and it carries the word and its offset.
pub decode-err :
    (w : Word) (offset : ℕ) (e : DecodeError)
    → decode_from_word w offset ≡ err e
    → e ≡ unhandled_opcode w offset
decode-err w offset e h = rw h at (decode-Outcome w offset)
