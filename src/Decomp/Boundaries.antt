-- ===== src/Decomp/Boundaries.antt =====
-- decomp/src/lib.rs, `branch_is_fn_call`: whether a branch is a tail call.
pub mod Visit
pub mod Ends
pub mod Inside
use package.doldisasm.Base.{
  ℕ, zero, suc, ◌+◌, ◌-◌, ◌/◌, ◌%◌, ◌^◌, Bool, true, false, not, ◌&&◌, ◌||◌, ◌==◌, ltb, leb,
  if◌then◌else◌, contains, length, take, drop, Option, none, some, List, [], ◌∷◌,
}
use package.doldisasm.Base.Signed.{ℤ, pos, negsuc}
use package.doldisasm.Base.Checked.{Checked, returns, panics, ◌>>=◌, add_u32}
use package.doldisasm.Base.Fueled.{Fueled, done, panicked, out_of_fuel, lift}
use package.doldisasm.Ppc.Instruction.{
  Instruction, Result, ok, err, panic, BranchOptions, AddressingMode, Spr,
}
use package.doldisasm.Ppc.Instruction.Fields.{compute_branch_target}
use package.doldisasm.Ppc.Decoder.{Decoder, new, decode_instruction}
use package.doldisasm.Decomp.Cfg.{checked, checked_sub}

-- `abs_diff`
abbrev pub abs_diff : ℕ → ℕ → ℕ
abs_diff a b = if ltb a b then b - a else a - b

-- Heuristic 1, by the distance in instructions.
unfoldable pub distance_confidence : ℕ → ℕ
distance_confidence d =
    if ltb d 256 then 0 else if ltb d 512 then 5 else if ltb d 1024 then 10 else 20

-- `buf.get(a..b)`, for `a` at most `b`.
unfoldable pub get_range : List ℕ → ℕ → ℕ → Option (List ℕ)
get_range buf a b = if leb b (length buf) then some (take (b - a) (drop a buf)) else none

-- Heuristic 2: the word before the target is no instruction.
abbrev pub before_confidence : Result Instruction → Checked ℕ
before_confidence (ok i) = returns 0
before_confidence (err e) = returns 5
before_confidence panic = panics

abbrev pub is_negative : ℤ → Bool
is_negative (pos n) = false
is_negative (negsuc n) = true

abbrev pub is_stack_reserve_instr : Instruction → Bool
is_stack_reserve_instr (Instruction.stwu source dest imm) =
    source == 1 && (dest == 1 && is_negative imm)
is_stack_reserve_instr _ = false

abbrev pub is_mflr_instr : Instruction → Bool
is_mflr_instr (Instruction.mfspr dest Spr.lr) = true
is_mflr_instr _ = false

-- Heuristic 3: the target looks like a function's first instruction.
abbrev pub target_confidence : Result Instruction → Checked ℕ
target_confidence (ok i) = returns (if is_mflr_instr i || is_stack_reserve_instr i then 50 else 0)
target_confidence (err e) = returns 0
target_confidence panic = panics

-- Heuristic 4
abbrev pub aligned_confidence : ℕ → ℕ
aligned_confidence target = if target % 16 == 0 then 5 else 0

-- The heuristics around the target, whose eight bytes there may be.
abbrev pub around_target : ℕ → ℕ → Option (List ℕ) → Checked Bool
around_target target distance none = returns true
around_target target distance (some bytes) =
    let (before, d) = decode_instruction (new bytes) in
    before_confidence before >>= λ c2. target_confidence (decode_instruction d).0 >>= λ c3.
    returns (leb 10 (distance_confidence distance + c2 + c3 + aligned_confidence target))

-- With the target's offset, if it does not lie before the function. `target_off - 4` may underflow.
abbrev pub offset_is_fn_call : List ℕ → ℕ → ℕ → Option ℕ → Checked Bool
offset_is_fn_call buf target inst_addr none = returns true
offset_is_fn_call buf target inst_addr (some target_off) =
    if ltb target_off 4
    then panics
    else around_target target (abs_diff inst_addr target / 4)
        (get_range buf (target_off - 4) (target_off + 4))

unfoldable pub branch_is_fn_call : List ℕ → ℕ → Instruction → ℕ → Checked Bool
branch_is_fn_call buf fn_addr (Instruction.branch target mode link) inst_addr =
    checked (compute_branch_target inst_addr mode target) >>= λ t.
    offset_is_fn_call buf t inst_addr (checked_sub t fn_addr)
branch_is_fn_call buf fn_addr instr inst_addr = panics
