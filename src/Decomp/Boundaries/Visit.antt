-- ===== src/Decomp/Boundaries/Visit.antt =====
-- decomp/src/lib.rs, `detect_fn_boundaries`: where a function ends. The recursion is on fuel, which
-- also counts the rounds of the loop; `seen` is a returned state, the last block entered first.
use doldisasm.Base.{
  ℕ, zero, suc, ◌+◌, ◌-◌, ◌%◌, ◌^◌, Bool, true, false, ltb, leb, if◌then◌else◌, contains, length,
  take, drop, Option, none, some, List, [], ◌∷◌, ◌&&◌,
}
use doldisasm.Base.Signed.{ℤ}
use doldisasm.Base.Checked.{Checked, returns, panics, add_u32}
use doldisasm.Base.Checked
use doldisasm.Base.Fueled.{Fueled, done, panicked, out_of_fuel, lift, ◌>>=◌}
use doldisasm.Ppc.Instruction.{Instruction, Result, ok, err, panic, BranchOptions, AddressingMode}
use doldisasm.Ppc.Instruction.Fields.{compute_branch_target}
use doldisasm.Ppc.Decoder.{Decoder, new, decode_instruction}
use doldisasm.Decomp.Cfg.{checked, checked_sub}
use doldisasm.Decomp.Boundaries.{branch_is_fn_call}

-- A block's end, and the blocks entered.
abbrev pub End : Type 0
End = Fueled (ℕ × List ℕ)

-- The target of a branch without link, if it does not lie before the function.
abbrev pub target_offset : ℕ → ℕ → AddressingMode → ℤ → Bool → Checked (Option ℕ)
target_offset fn_address inst_addr mode target true = returns none
target_offset fn_address inst_addr mode target false =
    Checked.◌>>=◌ (checked (compute_branch_target inst_addr mode target))
      (λ t. returns (checked_sub t fn_address))

abbrev pub unless_call : ℕ → Bool → Option ℕ
unless_call target true = none
unless_call target false = some target

-- The same for a `b`, if it is no tail call.
abbrev pub inside_target : List ℕ → ℕ → ℕ → Instruction → Option ℕ → Checked (Option ℕ)
inside_target buf fn_address inst_addr instr none = returns none
inside_target buf fn_address inst_addr instr (some target) =
    Checked.◌>>=◌ (branch_is_fn_call buf fn_address instr inst_addr)
      (λ call. returns (unless_call target call))

abbrev pub later : ℕ → ℕ → ℕ
later a b = if ltb a b then b else a

-- The two ways behind a `bc`.
abbrev pub both_ends : (ℕ → List ℕ → End) → ℕ → List ℕ → Option ℕ → End
both_ends visit next seen none = visit next seen
both_ends visit next seen (some target) =
    visit target seen >>= λ w. visit next w.1 >>= λ w'. done (later w.0 w'.0, w'.1)

abbrev pub follow : (ℕ → List ℕ → End) → (List ℕ → End) → List ℕ → Option ℕ → End
follow visit go_on seen none = go_on seen
follow visit go_on seen (some target) = visit target seen

-- The body of the loop, with the instruction read: `visit` enters a block, `go_on` is the next round.
unfoldable pub handle :
    (ℕ → List ℕ → End) → (List ℕ → End) → List ℕ → ℕ → ℕ → ℕ → Result Instruction → List ℕ → End
handle visit go_on buf fn_address off addr
      (ok (Instruction.bclr BranchOptions.branch_always bi false)) seen =
    done (off + 4, seen)
handle visit go_on buf fn_address off addr (ok (Instruction.bc bo bi target mode link)) seen =
    lift (target_offset fn_address addr mode target link) (both_ends visit (off + 4) seen)
handle visit go_on buf fn_address off addr (ok (Instruction.branch target mode link)) seen =
    lift
      (Checked.◌>>=◌ (target_offset fn_address addr mode target link)
        (inside_target buf fn_address addr (Instruction.branch target mode link)))
      (follow visit go_on seen)
handle visit go_on buf fn_address off addr (ok _) seen = go_on seen
handle visit go_on buf fn_address off addr (err e) seen = done (off, seen)
handle visit go_on buf fn_address off addr panic seen = panicked

unfoldable mutual
  pub visit_block : List ℕ → ℕ → ℕ → ℕ → List ℕ → End
  visit_block buf fn_address zero start seen = out_of_fuel
  visit_block buf fn_address (suc fuel) start seen =
      if contains seen start
      then done (start, seen)
      else if ltb (length buf) start
      then panicked
      else scan buf fn_address fuel start (new (drop start buf)) (start ∷ seen)

  -- The loop over the instructions of a block.
  pub scan : List ℕ → ℕ → ℕ → ℕ → Decoder → List ℕ → End
  scan buf fn_address zero start d seen = out_of_fuel
  scan buf fn_address (suc fuel) start d seen =
      lift (add_u32 fn_address ((start + d.offset) % 2 ^ 32)) (λ addr.
        handle (visit_block buf fn_address fuel)
          (scan buf fn_address fuel start (decode_instruction d).1) buf fn_address
          (start + d.offset) addr (decode_instruction d).0 seen)

-- `&buf[start..end]`
abbrev pub slice : List ℕ → ℕ → ℕ → Fueled (List ℕ)
slice buf a b = if leb a b && leb b (length buf) then done (take (b - a) (drop a buf)) else panicked

unfoldable pub detect_fn_boundaries : List ℕ → ℕ → ℕ → ℕ → Fueled (List ℕ)
detect_fn_boundaries buf fn_address fuel start =
    visit_block buf fn_address fuel start [] >>= λ w. slice buf start w.0
