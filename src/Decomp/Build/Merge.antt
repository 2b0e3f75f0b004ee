-- ===== src/Decomp/Build/Merge.antt =====
-- The assignments between blocks.
use doldisasm.Base.{
  false, ◌==◌, Bool-cases, Option, none, some, List, [], ◌∷◌, ◌++◌, append_assoc, append_nil,
}
use doldisasm.Base.{◌≡◌, refl, sym, subst, ◌∙◌, inl, inr}
use doldisasm.Base.Checked.{Checked, returns, ◌>>◌, assert, asserted, assert_holds, >>=-eq-returns}
use doldisasm.Ppc.Instruction.{Register}
use doldisasm.Decomp.Registers.{register_iter}
use doldisasm.Decomp.Registers.Lens.{same_register, same_register_sound}
use doldisasm.Decomp.Generations.{LocalRegisterState, Registers}
use doldisasm.Decomp.Ast.{VarId, Expr, Stmt, VariableVisibility, VariableFlags}
use doldisasm.Decomp.Variables.{Variables, get_vis, optional_id_by_reg}
use doldisasm.Decomp.Build.{
  merge_from, merge_to, merge_register, merge_all, append_phi_merge_assignments,
}

abbrev pub Listing : Type 0
Listing = List (Register × LocalRegisterState)

module _ (fl : VariableFlags) (variables : Variables fl) where
  -- The register has another generation in the next block than in this one, and a variable in each,
  -- the next block's a visible one, to which the statement assigns this block's.
  abbrev pub Assigns : Register → LocalRegisterState → LocalRegisterState → Stmt → Type 0
  Assigns reg cur next s =
      (from : VarId) × (to : VarId) × (s ≡ Stmt.assign (Expr.var to) (Expr.var from))
      × ((cur.generation == next.generation) ≡ false)
      × (optional_id_by_reg fl variables reg cur.generation ≡ some from)
      × (optional_id_by_reg fl variables reg next.generation ≡ some to)
      × (get_vis fl variables to ≡ returns VariableVisibility.visible)

  -- The statements hand on the registers that two lists have in common, in their order: one for
  -- each register that has an assignment, none for the others.
  pub data HandsOn : Listing → Listing → List Stmt → Type 0 where
    no_more : {ns : Listing} → HandsOn [] ns []
    no_next : {cs : Listing} → HandsOn cs [] []
    assigned :
        {reg : Register} {cur next : LocalRegisterState} {cs ns : Listing} {s : Stmt}
        {ss : List Stmt}
        → Assigns reg cur next s
        → HandsOn cs ns ss
        → HandsOn ((reg, cur) ∷ cs) ((reg, next) ∷ ns) (s ∷ ss)
    passed :
        {reg : Register} {cur next : LocalRegisterState} {cs ns : Listing} {ss : List Stmt}
        → ((s : Stmt) → ¬ Assigns reg cur next s)
        → HandsOn cs ns ss
        → HandsOn ((reg, cur) ∷ cs) ((reg, next) ∷ ns) ss

  -- What one register adds: its assignment, or nothing if it has none.
  data Adds (reg : Register) (cur next : LocalRegisterState) : List Stmt → Type 0 where
    one : {s : Stmt} → Assigns reg cur next s → Adds reg cur next (s ∷ [])
    nothing : ((s : Stmt) → ¬ Assigns reg cur next s) → Adds reg cur next []

  merge_from-Adds :
      (reg : Register) (cur next : LocalRegisterState) (to : VarId) (from : Option VarId)
      (v : VariableVisibility)
      → (cur.generation == next.generation) ≡ false
      → optional_id_by_reg fl variables reg cur.generation ≡ from
      → optional_id_by_reg fl variables reg next.generation ≡ some to
      → get_vis fl variables to ≡ returns v
      → Adds reg cur next (merge_from fl variables to from v)
  merge_from-Adds reg cur next to (some from) VariableVisibility.visible other e e' seen =
      one (from, to, refl, other, e, e', seen)
  merge_from-Adds reg cur next to (some from) VariableVisibility.hidden other e e' seen =
      nothing (λ s (from', to', same, h, f, f', shown). cc)
  merge_from-Adds reg cur next to none v other e e' seen =
      nothing (λ s (from', to', same, h, f, f', shown). cc)

  merge_to-Adds :
      (reg : Register) (cur next : LocalRegisterState) (to from : Option VarId) (new : List Stmt)
      → (cur.generation == next.generation) ≡ false
      → optional_id_by_reg fl variables reg cur.generation ≡ from
      → optional_id_by_reg fl variables reg next.generation ≡ to
      → merge_to fl variables to from ≡ returns new
      → Adds reg cur next new
  merge_to-Adds reg cur next none from new other e e' ran =
      let empty : [] ≡ new = cc in
      subst (Adds reg cur next) empty (nothing (λ s (from', to', same, h, f, f', shown). cc))
  merge_to-Adds reg cur next (some to) from new other e e' ran =
      let (v, seen, last) = >>=-eq-returns (get_vis fl variables to) _ ran in
      let same : merge_from fl variables to from v ≡ new = cc in
      subst (Adds reg cur next) same (merge_from-Adds reg cur next to from v other e e' seen)

  merge_register-Adds :
      (reg : Register) (cur next : LocalRegisterState) (new : List Stmt)
      → merge_register fl variables reg cur next ≡ returns new
      → Adds reg cur next new
  merge_register-Adds reg cur next new ran = elim (Bool-cases (cur.generation == next.generation)) [
    | inl same ↦
        let unchanged : ◌≡◌ {A = Checked (List Stmt)} (returns []) (returns new) = rw same at ran in
        let empty : [] ≡ new = cc in
        subst (Adds reg cur next) empty (nothing (λ s (from', to', e, other, f, f', shown). cc))
    | inr other ↦
        merge_to-Adds reg cur next (optional_id_by_reg fl variables reg next.generation)
          (optional_id_by_reg fl variables reg cur.generation) new other refl refl (rw other at ran)
  ]

  Adds-HandsOn :
      (reg reg' : Register) (cur next : LocalRegisterState) (cs ns : Listing)
      {new added : List Stmt}
      → reg' ≡ reg
      → Adds reg' cur next new
      → HandsOn cs ns added
      → HandsOn ((reg, cur) ∷ cs) ((reg', next) ∷ ns) (new ++ added)
  Adds-HandsOn reg reg' cur next cs ns {added = added} same (one {s} assigns) rest =
      subst (λ r. HandsOn ((r, cur) ∷ cs) ((reg', next) ∷ ns) (s ∷ added)) same
        (assigned assigns rest)
  Adds-HandsOn reg reg' cur next cs ns {added = added} same (nothing none_assigns) rest =
      subst (λ r. HandsOn ((r, cur) ∷ cs) ((reg', next) ∷ ns) added) same (passed none_assigns rest)

  abbrev Appends : Listing → Listing → List Stmt → List Stmt → Type 0
  Appends cs ns stmts stmts' = (added : List Stmt) × (stmts' ≡ stmts ++ added) × HandsOn cs ns added

  unchanged_list :
      (cs ns : Listing) (stmts stmts' : List Stmt)
      → HandsOn cs ns []
      → returns stmts ≡ returns stmts'
      → Appends cs ns stmts stmts'
  unchanged_list cs ns stmts stmts' none_left e =
      let same : stmts ≡ stmts' = cc in ([], sym same ∙ sym (append_nil stmts), none_left)

  merge_all-Appends :
      (cs ns : Listing) (stmts stmts' : List Stmt)
      → merge_all fl variables cs ns stmts ≡ returns stmts'
      → Appends cs ns stmts stmts'
  unfolding merge_all
  merge_all-Appends [] ns stmts stmts' ran = unchanged_list [] ns stmts stmts' no_more ran
  merge_all-Appends (c ∷ cs) [] stmts stmts' ran =
      unchanged_list (c ∷ cs) [] stmts stmts' no_next ran
  merge_all-Appends ((reg, cur) ∷ cs) ((reg', next) ∷ ns) stmts stmts' ran =
      let (new, merged, rest) =
        >>=-eq-returns
          (assert (same_register reg reg') >> merge_register fl variables reg' cur next) _ ran in
      let (added, e, handed) = merge_all-Appends cs ns (stmts ++ new) stmts' rest in
      let same : reg ≡ reg' =
        same_register_sound reg reg' (assert_holds (same_register reg reg') _ merged) in
      (
        new ++ added,
        e ∙ append_assoc stmts new added,
        Adds-HandsOn reg reg' cur next cs ns (sym same)
            (merge_register-Adds reg' cur next new (asserted (same_register reg reg') _ merged))
            handed,
      )

  -- If the assignments between a block and the next are appended, the statements that were there
  -- stay in front. Behind them stands, in the order of the registers, exactly one statement for
  -- each register that register_iter lists for both states, whose generation at the end of the
  -- block differs from that at the start of the next and that has a variable in both, the next
  -- block's being visible: it assigns the block's variable to the next block's.
  pub append_phi_merge_assignments-HandsOn :
      (cur next : Registers) (stmts stmts' : List Stmt)
      → append_phi_merge_assignments fl variables cur next stmts ≡ returns stmts'
      → (added : List Stmt) × (stmts' ≡ stmts ++ added)
        × HandsOn (register_iter cur) (register_iter next) added
  unfolding append_phi_merge_assignments
  append_phi_merge_assignments-HandsOn cur next stmts stmts' ran =
      merge_all-Appends (register_iter cur) (register_iter next) stmts stmts' ran
