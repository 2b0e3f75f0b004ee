-- ===== src/Decomp/Build.antt =====
-- decomp/src/ast/build.rs: the statements for the bits that a comparison or an overflow writes, and
-- for the registers whose generation changes from one block to the next.
pub mod Merge
use package.doldisasm.Base.{
  ℕ, Bool, true, false, not, ◌==◌, if◌then◌else◌, Option, none, some, List, [], ◌∷◌, ◌++◌,
}
use package.doldisasm.Base.Signed.{pos}
use package.doldisasm.Base.Checked.{Checked, returns, panics, ◌>>=◌, ◌>>◌, assert}
use package.doldisasm.Ppc.Instruction.{Crf, Crb, XerRegister, Spr, Register}
use package.doldisasm.Decomp.Registers.{cr, register_iter}
use package.doldisasm.Decomp.Registers.Lens.{same_register}
use package.doldisasm.Decomp.Generations.{Generation, LocalRegisterState, Registers}
use package.doldisasm.Decomp.Ssa.{DefUseMap}
use package.doldisasm.Decomp.Ast.{
  VarId, BinaryOp, Expr, Stmt, VariableVisibility, visible, hidden, VariableFlags,
}
use package.doldisasm.Decomp.Variables.{
  Variables, get_vis, optional_id_by_reg, id_by_reg, cr_bits_variables, xer_variables,
}

abbrev pub is_visible : VariableVisibility → Bool
is_visible VariableVisibility.visible = true
is_visible VariableVisibility.hidden = false

-- The operator of a bit; the overflow bit has none.
abbrev pub bit_op : Crb → Checked BinaryOp
bit_op Crb.negative = returns BinaryOp.lt
bit_op Crb.positive = returns BinaryOp.gt
bit_op Crb.zero_bit = returns BinaryOp.eq
bit_op Crb.overflow = panics

module _ (fl : VariableFlags) (variables : Variables fl) where
  abbrev pub bit_assignment :
      VariableVisibility → VarId → Crb → Expr → Expr → List Stmt → Checked (List Stmt)
  bit_assignment VariableVisibility.hidden var crb left right stmts = returns stmts
  bit_assignment VariableVisibility.visible var crb left right stmts = bit_op crb >>= λ op.
      returns (stmts ++ Stmt.assign (Expr.var var) (Expr.binary op left right) ∷ [])

  unfoldable pub assign_bits :
      Registers
      → Crf
      → Expr
      → Expr
      → List (Crb × VariableVisibility)
      → List Stmt
      → Checked (List Stmt)
  assign_bits state crf left right [] stmts = returns stmts
  assign_bits state crf left right ((crb, v) ∷ bits) stmts = cr state.sprs crf crb >>= λ s.
      id_by_reg fl variables (Register.cr crf crb) s.generation >>= λ var.
      bit_assignment v var crb left right stmts >>= assign_bits state crf left right bits

  unfoldable pub build_crf_assignments :
      Registers → DefUseMap → List Stmt → Crf → Expr → Expr → Checked (List Stmt)
  unfolding assign_bits
  build_crf_assignments state uses stmts crf left right =
      cr_bits_variables state uses crf >>= λ bits. assign_bits state crf left right bits stmts

  -- `((source_a ^ source_b) & (source_a ^ dest)) >> 31`
  abbrev pub overflow_value : Expr → Expr → Expr → Expr
  overflow_value source_a source_b dest =
      Expr.binary BinaryOp.rhs
        (Expr.binary BinaryOp.bit_and (Expr.binary BinaryOp.xor source_a source_b)
          (Expr.binary BinaryOp.xor source_a dest))
        (Expr.immediate16 (pos 31))

  abbrev pub xer_assignment :
      XerRegister → Generation → Expr → Expr → Expr → List Stmt → Checked (List Stmt)
  xer_assignment XerRegister.ov generation source_a source_b dest stmts =
      id_by_reg fl variables (Register.spr (Spr.xer XerRegister.ov)) generation >>= λ ov.
      returns (stmts ++ Stmt.assign (Expr.var ov) (overflow_value source_a source_b dest) ∷ [])
  xer_assignment XerRegister.so generation source_a source_b dest stmts = returns stmts
  xer_assignment XerRegister.ca generation source_a source_b dest stmts = returns stmts

  unfoldable pub assign_xer :
      List (XerRegister × (Generation × VariableVisibility))
      → Expr
      → Expr
      → Expr
      → List Stmt
      → Checked (List Stmt)
  assign_xer [] source_a source_b dest stmts = returns stmts
  assign_xer ((xer, (generation, v)) ∷ xs) source_a source_b dest stmts =
      (if is_visible v
        then xer_assignment xer generation source_a source_b dest stmts
        else returns stmts)
      >>= assign_xer xs source_a source_b dest

  unfoldable pub build_xer_assignments :
      Registers → DefUseMap → List Stmt → Expr → Expr → Expr → Checked (List Stmt)
  unfolding assign_xer
  build_xer_assignments state uses stmts source_a source_b dest =
      assign_xer (xer_variables state uses) source_a source_b dest stmts

  -- The assignment to the next block's variable of a register, if that exists and is visible.
  abbrev pub merge_from : VarId → Option VarId → VariableVisibility → List Stmt
  merge_from next_var (some cur_var) VariableVisibility.visible =
      Stmt.assign (Expr.var next_var) (Expr.var cur_var) ∷ []
  merge_from next_var _ _ = []

  abbrev pub merge_to : Option VarId → Option VarId → Checked (List Stmt)
  merge_to none cur = returns []
  merge_to (some next_var) cur =
      get_vis fl variables next_var >>= λ v. returns (merge_from next_var cur v)

  abbrev pub merge_register :
      Register → LocalRegisterState → LocalRegisterState → Checked (List Stmt)
  merge_register reg cur next =
      if cur.generation == next.generation
      then returns []
      else merge_to (optional_id_by_reg fl variables reg next.generation)
          (optional_id_by_reg fl variables reg cur.generation)

  unfoldable pub merge_all :
      List (Register × LocalRegisterState)
      → List (Register × LocalRegisterState)
      → List Stmt
      → Checked (List Stmt)
  merge_all ((cur_reg, cur) ∷ cs) ((next_reg, next) ∷ ns) stmts =
      assert (same_register cur_reg next_reg) >> merge_register next_reg cur next >>= λ new.
      merge_all cs ns (stmts ++ new)
  merge_all _ _ stmts = returns stmts

  unfoldable pub append_phi_merge_assignments :
      Registers → Registers → List Stmt → Checked (List Stmt)
  unfolding merge_all
  append_phi_merge_assignments cur next stmts =
      merge_all (register_iter cur) (register_iter next) stmts
