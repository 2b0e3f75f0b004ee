-- ===== src/Tests/Decompiler.antt =====
-- A function of four instructions with a branch over one of them, and a small syntax tree.
use doldisasm.Base.{ℕ, false, ◌==◌, ◌-◌, bit_and, bit_or, List, [], ◌∷◌, some, ◌≡◌, refl}
use doldisasm.Base.Signed.{pos}
use doldisasm.Base.Checked.{returns}
use doldisasm.Ppc.Instruction.{Instruction, BranchOptions, AddressingMode}
use doldisasm.Decomp.Cfg.{
  Instructions, id, return_target, compute_preds_and_succs, store_from, targets, retain_blocks,
  store_all, ends_block,
}
use doldisasm.Base.BtreeMap.{retain, update, get}
use doldisasm.Ppc.Instruction.Fields.{compute_branch_target}
use doldisasm.Decomp.Cfg.Edges.{edges_from, Describes}
use doldisasm.Decomp.Cfg.Blocks.{compute_preds_and_succs-Describes}
use doldisasm.Decomp.Ast.{Ast, Item, Stmt, Stmts, BinaryOp, Expr, TyKind, VariableFlags, is_rsp}
use doldisasm.Decomp.Ast.Write.{codes, digits_of, indents}
use doldisasm.Decomp.Ast.Write.Text.{ast_text, function_text, new_lines, block_lines, expr_text}

abbrev absolute_value : Instructions
absolute_value =
    (0x100, Instruction.cmpi 3 0 0)
    ∷ (0x104, Instruction.bc BranchOptions.branch_if_false 0 (pos 8) AddressingMode.relative false)
    ∷ (0x108, Instruction.neg 3 3 false false)
    ∷ (0x10C, Instruction.bclr BranchOptions.branch_always 0 false)
    ∷ []

absolute_value-graph :
    compute_preds_and_succs absolute_value 0x100
    ≡ returns (record {
      preds = (1, 0 ∷ []) ∷ (2, 1 ∷ []) ∷ (3, 1 ∷ 2 ∷ []) ∷ [];
      succs = (1, id 3 ∷ id 2 ∷ []) ∷ (2, id 3 ∷ []) ∷ (3, return_target ∷ []) ∷ [];
    })
unfolding compute_preds_and_succs store_from targets compute_branch_target retain_blocks retain
    store_all update ends_block get
absolute_value-graph = refl

compute_preds_and_succs-Describes_example :
    Describes (edges_from 0x100 0 absolute_value) (compute_preds_and_succs absolute_value 0x100)
compute_preds_and_succs-Describes_example = compute_preds_and_succs-Describes absolute_value 0x100

-- Flags as the bits of a number.
abbrev bit_flags : VariableFlags
bit_flags = record {
  Flags = ℕ;
  empty_flags = 0;
  visible_flag = 1;
  rsp_flag = 2;
  contains = λ f g. bit_and f g == g;
  insert = bit_or;
  remove = λ f g. bit_and f (255 - g);
}

abbrev two_variables : List ℕ
two_variables = 1 ∷ 2 ∷ []

abbrev clamp : Ast
clamp =
    Item.function (record {
      name = 102 ∷ [];
      return_ty = TyKind.u32;
      params = record { var_id = 0; ty = TyKind.u32 } ∷ [];
      stmts =
          Stmts.stmt_and
            (Stmt.if_stmt (Expr.binary BinaryOp.lt (Expr.var 0) (Expr.immediate16 (pos 7)))
              (Stmts.stmt_and (Stmt.return_stmt (some (Expr.var 0))) Stmts.no_stmts) Stmts.no_stmts)
            (Stmts.stmt_and (Stmt.return_stmt (some (Expr.addr_of 1))) Stmts.no_stmts);
    })
    ∷ []

clamp_text :
    ast_text bit_flags two_variables clamp
    ≡ codes "u32 f(u32 v0) {\n    if (v0 < 7) {\n        return v0;\n    }\n    return &__RSP__;\n}"
unfolding ast_text function_text is_rsp digits_of new_lines block_lines indents expr_text
clamp_text = refl
