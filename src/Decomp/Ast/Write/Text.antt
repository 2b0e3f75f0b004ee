-- ===== src/Decomp/Ast/Write/Text.antt =====
-- What the printer is to print, as text: expressions by juxtaposition, statements as lines with
-- their depth, and no state.
use doldisasm.Base.{ℕ, suc, ◌^◌, ◌<◌, Option, none, some, List, [], ◌∷◌, ◌++◌}
use doldisasm.Base.{length, get_elem?}
use doldisasm.Decomp.Ast.{
  VarId, FnCallTarget, Expr, Exprs, Stmt, Stmts, Parameter, Function, Item, Ast, VariableFlags,
  Variable, is_rsp,
}
use doldisasm.Decomp.Ast.Write.{
  Text, codes, indents, signed_decimal, upper_hex, binary_text, unary_text, ty_text, var_text,
}

-- A line: its depth and its text.
abbrev pub Line : Type 0
Line = ℕ × Text

-- Behind a first line, each line starts anew and is indented by its depth.
unfoldable pub new_lines : List Line → Text
new_lines [] = []
new_lines ((d, t) ∷ ls) = codes "\n" ++ (indents d ++ (t ++ new_lines ls))

module _ (fl : VariableFlags) (variables : List (Variable fl)) where
  abbrev pub name_text : Option (Variable fl) → VarId → Text
  name_text none id = []
  name_text (some v) id = var_text fl variables (is_rsp fl v) id

  abbrev pub variable_text : VarId → Text
  variable_text id = name_text (get_elem? variables id) id

  unfoldable mutual
    pub expr_text : Expr → Text
    expr_text (Expr.var id) = variable_text id
    expr_text (Expr.binary op left right) = expr_text left ++ (binary_text op ++ expr_text right)
    expr_text (Expr.unary op operand) = unary_text op ++ expr_text operand
    expr_text (Expr.immediate16 value) = signed_decimal value
    expr_text (Expr.fn_call (FnCallTarget.addr a) args) =
        upper_hex a ++ (codes "(" ++ (args_text args ++ codes ")"))
    expr_text (Expr.addr_of id) = codes "&" ++ variable_text id

    pub args_text : Exprs → Text
    args_text Exprs.no_exprs = []
    args_text (Exprs.expr_and e es) = expr_text e ++ more_args_text es

    pub more_args_text : Exprs → Text
    more_args_text Exprs.no_exprs = []
    more_args_text (Exprs.expr_and e es) = codes ", " ++ (expr_text e ++ more_args_text es)

  -- Every variable of the expression is in the table.
  unfoldable mutual
    pub IsKnown : Expr → Type 0
    IsKnown (Expr.var id) = id < length variables
    IsKnown (Expr.binary op left right) = IsKnown left × IsKnown right
    IsKnown (Expr.unary op operand) = IsKnown operand
    IsKnown (Expr.immediate16 value) = Unit
    IsKnown (Expr.fn_call target args) = AreKnown args
    IsKnown (Expr.addr_of id) = id < length variables

    pub AreKnown : Exprs → Type 0
    AreKnown Exprs.no_exprs = Unit
    AreKnown (Exprs.expr_and e es) = IsKnown e × AreKnown es

  abbrev pub value_text : Option Expr → Text
  value_text none = []
  value_text (some e) = codes " " ++ expr_text e

  abbrev pub IsKnownValue : Option Expr → Type 0
  IsKnownValue none = Unit
  IsKnownValue (some e) = IsKnown e

  -- The first line of a statement at a depth, without its indentation, and the lines behind it.
  unfoldable mutual
    pub first_line : Stmt → Text
    first_line (Stmt.assign dest value) =
        expr_text dest ++ (codes " = " ++ (expr_text value ++ codes ";"))
    first_line (Stmt.return_stmt value) = codes "return" ++ (value_text value ++ codes ";")
    first_line (Stmt.if_stmt condition then_stmts else_stmts) =
        codes "if (" ++ (expr_text condition ++ codes ") {")
    first_line (Stmt.while_stmt condition body) =
        codes "while (" ++ (expr_text condition ++ codes ") {")
    first_line Stmt.continue_stmt = codes "continue;"
    first_line Stmt.break_stmt = codes "break;"

    pub other_lines : ℕ → Stmt → List Line
    other_lines d (Stmt.if_stmt condition then_stmts else_stmts) =
        block_lines (suc d) then_stmts ++ else_lines d else_stmts
    other_lines d (Stmt.while_stmt condition body) = block_lines (suc d) body ++ (d, codes "}") ∷ []
    other_lines d _ = []

    pub block_lines : ℕ → Stmts → List Line
    block_lines d Stmts.no_stmts = []
    block_lines d (Stmts.stmt_and s ss) = (d, first_line s) ∷ (other_lines d s ++ block_lines d ss)

    pub else_lines : ℕ → Stmts → List Line
    else_lines d Stmts.no_stmts = (d, codes "}") ∷ []
    else_lines d (Stmts.stmt_and s ss) =
        (d, codes "} else {")
        ∷ (suc d, first_line s)
        ∷ ((other_lines (suc d) s ++ block_lines (suc d) ss) ++ (d, codes "}") ∷ [])

  -- At a depth, the variables are in the table, and an indentation holds the depth of each scope.
  unfoldable mutual
    pub IsPrintable : ℕ → Stmt → Type 0
    IsPrintable d (Stmt.assign dest value) = IsKnown dest × IsKnown value
    IsPrintable d (Stmt.return_stmt value) = IsKnownValue value
    IsPrintable d (Stmt.if_stmt condition then_stmts else_stmts) =
        IsKnown condition
        × (suc d < 2 ^ 32)
        × ArePrintable (suc d) then_stmts
        × ArePrintable (suc d) else_stmts
    IsPrintable d (Stmt.while_stmt condition body) =
        IsKnown condition × (suc d < 2 ^ 32) × ArePrintable (suc d) body
    IsPrintable d Stmt.continue_stmt = Unit
    IsPrintable d Stmt.break_stmt = Unit

    pub ArePrintable : ℕ → Stmts → Type 0
    ArePrintable d Stmts.no_stmts = Unit
    ArePrintable d (Stmts.stmt_and s ss) = IsPrintable d s × ArePrintable d ss

  abbrev pub param_text : Parameter → Text
  param_text p = ty_text p.ty ++ (codes " " ++ variable_text p.var_id)

  abbrev pub more_params_text : List Parameter → Text
  more_params_text [] = []
  more_params_text (p ∷ ps) = codes ", " ++ (param_text p ++ more_params_text ps)

  abbrev pub params_text : List Parameter → Text
  params_text [] = []
  params_text (p ∷ ps) = param_text p ++ more_params_text ps

  abbrev pub AreKnownParams : List Parameter → Type 0
  AreKnownParams [] = Unit
  AreKnownParams (p ∷ ps) = (p.var_id < length variables) × AreKnownParams ps

  abbrev pub function_head : Function → Text
  function_head f = ty_text f.return_ty ++ (codes " " ++ (f.name ++ codes "("))

  -- A function's first line, and the lines of its body with the closing one.
  unfoldable pub function_text : Function → Text
  function_text f =
      (function_head f ++ (params_text f.params ++ codes ") {"))
      ++ new_lines (block_lines 1 f.stmts ++ (0, codes "}") ∷ [])

  unfoldable pub IsPrintableFunction : Function → Type 0
  IsPrintableFunction f = AreKnownParams f.params × ArePrintable 1 f.stmts

  unfoldable pub ast_text : Ast → Text
  ast_text [] = []
  ast_text (Item.function f ∷ items) = function_text f ++ ast_text items

  abbrev pub IsPrintableAst : Ast → Type 0
  IsPrintableAst [] = Unit
  IsPrintableAst (Item.function f ∷ items) = IsPrintableFunction f × IsPrintableAst items
