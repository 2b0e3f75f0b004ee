-- ===== src/Decomp/Ast/Write.antt =====
-- decomp/src/ast/write.rs: the writer and the functions that print a syntax tree to it. Text is its
-- code points; a `&mut` writer is a returned state; a panic (a variable that is not in the table,
-- an indentation that overflows) is `panics`. `write_fmt` is its formatted text.
pub mod Text
pub mod Prints
pub mod Lines
pub mod Items
use Prim.Native.String.{String}
use Prim.Native.Char.{code}
use package.doldisasm.Base.{ℕ, zero, suc, ◌+◌, ◌-◌, ◌*◌, ◌/◌, ◌%◌, Bool, true, false, ltb}
use package.doldisasm.Base.{if◌then◌else◌, Option, none, some, List, [], ◌∷◌, ◌++◌, get_elem?}
use package.doldisasm.Base.Signed.{ℤ, pos, negsuc}
use package.doldisasm.Base.Checked.{Checked, returns, panics, ◌>>=◌, add_u32}
use package.doldisasm.Decomp.Ast.{
  VarId, BinaryOp, UnaryOp, FnCallTarget, Expr, Exprs, Stmt, Stmts, TyKind, Parameter, Function,
  Item, Ast, VariableFlags, Variable, is_rsp,
}

abbrev pub Text : Type 0
Text = List ℕ

abbrev pub codes : String → Text
codes String.[] = []
codes (String.◌∷◌ c s) = code c ∷ codes s

-- `StringWriter`
pub record StringWriter : Type 0 where
  pub buf : Text
  pub indentation : ℕ

abbrev pub new_writer : StringWriter
new_writer = record { buf = []; indentation = 0 }

-- `write_str`, and `write_fmt` of a formatted text.
unfoldable pub write_text : Text → StringWriter → StringWriter
write_text t w = record { buf = w.buf ++ t; indentation = w.indentation }

abbrev pub write_str : String → StringWriter → StringWriter
write_str s = write_text (codes s)

abbrev pub Write : Type 0
Write = StringWriter → Checked StringWriter

unfoldable pub outdent : StringWriter → Checked StringWriter
outdent w =
    if ltb 0 w.indentation
    then returns (record { buf = w.buf; indentation = w.indentation - 1 })
    else panics

unfoldable pub with_scope : Write → Write
with_scope f w =
    add_u32 w.indentation 1 >>= λ n. f (record { buf = w.buf; indentation = n }) >>= outdent

-- The loop that indents a line.
unfoldable pub indents : ℕ → Text
indents zero = []
indents (suc n) = codes "    " ++ indents n

unfoldable pub next_line : StringWriter → StringWriter
next_line w = write_text (indents w.indentation) (write_str "\n" w)

-- `{}` of an unsigned number: its digits in a base, on fuel that bounds their number.
unfoldable pub digits_of : (base fuel n : ℕ) → (ℕ → ℕ) → Text → Text
digits_of base zero n digit acc = acc
digits_of base (suc fuel) n digit acc =
    let rest = digits_of base fuel (n / base) digit (digit (n % base) ∷ acc) in
    if ltb n base then digit n ∷ acc else rest

abbrev pub decimal : ℕ → Text
decimal n = digits_of 10 (suc n) n (λ d. b'0' + d) []

-- `{}` of an `i16`
abbrev pub signed_decimal : ℤ → Text
signed_decimal (pos n) = decimal n
signed_decimal (negsuc n) = b'-' ∷ decimal (suc n)

-- `{:#X}` of a `u32`
abbrev pub upper_hex : ℕ → Text
upper_hex n =
    codes "0x" ++ digits_of 16 8 n (λ d. if ltb d 10 then b'0' + d else b'A' + (d - 10)) []

abbrev pub binary_text : BinaryOp → Text
binary_text BinaryOp.add = codes " + "
binary_text BinaryOp.sub = codes " - "
binary_text BinaryOp.lt = codes " < "
binary_text BinaryOp.gt = codes " > "
binary_text BinaryOp.ge = codes " >= "
binary_text BinaryOp.eq = codes " == "
binary_text BinaryOp.ne = codes " != "
binary_text BinaryOp.bit_and = codes " & "
binary_text BinaryOp.xor = codes " ^ "
binary_text BinaryOp.rhs = codes " >> "

abbrev pub unary_text : UnaryOp → Text
unary_text UnaryOp.not = codes "!"

abbrev pub ty_text : TyKind → Text
ty_text TyKind.void = codes "void"
ty_text TyKind.u32 = codes "u32"

module _ (fl : VariableFlags) (variables : List (Variable fl)) where
  abbrev pub var_text : Bool → VarId → Text
  var_text true id = codes "__RSP__"
  var_text false id = b'v' ∷ decimal id

  -- The table is indexed first.
  abbrev pub write_var : Option (Variable fl) → VarId → Write
  write_var none id w = panics
  write_var (some v) id w = returns (write_text (var_text (is_rsp fl v) id) w)

  unfoldable pub write_var_id : VarId → Write
  write_var_id id w = write_var (get_elem? variables id) id w

  unfoldable mutual
    pub write_expr : Expr → Write
    write_expr (Expr.var id) w = write_var_id id w
    write_expr (Expr.binary op left right) w =
        write_expr left w >>= λ w'. write_expr right (write_text (binary_text op) w')
    write_expr (Expr.unary op operand) w = write_expr operand (write_text (unary_text op) w)
    write_expr (Expr.immediate16 value) w = returns (write_text (signed_decimal value) w)
    write_expr (Expr.fn_call (FnCallTarget.addr a) args) w =
        write_args args (write_str "(" (write_text (upper_hex a) w)) >>= λ w'.
        returns (write_str ")" w')
    write_expr (Expr.addr_of id) w = write_var_id id (write_str "&" w)

    -- The first argument, and the others behind a comma.
    pub write_args : Exprs → Write
    write_args Exprs.no_exprs w = returns w
    write_args (Exprs.expr_and e es) w = write_expr e w >>= write_more_args es

    pub write_more_args : Exprs → Write
    write_more_args Exprs.no_exprs w = returns w
    write_more_args (Exprs.expr_and e es) w = write_expr e (write_str ", " w) >>= write_more_args es

  unfoldable pub write_value : Option Expr → Write
  write_value none w = returns w
  write_value (some e) w = write_expr e (write_str " " w)

  unfoldable mutual
    pub write_stmt : Stmt → Write
    write_stmt (Stmt.assign dest value) w = write_expr dest w >>= λ w'.
        write_expr value (write_str " = " w') >>= λ w'. returns (write_str ";" w')
    write_stmt (Stmt.return_stmt value) w =
        write_value value (write_str "return" w) >>= λ w'. returns (write_str ";" w')
    write_stmt (Stmt.if_stmt condition then_stmts else_stmts) w =
        write_expr condition (write_str "if (" w) >>= λ w'.
        with_scope (write_stmts then_stmts) (write_str ") {" w') >>= λ w'.
        write_else else_stmts (write_str "}" (next_line w'))
    write_stmt (Stmt.while_stmt condition body) w =
        write_expr condition (write_str "while (" w) >>= λ w'.
        with_scope (write_stmts body) (write_str ") {" w') >>= λ w'.
        returns (write_str "}" (next_line w'))
    write_stmt Stmt.continue_stmt w = returns (write_str "continue;" w)
    write_stmt Stmt.break_stmt w = returns (write_str "break;" w)

    -- Each statement on a line of its own.
    pub write_stmts : Stmts → Write
    write_stmts Stmts.no_stmts w = returns w
    write_stmts (Stmts.stmt_and s ss) w = write_stmt s (next_line w) >>= write_stmts ss

    pub write_else : Stmts → Write
    write_else Stmts.no_stmts w = returns w
    write_else (Stmts.stmt_and s ss) w =
        with_scope (λ w'. write_stmt s (next_line w') >>= write_stmts ss) (write_str " else {" w)
        >>= λ w'. returns (write_str "}" (next_line w'))

  unfoldable pub write_param : Parameter → Write
  write_param p w = write_var_id p.var_id (write_str " " (write_text (ty_text p.ty) w))

  unfoldable pub write_more_params : List Parameter → Write
  write_more_params [] w = returns w
  write_more_params (p ∷ ps) w = write_param p (write_str ", " w) >>= write_more_params ps

  unfoldable pub write_params : List Parameter → Write
  write_params [] w = returns w
  write_params (p ∷ ps) w = write_param p w >>= write_more_params ps

  unfoldable pub write_function : Function → Write
  write_function f w =
      write_params f.params
        (write_str "(" (write_text f.name (write_str " " (write_text (ty_text f.return_ty) w))))
      >>= λ w'. with_scope (write_stmts f.stmts) (write_str ") {" w') >>= λ w'.
          returns (write_str "}" (next_line w'))

  unfoldable pub write_item : Item → Write
  write_item (Item.function f) w = write_function f w

  unfoldable pub write_ast : Ast → Write
  write_ast [] w = returns w
  write_ast (item ∷ items) w = write_item item w >>= write_ast items
