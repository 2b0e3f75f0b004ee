-- ===== src/Decomp/Ast.antt =====
-- decomp/src/ast: the syntax tree (expr.rs, stmt.rs, item.rs, ty.rs). A struct whose only field is
-- `kind` is that kind, and a `Vec` of a type inside itself is a data type of its own.
pub mod Write
use package.doldisasm.Base.{ℕ, Bool, true, false, if◌then◌else◌, Option, List}
use package.doldisasm.Base.Signed.{ℤ}

abbrev pub VarId : Type 0
VarId = ℕ

pub data BinaryOp : Type 0 where
  add sub xor rhs lt gt ge eq ne bit_and : BinaryOp

pub data UnaryOp : Type 0 where
  not : UnaryOp

pub data FnCallTarget : Type 0 where
  addr : ℕ → FnCallTarget

mutual
  pub data Expr : Type 0 where
    var : VarId → Expr
    addr_of : VarId → Expr
    unary : UnaryOp → Expr → Expr
    binary : BinaryOp → (left right : Expr) → Expr
    immediate16 : ℤ → Expr
    fn_call : FnCallTarget → Exprs → Expr

  pub data Exprs : Type 0 where
    no_exprs : Exprs
    expr_and : Expr → Exprs → Exprs

mutual
  pub data Stmt : Type 0 where
    assign : (dest value : Expr) → Stmt
    return_stmt : Option Expr → Stmt
    if_stmt : (condition : Expr) (then_stmts else_stmts : Stmts) → Stmt
    while_stmt : (condition : Expr) (body : Stmts) → Stmt
    continue_stmt break_stmt : Stmt

  pub data Stmts : Type 0 where
    no_stmts : Stmts
    stmt_and : Stmt → Stmts → Stmts

pub data TyKind : Type 0 where
  u32 void : TyKind

pub record Parameter : Type 0 where
  pub var_id : VarId
  pub ty : TyKind

-- A name is its code points.
pub record Function : Type 0 where
  pub name : List ℕ
  pub return_ty : TyKind
  pub params : List Parameter
  pub stmts : Stmts

pub data Item : Type 0 where
  function : Function → Item

abbrev pub Ast : Type 0
Ast = List Item

pub data VariableVisibility : Type 0 where
  visible hidden : VariableVisibility

-- `BitAnd`, `BitOr`
unfoldable pub bitand : VariableVisibility → VariableVisibility → VariableVisibility
bitand VariableVisibility.visible VariableVisibility.visible = VariableVisibility.visible
bitand _ _ = VariableVisibility.hidden

unfoldable pub bitor : VariableVisibility → VariableVisibility → VariableVisibility
bitor VariableVisibility.hidden VariableVisibility.hidden = VariableVisibility.hidden
bitor _ _ = VariableVisibility.visible

-- What the `bitflags` crate makes of the declaration of `VariableFlags`.
pub record VariableFlags : Type 1 where
  pub Flags : Type 0
  pub empty_flags : Flags
  pub visible_flag : Flags
  pub rsp_flag : Flags
  pub contains : Flags → Flags → Bool
  pub insert : Flags → Flags → Flags
  pub remove : Flags → Flags → Flags

module _ (fl : VariableFlags) where
  unfoldable pub from_vis : VariableVisibility → fl.Flags
  from_vis VariableVisibility.visible = fl.visible_flag
  from_vis VariableVisibility.hidden = fl.empty_flags

  -- `struct Variable { flags }`
  abbrev pub Variable : Type 0
  Variable = fl.Flags

  unfoldable pub set_vis : Variable → VariableVisibility → Variable
  set_vis v VariableVisibility.visible = fl.insert v fl.visible_flag
  set_vis v VariableVisibility.hidden = fl.remove v fl.visible_flag

  unfoldable pub vis : Variable → VariableVisibility
  vis v =
      if fl.contains v fl.visible_flag
      then VariableVisibility.visible
      else VariableVisibility.hidden

  unfoldable pub is_rsp : Variable → Bool
  is_rsp v = fl.contains v fl.rsp_flag
