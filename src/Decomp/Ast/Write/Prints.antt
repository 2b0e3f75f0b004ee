-- ===== src/Decomp/Ast/Write/Prints.antt =====
-- The printer prints the text: on a printable tree every function of it returns, appends the text
-- and leaves the indentation as it was.
use doldisasm.Base.{zero, suc, ◌<◌}
use doldisasm.Base.{
  Option, none, some, List, [], ◌∷◌, ◌++◌, length, get_elem?, append_assoc, append_nil,
}
use doldisasm.Base.{◌≡◌, refl, sym, ap, ◌∙◌, arith}
use doldisasm.Base.Checked.{Checked, returns, ◌>>=◌}
use doldisasm.Decomp.Ast.{VarId, FnCallTarget, Expr, Exprs, VariableFlags, Variable}
use doldisasm.Decomp.Ast.Write.{
  Text, codes, StringWriter, write_text, write_str, Write, upper_hex, binary_text, unary_text,
  write_var, write_var_id, write_expr, write_args, write_more_args, write_value,
}
use doldisasm.Decomp.Ast.Write.Text.{
  name_text, variable_text, expr_text, args_text, more_args_text, IsKnown, AreKnown, value_text,
  IsKnownValue,
}

-- Texts written one after the other are one text.
pub joined2 :
    (a b : Text) (w : StringWriter) → write_text b (write_text a w) ≡ write_text (a ++ b) w
unfolding write_text
joined2 a b w =
    ap (λ (t : Text). record { buf = t; indentation = w.indentation }) (append_assoc w.buf a b)

pub joined3 :
    (a b c : Text) (w : StringWriter)
    → write_text c (write_text b (write_text a w)) ≡ write_text (a ++ (b ++ c)) w
joined3 a b c w =
    ap (write_text c) (joined2 a b w)
    ∙ (joined2 (a ++ b) c w ∙ ap (λ t. write_text t w) (append_assoc a b c))

pub joined4 :
    (a b c d : Text) (w : StringWriter)
    → write_text d (write_text c (write_text b (write_text a w)))
      ≡ write_text (a ++ (b ++ (c ++ d))) w
joined4 a b c d w =
    ap (write_text d) (joined3 a b c w)
    ∙ (joined2 (a ++ (b ++ c)) d w
        ∙ ap (λ t. write_text t w)
            (append_assoc a (b ++ c) d ∙ ap (λ t. a ++ t) (append_assoc b c d)))

pub write_text-nil : (w : StringWriter) → write_text [] w ≡ w
unfolding write_text
write_text-nil w =
    ap (λ (t : Text). record { buf = t; indentation = w.indentation }) (append_nil w.buf)

-- A computation that appends a text and returns.
abbrev pub Prints : Checked StringWriter → Text → StringWriter → Type 0
Prints r t w = r ≡ returns (write_text t w)

-- Two steps that return, one after the other.
pub chained :
    {r : Checked StringWriter} (f : Write) {w w' : StringWriter}
    → r ≡ returns w
    → f w ≡ returns w'
    → (r >>= f) ≡ returns w'
chained f p q = rw p q

module _ (fl : VariableFlags) (variables : List (Variable fl)) where
  name-Prints :
      (vs : List (Variable fl)) (i id : VarId) (w : StringWriter)
      → i < length vs
      → Prints
          (write_var fl variables (get_elem? vs i) id w)
          (name_text fl variables (get_elem? vs i) id)
          w
  name-Prints [] i id w h = absurd (omega arith)
  name-Prints (v ∷ vs) zero id w h = refl
  name-Prints (v ∷ vs) (suc i) id w h = name-Prints vs i id w (omega arith)

  pub write_var_id-Prints :
      (id : VarId) (w : StringWriter)
      → id < length variables
      → Prints (write_var_id fl variables id w) (variable_text fl variables id) w
  unfolding write_var_id
  write_var_id-Prints id w h = name-Prints variables id id w h

  mutual
    unfolding write_expr expr_text IsKnown

    pub write_expr-Prints :
        (e : Expr) (w : StringWriter)
        → IsKnown fl variables e
        → Prints (write_expr fl variables e w) (expr_text fl variables e) w
    write_expr-Prints (Expr.var id) w h = write_var_id-Prints id w h
    write_expr-Prints (Expr.binary op l r) w h = chained _ (write_expr-Prints l w h.0) (
        write_expr-Prints r (write_text (binary_text op) (write_text (expr_text fl variables l) w))
          h.1
        ∙ ap returns
            (joined3 (expr_text fl variables l) (binary_text op) (expr_text fl variables r) w))
    write_expr-Prints (Expr.unary op e) w h =
        write_expr-Prints e (write_text (unary_text op) w) h
        ∙ ap returns (joined2 (unary_text op) (expr_text fl variables e) w)
    write_expr-Prints (Expr.immediate16 v) w h = refl
    write_expr-Prints (Expr.fn_call (FnCallTarget.addr a) args) w h =
        chained _ (write_args-Prints args (write_str "(" (write_text (upper_hex a) w)) h) (
          ap returns
            (joined4 (upper_hex a) (codes "(") (args_text fl variables args) (codes ")") w))
    write_expr-Prints (Expr.addr_of id) w h =
        write_var_id-Prints id (write_str "&" w) h
        ∙ ap returns (joined2 (codes "&") (variable_text fl variables id) w)

    write_args-Prints :
        (es : Exprs) (w : StringWriter)
        → AreKnown fl variables es
        → Prints (write_args fl variables es w) (args_text fl variables es) w
    write_args-Prints Exprs.no_exprs w h = ap returns (sym (write_text-nil w))
    write_args-Prints (Exprs.expr_and e es) w h = chained _ (write_expr-Prints e w h.0) (
        write_more_args-Prints es (write_text (expr_text fl variables e) w) h.1
        ∙ ap returns (joined2 (expr_text fl variables e) (more_args_text fl variables es) w))

    write_more_args-Prints :
        (es : Exprs) (w : StringWriter)
        → AreKnown fl variables es
        → Prints (write_more_args fl variables es w) (more_args_text fl variables es) w
    write_more_args-Prints Exprs.no_exprs w h = ap returns (sym (write_text-nil w))
    write_more_args-Prints (Exprs.expr_and e es) w h =
        chained _ (write_expr-Prints e (write_str ", " w) h.0) (
          write_more_args-Prints es (write_text (expr_text fl variables e) (write_str ", " w)) h.1
          ∙ ap returns
              (joined3 (codes ", ") (expr_text fl variables e) (more_args_text fl variables es) w))

  pub write_value-Prints :
      (value : Option Expr) (w : StringWriter)
      → IsKnownValue fl variables value
      → Prints (write_value fl variables value w) (value_text fl variables value) w
  unfolding write_value
  write_value-Prints none w h = ap returns (sym (write_text-nil w))
  write_value-Prints (some e) w h =
      write_expr-Prints e (write_str " " w) h
      ∙ ap returns (joined2 (codes " ") (expr_text fl variables e) w)
