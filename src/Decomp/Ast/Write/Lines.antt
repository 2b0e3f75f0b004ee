-- ===== src/Decomp/Ast/Write/Lines.antt =====
-- The printer prints the lines: statements on their lines, each scope one step deeper.
use doldisasm.Base.{ℕ, suc, ◌-◌, ◌<◌, ◌^◌, true, ltb}
use doldisasm.Base.{List, [], ◌∷◌, ◌++◌, append_assoc, append_nil}
use doldisasm.Base.{◌≡◌, refl, sym, ap, ◌∙◌, arith}
use doldisasm.Base.Checked.{Checked, returns, add_u32}
use doldisasm.Decomp.Ast.{Stmt, Stmts, VariableFlags, Variable}
use doldisasm.Decomp.Ast.Write.{
  Text, codes, StringWriter, write_text, write_str, Write, outdent, with_scope, indents, next_line,
  write_stmt, write_stmts, write_else,
}
use doldisasm.Decomp.Ast.Write.Text.{
  Line, new_lines, expr_text, value_text, first_line, other_lines, block_lines, else_lines,
  IsPrintable, ArePrintable,
}
use doldisasm.Decomp.Ast.Write.Prints.{
  joined2, joined3, joined4, chained, write_text-nil, Prints, write_expr-Prints, write_value-Prints,
}

new_lines-append : (a b : List Line) → new_lines (a ++ b) ≡ new_lines a ++ new_lines b
unfolding new_lines
new_lines-append [] b = refl
new_lines-append ((d, t) ∷ a) b =
    ap (λ l. codes "\n" ++ l)
      (ap (λ l. indents d ++ l)
          (ap (λ l. t ++ l) (new_lines-append a b)
            ∙ sym (append_assoc t (new_lines a) (new_lines b)))
        ∙ sym (append_assoc (indents d) (t ++ new_lines a) (new_lines b)))

pub indentation-write_text :
    (t : Text) (w : StringWriter) → (write_text t w).indentation ≡ w.indentation
unfolding write_text
indentation-write_text t w = refl

indentation-next_line : (w : StringWriter) → (next_line w).indentation ≡ w.indentation
unfolding next_line write_text
indentation-next_line w = refl

indentation3 :
    (a b c : Text) (w : StringWriter)
    → (write_text c (write_text b (write_text a w))).indentation ≡ w.indentation
unfolding write_text
indentation3 a b c w = refl

write_text-next_line :
    (d : ℕ) (t : Text) (w : StringWriter)
    → w.indentation ≡ d
    → write_text t (next_line w) ≡ write_text (codes "\n" ++ (indents d ++ t)) w
unfolding next_line
write_text-next_line d t w h =
    joined3 (codes "\n") (indents w.indentation) t w
    ∙ ap (λ k. write_text (codes "\n" ++ (indents k ++ t)) w) h

outdent-suc :
    (d : ℕ) (t : Text) (w : StringWriter)
    → w.indentation ≡ d
    → outdent (write_text t (record { buf = w.buf; indentation = suc d }))
      ≡ returns (write_text t w)
unfolding outdent write_text
outdent-suc d t w h =
    let positive : ltb 0 (suc d) ≡ true = ground arith in
    let back : suc d - 1 ≡ w.indentation = omega (arith, h) in rw (positive, back) refl

pub with_scope-Prints :
    (f : Write) (t : Text) (d : ℕ) (w : StringWriter)
    → w.indentation ≡ d
    → suc d < 2 ^ 32
    → ((u : StringWriter) → u.indentation ≡ suc d → Prints (f u) t u)
    → Prints (with_scope f w) t w
unfolding with_scope
with_scope-Prints f t d w h lt prints =
    let deeper : add_u32 w.indentation 1 ≡ returns (suc d) = ground arith in
    rw (deeper, prints (record { buf = w.buf; indentation = suc d }) refl) (outdent-suc d t w h)

-- A head, the lines of a scope, and what follows them.
pub head_and_lines :
    (head : Text) (a b : List Line) (w w' : StringWriter)
    → w' ≡ write_text head w
    → write_text (new_lines b) (write_text (new_lines a) w')
      ≡ write_text (head ++ new_lines (a ++ b)) w
head_and_lines head a b w w' e =
    joined2 (new_lines a) (new_lines b) w'
    ∙ (ap (write_text (new_lines a ++ new_lines b)) e
        ∙ (joined2 head (new_lines a ++ new_lines b) w
            ∙ ap (λ t. write_text (head ++ t) w) (sym (new_lines-append a b))))

pub closing_line :
    (d : ℕ) (w : StringWriter)
    → w.indentation ≡ d
    → write_str "}" (next_line w) ≡ write_text (new_lines ((d, codes "}") ∷ [])) w
unfolding new_lines
closing_line d w h = write_text-next_line d (codes "}") w h

-- A statement of one line.
one_line :
    {r : Checked StringWriter} (t : Text) (w : StringWriter) → Prints r t w → Prints r (t ++ []) w
one_line t w p = p ∙ ap (λ l. returns (write_text l w)) (sym (append_nil t))

module _ (fl : VariableFlags) (variables : List (Variable fl)) where
  abbrev stmt_text : ℕ → Stmt → Text
  stmt_text d s = first_line fl variables s ++ new_lines (other_lines fl variables d s)

  lines-cons :
      (d : ℕ) (s : Stmt) (ss : Stmts) (w : StringWriter)
      → w.indentation ≡ d
      → write_text
          (new_lines (block_lines fl variables d ss))
          (write_text (stmt_text d s) (next_line w))
        ≡ write_text (new_lines (block_lines fl variables d (Stmts.stmt_and s ss))) w
  unfolding block_lines new_lines
  lines-cons d s ss w h =
      let first : Text = first_line fl variables s in
      let others : List Line = other_lines fl variables d s in
      let rest : List Line = block_lines fl variables d ss in
      joined2 (stmt_text d s) (new_lines rest) (next_line w)
      ∙ (write_text-next_line d (stmt_text d s ++ new_lines rest) w h
          ∙ ap (λ t. write_text (codes "\n" ++ (indents d ++ t)) w)
              (append_assoc first (new_lines others) (new_lines rest)
                ∙ ap (λ t. first ++ t) (sym (new_lines-append others rest))))

  mutual
    unfolding write_stmt first_line IsPrintable new_lines

    pub write_stmt-Prints :
        (d : ℕ) (s : Stmt) (w : StringWriter)
        → w.indentation ≡ d
        → IsPrintable fl variables d s
        → Prints (write_stmt fl variables s w) (stmt_text d s) w
    write_stmt-Prints d (Stmt.assign dest value) w i h =
        let d_text : Text = expr_text fl variables dest in
        let v_text : Text = expr_text fl variables value in
        one_line (d_text ++ (codes " = " ++ (v_text ++ codes ";"))) w (
          chained _ (write_expr-Prints fl variables dest w h.0) (
            chained _
              (write_expr-Prints fl variables value (write_str " = " (write_text d_text w)) h.1)
              (ap returns (joined4 d_text (codes " = ") v_text (codes ";") w))))
    write_stmt-Prints d (Stmt.return_stmt value) w i h =
        let text : Text = value_text fl variables value in
        one_line (codes "return" ++ (text ++ codes ";")) w (
          chained _ (write_value-Prints fl variables value (write_str "return" w) h)
            (ap returns (joined3 (codes "return") text (codes ";") w)))
    write_stmt-Prints d (Stmt.if_stmt c then_stmts else_stmts) w i h =
        let text : Text = expr_text fl variables c in
        let block : List Line = block_lines fl variables (suc d) then_stmts in
        let others : List Line = else_lines fl variables d else_stmts in
        let w1 : StringWriter = write_str ") {" (write_text text (write_str "if (" w)) in
        let i1 : w1.indentation ≡ d = indentation3 (codes "if (") text (codes ") {") w ∙ i in
        chained _ (write_expr-Prints fl variables c (write_str "if (" w) h.0) (
          chained _
            (with_scope-Prints _ (new_lines block) d w1 i1 h.1
              (λ u e. write_stmts-Prints (suc d) then_stmts u e h.2))
            (write_else-Prints d else_stmts (write_text (new_lines block) w1)
                (indentation-write_text (new_lines block) w1 ∙ i1) h.1 h.3
              ∙ ap returns (
                  head_and_lines (codes "if (" ++ (text ++ codes ") {")) block others w w1
                    (joined3 (codes "if (") text (codes ") {") w))))
    write_stmt-Prints d (Stmt.while_stmt c body) w i h =
        let text : Text = expr_text fl variables c in
        let block : List Line = block_lines fl variables (suc d) body in
        let w1 : StringWriter = write_str ") {" (write_text text (write_str "while (" w)) in
        let i1 : w1.indentation ≡ d = indentation3 (codes "while (") text (codes ") {") w ∙ i in
        chained _ (write_expr-Prints fl variables c (write_str "while (" w) h.0) (
          chained _
            (with_scope-Prints _ (new_lines block) d w1 i1 h.1
              (λ u e. write_stmts-Prints (suc d) body u e h.2))
            (ap returns (
              closing_line d (write_text (new_lines block) w1)
                (indentation-write_text (new_lines block) w1 ∙ i1)
              ∙ head_and_lines (codes "while (" ++ (text ++ codes ") {")) block
                  ((d, codes "}") ∷ []) w w1 (joined3 (codes "while (") text (codes ") {") w))))
    write_stmt-Prints d Stmt.continue_stmt w i h = one_line (codes "continue;") w refl
    write_stmt-Prints d Stmt.break_stmt w i h = one_line (codes "break;") w refl

    pub write_stmts-Prints :
        (d : ℕ) (ss : Stmts) (w : StringWriter)
        → w.indentation ≡ d
        → ArePrintable fl variables d ss
        → Prints (write_stmts fl variables ss w) (new_lines (block_lines fl variables d ss)) w
    write_stmts-Prints d Stmts.no_stmts w i h = ap returns (sym (write_text-nil w))
    write_stmts-Prints d (Stmts.stmt_and s ss) w i h =
        chained _ (write_stmt-Prints d s (next_line w) (indentation-next_line w ∙ i) h.0) (
          write_stmts-Prints d ss (write_text (stmt_text d s) (next_line w))
            (indentation-write_text (stmt_text d s) (next_line w) ∙ (indentation-next_line w ∙ i))
            h.1
          ∙ ap returns (lines-cons d s ss w i))

    write_else-Prints :
        (d : ℕ) (ss : Stmts) (w : StringWriter)
        → w.indentation ≡ d
        → suc d < 2 ^ 32
        → ArePrintable fl variables (suc d) ss
        → Prints
            (write_else fl variables ss (write_str "}" (next_line w)))
            (new_lines (else_lines fl variables d ss))
            w
    write_else-Prints d Stmts.no_stmts w i lt h = ap returns (closing_line d w i)
    write_else-Prints d (Stmts.stmt_and s ss) w i lt h =
        let block : List Line = block_lines fl variables (suc d) (Stmts.stmt_and s ss) in
        let w1 : StringWriter = write_str " else {" (write_str "}" (next_line w)) in
        let i1 : w1.indentation ≡ d =
          indentation-write_text (codes " else {") (write_str "}" (next_line w))
          ∙ (indentation-write_text (codes "}") (next_line w) ∙ (indentation-next_line w ∙ i)) in
        chained _
          (with_scope-Prints _ (new_lines block) d w1 i1 lt (λ u e.
            chained _ (write_stmt-Prints (suc d) s (next_line u) (indentation-next_line u ∙ e) h.0)
              (write_stmts-Prints (suc d) ss (write_text (stmt_text (suc d) s) (next_line u))
                  (indentation-write_text (stmt_text (suc d) s) (next_line u)
                    ∙ (indentation-next_line u ∙ e))
                  h.1
                ∙ ap returns (lines-cons (suc d) s ss u e))))
          (ap returns (
            closing_line d (write_text (new_lines block) w1)
              (indentation-write_text (new_lines block) w1 ∙ i1)
            ∙ (head_and_lines (new_lines ((d, codes "} else {") ∷ [])) block ((d, codes "}") ∷ []) w
                  w1
                  (joined2 (codes "}") (codes " else {") (next_line w)
                    ∙ write_text-next_line d (codes "} else {") w i)
                ∙ ap (λ t. write_text t w)
                    (sym (
                      new_lines-append ((d, codes "} else {") ∷ [])
                        (block ++ (d, codes "}") ∷ []))))))
