-- ===== src/Decomp/Ast/Write/Items.antt =====
-- The printer prints whole functions and trees.
use doldisasm.Decomp.Ast.{Ast}
use doldisasm.Decomp.Ast.Write.{Text}
use doldisasm.Decomp.Ast.Write.Text.{function_head, function_head}
use doldisasm.Decomp.Ast.Write.Prints.{Prints}
