-- ===== src/Lib.antt =====
-- A model of doldisasm, a disassembler and decompiler for DOL executables of PowerPC 32 programs.
--
-- Parts, with the paths from the repository's root:
-- - Base: lists and maps under native numbers, bit masks, two's complement, and computations that
--   may panic. Base/BtreeMap is the standard library's ordered map, as a sorted list.
-- - Ppc/Word: the bit fields of an instruction word (ppc32/src/word.rs).
-- - Ppc/Instruction: the instruction set (ppc32/src/instruction.rs). The enum is in Instruction, its
--   operand readers in Fields, the parse function of each instruction in Parse, the match of
--   Decoder::decode_from_word in Decode, visit_registers, for_each_read_gpr and branch_target in
--   Visit. Encode is no code of the repository: it says independently which word an instruction is.
-- - Ppc/Decoder: the byte decoder (ppc32/src/decoder.rs), and the loop of cli/src/disasm.rs that
--   collects its iterator.
-- - Dol: the DOL container (dol/src/lib.rs). Header has the validation and the header's fields,
--   Lookup the search for a section by load address.
-- - Decomp/Cfg: the control-flow graph of a function (compute_preds_and_succs in
--   decomp/src/dataflow/ssa.rs, with the types of core.rs and mod.rs beside it).
-- - Decomp/Reach: the walk over the blocks that can be reached (for_each_transitive_successor in
--   decomp/src/dataflow/core.rs).
-- - Decomp/Loops: which blocks start a loop, and where its ways out meet
--   (decomp/src/dataflow/loops.rs).
-- - Decomp/Registers: one value per register (decomp/src/dataflow/register_state.rs, with the
--   joins of arrays in core.rs).
-- - Decomp/Generations: how an instruction renews the registers that it writes (Generation,
--   LocalRegisterState and apply_effect in decomp/src/dataflow/ssa.rs).
-- - Decomp/Engine: the trait Dataflow, the worklist loop and the iteration over its results
--   (decomp/src/dataflow/core.rs).
-- - Decomp/Ssa: LocalGenerationAnalysis and the definition-use map (decomp/src/dataflow/ssa.rs).
-- - Decomp/Boundaries: where a function ends (branch_is_fn_call and, in Visit, detect_fn_boundaries
--   in decomp/src/lib.rs).
-- - Decomp/Paths: the visit of a function's paths (decomp/src/visit.rs), over any visitor.
-- - Decomp/Variables: the table of variables and, in Collect and Visit, the visitor that
--   fills it (decomp/src/dataflow/variables.rs).
-- - Decomp/Ast: the syntax tree (decomp/src/ast/expr.rs, stmt.rs, item.rs, ty.rs) and, in Write, its
--   printer (decomp/src/ast/write.rs).
-- - Decomp/Build: the assignments for condition bits, for XER and between blocks
--   (decomp/src/ast/build.rs).
-- - Tests: runs at small inputs.
--
-- How they meet: the container hands out the bytes of a section, the search for a function's end
-- cuts the function out of them, and the decoder cuts it into words and decodes each. The graph is
-- made of the decoded list; the worklist loop runs the analysis of generations over the graph,
-- whose effect of an instruction is what visit_registers tells its visitor; the definition-use map
-- is made of the analysis' results, and the variables of both.
--
-- Numbers are native natural numbers; an operation on a machine integer writes out its bound. A
-- build with overflow checks is modelled: an overflow is a panic, and a panic, like a failed
-- assertion, an index out of bounds or a todo, is the value `panics` (or `panic` beside the
-- decoder's errors).
--
-- Recursion is structural, but for the loop that collects the iterator, which runs on fuel: one
-- unit more than there are words left is enough, since each call of the iterator takes four bytes
-- or ends the loop. The walks over the control-flow graph run on fuel too, of which one unit more
-- than there are instructions is enough, since each call enters a new block or ends. The worklist
-- loop of the analysis queues a block once, and its fuel is two units more than the bound of the
-- blocks. The search for a function's end enters a block at an offset once and reads each of its
-- words once, which the square of the buffer's length covers. The visit of paths runs on fuel
-- without a bound: what is stated of it holds of every visit that returns. The digits of a printed
-- number are on fuel that bounds their count.
--
-- Not modelled: Debug and Display, tracing, the command line's I/O and arguments, and of the
-- decompiler: the rest of the builder of the syntax tree (build_path and build), and
-- decompile_into_ast_writer, which calls the parts in turn. What the bitflags crate generates is a
-- parameter.
pub mod Base
pub mod Ppc
pub mod Dol
pub mod Decomp
pub mod Tests
