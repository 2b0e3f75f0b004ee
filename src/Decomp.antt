-- ===== src/Decomp.antt =====
-- The decomp crate: the control-flow graph of a function, the data-flow state of its registers,
-- and the syntax tree and its printer.
pub mod Cfg
pub mod Reach
pub mod Loops
pub mod Engine
pub mod Registers
pub mod Generations
pub mod Ssa
pub mod Paths
pub mod Boundaries
pub mod Variables
pub mod Ast
pub mod Build
