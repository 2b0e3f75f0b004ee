-- ===== src/Ppc.antt =====
-- The ppc32 crate: big-endian bit fields of an instruction word, the instruction set, and the
-- decoder that walks over a byte buffer.
pub mod Word
pub mod Instruction
pub mod Decoder
