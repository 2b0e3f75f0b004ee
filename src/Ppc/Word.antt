-- ===== src/Ppc/Word.antt =====
-- ppc32/src/word.rs: the accessors of an instruction word. A `Word` is its `u32`, a number below
-- 2 ^ 32; the const parameters FROM and TO are arguments, bit 0 being the most significant one.
-- The compile-time assertion `TO >= FROM && TO - FROM < 32` is a hypothesis of the lemmas.
pub mod Slice
pub mod Sign
use package.doldisasm.Base.{ℕ, ◌+◌, ◌-◌, ◌*◌, ◌/◌, ◌%◌, ◌^◌, bit_and, Bool, not, ◌==◌}
use package.doldisasm.Base.Signed.{ℤ, pos, negsuc, signed}

abbrev pub Word : Type 0
Word = ℕ

unfoldable pub opcode : Word → ℕ
opcode w = w / 2 ^ 26

-- `(!0u32) >> (FROM + (31 - TO)) << (31 - TO)`
abbrev pub field_mask : ℕ → ℕ → ℕ
field_mask from to = (2 ^ 32 - 1) / 2 ^ (from + (31 - to)) * 2 ^ (31 - to) % 2 ^ 32

-- `self.u32::<FROM, TO>()`
unfoldable pub u32 : ℕ → ℕ → Word → ℕ
u32 from to w = bit_and w (field_mask from to) / 2 ^ (31 - to)

unfoldable pub xform_opcode : Word → ℕ
xform_opcode w = u32 21 30 w

-- `x >> k` on an `i32`, which keeps the sign.
abbrev pub shift_right : ℤ → ℕ → ℤ
shift_right (pos n) k = pos (n / 2 ^ k)
shift_right (negsuc n) k = negsuc (n / 2 ^ k)

-- `self.i32::<FROM, TO>()`: shift up as a `u32`, down as an `i32`.
unfoldable pub i32 : ℕ → ℕ → Word → ℤ
i32 from to w =
    shift_right (signed 32 (u32 from to w * 2 ^ (32 - (to - from)) % 2 ^ 32)) (32 - (to - from))

unfoldable pub u16 : ℕ → ℕ → Word → ℕ
u16 from to w = u32 from to w % 2 ^ 16

unfoldable pub i16 : ℕ → ℕ → Word → ℤ
i16 from to w = signed 16 (u16 from to w)

unfoldable pub u8 : ℕ → ℕ → Word → ℕ
u8 from to w = u32 from to w % 2 ^ 8

unfoldable pub i8 : ℕ → ℕ → Word → ℤ
i8 from to w = signed 8 (u8 from to w)

-- `self.0 & (1 << (31 - BIT))`
unfoldable pub bit : ℕ → Word → ℕ
bit b w = bit_and w (1 * 2 ^ (31 - b))

-- `word.bit::<B>() != 0`, as the instruction definitions use it.
abbrev pub bit_set : ℕ → Word → Bool
bit_set b w = not (bit b w == 0)
