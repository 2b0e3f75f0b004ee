-- ===== src/Tests/Words.antt =====
-- Instruction words: `addi r1, r1, 32` and branches.
use doldisasm.Base.{◌-◌, ◌/◌, ◌%◌, ◌^◌, ◌<◌, ◌≡◌, ◌↔◌, ◌⊎◌, refl, arith, ◌≤◌, ◌*◌}
use doldisasm.Base.Signed.{negsuc, signed}
use doldisasm.Ppc.Word
use doldisasm.Ppc.Word.Slice.{u32-slice}
use doldisasm.Ppc.Word.Sign.{sign_extended, i32-signed, i32_agrees_iff}

-- The displacement field of `b .+32`.
field_run : Word.u32 6 29 0x48000020 ≡ 8
unfolding Word.u32
field_run = refl

-- A branch 16 bytes back.
back_run : Word.i32 6 29 0x4bfffff0 ≡ negsuc 3
unfolding Word.i32 Word.u32
back_run = refl

-- A branch 2 ^ 24 bytes ahead: the top bit of the displacement is lost.
far_run : Word.i32 6 29 0x49000000 ≡ negsuc (2 ^ 22 - 1)
unfolding Word.i32 Word.u32
far_run = refl

u32-slice_example : Word.u32 6 29 0x48000020 ≡ 0x48000020 / 2 ^ 2 % 2 ^ 24
u32-slice_example = u32-slice 6 29 0x48000020 (omega arith) (omega arith)

i32-signed_example : Word.i32 6 29 0x4bfffff0 ≡ signed 23 (Word.u32 6 29 0x4bfffff0 % 2 ^ 23)
i32-signed_example = i32-signed 6 29 0x4bfffff0 (omega arith) (omega arith)

i32_agrees_iff_example :
    (Word.i32 6 29 0x49000000 ≡ sign_extended 6 29 0x49000000)
    ↔ ((Word.u32 6 29 0x49000000 < 2 ^ 22) ⊎ (3 * 2 ^ 22 ≤ Word.u32 6 29 0x49000000))
i32_agrees_iff_example = i32_agrees_iff 6 29 0x49000000 (omega arith) (omega arith)
