-- ===== src/Dol/Header.antt =====
-- dol/src/lib.rs: what `Dol::new` accepts, and that every read of the header succeeds on it.
use native.Mathlib.Nat.{zero-add, add-zero}
use doldisasm.Base.{
  ℕ, zero, suc, ◌+◌, ◌*◌, ◌^◌, ◌≤◌, ◌≡◌, ◌↔◌, refl, ◌∙◌, arith, leb, true, List, [], ◌∷◌, length,
  drop, length-drop,
}
use doldisasm.Base.Checked.{returns}
use doldisasm.Dol.{
  Dol, SectionInfo, ok, new, from_be_bytes, first_word, u32, section, entrypoint, bss_address,
  bss_size,
}

-- `Dol::new` accepts exactly the files of 255 bytes to 4 GiB, both included, and keeps the bytes.
pub new_iff :
    (bytes : List ℕ) (d : Dol)
    → (new bytes ≡ ok d) ↔ ((255 ≤ length bytes) × (length bytes ≤ 2 ^ 32) × (d ≡ bytes))
unfolding new
new_iff bytes d = (λ e. ground arith, λ h. ground arith)

-- The byte at a position, and 0 past the end.
unfoldable pub byte : Dol → ℕ → ℕ
byte [] i = 0
byte (b ∷ bs) zero = b
byte (b ∷ bs) (suc i) = byte bs i

-- The big-endian word at a position.
unfoldable pub word_at : Dol → ℕ → ℕ
unfolding byte
word_at d off = from_be_bytes (byte d off) (byte d (off + 1)) (byte d (off + 2)) (byte d (off + 3))

byte-drop : (off k : ℕ) (d : Dol) → byte (drop off d) k ≡ byte d (off + k)
unfolding byte
byte-drop zero k d = rw zero-add
byte-drop (suc off) k [] = refl
byte-drop (suc off) k (b ∷ d) =
    let e : suc off + k ≡ suc (off + k) = omega arith in rw e (byte-drop off k d)

first_word-bytes :
    (d : Dol)
    → 4 ≤ length d
    → first_word d ≡ returns (from_be_bytes (byte d 0) (byte d 1) (byte d 2) (byte d 3))
unfolding byte
first_word-bytes [] h = absurd (omega arith)
first_word-bytes (a ∷ []) h = absurd (omega arith)
first_word-bytes (a ∷ b ∷ []) h = absurd (omega arith)
first_word-bytes (a ∷ b ∷ c ∷ []) h = absurd (omega arith)
first_word-bytes (a ∷ b ∷ c ∷ e ∷ d) h = refl

pub u32-word_at : (d : Dol) (off : ℕ) → off + 4 ≤ length d → u32 d off ≡ returns (word_at d off)
unfolding u32 word_at
u32-word_at d off h =
    first_word-bytes (drop off d) (omega (arith, length-drop off d))
    ∙ rw (byte-drop off 0 d, byte-drop off 1 d, byte-drop off 2 d, byte-drop off 3 d, add-zero)

-- The header's entry for a section.
unfoldable pub header_entry : Dol → ℕ → SectionInfo
header_entry d n = record {
  file_offset = word_at d (n * 4);
  load_offset = word_at d (0x48 + n * 4);
  size = word_at d (0x90 + n * 4);
}

≤→leb : {a b : ℕ} → a ≤ b → leb a b ≡ true
≤→leb h = ground arith

-- On a file of at least 228 bytes, thus on every accepted one, each of the 18 sections and each
-- header field is read without a panic, and is the big-endian word at its place in the header.
pub header_reads :
    (d : Dol)
    → 228 ≤ length d
    → ((n : ℕ) → n ≤ 17 → section d n ≡ returns (header_entry d n))
      × (bss_address d ≡ returns (word_at d 0xD8))
      × (bss_size d ≡ returns (word_at d 0xDC))
      × (entrypoint d ≡ returns (word_at d 0xE0))
unfolding section bss_address bss_size entrypoint header_entry u32
header_reads d h = (
  λ n k. rw (
    ≤→leb k,
    zero-add,
    u32-word_at d (n * 4) (omega arith),
    u32-word_at d (0x48 + n * 4) (omega arith),
    u32-word_at d (0x90 + n * 4) (omega arith),
  ),
  u32-word_at d 0xD8 (omega arith),
  u32-word_at d 0xDC (omega arith),
  u32-word_at d 0xE0 (omega arith),
)
