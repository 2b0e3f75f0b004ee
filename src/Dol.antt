-- ===== src/Dol.antt =====
-- dol/src/lib.rs: the DOL container. A file is its bytes; a panic of an index, an assertion or a
-- checked addition on `u32` is `panics`, as in a build with overflow checks.
pub mod Header
pub mod Lookup
use package.doldisasm.Base.{ℕ, zero, suc, ◌+◌, ◌-◌, ◌*◌, ◌^◌, Bool, true, false, ltb, leb, ◌==◌}
use package.doldisasm.Base.{if◌then◌else◌, Option, none, some, List, [], ◌∷◌, length, drop}
use package.doldisasm.Base.Checked.{Checked, returns, panics, ◌>>=◌, ◌>>◌, assert, add_u32}

pub record SectionInfo : Type 0 where
  pub file_offset : ℕ
  pub load_offset : ℕ
  pub size : ℕ

-- The sum is computed only if the first test passes.
unfoldable pub contains_addr : SectionInfo → ℕ → Checked Bool
contains_addr s addr =
    if leb s.load_offset addr
    then (add_u32 s.load_offset s.size >>= λ end. returns (ltb addr end))
    else returns false

unfoldable pub file_offset_of_addr : SectionInfo → ℕ → Checked ℕ
unfolding contains_addr
file_offset_of_addr s addr = do
  inside ← contains_addr s addr
  assert inside
  add_u32 s.file_offset (addr - s.load_offset)

unfoldable pub empty : SectionInfo → Bool
empty s = s.size == 0

-- `struct Dol(Vec<u8>)`
abbrev pub Dol : Type 0
Dol = List ℕ

abbrev pub bss_addr_off : ℕ
bss_addr_off = 0xD8

abbrev pub bss_size_off : ℕ
bss_size_off = 0xDC

abbrev pub section_offset_off : ℕ
section_offset_off = 0

abbrev pub section_address_off : ℕ
section_address_off = 0x48

abbrev pub section_size_off : ℕ
section_size_off = 0x90

abbrev pub entrypoint_off : ℕ
entrypoint_off = 0xE0

-- The two messages of `Dol::new`.
pub data DolError : Type 0 where
  too_small too_large : DolError

pub data DolResult : Type 0 where
  ok : Dol → DolResult
  err : DolError → DolResult

unfoldable pub new : List ℕ → DolResult
new bytes =
    if ltb (length bytes) 0xFF
    then err too_small
    else if ltb (2 ^ 32) (length bytes)
    then err too_large
    else ok bytes

-- `u32::from_be_bytes`
abbrev pub from_be_bytes : ℕ → ℕ → ℕ → ℕ → ℕ
from_be_bytes b0 b1 b2 b3 = b0 * 2 ^ 24 + b1 * 2 ^ 16 + b2 * 2 ^ 8 + b3

-- The first four bytes of what is left from the offset on.
abbrev pub first_word : List ℕ → Checked ℕ
first_word (b0 ∷ b1 ∷ b2 ∷ b3 ∷ rest) = returns (from_be_bytes b0 b1 b2 b3)
first_word _ = panics

unfoldable pub u32 : Dol → ℕ → Checked ℕ
u32 d off = first_word (drop off d)

unfoldable pub section : Dol → ℕ → Checked SectionInfo
unfolding u32
section d n = do
  assert (leb n 17)
  f ← u32 d (section_offset_off + n * 4)
  l ← u32 d (section_address_off + n * 4)
  s ← u32 d (section_size_off + n * 4)
  returns (record { file_offset = f; load_offset = l; size = s })

-- `(i..i + n).map(|i| self.section(i)).find(|s| s.contains_addr(addr))`
unfoldable pub find_from : Dol → ℕ → ℕ → ℕ → Checked (Option SectionInfo)
unfolding section contains_addr
find_from d addr zero i = returns none
find_from d addr (suc n) i =
    let rest = find_from d addr n (i + 1) in
    do s ← section d i; inside ← contains_addr s addr; if inside then returns (some s) else rest

unfoldable pub section_of_load_addr : Dol → ℕ → Checked (Option SectionInfo)
unfolding find_from
section_of_load_addr d addr = find_from d addr 18 0

unfoldable pub entrypoint : Dol → Checked ℕ
unfolding u32
entrypoint d = u32 d entrypoint_off

unfoldable pub bss_address : Dol → Checked ℕ
unfolding u32
bss_address d = u32 d bss_addr_off

unfoldable pub bss_size : Dol → Checked ℕ
unfolding u32
bss_size d = u32 d bss_size_off

-- `&self.0[off..]`
abbrev pub slice_from : Dol → ℕ → Checked (List ℕ)
slice_from d off = if leb off (length d) then returns (drop off d) else panics

unfoldable pub slice_from_load_addr : Dol → ℕ → Checked (Option (List ℕ))
unfolding file_offset_of_addr
slice_from_load_addr d addr = do
  found ← section_of_load_addr d addr
  elim found [
    | none ↦ returns none
    | some s ↦ do off ← file_offset_of_addr s addr; bytes ← slice_from d off; returns (some bytes)
  ]
