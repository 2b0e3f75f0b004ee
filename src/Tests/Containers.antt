-- ===== src/Tests/Containers.antt =====
-- A DOL file of 260 bytes: its header, and four bytes that section 0 loads at 0x80004000.
use doldisasm.Base.{
  ℕ, zero, suc, ◌+◌, ◌-◌, ◌^◌, ◌≤◌, ◌≡◌, ◌↔◌, refl, some, List, [], ◌∷◌, ◌++◌, length, drop, arith,
}
use doldisasm.Base.Checked.{returns}
use doldisasm.Dol.{
  Dol, SectionInfo, ok, new, section, section_of_load_addr, slice_from_load_addr, bss_address,
  bss_size, entrypoint,
}
use doldisasm.Dol.Header.{header_entry, word_at, new_iff, header_reads}
use doldisasm.Dol.Lookup.{Describes, section_of_load_addr-Describes, slice_from_load_addr_lem}

abbrev zeros : ℕ → List ℕ
zeros zero = []
zeros (suc n) = 0 ∷ zeros n

abbrev sample : Dol
sample =
    (0 ∷ 0 ∷ 1 ∷ 0 ∷ [])
    ++ (zeros 68
        ++ ((0x80 ∷ 0 ∷ 0x40 ∷ 0 ∷ [])
            ++ (zeros 68
                ++ ((0 ∷ 0 ∷ 0 ∷ 4 ∷ []) ++ (zeros 108 ++ (0x4e ∷ 0x80 ∷ 0 ∷ 0x20 ∷ []))))))

abbrev text : SectionInfo
text = record { file_offset = 0x100; load_offset = 0x80004000; size = 4 }

sample-length : length sample ≡ 260
sample-length = refl

text_found : section_of_load_addr sample 0x80004000 ≡ returns (some text)
unfolding section_of_load_addr
text_found = refl

new_iff_example :
    (new sample ≡ ok sample)
    ↔ ((255 ≤ length sample) × (length sample ≤ 2 ^ 32) × (sample ≡ sample))
new_iff_example = new_iff sample sample

header_reads_example :
    ((n : ℕ) → n ≤ 17 → section sample n ≡ returns (header_entry sample n))
    × (bss_address sample ≡ returns (word_at sample 0xD8))
    × (bss_size sample ≡ returns (word_at sample 0xDC))
    × (entrypoint sample ≡ returns (word_at sample 0xE0))
header_reads_example = header_reads sample (omega arith)

section_of_load_addr-Describes_example :
    Describes sample 0x80004002 (section_of_load_addr sample 0x80004002)
section_of_load_addr-Describes_example =
    section_of_load_addr-Describes sample 0x80004002 (omega arith)

slice_from_load_addr_lem_example :
    slice_from_load_addr sample 0x80004000
    ≡ returns (some (drop (0x100 + (0x80004000 - 0x80004000)) sample))
slice_from_load_addr_lem_example =
    slice_from_load_addr_lem sample 0x80004000 text (omega arith) (omega arith) text_found
      (omega arith)
