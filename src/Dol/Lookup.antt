-- ===== src/Dol/Lookup.antt =====
-- dol/src/lib.rs: which section a load address is found in, and the bytes that are handed out.
use mathlib.Core.Path.{subst}
use doldisasm.Base.{
  ℕ, zero, suc, ◌+◌, ◌-◌, ◌^◌, ◌≤◌, ◌<◌, ◌≡◌, ◌⊎◌, inl, inr, refl, arith, ltb, true, false,
}
use doldisasm.Base.{Bool-cases, ltb_iff, ltb-false_iff}
use doldisasm.Base.{Option, none, some, length, drop}
use doldisasm.Base.Checked.{Checked, returns, panics}
use doldisasm.Dol.{
  Dol, SectionInfo, contains_addr, file_offset_of_addr, find_from, section_of_load_addr,
  slice_from_load_addr,
}
use doldisasm.Dol.Header.{header_entry, header_reads}

-- The address lies in the section's range, whose end is taken over the natural numbers.
abbrev pub Contains : SectionInfo → ℕ → Type 0
Contains s addr = (s.load_offset ≤ addr) × (addr < s.load_offset + s.size)

-- The range's end is no `u32`, and the test gets as far as computing it.
abbrev pub Overflows : SectionInfo → ℕ → Type 0
Overflows s addr = (s.load_offset ≤ addr) × (2 ^ 32 ≤ s.load_offset + s.size)

contains_addr_cases :
    (s : SectionInfo) (addr : ℕ)
    → (contains_addr s addr ≡ returns true) × Contains s addr × (s.load_offset + s.size < 2 ^ 32)
      ⊎ (contains_addr s addr ≡ returns false) × ¬ Contains s addr
      ⊎ (contains_addr s addr ≡ panics) × Overflows s addr
unfolding contains_addr
contains_addr_cases s addr = ground arith

module _ (d : Dol) (addr : ℕ) where
  -- No section of a lower number contains the address.
  abbrev pub NoneBefore : ℕ → Type 0
  NoneBefore n = (m : ℕ) → m < n → ¬ Contains (header_entry d m) addr

  -- What a lookup says of the header.
  abbrev pub Describes : Checked (Option SectionInfo) → Type 0
  Describes (returns none) = NoneBefore 18
  Describes (returns (some s)) =
      (n : ℕ) × (n ≤ 17)
      × (s ≡ header_entry d n)
      × Contains s addr
      × (s.load_offset + s.size < 2 ^ 32)
      × NoneBefore n
  Describes panics = (n : ℕ) × (n ≤ 17) × Overflows (header_entry d n) addr × NoneBefore n

  extend : (i : ℕ) → NoneBefore i → ¬ Contains (header_entry d i) addr → NoneBefore (i + 1)
  extend i before not_here m h c = elim (Bool-cases (ltb m i)) [
    | inl lower ↦ before m ((ltb_iff m i).0 lower) c
    | inr last ↦
        let e : m ≡ i = omega (arith, (ltb-false_iff m i).0 last) in
        not_here (subst (λ t. Contains (header_entry d t) addr) e c)
  ]

  find_from-Describes :
      228 ≤ length d → (n i : ℕ) → i + n ≡ 18 → NoneBefore i → Describes (find_from d addr n i)
  unfolding find_from
  find_from-Describes size zero i e before = λ m h. before m (omega arith)
  find_from-Describes size (suc n) i e before =
      let entry = (header_reads d size).0 i (omega arith) in
      elim (contains_addr_cases (header_entry d i) addr) [
        | inl (hit, inside, fits) ↦ rw (entry, hit) (i, omega arith, refl, inside, fits, before)
        | inr (inl (miss, outside)) ↦
            rw (entry, miss)
              (find_from-Describes size n (i + 1) (omega arith) (extend i before outside))
        | inr (inr (over, overflow)) ↦ rw (entry, over) (i, omega arith, overflow, before)
      ]

-- On a file that holds its header, looking up a load address returns the lowest-numbered section
-- that contains it, or nothing exactly if none of the 18 does; it panics only at a section that
-- starts at or below the address, ends past the 32-bit range, and comes before any hit.
pub section_of_load_addr-Describes :
    (d : Dol) (addr : ℕ) → 228 ≤ length d → Describes d addr (section_of_load_addr d addr)
unfolding section_of_load_addr
section_of_load_addr-Describes d addr size =
    find_from-Describes d addr size 18 0 refl (λ m h. elim h [ ])

-- For a section that lies within a file of at most 4 GiB, the bytes handed out for one of its
-- addresses are those from the file position that the address is loaded from; no check fails.
pub slice_from_load_addr_lem :
    (d : Dol) (addr : ℕ) (s : SectionInfo)
    → 228 ≤ length d
    → length d ≤ 2 ^ 32
    → section_of_load_addr d addr ≡ returns (some s)
    → s.file_offset + s.size ≤ length d
    → slice_from_load_addr d addr ≡ returns (some (drop (s.file_offset + (addr - s.load_offset)) d))
unfolding slice_from_load_addr file_offset_of_addr contains_addr
slice_from_load_addr_lem d addr s size limit found whole =
    let (n, k, e, inside, fits, before) =
      subst (Describes d addr) found (section_of_load_addr-Describes d addr size) in
    rw found (ground arith)

-- An address in no section yields nothing.
pub slice_from_load_addr-none :
    (d : Dol) (addr : ℕ)
    → section_of_load_addr d addr ≡ returns none
    → slice_from_load_addr d addr ≡ returns none
unfolding slice_from_load_addr
slice_from_load_addr-none d addr e = rw e
