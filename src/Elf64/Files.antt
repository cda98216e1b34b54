-- ===== src/Elf64/Files.antt =====
-- What ParseElfFile returns: the headers and sections of the file, at the places that the executable
-- header names.
use android_system_memory_li.Common.{ℕ, ◌+◌, ◌≡◌, true, List, [], ◌∷◌, ◌++◌, length}
use android_system_memory_li.Elf64.{Elf64Binary, Stream, is_elf64, string_table}
use android_system_memory_li.Elf64.Headers.{Layout}
use android_system_memory_li.Elf64.Sections.{AreSections, HaveNames, slice}
use android_system_memory_li.Text.{Bytes}

-- A table of structs of `size` bytes each, from an offset of the file on.
abbrev pub AreStructs {ℓ} : {A : Type ℓ} → ℕ → (Bytes → A) → Bytes → ℕ → List A → Type ℓ
AreStructs size decode content offset [] = Unit
AreStructs size decode content offset (x ∷ xs) =
    (x ≡ decode (slice content offset size)) × AreStructs size decode content (offset + size) xs

abbrev Table {ℓ} : {A : Type ℓ} → ℕ → (Bytes → A) → ℕ → Bytes → ℕ → List A × Stream → Type ℓ
Table size decode n content offset p =
    (length p.0 ≡ n) × AreStructs size decode content offset p.0 × ((p.1).content ≡ content)

-- What ParseProgramHeaders and ParseSectionHeaders leave in a vector: its old elements, and behind
-- them a table of the file with `n` structs.
abbrev pub Appended {ℓ} : {A : Type ℓ} → ℕ → (Bytes → A) → ℕ → Bytes → ℕ → List A → List A → Type ℓ
Appended {A = A} size decode n content offset old new =
    (xs : List A) × (new ≡ old ++ xs) × (length xs ≡ n) × AreStructs size decode content offset xs

module _ (layout : Layout) where
  abbrev GetsPhdrs : Bytes → Elf64Binary → Elf64Binary × Stream → Type 0
  GetsPhdrs content b r =
      (r.0 ≡ record b { phdrs = (r.0).phdrs })
      × Appended layout.phdr_size layout.decode_phdr (b.ehdr).e_phnum content (b.ehdr).e_phoff
          b.phdrs (r.0).phdrs
      × ((r.1).content ≡ content)

  abbrev GetsShdrs : Bytes → Elf64Binary → Elf64Binary × Stream → Type 0
  GetsShdrs content b r =
      (r.0 ≡ record b { shdrs = (r.0).shdrs })
      × Appended layout.shdr_size layout.decode_shdr (b.ehdr).e_shnum content (b.ehdr).e_shoff
          b.shdrs (r.0).shdrs
      × ((r.1).content ≡ content)

  abbrev GetsEhdr : Bytes → Elf64Binary → Elf64Binary × Stream → Type 0
  GetsEhdr content b r =
      (r.0 ≡ record b { ehdr = layout.decode_ehdr (slice content 0 layout.ehdr_size) })
      × ((r.1).content ≡ content)

  -- What the parse of a file makes of an object `b0`: its executable header is the start of the file,
  -- of class ELFCLASS64; the tables of program and section headers that stand at its offsets, with its
  -- numbers of entries, are behind those that the object had; it had no sections, and has one for each
  -- section header it now has, old or new; their names are strings of the string table.
  abbrev pub IsElf64 : Bytes → Bytes → Elf64Binary → Elf64Binary → Type 0
  IsElf64 file_name content b0 b =
      (b.ehdr ≡ layout.decode_ehdr (slice content 0 layout.ehdr_size))
      × (is_elf64 b.ehdr ≡ true)
      × Appended layout.phdr_size layout.decode_phdr (b.ehdr).e_phnum content (b.ehdr).e_phoff
          b0.phdrs b.phdrs
      × Appended layout.shdr_size layout.decode_shdr (b.ehdr).e_shnum content (b.ehdr).e_shoff
          b0.shdrs b.shdrs
      × (b0.sections ≡ [])
      × AreSections content 0 b.shdrs b.sections
      × HaveNames (string_table (b.ehdr).e_shstrndx b.sections) b.shdrs b.sections
      × (b.path ≡ file_name)
