-- ===== src/Elf64/Accepted.antt =====
-- The files that ParseElfFile accepts.
use android_system_memory_li.Common.{
  ℕ, suc, ◌+◌, ◌^◌, ◌<◌, ◌≡◌, Bool, true, false, List, [], ◌∷◌, ◌++◌, ◌==◌, length, ◌⊎◌,
}
use android_system_memory_li.Elf64.{
  Elf64Binary, Section, Stream, is_elf64, section_of, sht_nobits, string_table,
}
use android_system_memory_li.Elf64.Headers.{Layout, Phdr, Shdr}
use android_system_memory_li.Elf64.Sections.{slice, HaveNames}
use android_system_memory_li.Text.{Bytes}

-- A stream that is good, at a place of the file.
abbrev at : Bytes → ℕ → Stream
at content cursor = record { content = content; cursor = cursor; good = true }

-- The file has `n` bytes from an offset on.
abbrev pub HasBytes : Bytes → ℕ → ℕ → Type 0
HasBytes content offset n = length (slice content offset n) ≡ n

-- A table of structs that the file has in full.
abbrev pub HasTable {ℓ} : {A : Type ℓ} → ℕ → (Bytes → A) → Bytes → ℕ → List A → Type ℓ
HasTable size decode content offset [] = Unit
HasTable size decode content offset (x ∷ xs) =
    HasBytes content offset size
    × (decode (slice content offset size) ≡ x)
    × HasTable size decode content (offset + size) xs

module _ (can_allocate : ℕ → Bool) where
  -- A section header whose section can be read: it has no bytes in the file, or the file has them and
  -- memory can be had for them.
  abbrev pub HasSection : Bytes → ℕ → Shdr → Section → Type 0
  HasSection content i h sc =
      (((h.sh_type == sht_nobits) ≡ true) × (section_of can_allocate h i [] ≡ sc))
      ⊎ (((h.sh_type == sht_nobits) ≡ false)
          × (can_allocate h.sh_size ≡ true)
          × (h.sh_offset < 2 ^ 63)
          × HasBytes content h.sh_offset h.sh_size
          × (section_of can_allocate h i (slice content h.sh_offset h.sh_size) ≡ sc))

  abbrev pub HasSections : Bytes → ℕ → List Shdr → List Section → Type 0
  HasSections content i [] [] = Unit
  HasSections content i (h ∷ hs) (sc ∷ scs) =
      HasSection content i h sc × HasSections content (suc i) hs scs
  HasSections content i _ _ = ⊥

module _ (layout : Layout) (can_allocate : ℕ → Bool) where
  -- A file that can be parsed into an object `b0`, its tables, and what the object is then: it had no
  -- sections, and the tables are appended to its own.
  abbrev pub IsAccepted : Bytes → Elf64Binary → List Phdr → List Shdr → Elf64Binary → Type 0
  IsAccepted content b0 phs shs b =
      HasBytes content 0 layout.ehdr_size
      × (layout.decode_ehdr (slice content 0 layout.ehdr_size) ≡ b.ehdr)
      × (is_elf64 b.ehdr ≡ true)
      × ((b.ehdr).e_phoff < 2 ^ 63)
      × (length phs ≡ (b.ehdr).e_phnum)
      × HasTable layout.phdr_size layout.decode_phdr content (b.ehdr).e_phoff phs
      × (b0.phdrs ++ phs ≡ b.phdrs)
      × ((b.ehdr).e_shoff < 2 ^ 63)
      × (length shs ≡ (b.ehdr).e_shnum)
      × HasTable layout.shdr_size layout.decode_shdr content (b.ehdr).e_shoff shs
      × (b0.shdrs ++ shs ≡ b.shdrs)
      × (b0.sections ≡ [])
      × HasSections can_allocate content 0 b.shdrs b.sections
      × HaveNames (string_table (b.ehdr).e_shstrndx b.sections) b.shdrs b.sections
