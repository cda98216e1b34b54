-- ===== src/Elf64.antt =====
-- libelf64 (libelf64/parse.cpp and libelf64/iter.cpp): the parser of 64-bit ELF files on the bytes of
-- a file, and the scan of a directory. What a parse that fails leaves in the object is left out.
pub mod Headers
pub mod Sections
pub mod Files
pub mod Accepted
use android_system_memory_li.Common.{
  ℕ, zero, suc, ◌+◌, ◌*◌, ◌^◌, Bool, true, false, not, ◌&&◌, ◌||◌, List, [], ◌∷◌, ◌++◌, Option,
  none, some, ltb, ◌==◌, if◌then◌else◌, length, drop, take, get_or,
}
use android_system_memory_li.Elf64.Headers.{Ehdr, Layout, Phdr, Shdr}
use android_system_memory_li.Text.{Bytes}

-- A std::ifstream: the bytes of the file, the cursor, and `good()`.
pub record Stream : Type 0 where
  pub content : Bytes
  pub cursor : ℕ
  pub good : Bool

-- `seekg`: an offset is a signed 64-bit number. Behind the end of the file it is accepted.
unfoldable pub seekg : ℕ → Stream → Stream
seekg pos s = record s {
  cursor = if s.good then pos else s.cursor;
  good = s.good && ltb pos (2 ^ 63);
}

-- `read`: fewer bytes than asked for end the stream.
unfoldable pub read : ℕ → Stream → Bytes × Stream
read n s =
    let bytes = take n (drop s.cursor s.content) in
    if s.good && length bytes == n
    then (bytes, record s { cursor = s.cursor + n })
    else ([], record s { good = false })

-- How a function ends: it returns true with a value, returns false, throws, or does what C++ leaves
-- undefined.
pub data Parsed {ℓ} (A : Type ℓ) : Type ℓ where
  parsed : A → Parsed A
  failed threw undefined : Parsed A

infixl 5 ◌>>=◌
abbrev pub ◌>>=◌ {ℓ κ} : {A : Type ℓ} {B : Type κ} → Parsed A → (A → Parsed B) → Parsed B
parsed a >>= f = f a
failed >>= f = failed
threw >>= f = threw
undefined >>= f = undefined

-- Elf64_Sc and Elf64Binary.
pub record Section : Type 0 where
  pub data_bytes : Bytes
  pub size : ℕ
  pub name : Bytes
  pub index : ℕ

pub record Elf64Binary : Type 0 where
  pub ehdr : Ehdr
  pub phdrs : List Phdr
  pub shdrs : List Shdr
  pub sections : List Section
  pub path : Bytes

-- `read` into a struct, and `if (!good()) return false`.
abbrev pub read_struct {ℓ} : {A : Type ℓ} → ℕ → (Bytes → A) → Stream → Parsed (A × Stream)
read_struct size decode s =
    let (bytes, s') = read size s in if s'.good then parsed (decode bytes, s') else failed

-- The loops of ParseProgramHeaders and ParseSectionHeaders.
unfoldable pub read_structs {ℓ} :
    {A : Type ℓ} → ℕ → (Bytes → A) → ℕ → Stream → Parsed (List A × Stream)
read_structs size decode zero s = parsed ([], s)
read_structs size decode (suc n) s = read_struct size decode s >>= λ p.
    read_structs size decode n p.1 >>= λ q. parsed (p.0 ∷ q.0, q.1)

-- `e_ident[EI_CLASS] == ELFCLASS64`: the byte at 4 is 2.
unfoldable pub is_elf64 : Ehdr → Bool
is_elf64 h = get_or h.e_ident 4 0 == 2

-- The parts of the parse change the object of the caller; the vectors are appended to, not cleared.
module _ (layout : Layout) where
  unfoldable pub parse_executable_header : Elf64Binary → Stream → Parsed (Elf64Binary × Stream)
  parse_executable_header b s = read_struct layout.ehdr_size layout.decode_ehdr (seekg 0 s) >>= λ r.
      parsed (record b { ehdr = r.0 }, r.1)

  unfoldable pub parse_program_headers : Elf64Binary → Stream → Parsed (Elf64Binary × Stream)
  parse_program_headers b s =
      read_structs layout.phdr_size layout.decode_phdr (b.ehdr).e_phnum (seekg (b.ehdr).e_phoff s)
      >>= λ r. parsed (record b { phdrs = b.phdrs ++ r.0 }, r.1)

  unfoldable pub parse_section_headers : Elf64Binary → Stream → Parsed (Elf64Binary × Stream)
  parse_section_headers b s =
      read_structs layout.shdr_size layout.decode_shdr (b.ehdr).e_shnum (seekg (b.ehdr).e_shoff s)
      >>= λ r. parsed (record b { shdrs = b.shdrs ++ r.0 }, r.1)

-- SHT_NOBITS of elf.h, the type of .bss.
abbrev pub sht_nobits : ℕ
sht_nobits = 8

abbrev pub has_zero : Bytes → Bool
has_zero [] = false
has_zero (c ∷ cs) = if c == 0 then true else has_zero cs

-- `&st[nameIdx]` as a C string: it stands in the string table and ends there.
abbrev pub is_name_at : Bytes → ℕ → Bool
is_name_at table i = ltb i (length table) && has_zero (drop i table)

-- `sStrTblPtr.data`, empty where no section has the index of the string table.
unfoldable pub string_table : ℕ → List Section → Bytes
string_table i [] = []
string_table i (sc ∷ scs) = if i == sc.index then sc.data_bytes else string_table i scs

-- A loop that leaves nothing but its end.
pub data Done : Type 0 where
  done : Done

-- The second loop, over all sections of the object: it reads the name that the section header of the
-- same index gives, but stores it in a copy of the section, which is dropped.
unfoldable pub read_names : Bytes → List Shdr → List Section → Parsed Done
read_names table shdrs [] = parsed done
read_names table [] (sc ∷ scs) = undefined
read_names table (shdr ∷ shdrs) (sc ∷ scs) =
    let rest = read_names table shdrs scs in
    if is_name_at table shdr.sh_name then rest else undefined

-- `can_allocate n` tells whether a vector of n bytes can be had; `resize` throws where it cannot.
module _ (can_allocate : ℕ → Bool) where
  abbrev pub section_of : Shdr → ℕ → Bytes → Section
  section_of shdr i bytes = record { data_bytes = bytes; size = shdr.sh_size; name = []; index = i }

  -- One round of the first loop of ParseSections.
  unfoldable pub parse_section : Shdr → ℕ → Stream → Parsed (Section × Stream)
  parse_section shdr i s =
      let (bytes, s') = read shdr.sh_size (seekg shdr.sh_offset s) in
      if shdr.sh_type == sht_nobits
      then parsed (section_of shdr i [], s)
      else if not (can_allocate shdr.sh_size)
      then threw
      else if s'.good
      then parsed (section_of shdr i bytes, s')
      else failed

  unfoldable pub read_sections : List Shdr → ℕ → Stream → Parsed (List Section × Stream)
  read_sections [] i s = parsed ([], s)
  read_sections (shdr ∷ shdrs) i s = parse_section shdr i s >>= λ p.
      read_sections shdrs (suc i) p.1 >>= λ q. parsed (p.0 ∷ q.0, q.1)

  unfoldable pub parse_sections : Elf64Binary → Stream → Parsed Elf64Binary
  parse_sections b s = read_sections b.shdrs 0 s >>= λ p.
      read_names (string_table (b.ehdr).e_shstrndx p.0) b.shdrs (b.sections ++ p.0) >>= λ u.
      parsed (record b { sections = b.sections ++ p.0 })

  -- The file is parsed into an object; `none` is a file that cannot be opened.
  unfoldable pub parse_elf_file : Layout → Bytes → Option Bytes → Elf64Binary → Parsed Elf64Binary
  parse_elf_file layout file_name none b = failed
  parse_elf_file layout file_name (some content) b =
      parse_executable_header layout b (record { content = content; cursor = 0; good = true })
      >>= λ e.
          if is_elf64 (e.0).ehdr
          then (parse_program_headers layout e.0 e.1 >>= λ p.
              parse_section_headers layout p.0 p.1 >>= λ q.
              parse_sections q.0 q.1 >>= λ r. parsed (record r { path = file_name }))
          else failed

  -- An entry of the recursive directory iterator.
  pub record DirEntry : Type 0 where
    pub is_symlink : Bool
    pub is_regular_file : Bool
    pub path : Bytes
    pub content : Option Bytes

  -- An object of the loop, whose executable header is not initialised.
  abbrev pub new_binary : Ehdr → Elf64Binary
  new_binary ehdr = record { ehdr = ehdr; phdrs = []; shdrs = []; sections = []; path = [] }

  module _ {ℓ} {S : Type ℓ} (layout : Layout) (ehdr : Ehdr) (callback : Elf64Binary → S → S) where
    abbrev pub visit_parsed : Parsed Elf64Binary → ℕ → S → (ℕ → S → Parsed (ℕ × S)) → Parsed (ℕ × S)
    visit_parsed (parsed b) nr_parsed s next = next (nr_parsed + 1) (callback b s)
    visit_parsed failed nr_parsed s next = next nr_parsed s
    visit_parsed threw nr_parsed s next = threw
    visit_parsed undefined nr_parsed s next = undefined

    -- The number of files parsed and the state of the callback.
    unfoldable pub for_each_elf64 : List DirEntry → ℕ → S → Parsed (ℕ × S)
    for_each_elf64 [] nr_parsed s = parsed (nr_parsed, s)
    for_each_elf64 (entry ∷ entries) nr_parsed s =
        if entry.is_symlink || not entry.is_regular_file
        then for_each_elf64 entries nr_parsed s
        else visit_parsed (parse_elf_file layout entry.path entry.content (new_binary ehdr))
            nr_parsed s (for_each_elf64 entries)

    unfoldable pub for_each_elf64_from_dir : List DirEntry → S → Parsed (ℕ × S)
    for_each_elf64_from_dir entries s = for_each_elf64 entries 0 s
