-- ===== src/Examples/Elf.antt =====
-- A file with a program header and two sections, for the parser of ELF files.
use android_system_memory_li.Common.{
  ℕ, zero, suc, ◌+◌, ◌*◌, drop, take, List, ◌≡◌, refl, true, [], ◌∷◌, ◌++◌, some, replicate,
}
use android_system_memory_li.Elf64.{
  read, seekg, read_structs, read_sections, parse_section, read_names, string_table, Elf64Binary,
  undefined, is_elf64, parse_elf_file, parse_executable_header, parse_program_headers,
  parse_section_headers, parse_sections,
}
use android_system_memory_li.Elf64.Headers.{Ehdr, Layout, Phdr, Shdr}
use android_system_memory_li.Text.{Bytes, codes}

-- The number in the first `width` bytes, the least significant first.
abbrev word : ℕ → Bytes → ℕ
word zero bytes = 0
word (suc n) [] = 0
word (suc n) (c ∷ cs) = c + 256 * word n cs

abbrev word_at : ℕ → ℕ → Bytes → ℕ
word_at offset width bytes = word width (drop offset bytes)

abbrev ehdr_size : ℕ
ehdr_size = 64

abbrev decode_ehdr : Bytes → Ehdr
decode_ehdr bytes =
    let fields = drop 16 bytes in
    record {
      e_ident = take 16 bytes;
      e_type = word_at 0 2 fields;
      e_machine = word_at 2 2 fields;
      e_version = word_at 4 4 fields;
      e_entry = word_at 8 8 fields;
      e_phoff = word_at 16 8 fields;
      e_shoff = word_at 24 8 fields;
      e_flags = word_at 32 4 fields;
      e_ehsize = word_at 36 2 fields;
      e_phentsize = word_at 38 2 fields;
      e_phnum = word_at 40 2 fields;
      e_shentsize = word_at 42 2 fields;
      e_shnum = word_at 44 2 fields;
      e_shstrndx = word_at 46 2 fields;
    }

abbrev phdr_size : ℕ
phdr_size = 56

abbrev decode_phdr : Bytes → Phdr
decode_phdr bytes = record {
  p_type = word_at 0 4 bytes;
  p_flags = word_at 4 4 bytes;
  p_offset = word_at 8 8 bytes;
  p_vaddr = word_at 16 8 bytes;
  p_paddr = word_at 24 8 bytes;
  p_filesz = word_at 32 8 bytes;
  p_memsz = word_at 40 8 bytes;
  p_align = word_at 48 8 bytes;
}

abbrev shdr_size : ℕ
shdr_size = 64

abbrev decode_shdr : Bytes → Shdr
decode_shdr bytes = record {
  sh_name = word_at 0 4 bytes;
  sh_type = word_at 4 4 bytes;
  sh_flags = word_at 8 8 bytes;
  sh_addr = word_at 16 8 bytes;
  sh_offset = word_at 24 8 bytes;
  sh_size = word_at 32 8 bytes;
  sh_link = word_at 40 4 bytes;
  sh_info = word_at 44 4 bytes;
  sh_addralign = word_at 48 8 bytes;
  sh_entsize = word_at 56 8 bytes;
}

-- The structs of elf.h on a little-endian machine.
abbrev elf_h : Layout
elf_h = record {
  ehdr_size = ehdr_size;
  phdr_size = phdr_size;
  shdr_size = shdr_size;
  decode_ehdr = decode_ehdr;
  decode_phdr = decode_phdr;
  decode_shdr = decode_shdr;
}

-- A byte and zeros, `n` bytes in all but one.
abbrev number : ℕ → ℕ → Bytes
number byte n = byte ∷ replicate n 0

-- The program header stands at 64, the section headers at 120, and the string table is section 1.
abbrev header : Bytes
header =
    127 ∷ 69 ∷ 76 ∷ 70 ∷ number 2 11
    ++ replicate 16 0
    ++ number 64 7
    ++ number 120 7
    ++ replicate 8 0
    ++ number 1 1
    ++ replicate 2 0
    ++ number 2 1
    ++ number 1 1

abbrev program_header : Bytes
program_header = number 1 55

-- A .bss of 5 bytes, and a string table of one byte at 248.
abbrev bss_header : Bytes
bss_header = replicate 4 0 ++ number 8 3 ++ replicate 24 0 ++ number 5 7 ++ replicate 24 0

abbrev table_header : Bytes
table_header =
    replicate 4 0 ++ number 3 3 ++ replicate 16 0 ++ number 248 7 ++ number 1 7 ++ replicate 24 0

abbrev file : Bytes
file = header ++ program_header ++ bss_header ++ table_header ++ 0 ∷ []

-- The object of a caller, and what it is after the parse.
abbrev empty : Elf64Binary
empty = record { ehdr = decode_ehdr []; phdrs = []; shdrs = []; sections = []; path = [] }

abbrev headers : List Shdr
headers = decode_shdr bss_header ∷ decode_shdr table_header ∷ []

abbrev binary : Elf64Binary
binary = record {
  ehdr = decode_ehdr header;
  phdrs = decode_phdr program_header ∷ [];
  shdrs = headers;
  sections =
      record { data_bytes = []; size = 5; name = []; index = 0 }
      ∷ record { data_bytes = 0 ∷ []; size = 1; name = []; index = 1 }
      ∷ [];
  path = codes "a.out";
}

-- An object that has been used for a file is no place for another one.
used_twice : parse_elf_file (λ n. true) elf_h (codes "a.out") (some file) binary ≡ undefined
unfolding parse_elf_file parse_executable_header is_elf64 parse_program_headers
    parse_section_headers parse_sections read seekg read_structs read_sections parse_section
    read_names string_table
used_twice = refl
