-- ===== src/Elf64/Headers.antt =====
-- The structs of elf.h that libelf64/parse.cpp reads from a file. Their sizes and how their fields lie
-- in memory are those of the C library, a parameter of the parser.
use android_system_memory_li.Common.{ℕ}
use android_system_memory_li.Text.{Bytes}

pub record Ehdr : Type 0 where
  pub e_ident : Bytes
  pub e_type : ℕ
  pub e_machine : ℕ
  pub e_version : ℕ
  pub e_entry : ℕ
  pub e_phoff : ℕ
  pub e_shoff : ℕ
  pub e_flags : ℕ
  pub e_ehsize : ℕ
  pub e_phentsize : ℕ
  pub e_phnum : ℕ
  pub e_shentsize : ℕ
  pub e_shnum : ℕ
  pub e_shstrndx : ℕ

pub record Phdr : Type 0 where
  pub p_type : ℕ
  pub p_flags : ℕ
  pub p_offset : ℕ
  pub p_vaddr : ℕ
  pub p_paddr : ℕ
  pub p_filesz : ℕ
  pub p_memsz : ℕ
  pub p_align : ℕ

pub record Shdr : Type 0 where
  pub sh_name : ℕ
  pub sh_type : ℕ
  pub sh_flags : ℕ
  pub sh_addr : ℕ
  pub sh_offset : ℕ
  pub sh_size : ℕ
  pub sh_link : ℕ
  pub sh_info : ℕ
  pub sh_addralign : ℕ
  pub sh_entsize : ℕ

-- `sizeof` of the structs, and what they hold once their bytes are read.
pub record Layout : Type 0 where
  pub ehdr_size : ℕ
  pub phdr_size : ℕ
  pub shdr_size : ℕ
  pub decode_ehdr : Bytes → Ehdr
  pub decode_phdr : Bytes → Phdr
  pub decode_shdr : Bytes → Shdr
