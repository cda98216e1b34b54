-- ===== src/SmapInfo/Showmap/Print.antt =====
-- The lines that showmap prints: VmaInfo with its three formats, and the headers.
use Prim.Native.String.{String}
use android_system_memory_li.Common.{
  ℕ, ◌/◌, ◌%◌, Bool, true, false, not, ◌&&◌, [], ◌∷◌, ◌++◌, ◌==◌, if◌then◌else◌,
}
use android_system_memory_li.ProcMem.Escape.{
  Format, invalid, raw, json, csv, escape_csv_string, escape_json_string,
}
use android_system_memory_li.ProcMem.Usage.{Vma}
use android_system_memory_li.Text.{Bytes, codes}
use android_system_memory_li.Text.Print.{decimal_text, hex_text, pad_left, when}

pub record VmaInfo : Type 0 where
  pub vma : Vma
  pub is_bss : Bool
  pub count : ℕ

-- The static variables `show_addr` and `verbose`.
pub record Options : Type 0 where
  pub show_addr : Bool
  pub verbose : Bool

unfoldable pub get_vma_name : Vma → Bool → Bool → Bytes
get_vma_name v total is_bss =
    if total then codes "TOTAL" else if is_bss then v.name ++ codes " [bss]" else v.name

-- A bit of `vma.flags`: PROT_READ is 1, PROT_WRITE 2 and PROT_EXEC 4.
abbrev pub flag_char : ℕ → ℕ → ℕ → ℕ
flag_char flags bit c = if flags / bit % 2 == 1 then c else b'-'

-- A number in a column, and the space behind it.
abbrev pub column : ℕ → ℕ → Bytes
column width n = pad_left width (decimal_text n) ++ codes " "

abbrev pub named : String → ℕ → Bytes
named name n = codes name ++ decimal_text n

module _ (o : Options) where
  unfoldable pub get_flags : Vma → Bool → Bytes
  get_flags v total =
      if o.verbose && not total
      then flag_char v.flags 1 b'r' ∷ flag_char v.flags 2 b'w' ∷ flag_char v.flags 4 b'x' ∷ []
      else codes "---"

  unfoldable pub to_raw : Bool → VmaInfo → Bytes
  unfolding get_flags get_vma_name
  to_raw total info =
      let v = info.vma in
      let u = v.usage in
      when o.show_addr (
        if total
        then codes "                                  "
        else pad_left 16 (hex_text v.start)
          ++ codes " "
          ++ pad_left 16 (hex_text v.end)
          ++ codes " ")
      ++ column 8 u.vss
      ++ column 8 u.rss
      ++ column 8 u.pss
      ++ column 8 u.shared_clean
      ++ column 8 u.shared_dirty
      ++ column 8 u.private_clean
      ++ column 8 u.private_dirty
      ++ column 8 u.swap
      ++ column 8 u.swap_pss
      ++ column 9 u.anon_huge_pages
      ++ column 9 u.shmem_pmd_mapped
      ++ column 9 u.file_pmd_mapped
      ++ column 8 u.shared_hugetlb
      ++ column 8 u.private_hugetlb
      ++ column 8 u.locked
      ++ when (not o.verbose && not o.show_addr) (column 4 info.count)
      ++ when o.verbose
          (if total then codes "      " else pad_left 5 (get_flags v total) ++ codes " ")
      ++ get_vma_name v total info.is_bss
      ++ codes "\n"

  unfoldable pub to_csv : Bool → VmaInfo → Bytes
  unfolding get_flags get_vma_name
  to_csv total info =
      let v = info.vma in
      let u = v.usage in
      decimal_text u.vss
      ++ named "," u.rss
      ++ named "," u.pss
      ++ named "," u.shared_clean
      ++ named "," u.shared_dirty
      ++ named "," u.private_clean
      ++ named "," u.private_dirty
      ++ named "," u.swap
      ++ named "," u.swap_pss
      ++ named "," u.anon_huge_pages
      ++ named "," u.shmem_pmd_mapped
      ++ named "," u.file_pmd_mapped
      ++ named "," u.shared_hugetlb
      ++ named "," u.private_hugetlb
      ++ named "," u.locked
      ++ when o.show_addr (
          codes ","
          ++ (if total then codes "," else hex_text v.start ++ codes "," ++ hex_text v.end))
      ++ when (not o.verbose && not o.show_addr) (named "," info.count)
      ++ when o.verbose (codes "," ++ (if total then [] else escape_csv_string (get_flags v total)))
      ++ codes ","
      ++ escape_csv_string (get_vma_name v total info.is_bss)
      ++ codes "\n"

  unfoldable pub to_json : Bool → VmaInfo → Bytes
  unfolding get_flags get_vma_name
  to_json total info =
      let v = info.vma in
      let u = v.usage in
      named "{\"virtual size\":" u.vss
      ++ named ",\"RSS\":" u.rss
      ++ named ",\"PSS\":" u.pss
      ++ named ",\"shared clean\":" u.shared_clean
      ++ named ",\"shared dirty\":" u.shared_dirty
      ++ named ",\"private clean\":" u.private_clean
      ++ named ",\"private dirty\":" u.private_dirty
      ++ named ",\"swap\":" u.swap
      ++ named ",\"swapPSS\":" u.swap_pss
      ++ named ",\"Anon HugePages\":" u.anon_huge_pages
      ++ named ",\"Shmem PmdMapped\":" u.shmem_pmd_mapped
      ++ named ",\"File PmdMapped\":" u.file_pmd_mapped
      ++ named ",\"Shared Hugetlb\":" u.shared_hugetlb
      ++ named ",\"Private Hugetlb\":" u.private_hugetlb
      ++ named ",\"Locked\":" u.locked
      ++ when o.show_addr (
          if total
          then codes ",\"start addr\":\"\",\"end addr\":\"\""
          else codes ",\"start addr\":\""
            ++ hex_text v.start
            ++ codes "\",\"end addr\":\""
            ++ hex_text v.end
            ++ codes "\"")
      ++ when (not o.verbose && not o.show_addr) (named ",\"#\":" info.count)
      ++ when o.verbose (codes ",\"flags\":" ++ escape_json_string (get_flags v total))
      ++ codes ",\"object\":"
      ++ escape_json_string (get_vma_name v total info.is_bss)
      ++ codes "}"

  unfoldable pub print_text_header : Bytes
  print_text_header =
      when o.show_addr (codes "           start              end ")
      ++ codes " virtual                     shared   shared  private  private                   "
      ++ codes "Anon      Shmem     File      Shared   Private\n"
      ++ when o.show_addr (codes "            addr             addr ")
      ++ codes "    size      RSS      PSS    clean    dirty    clean    dirty     swap  swapPSS "
      ++ codes "HugePages PmdMapped PmdMapped Hugetlb  Hugetlb    Locked "
      ++ when (not o.verbose && not o.show_addr) (codes "   # ")
      ++ when o.verbose (codes "flags ")
      ++ codes "object\n"

  unfoldable pub print_text_divider : Bytes
  print_text_divider =
      when o.show_addr (codes "---------------- ---------------- ")
      ++ codes "-------- -------- -------- -------- -------- -------- -------- -------- -------- "
      ++ codes "--------- --------- --------- -------- -------- -------- "
      ++ when (not o.verbose && not o.show_addr) (codes "---- ")
      ++ when o.verbose (codes "----- ")
      ++ codes "------------------------------\n"

  unfoldable pub print_csv_header : Bytes
  print_csv_header =
      codes "\"virtual size\",\"RSS\",\"PSS\",\"shared clean\",\"shared dirty\",\"private clean\","
      ++ codes "\"private dirty\",\"swap\",\"swapPSS\",\"Anon HugePages\",\"Shmem PmdMapped\","
      ++ codes "\"File PmdMapped\",\"Shared Hugetlb\",\"Private Hugetlb\",\"Locked\""
      ++ when o.show_addr (codes ",\"start addr\",\"end addr\"")
      ++ when (not o.verbose && not o.show_addr) (codes ",\"#\"")
      ++ when o.verbose (codes ",\"flags\"")
      ++ codes ",\"object\"\n"

  unfoldable pub print_header : Format → Bytes
  print_header raw = print_text_header ++ print_text_divider
  print_header csv = print_csv_header
  print_header json = codes "["
  print_header invalid = []

  unfoldable pub print_vmainfo : Format → VmaInfo → Bytes
  print_vmainfo raw info = to_raw false info
  print_vmainfo csv info = to_csv false info
  print_vmainfo json info = to_json false info ++ codes ","
  print_vmainfo invalid info = []

  unfoldable pub print_vmainfo_totals : Format → VmaInfo → Bytes
  print_vmainfo_totals raw info =
      print_text_divider ++ print_text_header ++ print_text_divider ++ to_raw true info
  print_vmainfo_totals csv info = to_csv true info
  print_vmainfo_totals json info = to_json true info ++ codes "]\n"
  print_vmainfo_totals invalid info = []
