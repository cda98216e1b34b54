-- ===== src/SysMem/MemInfo.antt =====
-- SysMemInfo of sysmeminfo.cpp and meminfo/sysmeminfo.h: the parser of /proc/meminfo, and the map
-- that it fills.
use android_system_memory_li.Common.{
  ℕ, zero, suc, ◌+◌, Bool, true, false, not, ◌&&◌, List, [], ◌∷◌, Option, none, some, ◌==◌, ltb,
  if◌then◌else◌, drop, take, length, replicate,
}
use android_system_memory_li.Text.{Bytes, codes, c_string, has_prefix, strtoull_end, text_eq}

-- kDefaultSysMemInfoTags.
abbrev pub default_tags : List Bytes
default_tags =
    codes "MemTotal:"
    ∷ codes "MemFree:"
    ∷ codes "Buffers:"
    ∷ codes "Cached:"
    ∷ codes "Shmem:"
    ∷ codes "Slab:"
    ∷ codes "SReclaimable:"
    ∷ codes "SUnreclaim:"
    ∷ codes "SwapTotal:"
    ∷ codes "SwapFree:"
    ∷ codes "Mapped:"
    ∷ codes "VmallocUsed:"
    ∷ codes "PageTables:"
    ∷ codes "KernelStack:"
    ∷ codes "KReclaimable:"
    ∷ codes "Active:"
    ∷ codes "Inactive:"
    ∷ codes "Unevictable:"
    ∷ codes "MemAvailable:"
    ∷ codes "Active(anon):"
    ∷ codes "Inactive(anon):"
    ∷ codes "Active(file):"
    ∷ codes "Inactive(file):"
    ∷ codes "CmaTotal:"
    ∷ codes "CmaFree:"
    ∷ []

unfoldable pub skip_blanks : Bytes → Bytes
skip_blanks [] = []
skip_blanks (c ∷ cs) = if c == b' ' then skip_blanks cs else c ∷ cs

-- To behind the next newline.
unfoldable pub next_line : Bytes → Bytes
next_line [] = []
next_line (c ∷ cs) = if c == b'\n' then cs else next_line cs

-- The loop over the tags on one line: where `p` is left, how many values were found and whether
-- the Zram tag was among them, with the caller's state; or `return false`.
pub data TagScan {ℓ} (S : Type ℓ) : Type ℓ where
  scanned : Bytes → ℕ → Bool → S → TagScan S
  malformed : S → TagScan S

module _ {ℓ} {S : Type ℓ} (store_val : Bytes → ℕ → S → S) (zram_kb : ℕ) where
  abbrev pub store_number : Bytes → ℕ → Bool → S → Option (ℕ × Bytes) → TagScan S
  store_number tag found zram s none = malformed s
  store_number tag found zram s (some (val, rest)) =
      scanned rest (found + 1) zram (store_val tag val s)

  unfoldable pub scan_tags : List Bytes → Bytes → ℕ → Bool → S → TagScan S
  unfolding has_prefix skip_blanks
  scan_tags [] p found zram s = scanned p found zram s
  scan_tags (tag ∷ tags) p found zram s =
      if not zram && text_eq tag (codes "Zram:")
      then scan_tags tags p (found + 1) true (store_val tag zram_kb s)
      else if has_prefix tag p
      then store_number tag found zram s (strtoull_end (skip_blanks (drop (length tag) p)))
      else scan_tags tags p found zram s

  -- The outer loop; each round passes over a byte at least, so the length of the text is enough fuel.
  unfoldable pub scan_text : ℕ → List Bytes → Bytes → ℕ → Bool → S → S × Bool
  unfolding next_line
  scan_text zero tags p found zram s = (s, true)
  scan_text (suc fuel) tags [] found zram s = (s, true)
  scan_text (suc fuel) tags (c ∷ cs) found zram s =
      if not (ltb found (length tags))
      then (s, true)
      else elim (scan_tags tags (c ∷ cs) found zram s) [
        | malformed s' ↦ (s', false)
        | scanned p' found' zram' s' ↦ scan_text fuel tags (next_line p') found' zram' s'
      ]

  -- The buffer holds 4095 bytes; `none` is a failure of open or read.
  unfoldable pub read_mem_info : List Bytes → Option Bytes → S → S × Bool
  unfolding scan_text c_string
  read_mem_info tags none s = (s, false)
  read_mem_info tags (some text) s =
      let buffer = c_string (take 4095 text) in scan_text (length buffer) tags buffer 0 false s

-- mem_in_kb_, a std::map.
abbrev pub MemMap : Type 0
MemMap = List (Bytes × ℕ)

unfoldable pub store_in_map : Bytes → ℕ → MemMap → MemMap
unfolding text_eq
store_in_map tag val [] = (tag, val) ∷ []
store_in_map tag val ((t, v) ∷ m) =
    if text_eq t tag then (t, val) ∷ m else (t, v) ∷ store_in_map tag val m

unfoldable pub find_mem_by_tag : Bytes → MemMap → ℕ
unfolding text_eq
find_mem_by_tag tag [] = 0
find_mem_by_tag tag ((t, v) ∷ m) = if text_eq t tag then v else find_mem_by_tag tag m

-- ReadMemInfo(path), which fills the map.
unfoldable pub read_mem_info_map : ℕ → Option Bytes → MemMap → MemMap × Bool
read_mem_info_map zram_kb file m = read_mem_info store_in_map zram_kb default_tags file m

-- `out[index] = val`, at the place of the first such tag.
unfoldable pub store_in_order : List Bytes → Bytes → ℕ → List ℕ → List ℕ
unfolding text_eq
store_in_order [] tag val out = out
store_in_order (t ∷ ts) tag val [] = []
store_in_order (t ∷ ts) tag val (o ∷ out) =
    if text_eq t tag then val ∷ out else o ∷ store_in_order ts tag val out

-- ReadMemInfo(ntags, tags, out, path).
unfoldable pub read_mem_info_tags : ℕ → List Bytes → Option Bytes → List ℕ → List ℕ × Bool
read_mem_info_tags zram_kb tags file out = read_mem_info (store_in_order tags) zram_kb tags file out

-- ReadMemInfo(out, path): the vector starts as zeros.
unfoldable pub read_mem_info_vector : ℕ → Option Bytes → List ℕ × Bool
unfolding read_mem_info_tags
read_mem_info_vector zram_kb file =
    read_mem_info_tags zram_kb default_tags file (replicate (length default_tags) 0)
