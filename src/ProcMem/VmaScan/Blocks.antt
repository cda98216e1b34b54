-- ===== src/ProcMem/VmaScan/Blocks.antt =====
-- A well-formed smaps file is a list of blocks, each a header line and lines of counters. The scan
-- of such a file, and of one with a malformed line.
use android_system_memory_li.Common.{
  Bool, true, false, List, some, [], ◌∷◌, ◌++◌, map, ◌≡◌, refl, All, ◌∙◌, ap,
}
use android_system_memory_li.ProcMem.SmapsField.{parse_smaps_field, is_field}
use android_system_memory_li.ProcMem.Usage.{MemUsage, Vma, no_usage, no_vma, clear_vma}
use android_system_memory_li.ProcMem.VmaScan.{
  MapInfo, MapParser, VmaCallback, Next, go, fail, and_then, header_line, line_step, scan_lines,
  after_field, for_each_vma_from_file, after_header, at_end,
}
use android_system_memory_li.Text.{Bytes, getlines}
use mathlib.Core.Path.{fun_ext}

pub record Block : Type 0 where
  pub header : Bytes
  pub info : MapInfo
  pub fields : List Bytes

abbrev pub usage_of : MemUsage → List Bytes → MemUsage
usage_of u [] = u
usage_of u (l ∷ ls) = usage_of (parse_smaps_field l u).0 ls

abbrev pub vma_of : MapInfo → MemUsage → Vma
vma_of m u = record {
  start = m.start;
  end = m.end;
  offset = m.pgoff;
  flags = m.flags;
  name = m.name;
  inode = m.inode;
  is_shared = m.shared;
  usage = u;
}

abbrev pub block_vma : Block → Vma
block_vma b = vma_of b.info (usage_of no_usage b.fields)

-- The lines of the blocks, and then `rest`.
abbrev pub block_lines : List Block → List Bytes → List Bytes
block_lines [] rest = rest
block_lines (b ∷ bs) rest = b.header ∷ (b.fields ++ block_lines bs rest)

-- The header is no line of counters, and describes one mapping; the other lines are counters.
abbrev pub IsBlock : MapParser → Block → Type 0
IsBlock read_maps b =
    (is_field b.header ≡ false)
    × (read_maps b.header ≡ (b.info ∷ [], true))
    × All (λ l. is_field l ≡ true) b.fields

parse_field_true :
    (l : Bytes) (u : MemUsage)
    → is_field l ≡ true
    → parse_smaps_field l u ≡ ((parse_smaps_field l u).0, true)
unfolding parse_smaps_field
parse_field_true l u h = rw h

parse_field_false :
    (l : Bytes) (u : MemUsage) → is_field l ≡ false → parse_smaps_field l u ≡ (u, false)
unfolding parse_smaps_field
parse_field_false l u h = rw h

module _ {ℓ} {S : Type ℓ} (read_maps : MapParser) (callback : VmaCallback S) where
  abbrev pub after_visit : Vma × S × Bool → (S → S × Bool) → S × Bool
  after_visit (v, s, true) rest = rest s
  after_visit (v, s, false) rest = (s, false)

  -- The callback on each VMA in turn, until it returns false.
  abbrev pub visit : List Vma → S → S × Bool
  visit [] s = (s, true)
  visit (v ∷ vs) s = after_visit (callback v s) (visit vs)

  scan-fields :
      (fields rest : List Bytes) (v : Vma) (s : S)
      → All (λ l. is_field l ≡ true) fields
      → scan_lines read_maps callback true true v s (fields ++ rest)
        ≡ scan_lines read_maps callback true true
            (record v { usage = usage_of v.usage fields })
            s
            rest
  unfolding scan_lines line_step
  scan-fields [] rest v s h = refl
  scan-fields (l ∷ fields) rest v s h =
      rw (parse_field_true l v.usage h.0, scan_lines, line_step)
        (scan-fields fields rest (record v { usage = (parse_smaps_field l v.usage).0 }) s h.1)

  header-block :
      (b : Block) (v : Vma) (s : S)
      → IsBlock read_maps b
      → header_line read_maps callback true b.header v s ≡ go true (vma_of b.info no_usage) s
  unfolding header_line
  header-block b v s h = rw (h.1)

  -- The VMAs that are complete when the next header is met; the last one is left to `last`.
  abbrev visit_pending : (Vma → S → S × Bool) → Vma → List Vma → S → S × Bool
  visit_pending last v [] s = last v s
  visit_pending last v (w ∷ ws) s = after_visit (callback v s) (visit_pending last w ws)

  line_step-no_field :
      (line : Bytes) (v : Vma) (s : S)
      → is_field line ≡ false
      → line_step read_maps callback true true line v s
        ≡ and_then (callback v s) (header_line read_maps callback true line)
  unfolding line_step
  line_step-no_field line v s h =
      ap (after_field read_maps callback true line v s) (parse_field_false line v.usage h)

  -- The loop behind one line.
  abbrev resume : List Bytes → Next S → S × Bool
  resume lines n = elim n [
    | go parsing v s ↦ scan_lines read_maps callback true parsing v s lines
    | fail s ↦ (s, false)
  ]

  scan-cons :
      (line : Bytes) (lines : List Bytes) (v : Vma) (s : S)
      → is_field line ≡ false
      → scan_lines read_maps callback true true v s (line ∷ lines)
        ≡ resume lines (and_then (callback v s) (header_line read_maps callback true line))
  unfolding scan_lines
  scan-cons line lines v s h = ap (resume lines) (line_step-no_field line v s h)

  resume-block :
      (b : Block) (rest : List Bytes) (r : Vma × S × Bool)
      → IsBlock read_maps b
      → resume (b.fields ++ rest) (and_then r (header_line read_maps callback true b.header))
        ≡ after_visit r (λ s'. scan_lines read_maps callback true true (block_vma b) s' rest)
  resume-block b rest (v', s', true) h =
      ap (resume (b.fields ++ rest)) (header-block b v' s' h)
      ∙ scan-fields b.fields rest (vma_of b.info no_usage) s' h.2
  resume-block b rest (v', s', false) h = refl

  scan-block :
      (b : Block) (rest : List Bytes) (v : Vma) (s : S)
      → IsBlock read_maps b
      → scan_lines read_maps callback true true v s (b.header ∷ (b.fields ++ rest))
        ≡ after_visit
            (callback v s)
            (λ s'. scan_lines read_maps callback true true (block_vma b) s' rest)
  scan-block b rest v s h =
      scan-cons b.header (b.fields ++ rest) v s h.0 ∙ resume-block b rest (callback v s) h

  scan-pending :
      (bs : List Block) (rest : List Bytes) (v : Vma) (s : S)
      → All (IsBlock read_maps) bs
      → scan_lines read_maps callback true true v s (block_lines bs rest)
        ≡ visit_pending
            (λ w s'. scan_lines read_maps callback true true w s' rest)
            v
            (map block_vma bs)
            s
  scan-pending [] rest v s h = refl
  scan-pending (b ∷ bs) rest v s h =
      scan-block b (block_lines bs rest) v s h.0
      ∙ ap (after_visit (callback v s)) (fun_ext λ s'. scan-pending bs rest (block_vma b) s' h.1)

  -- The first block finds no VMA to report.
  scan-first :
      (b : Block) (rest : List Bytes) (s : S)
      → IsBlock read_maps b
      → scan_lines read_maps callback true false no_vma s (b.header ∷ (b.fields ++ rest))
        ≡ scan_lines read_maps callback true true (block_vma b) s rest
  unfolding scan_lines line_step
  scan-first b rest s h =
      rw (header-block b no_vma s h, scan_lines, line_step)
        (scan-fields b.fields rest (vma_of b.info no_usage) s h.2)

  visit_pending-at_end :
      (v : Vma) (vs : List Vma) (s : S)
      → visit_pending (at_end read_maps callback true) v vs s ≡ visit (v ∷ vs) s
  visit_pending-at_end v [] s = last (callback v s)
    where
      last : (r : Vma × S × Bool) → (r.1, r.2) ≡ after_visit r (λ s'. (s', true))
      last (v', s', true) = refl
      last (v', s', false) = refl
  visit_pending-at_end v (w ∷ ws) s =
      ap (after_visit (callback v s)) (fun_ext λ s'. visit_pending-at_end w ws s')

  scan-end :
      (v : Vma) (s : S)
      → scan_lines read_maps callback true true v s [] ≡ at_end read_maps callback true v s
  unfolding scan_lines
  scan-end v s = refl

  scan-visit :
      (bs : List Block) (s : S)
      → All (IsBlock read_maps) bs
      → scan_lines read_maps callback true false no_vma s (block_lines bs [])
        ≡ visit (map block_vma bs) s
  scan-visit [] s h = unfold scan_lines in refl
  scan-visit (b ∷ bs) s h =
      scan-first b (block_lines bs []) s h.0
      ∙ scan-pending bs [] (block_vma b) s h.1
      ∙ ap (λ k. visit_pending k (block_vma b) (map block_vma bs) s)
          (fun_ext λ w. fun_ext λ s'. scan-end w s')
      ∙ visit_pending-at_end (block_vma b) (map block_vma bs) s

  -- If the lines of a file are those of well-formed blocks, the scan with counters calls the
  -- callback on the VMA of each block, in order and until it returns false, and returns its verdict.
  pub for_each_vma_from_file-visit :
      (content : Bytes) (bs : List Block) (s : S)
      → getlines content ≡ block_lines bs []
      → All (IsBlock read_maps) bs
      → for_each_vma_from_file read_maps callback (some content) true s ≡ visit (map block_vma bs) s
  unfolding for_each_vma_from_file
  for_each_vma_from_file-visit content bs s e h = rw e (scan-visit bs s h)

  -- A line that is neither a counter nor a mapping.
  abbrev pub IsMalformed : Bytes → Type 0
  IsMalformed line = (is_field line ≡ false) × ((read_maps line).1 ≡ false)

  header-malformed :
      (bad : Bytes) (v : Vma) (s : S) (r : List MapInfo × Bool)
      → r.1 ≡ false
      → after_header read_maps callback true v s r ≡ fail s
  header-malformed bad v s (infos, false) h = refl
  header-malformed bad v s (infos, true) h = cc

  resume-malformed :
      (bad : Bytes) (rest : List Bytes) (r : Vma × S × Bool)
      → IsMalformed bad
      → resume rest (and_then r (header_line read_maps callback true bad))
        ≡ after_visit r (λ s'. (s', false))
  unfolding header_line
  resume-malformed bad rest (v', s', true) h =
      ap (resume rest) (header-malformed bad (clear_vma v') s' (read_maps bad) h.1)
  resume-malformed bad rest (v', s', false) h = refl

  scan-malformed :
      (bad : Bytes) (rest : List Bytes) (v : Vma) (s : S)
      → IsMalformed bad
      → scan_lines read_maps callback true true v s (bad ∷ rest)
        ≡ after_visit (callback v s) (λ s'. (s', false))
  scan-malformed bad rest v s h =
      scan-cons bad rest v s h.0 ∙ resume-malformed bad rest (callback v s) h

  abbrev visit_last : Vma → S → S × Bool
  visit_last w s = after_visit (callback w s) (λ s'. (s', false))

  visit_pending-fail :
      (v : Vma) (vs : List Vma) (s : S)
      → visit_pending visit_last v vs s ≡ ((visit (v ∷ vs) s).0, false)
  visit_pending-fail v [] s = last (callback v s)
    where
      last :
          (r : Vma × S × Bool)
          → after_visit r (λ s'. (s', false)) ≡ ((after_visit r (visit [])).0, false)
      last (v', s', true) = refl
      last (v', s', false) = refl
  visit_pending-fail v (w ∷ ws) s = next (callback v s) (λ s'. visit_pending-fail w ws s')
    where
      next :
          (r : Vma × S × Bool)
          → ((s' : S) → visit_pending visit_last w ws s' ≡ ((visit (w ∷ ws) s').0, false))
          → after_visit r (visit_pending visit_last w ws)
            ≡ ((after_visit r (visit (w ∷ ws))).0, false)
      next (v', s', true) ih = ih s'
      next (v', s', false) ih = refl

  -- If the lines are those of at least one well-formed block and then a line that is neither a
  -- counter nor a mapping, the scan fails, after the callbacks for the blocks in front of that line.
  pub for_each_vma_from_file_malformed :
      (content : Bytes) (b : Block) (bs : List Block) (bad : Bytes) (rest : List Bytes) (s : S)
      → getlines content ≡ block_lines (b ∷ bs) (bad ∷ rest)
      → All (IsBlock read_maps) (b ∷ bs)
      → IsMalformed bad
      → for_each_vma_from_file read_maps callback (some content) true s
        ≡ ((visit (map block_vma (b ∷ bs)) s).0, false)
  unfolding for_each_vma_from_file
  for_each_vma_from_file_malformed content b bs bad rest s e h m = rw e (
      scan-first b (block_lines bs (bad ∷ rest)) s h.0
      ∙ scan-pending bs (bad ∷ rest) (block_vma b) s h.1
      ∙ ap (λ k. visit_pending k (block_vma b) (map block_vma bs) s)
          (fun_ext λ w. fun_ext λ s'. scan-malformed bad rest w s' m)
      ∙ visit_pending-fail (block_vma b) (map block_vma bs) s)
