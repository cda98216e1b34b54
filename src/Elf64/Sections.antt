-- ===== src/Elf64/Sections.antt =====
-- What ParseSections leaves of the sections of a file.
use mathlib.Core.Path.{subst, subst⁻¹}
use mathlib.Core.Bool.{false≢true}
use android_system_memory_li.Common.{
  ℕ, suc, ◌+◌, ◌^◌, ◌≡◌, refl, sym, ap, ◌∙◌, Bool, true, not, ◌&&◌, List, [], ◌∷◌, arith, ltb, ◌==◌,
  if◌then◌else◌, if_cases, length, drop, take, ◌≤◌, ◌++◌, length-append,
}
use android_system_memory_li.Elf64.{
  Done, Elf64Binary, is_name_at, string_table, Parsed, parsed, failed, threw, undefined, Section,
  Stream, ◌>>=◌, parse_section, parse_sections, read, read_names, read_sections, seekg, sht_nobits,
}
use android_system_memory_li.Elf64.Headers.{Shdr}
use android_system_memory_li.Text.{Bytes}

-- A predicate of what is parsed, if the parse succeeds.
abbrev pub OnParsed {ℓ κ} : {A : Type ℓ} → (A → Type κ) → Parsed A → Type κ
OnParsed P (parsed a) = P a
OnParsed P failed = Unit
OnParsed P threw = Unit
OnParsed P undefined = Unit

pub OnParsed-bind {ℓ κ μ ν} :
    {A : Type ℓ} {B : Type κ} (P : A → Type μ) (Q : B → Type ν) (o : Parsed A) (f : A → Parsed B)
    → OnParsed P o
    → ((a : A) → P a → OnParsed Q (f a))
    → OnParsed Q (o >>= f)
OnParsed-bind P Q (parsed a) f h g = g a h
OnParsed-bind P Q failed f h g = tt
OnParsed-bind P Q threw f h g = tt
OnParsed-bind P Q undefined f h g = tt

OnParsed-weaken {ℓ κ μ} :
    {A : Type ℓ} (P : A → Type κ) (Q : A → Type μ) (o : Parsed A)
    → ((a : A) → P a → Q a)
    → OnParsed P o
    → OnParsed Q o
OnParsed-weaken P Q (parsed a) f h = f a h
OnParsed-weaken P Q failed f h = tt
OnParsed-weaken P Q threw f h = tt
OnParsed-weaken P Q undefined f h = tt

pub OnParsed-result {ℓ κ} :
    {A : Type ℓ} (P : A → Type κ) (o : Parsed A) (a : A) → OnParsed P o → o ≡ parsed a → P a
OnParsed-result P o a h e = subst (OnParsed P) e h

-- The bytes of the file from an offset on.
abbrev pub slice : Bytes → ℕ → ℕ → Bytes
slice content offset n = take n (drop offset content)

-- What a read leaves that the stream survives.
abbrev ReadsAt : Stream → ℕ → ℕ → Bytes × Stream → Type 0
ReadsAt s pos n r =
    (r.1).good ≡ true
    → (r.0 ≡ slice s.content pos n)
      × (length r.0 ≡ n)
      × ((r.1).content ≡ s.content)
      × ((r.1).cursor ≡ pos + n)

pub read_here : (n : ℕ) (s : Stream) → ReadsAt s s.cursor n (read n s)
unfolding read
read_here n s =
    if_cases (ReadsAt s s.cursor n) (s.good && length (slice s.content s.cursor n) == n)
      (λ e g. (refl, ground arith, refl, refl)) (λ e g. cc)

read_good : (n : ℕ) (s : Stream) → (read n s).1.good ≡ true → s.good ≡ true
unfolding read
read_good n s =
    if_cases (λ (r : Bytes × Stream). (r.1).good ≡ true → s.good ≡ true)
      (s.good && length (slice s.content s.cursor n) == n) (λ e g. ground arith) (λ e g. cc)

pub read_at : (pos n : ℕ) (s : Stream) → ReadsAt s pos n (read n (seekg pos s))
unfolding seekg
read_at pos n s g =
    subst (λ (cursor : ℕ). ReadsAt s cursor n (read n (seekg pos s)))
      (if_cases (λ (c : ℕ). c ≡ pos) s.good (λ e. refl)
        (λ e.
          absurd
            (false≢true (ap (λ b. b && ltb pos (2 ^ 63)) (sym e) ∙ read_good n (seekg pos s) g))))
      (read_here n (seekg pos s)) g

-- A section is the part of the file that its header names, or empty for SHT_NOBITS; it has the size
-- of the header, and no name.
abbrev pub IsSection : Bytes → ℕ → Shdr → Section → Type 0
IsSection content i h sc =
    (sc.data_bytes ≡ (if h.sh_type == sht_nobits then [] else slice content h.sh_offset h.sh_size))
    × (sc.size ≡ h.sh_size)
    × (sc.index ≡ i)
    × (sc.name ≡ [])

abbrev pub AreSections : Bytes → ℕ → List Shdr → List Section → Type 0
AreSections content i [] [] = Unit
AreSections content i (h ∷ hs) (sc ∷ scs) =
    IsSection content i h sc × AreSections content (suc i) hs scs
AreSections content i _ _ = ⊥

parse_section_lem :
    (can_allocate : ℕ → Bool) (h : Shdr) (i : ℕ) (s : Stream)
    → OnParsed
        (λ (p : Section × Stream). IsSection s.content i h p.0 × ((p.1).content ≡ s.content))
        (parse_section can_allocate h i s)
unfolding parse_section
parse_section_lem can_allocate h i s =
    let P : Section × Stream → Type 0 =
      λ p. IsSection s.content i h p.0 × ((p.1).content ≡ s.content) in
    let r = read h.sh_size (seekg h.sh_offset s) in
    let part = slice s.content h.sh_offset h.sh_size in
    if_cases (OnParsed P) (h.sh_type == sht_nobits)
      (λ e. (
        (
          if_cases (λ (d : Bytes). [] ≡ d) (h.sh_type == sht_nobits) (λ e'. refl) (λ e'. cc),
          refl,
          refl,
          refl,
        ),
        refl,
      ))
      λ e.
        if_cases (OnParsed P) (not (can_allocate h.sh_size)) (λ e'. tt)
          λ e'.
            if_cases (OnParsed P) (r.1).good
              (λ g.
                let found = read_at h.sh_offset h.sh_size s g in
                (
                  (
                    if_cases (λ (d : Bytes). r.0 ≡ d) (h.sh_type == sht_nobits) (λ e''. cc)
                        (λ e''. found.0),
                    refl,
                    refl,
                    refl,
                  ),
                  found.2,
                ))
              (λ g. tt)

read_sections_lem :
    (can_allocate : ℕ → Bool) (content : Bytes) (hs : List Shdr) (i : ℕ) (s : Stream)
    → s.content ≡ content
    → OnParsed
        (λ (p : List Section × Stream). AreSections content i hs p.0)
        (read_sections can_allocate hs i s)
unfolding read_sections
read_sections_lem can_allocate content [] i s same = tt
read_sections_lem can_allocate content (h ∷ hs) i s same =
    let P : Section × Stream → Type 0 =
      λ p. IsSection s.content i h p.0 × ((p.1).content ≡ s.content) in
    OnParsed-bind P (λ (p : List Section × Stream). AreSections content i (h ∷ hs) p.0)
      (parse_section can_allocate h i s) _ (parse_section_lem can_allocate h i s)
      λ p one.
        OnParsed-bind (λ (q : List Section × Stream). AreSections content (suc i) hs q.0) _
          (read_sections can_allocate hs (suc i) p.1) _
          (read_sections_lem can_allocate content hs (suc i) p.1 (one.1 ∙ same))
          λ q rest. (subst (λ c. IsSection c i h p.0) same one.0, rest)

-- Each section has a section header at its index, whose name is a string of the string table.
abbrev pub HaveNames : Bytes → List Shdr → List Section → Type 0
HaveNames table hs [] = Unit
HaveNames table [] (sc ∷ scs) = ⊥
HaveNames table (h ∷ hs) (sc ∷ scs) = (is_name_at table h.sh_name ≡ true) × HaveNames table hs scs

read_names_lem :
    (table : Bytes) (hs : List Shdr) (scs : List Section)
    → OnParsed (λ (d : Done). HaveNames table hs scs) (read_names table hs scs)
unfolding read_names
read_names_lem table hs [] = tt
read_names_lem table [] (sc ∷ scs) = tt
read_names_lem table (h ∷ hs) (sc ∷ scs) =
    if_cases (OnParsed (λ (d : Done). HaveNames table (h ∷ hs) (sc ∷ scs)))
      (is_name_at table h.sh_name)
      (λ e.
        OnParsed-weaken (λ d. HaveNames table hs scs) (λ d. HaveNames table (h ∷ hs) (sc ∷ scs))
          (read_names table hs scs) (λ d names. (e, names)) (read_names_lem table hs scs))
      (λ e. tt)

HaveNames-length :
    (table : Bytes) (hs : List Shdr) (scs : List Section)
    → HaveNames table hs scs
    → length scs ≤ length hs
HaveNames-length table hs [] h = omega arith
HaveNames-length table [] (sc ∷ scs) h = absurd h
HaveNames-length table (x ∷ hs) (sc ∷ scs) h = omega (arith, HaveNames-length table hs scs h.1)

AreSections-length :
    (content : Bytes) (i : ℕ) (hs : List Shdr) (scs : List Section)
    → AreSections content i hs scs
    → length scs ≡ length hs
AreSections-length content i [] [] h = refl
AreSections-length content i [] (sc ∷ scs) h = absurd h
AreSections-length content i (x ∷ hs) [] h = absurd h
AreSections-length content i (x ∷ hs) (sc ∷ scs) h =
    ap suc (AreSections-length content (suc i) hs scs h.1)

-- With a section for each header, there is no place for sections that the object had before.
no_sections :
    (content table : Bytes) (i : ℕ) (hs : List Shdr) (old scs : List Section)
    → AreSections content i hs scs
    → HaveNames table hs (old ++ scs)
    → old ≡ []
no_sections content table i hs [] scs are names = refl
no_sections content table i hs (sc ∷ old) scs are names = absurd (
    omega (
      arith,
      AreSections-length content i hs scs are,
      HaveNames-length table hs (sc ∷ (old ++ scs)) names,
      length-append old scs,
    ))

-- What ParseSections makes of an object: it had no sections, and it has those of the section headers,
-- all of which have names; nothing else of it changes.
abbrev pub GetsSections : Bytes → Elf64Binary → Elf64Binary → Type 0
GetsSections content b r =
    (r ≡ record b { sections = r.sections })
    × (b.sections ≡ [])
    × AreSections content 0 b.shdrs r.sections
    × HaveNames (string_table (b.ehdr).e_shstrndx r.sections) b.shdrs r.sections

pub parse_sections_lem :
    (can_allocate : ℕ → Bool) (b : Elf64Binary) (s : Stream)
    → OnParsed (GetsSections s.content b) (parse_sections can_allocate b s)
unfolding parse_sections
parse_sections_lem can_allocate b s =
    OnParsed-bind (λ (p : List Section × Stream). AreSections s.content 0 b.shdrs p.0)
      (GetsSections s.content b) (read_sections can_allocate b.shdrs 0 s) _
      (read_sections_lem can_allocate s.content b.shdrs 0 s refl)
      λ p are.
        let table = string_table (b.ehdr).e_shstrndx p.0 in
        OnParsed-bind (λ (d : Done). HaveNames table b.shdrs (b.sections ++ p.0))
          (GetsSections s.content b) (read_names table b.shdrs (b.sections ++ p.0)) _
          (read_names_lem table b.shdrs (b.sections ++ p.0))
          λ d names.
            let empty = no_sections s.content table 0 b.shdrs b.sections p.0 are names in
            let same : b.sections ++ p.0 ≡ p.0 = ap (λ old. old ++ p.0) empty in
            (
              refl,
              empty,
              subst⁻¹ (AreSections s.content 0 b.shdrs) same are,
              subst⁻¹ (λ scs. HaveNames (string_table (b.ehdr).e_shstrndx scs) b.shdrs scs) same
                  (subst (HaveNames table b.shdrs) same names),
            )
