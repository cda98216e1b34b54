-- ===== src/ProcMem/Escape/RoundTrip.antt =====
-- The texts that a JSON reader recovers from what EscapeJsonString wrote, and those that a CSV reader
-- recovers from what EscapeCsvString wrote.
use android_system_memory_li.Common.{
  ℕ, Bool, true, false, [], ◌∷◌, ◌++◌, Option, none, some, ◌≡◌, refl, arith, ap, ◌∙◌, ◌==◌, ◌||◌,
  ◌↔◌, ◌+◌, length, length-append, ltb, not, ◌&&◌, All, is_some, sym, Bool-cases, inl, inr,
  if◌then◌else◌,
}
use android_system_memory_li.Text.{Bytes}
use mathlib.Core.Bool.{false≢true}
use mathlib.Core.List.{append_assoc}
use android_system_memory_li.ProcMem.Escape.{
  csv_body, escape_csv_string, json_char, json_body, escape_json_string,
}

-- The character that an escape stands for (RFC 8259, without \u).
abbrev unescaped : ℕ → Option ℕ
unescaped c =
    if c == b'"' || c == b'\\' || c == b'/'
    then some c
    else if c == b'b'
    then some 8
    else if c == b'f'
    then some 12
    else if c == b'n'
    then some b'\n'
    else if c == b'r'
    then some b'\r'
    else if c == b't'
    then some b'\t'
    else none

abbrev keep : Option ℕ → Option (Bytes × Bytes) → Option (Bytes × Bytes)
keep (some c) (some (text, rest)) = some (c ∷ text, rest)
keep _ _ = none

-- The characters of a JSON string up to its closing quote, and what follows it. A character below 32
-- has to be escaped, and a '/' too unless `raw_slash`. The flag `escaped` says that a backslash has
-- been read.
pub read_chars : Bool → Bool → Bytes → Option (Bytes × Bytes)
read_chars raw_slash escaped [] = none
read_chars raw_slash true (c ∷ cs) = keep (unescaped c) (read_chars raw_slash false cs)
read_chars raw_slash false (c ∷ cs) =
    let plain = keep (some c) (read_chars raw_slash false cs) in
    let escape = read_chars raw_slash true cs in
    if c == b'"'
    then some ([], cs)
    else if c == b'\\'
    then escape
    else if ltb c 32 || c == b'/' && not raw_slash
    then none
    else plain

abbrev pub read_json_string : Bool → Bytes → Option (Bytes × Bytes)
read_json_string raw_slash [] = none
read_json_string raw_slash (c ∷ cs) = if c == b'"' then read_chars raw_slash false cs else none

-- The characters that have an escape of two characters, and those from 32 on.
abbrev pub is_text : ℕ → Bool
is_text c = not (ltb c 32) || c == 8 || c == b'\t' || c == b'\n' || c == 12 || c == b'\r'

abbrev pub IsText : Bytes → Type 0
IsText = All (λ c. is_text c ≡ true)

read_chars-char :
    (raw_slash : Bool) (c : ℕ) (rest : Bytes)
    → is_text c ≡ true
    → read_chars raw_slash false (json_char c ++ rest)
      ≡ keep (some c) (read_chars raw_slash false rest)
unfolding read_chars json_char
read_chars-char raw_slash c rest h = ground arith

read_chars-control :
    (raw_slash : Bool) (c : ℕ) (rest : Bytes)
    → is_text c ≡ false
    → read_chars raw_slash false (json_char c ++ rest) ≡ none
unfolding read_chars json_char
read_chars-control raw_slash c rest h = ground arith

read_chars-body :
    (raw_slash : Bool) (s rest : Bytes)
    → IsText s
    → read_chars raw_slash false (json_body s ++ (b'"' ∷ rest)) ≡ some (s, rest)
unfolding json_body
read_chars-body raw_slash [] rest h = unfold read_chars in refl
read_chars-body raw_slash (c ∷ cs) rest (h, hs) =
    rw (append_assoc (json_char c) (json_body cs) (b'"' ∷ rest)) (
      read_chars-char raw_slash c (json_body cs ++ (b'"' ∷ rest)) h
      ∙ ap (keep (some c)) (read_chars-body raw_slash cs rest hs))

keep-is_some :
    (c : ℕ) (o : Option (Bytes × Bytes)) → is_some (keep (some c) o) ≡ true → is_some o ≡ true
keep-is_some c none h = cc
keep-is_some c (some p) h = refl

read_chars-IsText :
    (raw_slash : Bool) (s rest : Bytes)
    → is_some (read_chars raw_slash false (json_body s ++ (b'"' ∷ rest))) ≡ true
    → IsText s
unfolding json_body
read_chars-IsText raw_slash [] rest h = tt
read_chars-IsText raw_slash (c ∷ cs) rest h =
    let after = json_body cs ++ (b'"' ∷ rest) in
    let h' : is_some (read_chars raw_slash false (json_char c ++ after)) ≡ true =
      (rw (append_assoc (json_char c) (json_body cs) (b'"' ∷ rest)) at h) in
    elim (Bool-cases (is_text c)) [
      | inl text ↦ (
        text,
        read_chars-IsText raw_slash cs rest (
            keep-is_some c (read_chars raw_slash false after)
              (ap is_some (sym (read_chars-char raw_slash c after text)) ∙ h')),
      )
      | inr control ↦
          absurd (false≢true (ap is_some (sym (read_chars-control raw_slash c after control)) ∙ h'))
    ]

-- Whatever follows, a JSON reader recovers a text from what EscapeJsonString returns for it, and stops
-- behind the closing quote, exactly when the text has no character below 32 but \b, \t, \n, \f and
-- \r: the others are copied where the format wants them escaped. This holds of a reader that takes a
-- '/' as it is, and of one that wants it escaped.
pub read-escape_json_string :
    (raw_slash : Bool) (s rest : Bytes)
    → (read_json_string raw_slash (escape_json_string s ++ rest) ≡ some (s, rest)) ↔ IsText s
unfolding escape_json_string
read-escape_json_string raw_slash s rest =
    rw (append_assoc (json_body s) (b'"' ∷ []) rest)
      (λ h. read_chars-IsText raw_slash s rest (ap is_some h), read_chars-body raw_slash s rest)

-- A quoted CSV field (RFC 4180): a doubled quote stands for a quote, and a single one ends the
-- field. The flag says that a quote has been read.
pub read_csv_chars : Bool → Bytes → Option (Bytes × Bytes)
read_csv_chars false [] = none
read_csv_chars true [] = some ([], [])
read_csv_chars false (c ∷ cs) =
    let plain = keep (some c) (read_csv_chars false cs) in
    let quote = read_csv_chars true cs in if c == b'"' then quote else plain
read_csv_chars true (c ∷ cs) =
    let plain = keep (some c) (read_csv_chars false cs) in
    if c == b'"' then plain else some ([], c ∷ cs)

abbrev pub read_csv_field : Bytes → Option (Bytes × Bytes)
read_csv_field [] = none
read_csv_field (c ∷ cs) = if c == b'"' then read_csv_chars false cs else none

abbrev pub quotes : Bytes → ℕ
quotes [] = 0
quotes (c ∷ cs) = (if c == b'"' then 1 else 0) + quotes cs

csv_body-eq : (s : Bytes) → csv_body s ≡ s
unfolding csv_body
csv_body-eq [] = refl
csv_body-eq (c ∷ cs) = ground (arith, csv_body-eq cs)

read_csv-plain : (s : Bytes) → quotes s ≡ 0 → read_csv_chars false (s ++ b'"' ∷ []) ≡ some (s, [])
unfolding read_csv_chars
read_csv-plain [] h = refl
read_csv-plain (c ∷ cs) h = ground (arith, read_csv-plain cs)

keep-eq-some :
    (c : ℕ) (o : Option (Bytes × Bytes)) {text rest : Bytes}
    → keep (some c) o ≡ some (text, rest)
    → (text' : Bytes) × (text ≡ c ∷ text') × (o ≡ some (text', rest))
keep-eq-some c none h = cc
keep-eq-some c (some (t, r)) h = (t, ground arith, ground arith)

-- The places that a reader goes through: one for each character, two for a quote, and one for the
-- closing quote if it is still to come.
abbrev Uses : Bool → Bytes → Bytes → Bytes → Type 0
Uses seen s text rest = length text + quotes text + (if seen then 0 else 1) + length rest ≡ length s

read_csv-Uses :
    (seen : Bool) (s text rest : Bytes)
    → read_csv_chars seen s ≡ some (text, rest)
    → Uses seen s text rest
unfolding read_csv_chars
read_csv-Uses false [] text rest h = cc
read_csv-Uses true [] text rest h = ground arith
read_csv-Uses false (c ∷ cs) text rest h = elim (Bool-cases (c == b'"')) [
  | inl quote ↦ omega (arith, read_csv-Uses true cs text rest (rw quote at h))
  | inr plain ↦
      let (text', e, h') = keep-eq-some c (read_csv_chars false cs) (rw plain at h) in
      let ih = read_csv-Uses false cs text' rest h' in rw (e, plain) (omega arith)
]
read_csv-Uses true (c ∷ cs) text rest h = elim (Bool-cases (c == b'"')) [
  | inl quote ↦
      let (text', e, h') = keep-eq-some c (read_csv_chars false cs) (rw quote at h) in
      let ih = read_csv-Uses false cs text' rest h' in rw (e, quote) (omega arith)
  | inr plain ↦ ground arith
]

-- A CSV reader recovers the text from what EscapeCsvString returns exactly when the text has no
-- quote: a quote is copied where the format wants it doubled.
pub read-escape_csv_string :
    (s : Bytes) → (read_csv_field (escape_csv_string s) ≡ some (s, [])) ↔ (quotes s ≡ 0)
unfolding escape_csv_string
read-escape_csv_string s = rw (csv_body-eq s) (
  λ h. omega (arith, read_csv-Uses false (s ++ b'"' ∷ []) s [] h, length-append s (b'"' ∷ [])),
  read_csv-plain s,
)
