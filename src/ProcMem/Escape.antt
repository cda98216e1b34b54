-- ===== src/ProcMem/Escape.antt =====
-- GetFormat, EscapeCsvString and EscapeJsonString of procmeminfo.cpp.
pub mod RoundTrip
use Prim.Native.String.{String}
use android_system_memory_li.Common.{
  ℕ, Bool, true, false, ◌&&◌, List, [], ◌∷◌, ◌++◌, ◌==◌, if◌then◌else◌,
}
use android_system_memory_li.Text.{Bytes, codes, text_eq}

pub data Format : Type 0 where
  invalid raw json csv : Format

unfoldable pub get_format : Bytes → Format
unfolding text_eq
get_format arg =
    if text_eq arg (codes "json")
    then json
    else if text_eq arg (codes "csv")
    then csv
    else if text_eq arg (codes "raw")
    then raw
    else invalid

-- One character of EscapeCsvString: the case of the quote appends the quote itself.
abbrev pub csv_char : ℕ → Bytes
csv_char c = if c == b'"' then b'"' ∷ [] else c ∷ []

unfoldable pub csv_body : Bytes → Bytes
csv_body [] = []
csv_body (c ∷ cs) = csv_char c ++ csv_body cs

unfoldable pub escape_csv_string : Bytes → Bytes
unfolding csv_body
escape_csv_string s = b'"' ∷ (csv_body s ++ b'"' ∷ [])

-- The `switch` of EscapeJsonString; 8 and 12 are \b and \f.
unfoldable pub json_char : ℕ → Bytes
json_char c =
    if c == b'\\'
    then codes "\\\\"
    else if c == b'"'
    then codes "\\\""
    else if c == b'/'
    then codes "\\/"
    else if c == 8
    then codes "\\b"
    else if c == 12
    then codes "\\f"
    else if c == b'\n'
    then codes "\\n"
    else if c == b'\r'
    then codes "\\r"
    else if c == b'\t'
    then codes "\\t"
    else c ∷ []

unfoldable pub json_body : Bytes → Bytes
unfolding json_char
json_body [] = []
json_body (c ∷ cs) = json_char c ++ json_body cs

unfoldable pub escape_json_string : Bytes → Bytes
unfolding json_body
escape_json_string s = b'"' ∷ (json_body s ++ b'"' ∷ [])
