-- ===== src/Text.antt =====
-- Byte strings and the functions of the C library that the readers of procmeminfo.cpp,
-- sysmeminfo.cpp and dmabufinfo.cpp call on a line: isspace, strncmp against a literal, strstr,
-- strtoull in base 10, and getline. A string is the list of its bytes; 0 ends a C string.
pub mod Numbers
pub mod Print
pub mod Order
use Prim.Native.Char.{code}
use Prim.Native.String.{String}
use android_system_memory_li.Common.{
  ℕ, ◌+◌, ◌-◌, ◌*◌, Bool, true, false, ◌&&◌, ◌||◌, List, [], ◌∷◌, ◌++◌, Option, none, some, ltb,
  leb, ◌==◌, if◌then◌else◌, u64_mod, ullong_max, sub64,
}

abbrev pub Bytes : Type 0
Bytes = List ℕ

-- The bytes of a literal.
abbrev pub codes : String → Bytes
codes String.[] = []
codes (String.◌∷◌ c s) = code c ∷ codes s

-- `isspace` in the C locale.
abbrev pub is_space : ℕ → Bool
is_space c = c == b' ' || (leb 9 c && leb c 13)

abbrev pub is_digit : ℕ → Bool
is_digit c = leb b'0' c && leb c b'9'

-- `strncmp(line, tag, strlen(tag)) == 0`, the tag first.
unfoldable pub has_prefix : Bytes → Bytes → Bool
has_prefix [] line = true
has_prefix (t ∷ ts) [] = false
has_prefix (t ∷ ts) (c ∷ cs) = t == c && has_prefix ts cs

-- `strstr(line, needle)`: the rest of the line from the first occurrence on.
unfoldable pub find_text : Bytes → Bytes → Option Bytes
unfolding has_prefix
find_text needle [] = if has_prefix needle [] then some [] else none
find_text needle (c ∷ cs) =
    if has_prefix needle (c ∷ cs) then some (c ∷ cs) else find_text needle cs

unfoldable pub skip_spaces : Bytes → Bytes
skip_spaces [] = []
skip_spaces (c ∷ cs) = if is_space c then skip_spaces cs else c ∷ cs

-- The value of the leading digits, the digits read so far being worth `acc`.
unfoldable pub digits_value : ℕ → Bytes → ℕ
digits_value acc [] = acc
digits_value acc (c ∷ cs) = if is_digit c then digits_value (10 * acc + (c - b'0')) cs else acc

unfoldable pub after_digits : Bytes → Bytes
after_digits [] = []
after_digits (c ∷ cs) = if is_digit c then after_digits cs else c ∷ cs

-- Overflow gives ULLONG_MAX.
unfoldable pub saturate : ℕ → ℕ
saturate n = if ltb n u64_mod then n else ullong_max

-- A minus sign negates what does not overflow.
unfoldable pub negate : ℕ → ℕ
negate n = if ltb n u64_mod then sub64 0 n else ullong_max

-- `strtoull(s, nullptr, 10)` behind the white space: a sign, then digits; no digits give 0.
unfoldable pub signed_value : Bytes → ℕ
unfolding digits_value saturate negate
signed_value [] = 0
signed_value (c ∷ cs) =
    if c == b'-'
    then negate (digits_value 0 cs)
    else if c == b'+'
    then saturate (digits_value 0 cs)
    else saturate (digits_value 0 (c ∷ cs))

unfoldable pub strtoull : Bytes → ℕ
unfolding skip_spaces signed_value
strtoull s = signed_value (skip_spaces s)

abbrev pub starts_with_digit : Bytes → Bool
starts_with_digit [] = false
starts_with_digit (c ∷ cs) = is_digit c

abbrev pub strip_sign : Bytes → Bytes
strip_sign [] = []
strip_sign (c ∷ cs) = if c == b'-' || c == b'+' then cs else c ∷ cs

-- `strtoull(s, &endptr, 10)`, with where `endptr` is left; `none` where that is `s` itself, which
-- is where there is no digit to convert.
unfoldable pub strtoull_end : Bytes → Option (ℕ × Bytes)
unfolding strtoull after_digits
strtoull_end s =
    let digits = strip_sign (skip_spaces s) in
    if starts_with_digit digits then some (strtoull s, after_digits digits) else none

-- One more byte in front of the lines that follow it.
abbrev pub prepend : ℕ → List Bytes → List Bytes
prepend c [] = (c ∷ []) ∷ []
prepend c (l ∷ ls) = (c ∷ l) ∷ ls

-- The lines that `getline` returns one after the other, each with its newline.
unfoldable pub getlines : Bytes → List Bytes
getlines [] = []
getlines (c ∷ cs) = let rest = getlines cs in if c == b'\n' then (c ∷ []) ∷ rest else prepend c rest

-- `==` of two strings, and strcmp == 0 of two C strings without a 0 byte.
unfoldable pub text_eq : Bytes → Bytes → Bool
text_eq [] [] = true
text_eq (a ∷ as') (b ∷ bs) = a == b && text_eq as' bs
text_eq _ _ = false

-- The bytes in front of the terminating 0.
unfoldable pub c_string : Bytes → Bytes
c_string [] = []
c_string (c ∷ cs) = if c == 0 then [] else c ∷ c_string cs

-- The lines that std::getline reads one after the other, without their newlines.
unfoldable pub text_lines : Bytes → List Bytes
text_lines [] = []
text_lines (c ∷ cs) = let rest = text_lines cs in if c == b'\n' then [] ∷ rest else prepend c rest

-- `<` of two strings.
unfoldable pub text_lt : Bytes → Bytes → Bool
text_lt s [] = false
text_lt [] (b ∷ bs) = true
text_lt (a ∷ as') (b ∷ bs) = ltb a b || (a == b && text_lt as' bs)
