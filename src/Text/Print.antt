-- ===== src/Text/Print.antt =====
-- What StringPrintf and the stream operators put into a table: decimal and hexadecimal numbers, and
-- fields padded on the left.
use Prim.Native.String.{String}
use android_system_memory_li.Common.{
  ℕ, zero, suc, ◌+◌, ◌-◌, ◌/◌, ◌%◌, Bool, [], ◌∷◌, ◌++◌, ltb, if◌then◌else◌, length, replicate, ℤ,
  pos, negsuc,
}
use android_system_memory_li.Text.{Bytes, codes}

abbrev pub digit_char : ℕ → ℕ
digit_char d = if ltb d 10 then b'0' + d else b'a' + (d - 10)

-- The digits of a number in front of those that are there; twenty are enough for a uint64_t.
unfoldable pub digits_onto : ℕ → ℕ → ℕ → Bytes → Bytes
digits_onto base zero n rest = rest
digits_onto base (suc fuel) n rest =
    let more = digit_char (n % base) ∷ rest in
    let above = digits_onto base fuel (n / base) more in if ltb n base then more else above

-- `%d` and `%u` of a number that is not negative, and `<<`.
unfoldable pub decimal_text : ℕ → Bytes
unfolding digits_onto
decimal_text n = digits_onto 10 20 n []

-- `%x`.
unfoldable pub hex_text : ℕ → Bytes
unfolding digits_onto
hex_text n = digits_onto 16 16 n []

-- `%d`.
unfoldable pub int_text : ℤ → Bytes
unfolding decimal_text
int_text (pos n) = decimal_text n
int_text (negsuc n) = b'-' ∷ decimal_text (suc n)

-- `%<width>s` and std::setw.
unfoldable pub pad_left : ℕ → Bytes → Bytes
pad_left width s = replicate (width - length s) b' ' ++ s

-- `StringPrintf("%<width>" PRIu64 "K  ", n)`.
abbrev pub kb_column : ℕ → ℕ → Bytes
kb_column width n = pad_left width (decimal_text n) ++ codes "K  "

-- `StringPrintf("%<width>s  ", text)`.
abbrev pub text_column : ℕ → String → Bytes
text_column width text = pad_left width (codes text) ++ codes "  "

abbrev pub when : Bool → Bytes → Bytes
when b text = if b then text else []
