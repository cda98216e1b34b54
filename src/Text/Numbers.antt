-- ===== src/Text/Numbers.antt =====
-- `strtoull` on what the kernel prints: white space, digits, and a rest that starts with no digit.
use android_system_memory_li.Common.{
  ℕ, ◌+◌, ◌-◌, ◌*◌, ◌<◌, ◌≡◌, refl, true, false, [], ◌∷◌, ◌++◌, some, All, arith, lt→ltb, ◌^◌,
}
use android_system_memory_li.Text.{
  Bytes, is_space, is_digit, has_prefix, skip_spaces, digits_value, after_digits, saturate,
  signed_value, strtoull, starts_with_digit, strtoull_end,
}

-- Decimal digits and their value, most significant first.
abbrev pub AllDigits : Bytes → Type 0
AllDigits = All (λ c. is_digit c ≡ true)

abbrev pub AllSpaces : Bytes → Type 0
AllSpaces = All (λ c. is_space c ≡ true)

abbrev pub decimal : ℕ → Bytes → ℕ
decimal acc [] = acc
decimal acc (c ∷ cs) = decimal (10 * acc + (c - b'0')) cs

pub skip_spaces-append : (ws s : Bytes) → AllSpaces ws → skip_spaces (ws ++ s) ≡ skip_spaces s
unfolding skip_spaces
skip_spaces-append [] s h = refl
skip_spaces-append (w ∷ ws) s h = ground (arith, skip_spaces-append ws s h.1)

pub digits_value-append :
    (acc : ℕ) (ds rest : Bytes)
    → AllDigits ds
    → starts_with_digit rest ≡ false
    → digits_value acc (ds ++ rest) ≡ decimal acc ds
unfolding digits_value
digits_value-append acc [] [] h r = refl
digits_value-append acc [] (c ∷ rest) h r = ground arith
digits_value-append acc (d ∷ ds) rest h r =
    ground (arith, digits_value-append (10 * acc + (d - b'0')) ds rest h.1 r)

pub after_digits-append :
    (ds rest : Bytes)
    → AllDigits ds
    → starts_with_digit rest ≡ false
    → after_digits (ds ++ rest) ≡ rest
unfolding after_digits
after_digits-append [] [] h r = refl
after_digits-append [] (c ∷ rest) h r = ground arith
after_digits-append (d ∷ ds) rest h r = ground (arith, after_digits-append ds rest h.1 r)

signed_value_digits :
    (d : ℕ) (s : Bytes)
    → is_digit d ≡ true
    → signed_value (d ∷ s) ≡ saturate (digits_value 0 (d ∷ s))
unfolding signed_value
signed_value_digits d s h = ground arith

saturate_small : (n : ℕ) → n < 2 ^ 64 → saturate n ≡ n
unfolding saturate
saturate_small n h = rw (lt→ltb n (2 ^ 64) h)

skip_spaces_digit : (d : ℕ) (s : Bytes) → is_digit d ≡ true → skip_spaces (d ∷ s) ≡ d ∷ s
unfolding skip_spaces
skip_spaces_digit d s h = ground arith

pub strtoull_digits :
    (ws : Bytes) (d : ℕ) (ds rest : Bytes)
    → AllSpaces ws
    → AllDigits (d ∷ ds)
    → starts_with_digit rest ≡ false
    → decimal 0 (d ∷ ds) < 2 ^ 64
    → strtoull (ws ++ (d ∷ (ds ++ rest))) ≡ decimal 0 (d ∷ ds)
unfolding strtoull
strtoull_digits ws d ds rest hw hd hr small =
    rw
      (
        skip_spaces-append ws (d ∷ (ds ++ rest)) hw,
        skip_spaces_digit d (ds ++ rest) hd.0,
        signed_value_digits d (ds ++ rest) hd.0,
        digits_value-append 0 (d ∷ ds) rest hd hr,
      )
      (saturate_small _ small)

strtoull_end-eq :
    (ws : Bytes) (d : ℕ) (s : Bytes)
    → AllSpaces ws
    → is_digit d ≡ true
    → strtoull_end (ws ++ (d ∷ s)) ≡ some (strtoull (ws ++ (d ∷ s)), after_digits (d ∷ s))
unfolding strtoull_end
strtoull_end-eq ws d s hw hd =
    rw (skip_spaces-append ws (d ∷ s) hw, skip_spaces_digit d s hd) (ground arith)

pub strtoull_end_digits :
    (ws : Bytes) (d : ℕ) (ds rest : Bytes)
    → AllSpaces ws
    → AllDigits (d ∷ ds)
    → starts_with_digit rest ≡ false
    → decimal 0 (d ∷ ds) < 2 ^ 64
    → strtoull_end (ws ++ (d ∷ (ds ++ rest))) ≡ some (decimal 0 (d ∷ ds), rest)
strtoull_end_digits ws d ds rest hw hd hr small = rw (
  strtoull_end-eq ws d (ds ++ rest) hw hd.0,
  strtoull_digits ws d ds rest hw hd hr small,
  after_digits-append (d ∷ ds) rest hd hr,
)

-- A tag in front of a line is a prefix of it.
pub has_prefix_self : (tag rest : Bytes) → has_prefix tag (tag ++ rest) ≡ true
unfolding has_prefix
has_prefix_self [] rest = refl
has_prefix_self (t ∷ ts) rest = ground (arith, has_prefix_self ts rest)

pub strtoull-lt : (s : Bytes) → strtoull s < 2 ^ 64
unfolding strtoull
strtoull-lt s = signed-lt (skip_spaces s)
  where
    signed-lt : (t : Bytes) → signed_value t < 2 ^ 64
    signed-lt [] = omega arith
    signed-lt (c ∷ cs) = ground arith
