-- ===== src/Structures/Numbers.antt =====
-- The number formats of the standard library that Sources/GDBRemote/Structures.cpp uses: std::hex and
-- std::dec output, and strtoul in base 16 with its end pointer and errno, as the C standard and glibc
-- describe them. A number that is printed is below 2 ^ 64.
pub mod RoundTrip
pub mod Fixed
pub mod Padded
use ds.Base.{
  ℕ, zero, suc, ◌+◌, ◌-◌, ◌*◌, ◌/◌, ◌%◌, ◌^◌, Bool, true, false, ◌&&◌, ◌||◌, Option, none, some, [],
  ◌∷◌, ◌++◌, Bytes, ◌==◌, ltb, leb, if◌then◌else◌, length,
}
use ds.Hex.{nibble_to_hex, hex_to_nibble}

-- The digits of a number, so many at most.
unfoldable pub digits_of : ℕ → ℕ → ℕ → Bytes
unfolding nibble_to_hex
digits_of base zero n = []
digits_of base (suc fuel) n =
    let higher = digits_of base fuel (n / base) in
    if ltb n base then nibble_to_hex n ∷ [] else higher ++ nibble_to_hex (n % base) ∷ []

-- `<< std::hex`, with no width.
unfoldable pub hex : ℕ → Bytes
unfolding digits_of
hex n = digits_of 16 16 n

-- `<< std::dec`
unfoldable pub dec : ℕ → Bytes
unfolding digits_of
dec n = digits_of 10 20 n

-- std::setfill('0') << std::setw(width)
unfoldable pub zeros : ℕ → Bytes
zeros zero = []
zeros (suc n) = b'0' ∷ zeros n

unfoldable pub padded : ℕ → Bytes → Bytes
unfolding zeros
padded width s = zeros (width - length s) ++ s

-- What strtoul gives: the value, where it stopped, and whether errno is ERANGE.
pub record Scanned : Type 0 where
  pub number : ℕ
  pub rest : Bytes
  pub out_of_range : Bool

-- The digits; a value that does not fit is clamped.
unfoldable pub scan_digits : ℕ → Bool → Bytes → Scanned
unfolding hex_to_nibble
scan_digits acc over [] = record { number = acc; rest = []; out_of_range = over }
scan_digits acc over (c ∷ s) = elim (hex_to_nibble c) [
  | none ↦ record { number = acc; rest = c ∷ s; out_of_range = over }
  | some d ↦
      scan_digits (if ltb (acc * 16 + d) (2 ^ 64) then acc * 16 + d else 2 ^ 64 - 1)
        (over || leb (2 ^ 64) (acc * 16 + d)) s
]

abbrev pub is_some_digit : Option ℕ → Bool
is_some_digit none = false
is_some_digit (some d) = true

-- An optional 0x stands before a digit; with no digits at all the end pointer is the whole text.
unfoldable pub scan_prefix : Bytes → Bytes → Scanned
unfolding scan_digits hex_to_nibble
scan_prefix all [] = record { number = 0; rest = all; out_of_range = false }
scan_prefix all (z ∷ x ∷ d ∷ s) =
    if (z == b'0' && (x == b'x' || x == b'X')) && is_some_digit (hex_to_nibble d)
    then scan_digits 0 false (d ∷ s)
    else if is_some_digit (hex_to_nibble z)
    then scan_digits 0 false (z ∷ x ∷ d ∷ s)
    else record { number = 0; rest = all; out_of_range = false }
scan_prefix all (z ∷ s) =
    if is_some_digit (hex_to_nibble z)
    then scan_digits 0 false (z ∷ s)
    else record { number = 0; rest = all; out_of_range = false }

-- A minus sign negates in unsigned long, unless the value is out of range.
unfoldable pub negated : Scanned → Scanned
negated r = if r.out_of_range then r else record r { number = (2 ^ 64 - r.number) % 2 ^ 64 }

unfoldable pub scan_sign : Bytes → Bytes → Scanned
unfolding scan_prefix negated
scan_sign all [] = scan_prefix all []
scan_sign all (c ∷ s) =
    if c == b'-'
    then negated (scan_prefix all s)
    else if c == b'+'
    then scan_prefix all s
    else scan_prefix all (c ∷ s)

-- Blanks come first.
abbrev pub is_blank : ℕ → Bool
is_blank c = c == 32 || (leb 9 c && leb c 13)

unfoldable pub skip_blanks : Bytes → Bytes → Scanned
unfolding scan_sign
skip_blanks all [] = scan_sign all []
skip_blanks all (c ∷ s) =
    let rest = skip_blanks all s in if is_blank c then rest else scan_sign all (c ∷ s)

-- strtoul(s, &rest, 16)
unfoldable pub strtoul : Bytes → Scanned
unfolding skip_blanks
strtoul s = skip_blanks s s
