-- ===== src/Handlers/Scan/AnyBase.antt =====
-- Sources/GDBRemote/Session.cpp: the calls of strtoul in base 0, whose base is in the number.
use ds.Base.{
  ℕ, ◌+◌, ◌-◌, ◌*◌, ◌^◌, Bool, false, not, ◌&&◌, ◌||◌, [], ◌∷◌, Bytes, ◌==◌, ltb, leb,
  if◌then◌else◌,
}
use ds.Hex.{hex_to_nibble}
use ds.Structures.Numbers.{Scanned, scan_digits, negated, is_blank, is_some_digit}

-- The digits in a base of 10 at most, clamped as strtoul clamps.
unfoldable pub scan_below : ℕ → ℕ → Bool → Bytes → Scanned
scan_below base acc over [] = record { number = acc; rest = []; out_of_range = over }
scan_below base acc over (c ∷ s) =
    let fits = ltb (acc * base + (c - b'0')) (2 ^ 64) in
    let next =
      scan_below base (if fits then acc * base + (c - b'0') else 2 ^ 64 - 1) (over || not fits) s in
    if leb b'0' c && ltb c (b'0' + base)
    then next
    else record { number = acc; rest = c ∷ s; out_of_range = over }

-- A number that begins with 0 is octal.
unfoldable pub octal_or_decimal : Bytes → Scanned
unfolding scan_below
octal_or_decimal [] = record { number = 0; rest = []; out_of_range = false }
octal_or_decimal (c ∷ s) = scan_below (if c == b'0' then 8 else 10) 0 false (c ∷ s)

-- One that begins with 0x, before a digit, is hexadecimal.
unfoldable pub any_digits : Bytes → Scanned
unfolding octal_or_decimal hex_to_nibble scan_digits
any_digits (z ∷ x ∷ d ∷ s) =
    if (z == b'0' && (x == b'x' || x == b'X')) && is_some_digit (hex_to_nibble d)
    then scan_digits 0 false (d ∷ s)
    else octal_or_decimal (z ∷ x ∷ d ∷ s)
any_digits s = octal_or_decimal s

unfoldable pub any_signed : Bytes → Scanned
unfolding any_digits negated
any_signed [] = any_digits []
any_signed (c ∷ s) =
    if c == b'-'
    then negated (any_digits s)
    else if c == b'+'
    then any_digits s
    else any_digits (c ∷ s)

-- The value of strtoul(s, nullptr, 0)
unfoldable pub strtoul_any : Bytes → ℕ
unfolding any_signed
strtoul_any [] = 0
strtoul_any (c ∷ s) =
    let rest = strtoul_any s in if is_blank c then rest else (any_signed (c ∷ s)).number
