-- ===== src/Hex.antt =====
-- Headers/DebugServer2/Utils/HexValues.h: bytes in hexadecimal. A character is its byte value, and
-- `none` stands for DS2_UNREACHABLE or a failed DS2ASSERT, where the program stops.
pub mod RoundTrip
use ds.Base.{
  ℕ, ◌+◌, ◌-◌, ◌*◌, ◌/◌, ◌%◌, Option, none, some, [], ◌∷◌, ◌++◌, ◌&&◌, Bytes, codes, leb, get_or,
  if◌then◌else◌, ◌>>=◌,
}

abbrev hex_digits : Bytes
hex_digits = codes "0123456789abcdef"

-- "0123456789abcdef"[byte & 0x0f]
unfoldable pub nibble_to_hex : ℕ → ℕ
nibble_to_hex byte = get_or hex_digits (byte % 16) 0

unfoldable pub hex_to_nibble : ℕ → Option ℕ
hex_to_nibble ch =
    if leb b'0' ch && leb ch b'9'
    then some (ch - b'0')
    else if leb b'a' ch && leb ch b'f'
    then some (ch - b'a' + 10)
    else if leb b'A' ch && leb ch b'F'
    then some (ch - b'A' + 10)
    else none

-- `(hi << 4) | lo`: both are nibbles, so the fields are disjoint and `|` is a sum.
unfoldable pub hex_to_byte : ℕ → ℕ → Option ℕ
unfolding hex_to_nibble
hex_to_byte c d = do hi ← hex_to_nibble c; lo ← hex_to_nibble d; some (hi * 16 + lo)

-- `n` is a signed char, `n >> 4` keeps its high nibble and nibble_to_hex takes the low four bits.
unfoldable pub to_hex : Bytes → Bytes
unfolding nibble_to_hex
to_hex [] = []
to_hex (n ∷ vec) = nibble_to_hex (n / 16) ∷ nibble_to_hex (n % 16) ∷ to_hex vec

-- HexToByteVector, and HexToString, which differs in the container only.
unfoldable pub hex_to_bytes : Bytes → Option Bytes
unfolding hex_to_byte
hex_to_bytes [] = some []
hex_to_bytes (c ∷ []) = none
hex_to_bytes (c ∷ d ∷ str) = do b ← hex_to_byte c d; rest ← hex_to_bytes str; some (b ∷ rest)
