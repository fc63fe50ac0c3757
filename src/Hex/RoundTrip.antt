-- ===== src/Hex/RoundTrip.antt =====
-- Printing bytes in hexadecimal and reading them back.
use ds.Base.{
  ℕ, ◌/◌, ◌%◌, ◌<◌, ◌≡◌, refl, true, false, Bool, Option, none, some, [], ◌∷◌, Bytes, arith, ◌==◌,
  AreBytes, passes_under, passes_under-at,
}
use ds.Hex.{nibble_to_hex, hex_to_byte, to_hex, hex_to_bytes}

abbrev is : ℕ → Option ℕ → Bool
is b none = false
is b (some a) = a == b

is-eq : (b : ℕ) (o : Option ℕ) → is b o ≡ true → o ≡ some b
is-eq b none h = cc
is-eq b (some a) h = ground arith

byte_table :
    passes_under (λ n. is n (hex_to_byte (nibble_to_hex (n / 16)) (nibble_to_hex (n % 16)))) 256
    ≡ true
unfolding passes_under hex_to_byte nibble_to_hex
byte_table = refl

pub hex_to_byte-nibbles :
    (n : ℕ) → n < 256 → hex_to_byte (nibble_to_hex (n / 16)) (nibble_to_hex (n % 16)) ≡ some n
hex_to_byte-nibbles n h = is-eq n _ (passes_under-at _ 256 n h byte_table)

-- Every byte string survives to_hex followed by hex_to_bytes.
pub hex_to_bytes-to_hex : (s : Bytes) → AreBytes s → hex_to_bytes (to_hex s) ≡ some s
unfolding to_hex hex_to_bytes
hex_to_bytes-to_hex [] h = refl
hex_to_bytes-to_hex (n ∷ s) (lt, rest) =
    ground (arith, hex_to_byte-nibbles n lt, hex_to_bytes-to_hex s rest)
