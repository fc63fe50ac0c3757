-- ===== src/Handlers/Scan.antt =====
-- Sources/GDBRemote/Session.cpp: how the handlers read their arguments. A character pointer into the
-- arguments is the text from there on; the character at the end is the terminating zero.
pub mod Addresses
pub mod AnyBase
pub mod Decimals
pub mod Lists
use ds.Base.{
  ℕ, ◌+◌, ◌-◌, ◌*◌, ◌/◌, ◌%◌, ◌^◌, Bool, true, false, not, ◌&&◌, ◌||◌, Option, none, some, List, [],
  ◌∷◌, ◌++◌, Bytes, ◌==◌, ltb, leb, if◌then◌else◌, length,
}
use ds.Breakpoint.Sites.{Address, unset, at}
use ds.Structures.Numbers.{Scanned, is_blank, strtoul, hex, padded}
use ds.Structures.RegisterTexts.{swap64}
use ds.Structures.CpuTypes.{Endian, is_little}

-- The text that c_str() stands for: it ends before the first zero.
unfoldable pub c_string : Bytes → Bytes
c_string [] = []
c_string (c ∷ s) = if c == 0 then [] else c ∷ c_string s

-- `*eptr++ == wanted`: what follows, if it is.
unfoldable pub expect : ℕ → Bytes → Option Bytes
expect wanted [] = none
expect wanted (c ∷ s) = if c == wanted then some s else none

-- `a == b` of two texts
unfoldable pub same_text : Bytes → Bytes → Bool
same_text [] [] = true
same_text [] (d ∷ t) = false
same_text (c ∷ s) [] = false
same_text (c ∷ s) (d ∷ t) = c == d && same_text s t

-- `static_cast<uint32_t>` of an unsigned long
abbrev pub low32 : ℕ → ℕ
low32 n = n % 2 ^ 32

-- Whether strtol reads a minus sign.
unfoldable pub is_negative : Bytes → Bool
is_negative [] = false
is_negative (c ∷ s) = if is_blank c then is_negative s else c == b'-'

-- The low 32 bits of strtol, which clamps to a signed long, by what strtoul gives.
unfoldable pub signed_int : Bool → Scanned → ℕ
signed_int negative r =
    if negative
    then (if r.out_of_range || (not (r.number == 0) && ltb r.number (2 ^ 63))
        then 0
        else low32 r.number)
    else if r.out_of_range || leb (2 ^ 63) r.number
    then 2 ^ 32 - 1
    else low32 r.number

-- strtol(s, &eptr, 16), as an int
unfoldable pub strtol_int : Bytes → ℕ
unfolding signed_int strtoul is_negative
strtol_int s = signed_int (is_negative s) (strtoul s)

-- The digits in base 10, clamped as strtoul clamps.
unfoldable pub scan_decimals : ℕ → Bool → Bytes → Scanned
scan_decimals acc over [] = record { number = acc; rest = []; out_of_range = over }
scan_decimals acc over (c ∷ s) =
    let fits = ltb (acc * 10 + (c - b'0')) (2 ^ 64) in
    let next =
      scan_decimals (if fits then acc * 10 + (c - b'0') else 2 ^ 64 - 1) (over || not fits) s in
    if leb b'0' c && leb c b'9'
    then next
    else record { number = acc; rest = c ∷ s; out_of_range = over }

unfoldable pub decimals_of : Bytes → Bytes → Scanned
unfolding scan_decimals
decimals_of all [] = record { number = 0; rest = all; out_of_range = false }
decimals_of all (c ∷ s) =
    if leb b'0' c && leb c b'9'
    then scan_decimals 0 false (c ∷ s)
    else record { number = 0; rest = all; out_of_range = false }

unfoldable pub signed_decimals : Bytes → Bytes → Scanned
unfolding decimals_of
signed_decimals all [] = decimals_of all []
signed_decimals all (c ∷ s) =
    let r = decimals_of all s in
    if c == b'-'
    then (if r.out_of_range then r else record r { number = (2 ^ 64 - r.number) % 2 ^ 64 })
    else if c == b'+'
    then r
    else decimals_of all (c ∷ s)

unfoldable pub after_blanks : Bytes → Bytes → Scanned
unfolding signed_decimals
after_blanks all [] = signed_decimals all []
after_blanks all (c ∷ s) =
    let rest = after_blanks all s in if is_blank c then rest else signed_decimals all (c ∷ s)

-- strtoul(s, &eptr, 10)
unfoldable pub strtoul_decimal : Bytes → Scanned
unfolding after_blanks
strtoul_decimal s = after_blanks s s

-- std::atoi
unfoldable pub atoi : Bytes → ℕ
unfolding signed_int strtoul_decimal is_negative
atoi s = signed_int (is_negative s) (strtoul_decimal s)

-- string.find(separator): what stands before it and after it.
unfoldable pub cut : ℕ → Bytes → Option (Bytes × Bytes)
cut separator [] = none
cut separator (c ∷ s) =
    let rest : Option (Bytes × Bytes) = elim (cut separator s) [
      | none ↦ none
      | some (a, b) ↦ some (c ∷ a, b)
    ] in
    if c == separator then some ([], s) else rest

-- The pieces that ParseList calls its callback with; the text is not empty there.
unfoldable pub pieces : ℕ → Bytes → Bytes → List Bytes
pieces separator acc [] = acc ∷ []
pieces separator acc (c ∷ s) =
    let ended = acc ∷ (elim s [ [] ↦ [] | d ∷ r ↦ pieces separator [] s ]) in
    let more = pieces separator (acc ++ c ∷ []) s in if c == separator then ended else more

-- ParseList: `none` if the string is empty.
unfoldable pub parse_list : ℕ → Bytes → Option (List Bytes)
unfolding pieces
parse_list separator [] = none
parse_list separator (c ∷ s) = some (pieces separator [] (c ∷ s))

-- ptr == *eptr: nothing was read. The end pointer is the whole text then.
unfoldable pub nothing_read : Bytes → Scanned → Bool
nothing_read s r = length r.rest == length s

-- Session::parseAddress, with the end pointer. The result is whether `address` was set.
unfoldable pub parse_address : ℕ → Endian → Bytes → Address × Bytes
unfolding swap64 nothing_read strtoul
parse_address regsize endian s =
    let r = strtoul s in
    if nothing_read s r
    then (unset, r.rest)
    else if is_little endian
    then (
      at (
          if regsize == 64
          then swap64 r.number / 2 ^ (64 - regsize)
          else swap64 r.number / 2 ^ (64 - regsize) % 2 ^ regsize),
      r.rest,
    )
    else (at r.number, r.rest)

abbrev pub is_set : Address → Bool
is_set unset = false
is_set (at a) = true

-- Session::formatAddress.
unfoldable pub format_address : ℕ → Endian → ℕ → Bytes
unfolding swap64 padded hex
format_address regsize endian address =
    let value = if regsize == 64 then address else address % 2 ^ regsize in
    padded (regsize / 4)
      (hex (if is_little endian then swap64 value / 2 ^ (64 - regsize) else value))
