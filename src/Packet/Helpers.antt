-- ===== src/Packet/Helpers.antt =====
-- Headers/DebugServer2/GDBRemote/ProtocolHelpers.h: the checksum of a packet, and the escapes that
-- keep the framing characters out of a payload. The copying loops between two matches of find_first_of
-- and find are taken one character at a time.
use ds.Base.{
  ℕ, ◌+◌, ◌-◌, ◌%◌, Bool, false, ◌||◌, Option, none, some, [], ◌∷◌, Bytes, ◌==◌, if◌then◌else◌,
  ◌>>=◌,
}

-- `uint8_t csum; csum += n`, from the value so far.
unfoldable pub checksum_from : ℕ → Bytes → ℕ
checksum_from csum [] = csum
checksum_from csum (n ∷ bytes) = checksum_from ((csum + n) % 256) bytes

unfoldable pub checksum : Bytes → ℕ
unfolding checksum_from
checksum bytes = checksum_from 0 bytes

-- Whether the character is one of "$#}*".
unfoldable pub is_special : ℕ → Bool
is_special c = c == b'$' || c == b'#' || c == b'}' || c == b'*'

unfoldable pub has_special : Bytes → Bool
unfolding is_special
has_special [] = false
has_special (c ∷ bytes) = is_special c || has_special bytes

unfoldable pub escape : Bytes → Bytes
unfolding is_special
escape [] = []
escape (c ∷ bytes) =
    if is_special c then b'}' ∷ ((c + 256 - 0x20) % 256) ∷ escape bytes else c ∷ escape bytes

-- `none`: the brace is the last character, and the loop reads and runs past the end of the string.
unfoldable pub unescape : Bytes → Option Bytes
unescape [] = some []
unescape (c ∷ []) = if c == b'}' then none else some (c ∷ [])
unescape (c ∷ d ∷ bytes) =
    let escaped = (do rest ← unescape bytes; some (((d + 0x20) % 256) ∷ rest)) in
    let plain = (do rest ← unescape (d ∷ bytes); some (c ∷ rest)) in
    if c == b'}' then escaped else plain
