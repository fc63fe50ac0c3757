-- ===== src/Packet/Escaping.antt =====
-- What the escapes of Packet.Helpers guarantee.
use ds.Base.{
  ℕ, ◌+◌, ◌%◌, ◌-◌, ◌<◌, ◌≡◌, ◌≢◌, refl, false, none, some, [], ◌∷◌, ◌++◌, Bytes, arith, AreBytes,
  Lacks,
}
use ds.Packet.Helpers.{checksum_from, checksum, has_special, escape, unescape}

pub unescape_brace :
    (d : ℕ) (s t : Bytes)
    → unescape s ≡ some t
    → unescape (b'}' ∷ d ∷ s) ≡ some (((d + 0x20) % 256) ∷ t)
unfolding unescape
unescape_brace d s t h = ground arith

pub unescape_plain :
    (c : ℕ) (s t : Bytes) → c ≢ b'}' → unescape s ≡ some t → unescape (c ∷ s) ≡ some (c ∷ t)
unfolding unescape
unescape_plain c [] t ne h = ground arith
unescape_plain c (d ∷ s) t ne h = ground arith

-- Unescaping an escaped byte string gives it back, whatever bytes it holds.
pub unescape-escape : (s : Bytes) → AreBytes s → unescape (escape s) ≡ some s
unfolding escape
unescape-escape [] h = unfold unescape in refl
unescape-escape (c ∷ s) (lt, rest) = ground (
  arith,
  unescape_brace ((c + 256 - 0x20) % 256) (escape s) s (unescape-escape s rest),
  unescape_plain c (escape s) s,
  unescape-escape s rest,
)

-- The escaped text has none of the characters '$', '#' and '*', which frame a packet or which a
-- receiver expands.
pub escape-Lacks :
    (s : Bytes) → Lacks b'$' (escape s) × Lacks b'#' (escape s) × Lacks b'*' (escape s)
unfolding escape
escape-Lacks [] = (tt, tt, tt)
escape-Lacks (c ∷ s) = ground (arith, escape-Lacks s)

-- A text with no special character is sent as it is.
pub escape-no_special : (s : Bytes) → has_special s ≡ false → escape s ≡ s
unfolding escape has_special
escape-no_special [] h = refl
escape-no_special (c ∷ s) h = ground (arith, escape-no_special s)

pub no_special-Lacks : (s : Bytes) → has_special s ≡ false → Lacks b'#' s
unfolding has_special
no_special-Lacks [] h = tt
no_special-Lacks (c ∷ s) h = ground (arith, no_special-Lacks s)

-- A lone brace at the end of a text that has no other brace makes the decoder run off the end.
pub unescape_trailing : (s : Bytes) → Lacks b'}' s → unescape (s ++ b'}' ∷ []) ≡ none
unfolding unescape
unescape_trailing [] h = refl
unescape_trailing (c ∷ []) h = ground arith
unescape_trailing (c ∷ d ∷ s) h = ground (arith, unescape_trailing (d ∷ s) h.1)

checksum_from-lt : (csum : ℕ) (s : Bytes) → csum < 256 → checksum_from csum s < 256
unfolding checksum_from
checksum_from-lt csum [] h = h
checksum_from-lt csum (n ∷ s) h = checksum_from-lt ((csum + n) % 256) s (omega arith)

pub checksum-lt : (s : Bytes) → checksum s < 256
unfolding checksum
checksum-lt s = checksum_from-lt 0 s (omega arith)
