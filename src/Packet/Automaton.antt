-- ===== src/Packet/Automaton.antt =====
-- What the packet processor is meant to do, one byte at a time: an acknowledgement or an interrupt is
-- a packet of its own, a frame is '$', a payload without '#', '#' and two characters of checksum, and
-- any other byte between two packets is noise.
use ds.Base.{
  ℕ, ◌%◌, Bool, true, false, not, ◌&&◌, List, [], ◌∷◌, ◌++◌, Bytes, ◌==◌, if◌then◌else◌, drop,
  is_empty, Lacks,
}
use ds.Packet.Helpers.{checksum}
use ds.Packet.Processor.{Processor, Event, packet, invalid, strtoul, is_control}

pub data Scan : Type 0 where
  idle : Scan
  body : Bytes → Scan
  digits : Bytes → Scan
  last_digit : Bytes → ℕ → Scan

unfoldable pub between : ℕ → Scan × List Event
between c =
    if is_control c
    then (idle, packet (c ∷ []) true ∷ [])
    else if c == b'$'
    then (body [], [])
    else (idle, [])

unfoldable pub step : Scan → ℕ → Scan × List Event
step idle c = between c
step (body s) c = if c == b'#' then (digits s, []) else (body (s ++ c ∷ []), [])
step (digits s) c = (last_digit s c, [])
step (last_digit s d) c = (idle, packet s (strtoul (d ∷ c ∷ []) % 256 == checksum s) ∷ [])

unfoldable pub run : Scan → Bytes → Scan × List Event
run a [] = (a, [])
run a (c ∷ s) = let (b, now) = step a c in let (z, later) = run b s in (z, now ++ later)

-- The processor's state for each state of the automaton.
unfoldable pub represent : Scan → Processor
represent idle = record { buffer = []; nreqs = 0; needhash = false; has_delegate = true }
represent (body s) = record { buffer = b'$' ∷ s; nreqs = 0; needhash = true; has_delegate = true }
represent (digits s) = record {
  buffer = (b'$' ∷ s) ++ b'#' ∷ [];
  nreqs = 2;
  needhash = false;
  has_delegate = true;
}
represent (last_digit s d) = record {
  buffer = (b'$' ∷ s) ++ b'#' ∷ d ∷ [];
  nreqs = 1;
  needhash = false;
  has_delegate = true;
}

-- A payload has no '#'.
abbrev pub IsPayload : Scan → Type 0
IsPayload idle = Unit {0}
IsPayload (body s) = Lacks b'#' s
IsPayload (digits s) = Lacks b'#' s
IsPayload (last_digit s d) = Lacks b'#' s

-- Whether no packet begins in the text.
unfoldable pub is_noise : Bytes → Bool
is_noise [] = true
is_noise (c ∷ s) = not (is_control c) && (not (c == b'$') && is_noise s)

-- The complaint about the part of a chunk that follows the packet completed by the chunk, if that
-- part is not empty and holds noise only.
unfoldable pub noise : Bytes → List Event
noise s = if not (is_empty s) && is_noise s then invalid s ∷ [] else []

unfoldable pub complaint : Scan → Bytes → List Event
complaint idle s = noise s
complaint (body t) s = []
complaint (digits t) s = noise (drop 2 s)
complaint (last_digit t d) s = noise (drop 1 s)
