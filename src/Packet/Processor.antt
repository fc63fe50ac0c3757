-- ===== src/Packet/Processor.antt =====
-- Sources/GDBRemote/PacketProcessor.cpp: the stream of bytes is cut into packets. A position of
-- `data` (`n`, `first`, `end`) is the rest of `data` that begins there, and npos is `none`. The calls
-- of the delegate are returned as a list of events, in order. The whole result is `none` where
-- std::string::erase throws.
use ds.Base.{
  ℕ, zero, suc, ◌+◌, ◌-◌, ◌*◌, ◌%◌, ◌^◌, Bool, true, false, not, ◌&&◌, ◌||◌, Option, none, some,
  List, [], ◌∷◌, ◌++◌, Bytes, ◌==◌, leb, ltb, if◌then◌else◌, ◌>>=◌, length, take, drop, is_empty,
}
use ds.Hex.{hex_to_nibble}
use ds.Packet.Helpers.{checksum}

pub data Event : Type 0 where
  packet : Bytes → Bool → Event
  invalid : Bytes → Event

-- `_buffer`, `_nreqs`, `_needhash`, and whether `_delegate` is set.
pub record Processor : Type 0 where
  pub buffer : Bytes
  pub nreqs : ℕ
  pub needhash : Bool
  pub has_delegate : Bool

unfoldable pub initial : Processor
initial = record { buffer = []; nreqs = 0; needhash = false; has_delegate = false }

unfoldable pub set_delegate : Processor → Processor
set_delegate p = record p { has_delegate = true }

-- std::string::find of one character.
unfoldable pub find : ℕ → Bytes → Option ℕ
find b [] = none
find b (c ∷ s) = if c == b then some 0 else (do i ← find b s; some (suc i))

-- std::strtoul with base 16: blanks, a sign, an optional 0x, digits up to the first other character.
abbrev is_blank : ℕ → Bool
is_blank c = c == 32 || (leb 9 c && leb c 13)

max_ulong : ℕ
max_ulong = 2 ^ 64 - 1

-- The digits; a value that does not fit is clamped.
unfoldable pub strtoul_digits : ℕ → Bytes → ℕ
unfolding hex_to_nibble max_ulong
strtoul_digits acc [] = acc
strtoul_digits acc (c ∷ s) = elim (hex_to_nibble c) [
  | none ↦ acc
  | some d ↦ strtoul_digits (if ltb max_ulong (acc * 16 + d) then max_ulong else acc * 16 + d) s
]

abbrev is_hex_digit : ℕ → Bool
is_hex_digit c = leb b'0' c && leb c b'9' || (leb b'a' c && leb c b'f' || leb b'A' c && leb c b'F')

strtoul_prefix : Bytes → ℕ
unfolding strtoul_digits
strtoul_prefix (z ∷ x ∷ d ∷ s) =
    if (z == b'0' && (x == b'x' || x == b'X')) && is_hex_digit d
    then strtoul_digits 0 (d ∷ s)
    else strtoul_digits 0 (z ∷ x ∷ d ∷ s)
strtoul_prefix s = strtoul_digits 0 s

-- A minus sign negates in unsigned long.
strtoul_sign : Bytes → ℕ
unfolding strtoul_prefix
strtoul_sign [] = 0
strtoul_sign (c ∷ s) =
    if c == b'-'
    then (2 ^ 64 - strtoul_prefix s) % 2 ^ 64
    else if c == b'+'
    then strtoul_prefix s
    else strtoul_prefix (c ∷ s)

unfoldable pub strtoul : Bytes → ℕ
unfolding strtoul_sign
strtoul [] = 0
strtoul (c ∷ s) = let rest = strtoul s in if is_blank c then rest else strtoul_sign (c ∷ s)

unfoldable pub is_control : ℕ → Bool
is_control c = c == b'+' || c == b'-' || c == 3

-- A frame: the checksum is read behind '#', the first character is erased, and then all from
-- position `csoff - 1` on, where erase throws if `csoff` is 0 or npos.
validate_frame : Option ℕ → Bytes → Option (Bytes × Bool)
validate_frame none buffer = none
validate_frame (some zero) buffer = none
validate_frame (some (suc k)) buffer =
    let csum = strtoul (drop (suc (suc k)) buffer) % 256 in
    let payload = take k (drop 1 buffer) in some (payload, csum == checksum payload)

-- The buffer that validate leaves, and its verdict.
unfoldable pub validate : Bytes → Option (Bytes × Bool)
unfolding validate_frame is_control
validate [] = some ([], false)
validate (c ∷ s) =
    if is_control c then some (c ∷ s, true) else validate_frame (find b'#' (c ∷ s)) (c ∷ s)

-- onPacketData takes `_buffer` by reference, so it sees what validate leaves.
unfoldable pub process : Processor → Option (Processor × List Event)
unfolding validate
process p = do
  (bytes, valid) ← validate p.buffer
  some (record p { buffer = []; nreqs = 0 }, packet bytes valid ∷ [])

-- What follows the loop.
unfoldable pub finish : Processor → Option Bytes → Processor × List Event
finish p none = (p, [])
finish p (some []) = (p, [])
finish p (some (c ∷ s)) =
    if is_empty p.buffer && not (c == b'$')
    then (p, invalid (c ∷ s) ∷ [])
    else (record p { buffer = p.buffer ++ c ∷ s }, [])

-- The outcome of one round: `parse` returns, or the loop goes on at a later position.
pub data Round : Type 0 where
  stop : Processor → Round
  deliver : Processor → Bytes → Round

-- From the label `hash` to the end of its branch: a frame without '#', one that lacks digits of its
-- checksum, or a whole one.
unfoldable pub at_hash : Processor → Option ℕ → Bytes → Round
at_hash p none rest = stop (record p { buffer = p.buffer ++ rest; needhash = true })
at_hash p (some k) rest =
    let avail = length rest - (k + 1) in
    if ltb avail 2
    then stop (record p { buffer = p.buffer ++ rest; nreqs = 2 - avail })
    else deliver (record p { buffer = p.buffer ++ take (k + 3) rest }) (drop (k + 3) rest)

-- A round that delivers a packet goes on behind it, where `first` is npos.
unfoldable pub after_round :
    (Processor → Bytes → Option (Processor × List Event)) → Round → Option (Processor × List Event)
after_round resume (stop q) = some (q, [])
after_round resume (deliver q rest) = do
  (q', now) ← process q
  (r, later) ← resume q' rest
  some (r, now ++ later)

-- The loop, on fuel.
unfoldable pub loop : ℕ → Processor → Option Bytes → Bytes → Option (Processor × List Event)
loop zero p first rest = none
loop (suc fuel) p first [] = some (finish p first)
loop (suc fuel) p first (c ∷ s) =
    let resume = λ (q : Processor) (rest : Bytes). loop fuel q none rest in
    let hash = at_hash (record p { needhash = false }) (find b'#' (c ∷ s)) (c ∷ s) in
    let skipped = loop fuel p first s in
    if p.needhash
    then after_round resume hash
    else if is_control c
    then after_round resume (deliver (record p { buffer = p.buffer ++ c ∷ [] }) s)
    else if c == b'$'
    then after_round resume hash
    else skipped

-- A round for each byte, and one to leave the loop, is enough fuel.
unfoldable pub parse : Processor → Bytes → Option (Processor × List Event)
parse p bytes =
    let n = p.nreqs in
    let topped = record p { buffer = p.buffer ++ take n bytes } in
    let from_start = loop (suc (length bytes)) p (some bytes) bytes in
    let completed = (do
      (q, now) ← process topped
      (r, later) ← loop (suc (length bytes)) q (some (drop n bytes)) (drop n bytes)
      some (r, now ++ later)) in
    if is_empty bytes || not p.has_delegate
    then some (p, [])
    else if n == 0
    then from_start
    else if ltb (length bytes) n && not (n - length bytes == 0)
    then some (record topped { nreqs = n - length bytes }, [])
    else completed
