-- ===== src/Session/Framing.antt =====
-- What is sent is received.
use ds.Base.{
  ℕ, ◌/◌, ◌%◌, ◌<◌, ◌≡◌, refl, sym, ap, ◌∙◌, inl, inr, true, false, Option, none, some, List, [],
  ◌∷◌, ◌++◌, Bytes, ◌==◌, Lacks, All, AreBytes, passes_under, passes_under-at, Bool-cases, ◌>>=◌,
}
use ds.Hex.{nibble_to_hex}
use ds.Packet.Helpers.{checksum, has_special, escape, unescape}
use ds.Packet.Escaping.{unescape-escape, escape-Lacks, escape-no_special, checksum-lt}
use ds.Packet.Processor.{Event, packet, strtoul, is_control, initial, set_delegate}
use ds.Packet.Automaton.{idle, step, between, run, represent}
use ds.Packet.Refinement.Frame.{run-body_hash}
use ds.Packet.Chunks.{parse_all, parse_all-run, packets, concat, run-append}
use ds.Session.{frame, send_text}

checksum_table :
    passes_under
      (λ n. strtoul (nibble_to_hex (n / 16) ∷ nibble_to_hex (n % 16) ∷ []) % 256 == n)
      256
    ≡ true
unfolding passes_under strtoul nibble_to_hex
checksum_table = refl

-- The two digits are read back as the checksum.
strtoul-nibbles :
    (n : ℕ)
    → n < 256
    → (strtoul (nibble_to_hex (n / 16) ∷ nibble_to_hex (n % 16) ∷ []) % 256 == n) ≡ true
strtoul-nibbles n h = passes_under-at _ 256 n h checksum_table

-- A frame is one valid packet, and the automaton is back between two packets.
run-frame : (s : Bytes) → Lacks b'#' s → run idle (frame s) ≡ (idle, packet s true ∷ [])
unfolding frame run step between is_control
run-frame s h =
    rw
      (
        run-body_hash [] s (nibble_to_hex (checksum s / 16) ∷ nibble_to_hex (checksum s % 16) ∷ [])
            h,
        strtoul-nibbles (checksum s) (checksum-lt s),
      )
      refl

send_text-frame : (s : Bytes) → send_text s false ≡ frame (escape s)
unfolding send_text
send_text-frame s = elim (Bool-cases (has_special s)) [
  | inl e ↦ rw e refl
  | inr e ↦ rw e (ap frame (sym (escape-no_special s e)))
]

-- A sequence of calls of `send`.
unfoldable pub sent : List Bytes → Bytes
sent [] = []
sent (s ∷ ss) = send_text s false ++ sent ss

-- One valid packet for each text that was sent.
received : List Bytes → List Event
received [] = []
received (s ∷ ss) = packet (escape s) true ∷ received ss

run-sent : (ss : List Bytes) → run idle (sent ss) ≡ (idle, received ss)
unfolding sent received
run-sent [] = unfold run in refl
run-sent (s ∷ ss) =
    rw
      (
        send_text-frame s,
        run-append idle (frame (escape s)) (sent ss),
        run-frame (escape s) (escape-Lacks s).1,
        run-sent ss,
      )
      refl

-- The texts that a receiver reads out of packets: all must be valid, and each is unescaped.
pub decoded : List Event → Option (List Bytes)
decoded [] = some []
decoded (packet s true ∷ es) = do t ← unescape s; ts ← decoded es; some (t ∷ ts)
decoded (_ ∷ es) = none

decoded-received : (ss : List Bytes) → All AreBytes ss → decoded (received ss) ≡ some ss
unfolding decoded received
decoded-received [] h = refl
decoded-received (s ∷ ss) (b, bs) = rw (unescape-escape s b, decoded-received ss bs) refl

-- Whatever texts of bytes are sent and however the channel cuts the stream, a new packet processor receives
-- only valid packets, one for each text, which unescape to the texts in order, and it then waits for
-- the next packet.
pub decoded-sent :
    (ss chunks : List Bytes)
    → All AreBytes ss
    → concat chunks ≡ sent ss
    → (es : List Event) × (parse_all (set_delegate initial) chunks
        ≡ some (set_delegate initial, es))
      × (decoded (packets es) ≡ some ss)
unfolding set_delegate initial
decoded-sent ss chunks b e =
    let (es, r, p) = parse_all-run idle chunks tt in
    let whole : run idle (concat chunks) ≡ (idle, received ss) = rw e (run-sent ss) in
    (
      es,
      unfold represent in r ∙ ap (λ o. some (represent o.0, es)) whole,
      rw (p, whole) (decoded-received ss b),
    )
