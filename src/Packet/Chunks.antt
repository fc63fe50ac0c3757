-- ===== src/Packet/Chunks.antt =====
-- A stream that arrives in pieces.
use ds.Base.{
  ℕ, ◌≡◌, refl, sym, ap, ◌∙◌, Option, some, List, [], ◌∷◌, ◌++◌, append-nil, append_assoc, Bytes,
  arith, All-append, ◌==◌, Bool-cases, inl, inr, ◌>>=◌, ne_of_==,
}
use ds.Packet.Processor.{Processor, Event, packet, invalid, parse, initial, set_delegate}
use ds.Packet.Automaton.{
  Scan, idle, body, digits, last_digit, step, between, run, represent, noise, complaint, IsPayload,
}
use ds.Packet.Refinement.{parse-run}

-- The packets among the events.
abbrev pub packets : List Event → List Event
packets [] = []
packets (packet s v ∷ es) = packet s v ∷ packets es
packets (invalid s ∷ es) = packets es

-- A sequence of calls of parse, one for each piece that the channel hands over.
unfoldable pub parse_all : Processor → List Bytes → Option (Processor × List Event)
parse_all p [] = some (p, [])
parse_all p (chunk ∷ chunks) = do
  (q, now) ← parse p chunk
  (r, later) ← parse_all q chunks
  some (r, now ++ later)

abbrev pub concat : List Bytes → Bytes
concat [] = []
concat (s ∷ ss) = s ++ concat ss

packets-append : (xs ys : List Event) → packets (xs ++ ys) ≡ packets xs ++ packets ys
packets-append [] ys = refl
packets-append (packet s v ∷ xs) ys = ap (λ t. packet s v ∷ t) (packets-append xs ys)
packets-append (invalid s ∷ xs) ys = packets-append xs ys

packets-noise : (s : Bytes) → packets (noise s) ≡ []
unfolding noise
packets-noise s = ground arith

packets-complaint : (a : Scan) (s : Bytes) → packets (complaint a s) ≡ []
unfolding complaint
packets-complaint idle s = packets-noise s
packets-complaint (body t) s = refl
packets-complaint (digits t) s = packets-noise _
packets-complaint (last_digit t d) s = packets-noise _

packets-step : (a : Scan) (c : ℕ) → packets (step a c).1 ≡ (step a c).1
unfolding step between
packets-step idle c = ground arith
packets-step (body t) c = ground arith
packets-step (digits t) c = refl
packets-step (last_digit t d) c = refl

packets-run : (a : Scan) (s : Bytes) → packets (run a s).1 ≡ (run a s).1
unfolding run
packets-run a [] = refl
packets-run a (c ∷ s) =
    packets-append (step a c).1 (run (step a c).0 s).1
    ∙ rw (packets-step a c, packets-run (step a c).0 s) refl

pub run-append :
    (a : Scan) (s t : Bytes)
    → run a (s ++ t) ≡ ((run (run a s).0 t).0, (run a s).1 ++ (run (run a s).0 t).1)
unfolding run
run-append a [] t = refl
run-append a (c ∷ s) t =
    rw
      (
        run-append (step a c).0 s t,
        append_assoc (step a c).1 (run (step a c).0 s).1 (run (run (step a c).0 s).0 t).1,
      )
      refl

step-IsPayload : (a : Scan) (c : ℕ) → IsPayload a → IsPayload (step a c).0
unfolding step between
step-IsPayload idle c h = ground arith
step-IsPayload (body t) c h = elim (Bool-cases (c == b'#')) [
  | inl e ↦ rw e h
  | inr e ↦ rw e (All-append _ t (c ∷ []) h (ne_of_== c b'#' e, tt))
]
step-IsPayload (digits t) c h = h
step-IsPayload (last_digit t d) c h = tt

run-IsPayload : (a : Scan) (s : Bytes) → IsPayload a → IsPayload (run a s).0
unfolding run
run-IsPayload a [] h = h
run-IsPayload a (c ∷ s) h = run-IsPayload (step a c).0 s (step-IsPayload a c h)

-- The whole outcome of a sequence of pieces.
abbrev pub Delivers : Option (Processor × List Event) → Scan → List Event → Type 0
Delivers r a ps = (es : List Event) × (r ≡ some (represent a, es)) × (packets es ≡ ps)

-- However the channel cuts a stream into pieces, from a state with no '#' in its payload on, the calls
-- of parse all return, the packets that
-- they deliver, in order, are those of the automaton on the whole stream, and so is the last state.
pub parse_all-run :
    (a : Scan) (chunks : List Bytes)
    → IsPayload a
    → Delivers (parse_all (represent a) chunks) (run a (concat chunks)).0 (run a (concat chunks)).1
unfolding parse_all
parse_all-run a [] h = unfold run in ([], refl, refl)
parse_all-run a (s ∷ ss) h =
    let (later, e, ps) = parse_all-run (run a s).0 ss (run-IsPayload a s h) in
    (
      (run a s).1 ++ complaint a s ++ later,
      rw (parse-run a s h, e, run-append a s (concat ss)) refl,
      rw
          (
            run-append a s (concat ss),
            packets-append ((run a s).1 ++ complaint a s) later,
            packets-append (run a s).1 (complaint a s),
            packets-complaint a s,
            append-nil,
            packets-run a s,
            ps,
          )
          refl,
    )

-- Two ways to cut one stream into pieces make a new processor, with its delegate set, deliver the
-- same packets and end in the same state; all the calls return.
pub parse_all-cut :
    (ss ts : List Bytes)
    → concat ss ≡ concat ts
    → (p : Processor) × (es : List Event) × (fs : List Event) × (parse_all (set_delegate initial) ss
        ≡ some (p, es))
      × (parse_all (set_delegate initial) ts ≡ some (p, fs))
      × (packets es ≡ packets fs)
unfolding set_delegate initial
parse_all-cut ss ts h =
    let (es, e, p) = parse_all-run idle ss tt in
    let (fs, f, q) = parse_all-run idle ts tt in
    (
      represent (run idle (concat ss)).0,
      es,
      fs,
      unfold represent in e,
      rw h (unfold represent in f),
      p ∙ ap (λ s. (run idle s).1) h ∙ sym q,
    )
