-- ===== src/Packet/Refinement/Loop.antt =====
-- The loop of PacketProcessor::parse, from each state of the automaton.
use ds.Base.{
  ℕ, zero, suc, ◌<◌, ◌≡◌, refl, sym, ap, ◌∙◌, inl, inr, true, false, not, ◌&&◌, Option, none, some,
  List, [], ◌∷◌, ◌++◌, append-nil, Bytes, arith, ◌==◌, ==_iff, if◌then◌else◌, length, is_empty,
  Lacks, Bool-cases,
}
use ds.Packet.Processor.{
  at_hash, find, Processor, Event, packet, invalid, is_control, validate, process, finish,
  after_round, deliver, loop,
}
use ds.Packet.Automaton.{idle, body, step, between, run, represent, is_noise}
use ds.Packet.Refinement.Frame.{report, holding, hash-body, hash-start}

abbrev pub closing : Option Bytes → Bytes → List Event
closing none rest = []
closing (some f) rest = if not (is_empty f) && is_noise rest then invalid f ∷ [] else []

-- `first` begins before the position, and only noise lies between them.
abbrev pub Fits : Option Bytes → Bytes → Type 0
Fits none rest = Unit {0}
Fits (some f) rest = is_noise rest ≡ true → is_noise f ≡ true

abbrev pub outcome : Option Bytes → Bytes → Option (Processor × List Event)
outcome first rest = some (represent (run idle rest).0, (run idle rest).1 ++ closing first rest)

finish_lem :
    (first : Option Bytes) → Fits first [] → some (finish (represent idle) first) ≡ outcome first []
unfolding finish represent run is_noise
finish_lem none h = refl
finish_lem (some []) h = refl
finish_lem (some (c ∷ s)) h = ground (arith, h refl)

outcome-none : (rest : Bytes) → outcome none rest ≡ report (run idle rest)
outcome-none rest = rw append-nil

process_control :
    (c : ℕ)
    → is_control c ≡ true
    → process (holding (c ∷ [])) ≡ some (represent idle, packet (c ∷ []) true ∷ [])
unfolding process validate represent
process_control c h = unfold is_control in ground arith

between_control : (c : ℕ) → is_control c ≡ true → between c ≡ (idle, packet (c ∷ []) true ∷ [])
unfolding between
between_control c h = rw h

between_noise : (c : ℕ) → is_control c ≡ false → (c == b'$') ≡ false → between c ≡ (idle, [])
unfolding between
between_noise c h k = rw (h, k)

closing_none :
    (first : Option Bytes) (rest : Bytes) → is_noise rest ≡ false → closing first rest ≡ []
closing_none none rest h = refl
closing_none (some f) rest h = ground arith

is_noise-skip :
    (c : ℕ) (s : Bytes) → is_control c ≡ false → (c == b'$') ≡ false → is_noise (c ∷ s) ≡ is_noise s
unfolding is_noise
is_noise-skip c s h k = rw (h, k)

closing_skip :
    (first : Option Bytes) (c : ℕ) (s : Bytes)
    → is_noise (c ∷ s) ≡ is_noise s
    → closing first (c ∷ s) ≡ closing first s
closing_skip none c s h = refl
closing_skip (some f) c s h = rw h

Fits-skip :
    (first : Option Bytes) (c : ℕ) (s : Bytes)
    → is_noise (c ∷ s) ≡ is_noise s
    → Fits first (c ∷ s)
    → Fits first s
Fits-skip none c s e h = tt
Fits-skip (some f) c s e h = λ n. h (e ∙ n)

module _ (fuel : ℕ) (c : ℕ) (s : Bytes) where
  -- What the loop does after a round.
  abbrev pub resume : Processor → Bytes → Option (Processor × List Event)
  resume q rest = loop fuel q none rest

  loop_control :
      (first : Option Bytes)
      → is_control c ≡ true
      → loop (suc fuel) (represent idle) first (c ∷ s)
        ≡ after_round resume (deliver (holding (c ∷ [])) s)
  unfolding loop represent
  loop_control first h = rw h refl

  loop_dollar :
      (first : Option Bytes)
      → is_control c ≡ false
      → (c == b'$') ≡ true
      → loop (suc fuel) (represent idle) first (c ∷ s)
        ≡ after_round resume (at_hash (holding []) (find b'#' (c ∷ s)) (c ∷ s))
  unfolding loop represent
  loop_dollar first h k = rw (h, k) refl

  loop_skip :
      (first : Option Bytes)
      → is_control c ≡ false
      → (c == b'$') ≡ false
      → loop (suc fuel) (represent idle) first (c ∷ s) ≡ loop fuel (represent idle) first s
  unfolding loop represent
  loop_skip first h k = rw (h, k) refl

  loop_needhash :
      (t : Bytes) (first : Option Bytes)
      → loop (suc fuel) (represent (body t)) first (c ∷ s)
        ≡ after_round resume (at_hash (holding (b'$' ∷ t)) (find b'#' (c ∷ s)) (c ∷ s))
  unfolding loop represent
  loop_needhash t first = refl

  deliver_control :
      is_control c ≡ true
      → resume (represent idle) s ≡ report (run idle s)
      → after_round resume (deliver (holding (c ∷ [])) s) ≡ report (run idle (c ∷ s))
  unfolding after_round run step
  deliver_control h k = rw (process_control c h, k, between_control c h) refl

  start_dollar :
      (c == b'$') ≡ true
      → ((w : Bytes) → length w < suc (length s) → resume (represent idle) w ≡ report (run idle w))
      → after_round resume (at_hash (holding []) (find b'#' (c ∷ s)) (c ∷ s))
        ≡ report (run (body []) s)
  start_dollar k later = rw ((==_iff c b'$').0 k) (hash-start resume s later)

run_dollar :
    (c : ℕ) (s : Bytes)
    → is_control c ≡ false
    → (c == b'$') ≡ true
    → run idle (c ∷ s) ≡ run (body []) s
unfolding run step between
run_dollar c s h k = rw (h, k) refl

run_skip :
    (c : ℕ) (s : Bytes) → is_control c ≡ false → (c == b'$') ≡ false → run idle (c ∷ s) ≡ run idle s
unfolding run step
run_skip c s h k = rw (between_noise c h k) refl

is_noise-control : (c : ℕ) (s : Bytes) → is_control c ≡ true → is_noise (c ∷ s) ≡ false
unfolding is_noise
is_noise-control c s h = rw h refl

is_noise-dollar :
    (c : ℕ) (s : Bytes) → is_control c ≡ false → (c == b'$') ≡ true → is_noise (c ∷ s) ≡ false
unfolding is_noise
is_noise-dollar c s h k = rw (h, k) refl

outcome_packets :
    (first : Option Bytes) (rest : Bytes)
    → is_noise rest ≡ false
    → outcome first rest ≡ report (run idle rest)
outcome_packets first rest h = rw (closing_none first rest h, append-nil) refl

pub loop-idle :
    (fuel : ℕ) (first : Option Bytes) (rest : Bytes)
    → length rest < fuel
    → Fits first rest
    → loop fuel (represent idle) first rest ≡ outcome first rest
loop-idle zero first rest lt h = absurd (omega arith)
loop-idle (suc fuel) first [] lt h = unfold loop in finish_lem first h
loop-idle (suc fuel) first (c ∷ s) lt h =
    let later : (w : Bytes)
        → length w < suc (length s)
        → loop fuel (represent idle) none w ≡ report (run idle w) =
      λ w less. loop-idle fuel none w (omega arith) tt ∙ outcome-none w in
    elim (Bool-cases (is_control c)) [
      | inl control ↦
          loop_control fuel c s first control
          ∙ deliver_control fuel c s control (later s (omega arith))
          ∙ sym (outcome_packets first (c ∷ s) (is_noise-control c s control))
      | inr plain ↦ elim (Bool-cases (c == b'$')) [
        | inl dollar ↦
            loop_dollar fuel c s first plain dollar
            ∙ start_dollar fuel c s dollar later
            ∙ ap report (sym (run_dollar c s plain dollar))
            ∙ sym (outcome_packets first (c ∷ s) (is_noise-dollar c s plain dollar))
        | inr skip ↦
            let e = is_noise-skip c s plain skip in
            loop_skip fuel c s first plain skip
            ∙ loop-idle fuel first s (omega arith) (Fits-skip first c s e h)
            ∙ rw (run_skip c s plain skip, closing_skip first c s e) refl
      ]
    ]

-- A frame left unfinished by the chunk before is resumed at the first byte of this one.
pub loop-body :
    (fuel : ℕ) (t : Bytes) (first : Option Bytes) (c : ℕ) (s : Bytes)
    → suc (length s) < suc fuel
    → Lacks b'#' t
    → loop (suc fuel) (represent (body t)) first (c ∷ s) ≡ report (run (body t) (c ∷ s))
loop-body fuel t first c s lt h =
    loop_needhash fuel c s t first
    ∙ hash-body (resume fuel c s) t (c ∷ s) h
        (λ w less. loop-idle fuel none w (omega arith) tt ∙ outcome-none w)
