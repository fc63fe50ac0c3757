-- ===== src/Packet/Refinement/Frame.antt =====
-- One round of the loop at a frame.
use ds.Base.{
  ℕ, suc, ◌+◌, ◌-◌, ◌%◌, ◌<◌, ◌≡◌, ◌≢◌, refl, sym, ap, ◌∙◌, ◌⊎◌, inl, inr, Bool, true, false,
  Option, none, some, List, [], ◌∷◌, ◌++◌, append-nil, append_assoc, Bytes, arith, ◌==◌, ==_ne,
  Lacks, All-append, length, length-append, take, drop, take-append, ltb,
}
use ds.Packet.Helpers.{checksum}
use ds.Packet.Processor.{
  Processor, Event, packet, find, strtoul, validate, process, at_hash, after_round,
}
use ds.Packet.Automaton.{Scan, idle, body, digits, step, run, represent}

find-append : (u v : Bytes) → Lacks b'#' u → find b'#' (u ++ b'#' ∷ v) ≡ some (length u)
unfolding find
find-append [] v h = refl
find-append (c ∷ u) v h = ground (arith, find-append u v h.1)

pub find-none : (u : Bytes) → Lacks b'#' u → find b'#' u ≡ none
unfolding find
find-none [] h = refl
find-none (c ∷ u) h = ground (arith, find-none u h.1)

-- Where the first '#' of a text stands.
abbrev pub Split : Bytes → Type 0
Split t = Lacks b'#' t ⊎ ((u : Bytes) × (v : Bytes) × (t ≡ u ++ b'#' ∷ v) × Lacks b'#' u)

Split-cons : (c : ℕ) (t : Bytes) → (c ≡ b'#') ⊎ (c ≢ b'#') → Split t → Split (c ∷ t)
Split-cons c t (inl e) r = inr ([], t, ap (λ x. x ∷ t) e, tt)
Split-cons c t (inr ne) (inl h) = inl (ne, h)
Split-cons c t (inr ne) (inr (u, v, e, h)) = inr (c ∷ u, v, ap (λ x. c ∷ x) e, (ne, h))

pub split : (t : Bytes) → Split t
split [] = inl tt
split (c ∷ t) = Split-cons c t (grind arith) (split t)

take_three :
    (u w : Bytes) (a b c : ℕ) → take (length u + 3) (u ++ a ∷ b ∷ c ∷ w) ≡ u ++ a ∷ b ∷ c ∷ []
take_three [] w a b c = refl
take_three (x ∷ u) w a b c =
    let e : suc (length u) + 3 ≡ suc (length u + 3) = omega arith in
    rw e (ap (λ t. x ∷ t) (take_three u w a b c))

drop_three : (u w : Bytes) (a b c : ℕ) → drop (length u + 3) (u ++ a ∷ b ∷ c ∷ w) ≡ w
drop_three [] w a b c = refl
drop_three (x ∷ u) w a b c =
    let e : suc (length u) + 3 ≡ suc (length u + 3) = omega arith in rw e (drop_three u w a b c)

behind_hash : (s v : Bytes) → drop (suc (length s)) (s ++ b'#' ∷ v) ≡ v
behind_hash [] v = refl
behind_hash (c ∷ s) v = behind_hash s v

abbrev pub verdict : Bytes → ℕ → ℕ → Bool
verdict s d e = strtoul (d ∷ e ∷ []) % 256 == checksum s

find_frame :
    (s v : Bytes) → Lacks b'#' s → find b'#' ((b'$' ∷ s) ++ b'#' ∷ v) ≡ some (suc (length s))
find_frame s v h = find-append (b'$' ∷ s) v (omega arith, h)

validate_whole :
    (s : Bytes) (d e : ℕ)
    → Lacks b'#' s
    → validate ((b'$' ∷ s) ++ b'#' ∷ d ∷ e ∷ []) ≡ some (s, verdict s d e)
unfolding validate
validate_whole s d e h =
    rw (find_frame s (d ∷ e ∷ []) h, behind_hash s (d ∷ e ∷ []), take-append s (b'#' ∷ d ∷ e ∷ []))

-- A whole frame is delivered with the verdict on its checksum, and the buffer is empty again.
pub process_frame :
    (s : Bytes) (d e n : ℕ)
    → Lacks b'#' s
    → process (record {
      buffer = (b'$' ∷ s) ++ b'#' ∷ d ∷ e ∷ [];
      nreqs = n;
      needhash = false;
      has_delegate = true;
    })
      ≡ some (represent idle, packet s (verdict s d e) ∷ [])
unfolding process represent
process_frame s d e n h = unfold validate in rw (validate_whole s d e h)

avail : (u v : Bytes) → length (u ++ b'#' ∷ v) - (length u + 1) ≡ length v
avail u v = omega (arith, length-append u (b'#' ∷ v))

glue : (b u s x : Bytes) → b ++ u ≡ b'$' ∷ s → b ++ (u ++ x) ≡ (b'$' ∷ s) ++ x
glue b u s x e = sym (append_assoc b u x) ∙ ap (λ t. t ++ x) e

pub test_two : (n : ℕ) → ltb (suc (suc n)) 2 ≡ false
test_two n = ground arith

run-body : (s r : Bytes) → Lacks b'#' r → run (body s) r ≡ (body (s ++ r), [])
unfolding run step
run-body s [] h = rw append-nil
run-body s (c ∷ r) (ne, h) =
    rw (==_ne c b'#' ne, run-body (s ++ c ∷ []) r h, append_assoc s (c ∷ []) r)

pub run-body_hash :
    (s u v : Bytes) → Lacks b'#' u → run (body s) (u ++ b'#' ∷ v) ≡ run (digits (s ++ u)) v
unfolding run step
run-body_hash s [] v h = rw append-nil
run-body_hash s (c ∷ u) v (ne, h) =
    rw (==_ne c b'#' ne, run-body_hash (s ++ c ∷ []) u v h, append_assoc s (c ∷ []) u)

-- The automaton's outcome, as the processor reports it.
abbrev pub report : Scan × List Event → Option (Processor × List Event)
report (a, evs) = some (represent a, evs)

-- The processor with a buffer and nothing outstanding.
abbrev pub holding : Bytes → Processor
holding b = record { buffer = b; nreqs = 0; needhash = false; has_delegate = true }

module _ (resume : Processor → Bytes → Option (Processor × List Event)) where
  -- The '#' is in sight: the round stops for missing digits, or delivers and goes on.
  pub hash_found :
      (b u v s : Bytes)
      → b ++ u ≡ b'$' ∷ s
      → Lacks b'#' s
      → Lacks b'#' u
      → ((w : Bytes) → suc (length w) < length v → resume (represent idle) w ≡ report (run idle w))
      → after_round resume (at_hash (holding b) (find b'#' (u ++ b'#' ∷ v)) (u ++ b'#' ∷ v))
        ≡ report (run (digits s) v)
  unfolding at_hash after_round run step
  hash_found b u [] s e hs hu k =
      rw (find-append u [] hu, avail u [], glue b u s (b'#' ∷ []) e) (unfold represent in refl)
  hash_found b u (d ∷ []) s e hs hu k =
      rw (find-append u (d ∷ []) hu, avail u (d ∷ []), glue b u s (b'#' ∷ d ∷ []) e)
        (unfold represent in refl)
  hash_found b u (d ∷ d' ∷ w) s e hs hu k =
      rw
        (
          find-append u (d ∷ d' ∷ w) hu,
          avail u (d ∷ d' ∷ w),
          take_three u w b'#' d d',
          drop_three u w b'#' d d',
          glue b u s (b'#' ∷ d ∷ d' ∷ []) e,
        )
        (rw (test_two (length w), process_frame s d d' 0 hs, k w (omega arith)))

  -- Every text behind `r` is short enough for the fuel that is left.
  abbrev pub Resumes : Bytes → Type 0
  Resumes r = (w : Bytes) → length w < length r → resume (represent idle) w ≡ report (run idle w)

  pub hash-body :
      (s r : Bytes)
      → Lacks b'#' s
      → Resumes r
      → after_round resume (at_hash (holding (b'$' ∷ s)) (find b'#' r) r) ≡ report (run (body s) r)
  unfolding at_hash after_round
  hash-body s r hs k = elim (split r) [
    | inl h ↦ rw (find-none r h, run-body s r h) (unfold represent in refl)
    | inr (u, v, e, hu) ↦
        rw (e, run-body_hash s u v hu)
          (hash_found (b'$' ∷ s) u v (s ++ u) refl (All-append _ s u hs hu) hu
            (λ w lt. k w (rw e (omega (arith, length-append u (b'#' ∷ v))))))
  ]

  pub hash-start :
      (t : Bytes)
      → Resumes (b'$' ∷ t)
      → after_round resume (at_hash (holding []) (find b'#' (b'$' ∷ t)) (b'$' ∷ t))
        ≡ report (run (body []) t)
  unfolding at_hash after_round
  hash-start t k = elim (split t) [
    | inl h ↦ rw (find-none (b'$' ∷ t) (omega arith, h), run-body [] t h) (unfold represent in refl)
    | inr (u, v, e, hu) ↦
        rw (e, run-body_hash [] u v hu)
          (hash_found [] (b'$' ∷ u) v u refl hu (omega arith, hu)
            (λ w lt. k w (rw e (omega (arith, length-append u (b'#' ∷ v))))))
  ]
