-- ===== src/Packet/Refinement.antt =====
-- The packet processor refines the automaton of Packet.Automaton: PacketProcessor::parse on a chunk
-- is the automaton on its bytes.
pub mod Frame
pub mod Loop
use ds.Base.{
  ℕ, zero, suc, ◌+◌, ◌<◌, ◌≡◌, refl, sym, ap, ◌∙◌, ◌⊎◌, inl, inr, Bool, true, false, Option, none,
  some, List, [], ◌∷◌, ◌++◌, append-nil, append_assoc, Bytes, arith, length, Lacks, drop, ◌>>=◌,
  take, ltb,
}
use ds.Packet.Processor.{Processor, Event, packet, invalid, process, loop, parse}
use ds.Packet.Automaton.{
  Scan, idle, body, digits, last_digit, step, run, represent, noise, complaint, IsPayload,
}
use Frame.{test_two, report, holding, process_frame}
use Loop.{closing, outcome, loop-idle, loop-body}

test_one : (n : ℕ) → ltb (suc n) 1 ≡ false
test_one n = ground arith

closing-noise : (s : Bytes) → closing (some s) s ≡ noise s
unfolding noise
closing-noise s = refl

-- Behind a packet that the chunk completes, the loop starts anew.
rest_lem :
    (fuel : ℕ) (s : Bytes)
    → length s < fuel
    → loop fuel (represent idle) (some s) s
      ≡ some (represent (run idle s).0, (run idle s).1 ++ noise s)
rest_lem fuel s lt = loop-idle fuel (some s) s lt (λ n. n) ∙ rw (closing-noise s) refl

-- On one chunk of input, whatever it holds and wherever the chunk before stopped (the payload so far
-- has no '#'), the processor
-- delivers the automaton's packets, complains of the noise that follows, and is left in the state
-- that represents the automaton's; it never reads past its buffer and never throws.
pub parse-run :
    (a : Scan) (chunk : Bytes)
    → IsPayload a
    → parse (represent a) chunk
      ≡ some (represent (run a chunk).0, (run a chunk).1 ++ complaint a chunk)
unfolding parse represent run step complaint
parse-run idle [] h = unfold noise in refl
parse-run (body t) [] h = refl
parse-run (digits t) [] h = unfold noise in refl
parse-run (last_digit t d) [] h = unfold noise in refl
parse-run idle (c ∷ s) h = rest_lem (suc (suc (length s))) (c ∷ s) (omega arith)
parse-run (body t) (c ∷ s) h =
    rw append-nil (loop-body (suc (length s)) t (some (c ∷ s)) c s (omega arith) h)
parse-run (digits t) (d ∷ []) h = rw (append_assoc t (b'#' ∷ []) (d ∷ [])) (unfold noise in refl)
parse-run (digits t) (d ∷ e ∷ s) h =
    rw
      (
        test_two (length s),
        append_assoc t (b'#' ∷ []) (d ∷ e ∷ []),
        process_frame t d e 2 h,
        rest_lem (suc (suc (suc (length s)))) s (omega arith),
      )
      refl
parse-run (last_digit t d) (e ∷ s) h =
    rw
      (
        test_one (length s),
        append_assoc t (b'#' ∷ d ∷ []) (e ∷ []),
        process_frame t d e 1 h,
        rest_lem (suc (suc (length s))) s (omega arith),
      )
      refl
