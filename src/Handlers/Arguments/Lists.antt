-- ===== src/Handlers/Arguments/Lists.antt =====
-- A of Sources/GDBRemote/Session.cpp: the list that a debugger sent is the one that the delegate gets.
use ds.Base.{
  ℕ, zero, suc, ◌+◌, ◌-◌, ◌*◌, ◌/◌, ◌^◌, ◌<◌, ◌≤◌, ◌≡◌, refl, sym, ap, ◌∙◌, true, false, some, List,
  [], ◌∷◌, ◌++◌, Bytes, leb, length, drop, is_empty, arith, All, AreBytes, length-append,
  take-append, drop-append, append-nil, append_assoc,
}
use ds.Hex.{to_hex}
use ds.Hex.RoundTrip.{hex_to_bytes-to_hex}
use ds.Structures.Numbers.{dec}
use ds.Handlers.Calls.{on_set_program_arguments}
use ds.Handlers.World.{Delegate, World, report}
use ds.Handlers.Scan.{expect}
use ds.Handlers.Scan.Decimals.{strtoul_decimal-dec, Starts, dec-Starts}
use ds.Handlers.Memory.{or_invalid, or_stop}
use ds.Handlers.Arguments.{
  ArgumentMap, append_argument, parse_lengths, argument_text, parse_arguments, handle_upper_a,
}
use ds.Handlers.Arguments.Numbered.{
  entry, entries, arguments_text, numbered, append_argument-numbered, arguments_of-numbered,
}

length-to_hex : (s : Bytes) → length (to_hex s) ≡ 2 * length s
unfolding to_hex
length-to_hex [] = refl
length-to_hex (c ∷ s) = omega (arith, length-to_hex s)

-- What a debugger can send: bytes, whose digits a uint32_t counts.
abbrev pub IsArgument : Bytes → Type 0
IsArgument s = AreBytes s × (2 * length s < 2 ^ 32)

argument_text-to_hex :
    (s rest : Bytes) → AreBytes s → argument_text (2 * length s) (to_hex s ++ rest) ≡ some s
unfolding argument_text
argument_text-to_hex s rest h =
    let even : (2 * length s + 1) / 2 * 2 ≡ length (to_hex s) = omega (arith, length-to_hex s) in
    let holds : leb (length (to_hex s)) (length (to_hex s ++ rest)) ≡ true =
      ground (arith, length-append (to_hex s) rest) in
    rw (even, holds, take-append (to_hex s) rest) (hex_to_bytes-to_hex s h)

drop-to_hex : (s rest : Bytes) → drop (2 * length s) (to_hex s ++ rest) ≡ rest
drop-to_hex s rest =
    ap (λ n. drop n (to_hex s ++ rest)) (sym (length-to_hex s)) ∙ drop-append (to_hex s) rest

parse_lengths-entry :
    (k : ℕ) (s rest : Bytes)
    → k < 2 ^ 32
    → 2 * length s < 2 ^ 32
    → parse_lengths true (entry k s rest) ≡ some (2 * length s, k, to_hex s ++ rest)
unfolding parse_lengths expect
parse_lengths-entry k s rest hk hs =
    rw
      (
        strtoul_decimal-dec (2 * length s) (b',' ∷ (dec k ++ (b',' ∷ (to_hex s ++ rest))))
            (omega arith) refl,
        strtoul_decimal-dec k (b',' ∷ (to_hex s ++ rest)) (omega arith) refl,
      )
      (ground arith)

parse_lengths-comma : (text : Bytes) → parse_lengths false (b',' ∷ text) ≡ parse_lengths true text
unfolding parse_lengths expect
parse_lengths-comma text = refl

-- One round of the loop.
round :
    (fuel : ℕ) (argmap : ArgumentMap) (text : Bytes) (nchars argno : ℕ) (rest s : Bytes)
    → Starts text
    → parse_lengths (is_empty argmap) text ≡ some (nchars, argno, rest)
    → argument_text nchars rest ≡ some s
    → parse_arguments (suc fuel) argmap text
      ≡ parse_arguments fuel (append_argument argmap argno s) (drop nchars rest)
unfolding parse_arguments
round fuel argmap [] nchars argno rest s starts h e = absurd starts
round fuel argmap (c ∷ text) nchars argno rest s starts h e = rw (starts, h, e) refl

entries-parsed :
    (fuel k : ℕ) (x : Bytes) (xs ss : List Bytes)
    → k ≡ suc (length xs)
    → k + length ss < 2 ^ 32
    → length ss ≤ fuel
    → All IsArgument ss
    → parse_arguments fuel (numbered 0 (x ∷ xs)) (entries k ss)
      ≡ some (some (numbered 0 (x ∷ (xs ++ ss))))
unfolding parse_arguments
entries-parsed fuel k x xs [] e h enough all =
    ap (λ l. some (some (numbered 0 (x ∷ l)))) (sym (append-nil xs))
entries-parsed zero k x xs (s ∷ ss) e h enough all = absurd (omega arith)
entries-parsed (suc fuel) k x xs (s ∷ ss) e h enough ((are, small), all) =
    round fuel (numbered 0 (x ∷ xs)) (entries k (s ∷ ss)) (2 * length s) k
      (to_hex s ++ entries (k + 1) ss) s refl
      (parse_lengths-comma (entry k s (entries (k + 1) ss))
        ∙ parse_lengths-entry k s (entries (k + 1) ss) (omega arith) small)
      (argument_text-to_hex s (entries (k + 1) ss) are)
    ∙ ap (λ t. parse_arguments fuel (append_argument (numbered 0 (x ∷ xs)) k s) t)
        (drop-to_hex s (entries (k + 1) ss))
    ∙ ap (λ m. parse_arguments fuel m (entries (k + 1) ss))
        (append_argument-numbered 0 k (x ∷ xs) s (omega arith))
    ∙ entries-parsed fuel (k + 1) x (xs ++ s ∷ []) ss (omega (arith, length-append xs (s ∷ [])))
        (omega arith) (omega arith) all
    ∙ ap (λ l. some (some (numbered 0 (x ∷ l)))) (append_assoc xs (s ∷ []) ss)

-- There is a byte at least for every argument, and more for the first.
length-entry : (k : ℕ) (s rest : Bytes) → suc (length rest) < length (entry k s rest)
length-entry k s rest = omega (
  arith,
  length-append (dec (2 * length s)) (b',' ∷ (dec k ++ (b',' ∷ (to_hex s ++ rest)))),
  length-append (dec k) (b',' ∷ (to_hex s ++ rest)),
  length-append (to_hex s) rest,
)

length-entries : (k : ℕ) (ss : List Bytes) → length ss ≤ length (entries k ss)
length-entries k [] = omega arith
length-entries k (s ∷ ss) =
    omega (arith, length-entry k s (entries (k + 1) ss), length-entries (k + 1) ss)

text_parsed :
    (args : List Bytes)
    → length args < 2 ^ 32
    → All IsArgument args
    → parse_arguments (length (arguments_text args)) [] (arguments_text args)
      ≡ some (some (numbered 0 args))
unfolding parse_arguments
text_parsed [] h all = refl
text_parsed (s ∷ ss) h ((are, small), all) =
    let text = entry 0 s (entries 1 ss) in
    let fuel = length text - 1 in
    let long : length text ≡ suc fuel = omega (arith, length-entry 0 s (entries 1 ss)) in
    ap (λ n. parse_arguments n [] text) long
    ∙ round fuel [] text (2 * length s) 0 (to_hex s ++ entries 1 ss) s
        (dec-Starts (2 * length s) (b',' ∷ (dec 0 ++ (b',' ∷ (to_hex s ++ entries 1 ss)))))
        (parse_lengths-entry 0 s (entries 1 ss) (omega arith) small)
        (argument_text-to_hex s (entries 1 ss) are)
    ∙ ap (λ t. parse_arguments fuel (append_argument [] 0 s) t) (drop-to_hex s (entries 1 ss))
    ∙ ap (λ m. parse_arguments fuel m (entries 1 ss))
        (append_argument-numbered 0 0 [] s (omega arith))
    ∙ entries-parsed fuel 1 s [] ss (omega arith) (omega arith)
        (omega (arith, length-entry 0 s (entries 1 ss), length-entries 1 ss)) all

-- A packet A with some arguments, numbered from 0 in order, each as the count of its hexadecimal digits, its
-- number and its digits, gives the delegate these arguments, whose result is the reply. (There are fewer
-- than 2 ^ 32 of them, of bytes, with fewer digits than that each.)
pub handle_upper_a-arguments_text :
    (d : Delegate) (args : List Bytes) (w : World d)
    → length args < 2 ^ 32
    → All IsArgument args
    → handle_upper_a d (arguments_text args) w ≡ report d (on_set_program_arguments args) w
unfolding handle_upper_a or_invalid or_stop
handle_upper_a-arguments_text d args w h all =
    rw (text_parsed args h all, arguments_of-numbered args) refl
