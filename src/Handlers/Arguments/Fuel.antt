-- ===== src/Handlers/Arguments/Fuel.antt =====
-- A of Sources/GDBRemote/Session.cpp: the loop ends, as each round goes behind two commas at least.
use ds.Base.{
  ℕ, zero, suc, ◌+◌, ◌-◌, ◌*◌, ◌^◌, ◌≤◌, ◌≡◌, ◌≢◌, refl, inl, inr, Bool, true, false, not, ◌&&◌,
  ◌||◌, Option, none, some, [], ◌∷◌, Bytes, ◌==◌, ltb, leb, if◌then◌else◌, ◌>>=◌, length, drop,
  length-drop, is_empty, arith, Bool-cases,
}
use ds.Structures.Numbers.{Scanned, is_blank}
use ds.Handlers.Scan.{
  expect, scan_decimals, decimals_of, signed_decimals, after_blanks, strtoul_decimal,
}
use ds.Handlers.Arguments.{
  ArgumentMap, append_argument, parse_lengths, argument_text, parse_arguments,
}

if_rest :
    (test : Bool) (a b : Scanned) (n : ℕ)
    → length a.rest ≤ n
    → length b.rest ≤ n
    → length (if test then a else b).rest ≤ n
if_rest true a b n ha hb = ha
if_rest false a b n ha hb = hb

one_more : (a b : ℕ) → a ≤ b → a ≤ suc b
one_more a b h = omega arith

scan_decimals-rest :
    (acc : ℕ) (over : Bool) (s : Bytes) → length (scan_decimals acc over s).rest ≤ length s
unfolding scan_decimals
scan_decimals-rest acc over [] = omega arith
scan_decimals-rest acc over (c ∷ s) =
    let fits = ltb (acc * 10 + (c - b'0')) (2 ^ 64) in
    if_rest (leb b'0' c && leb c b'9') _ _ _
      (one_more _ _ (
        scan_decimals-rest (if fits then acc * 10 + (c - b'0') else 2 ^ 64 - 1) (over || not fits)
          s))
      (omega arith)

up_to : (a b c : ℕ) → a ≤ b → b ≤ c → a ≤ c
up_to a b c h k = omega arith

decimals_of-rest :
    (all s : Bytes) → length s ≤ length all → length (decimals_of all s).rest ≤ length all
unfolding decimals_of
decimals_of-rest all [] h = omega arith
decimals_of-rest all (c ∷ s) h =
    if_rest (leb b'0' c && leb c b'9') (scan_decimals 0 false (c ∷ s)) _ _
      (up_to _ _ _ (scan_decimals-rest 0 false (c ∷ s)) h) (omega arith)

negated-rest :
    (over : Bool) (r : Scanned) (n : ℕ)
    → (if over then r else record r { number = n }).rest ≡ r.rest
negated-rest true r n = refl
negated-rest false r n = refl

signed_decimals-rest :
    (all s : Bytes) → length s ≤ length all → length (signed_decimals all s).rest ≤ length all
unfolding signed_decimals
signed_decimals-rest all [] h = decimals_of-rest all [] h
signed_decimals-rest all (c ∷ s) h =
    let unsigned = decimals_of-rest all s (omega arith) in
    elim (Bool-cases (c == b'-')) [
      | inl minus ↦
          rw (minus, negated-rest (decimals_of all s).out_of_range (decimals_of all s) _) unsigned
      | inr other ↦ elim (Bool-cases (c == b'+')) [
        | inl plus ↦ rw (other, plus) unsigned
        | inr digit ↦ rw (other, digit) (decimals_of-rest all (c ∷ s) h)
      ]
    ]

after_blanks-rest :
    (all s : Bytes) → length s ≤ length all → length (after_blanks all s).rest ≤ length all
unfolding after_blanks
after_blanks-rest all [] h = signed_decimals-rest all [] h
after_blanks-rest all (c ∷ s) h = elim (Bool-cases (is_blank c)) [
  | inl blank ↦ rw blank (after_blanks-rest all s (omega arith))
  | inr other ↦ rw other (signed_decimals-rest all (c ∷ s) h)
]

strtoul_decimal-rest : (s : Bytes) → length (strtoul_decimal s).rest ≤ length s
unfolding strtoul_decimal
strtoul_decimal-rest s = after_blanks-rest s s (omega arith)

-- A bound on what is left.
abbrev Leaves : ℕ → Option Bytes → Type 0
Leaves n none = Unit {0}
Leaves n (some s) = suc (length s) ≤ n

expect-Leaves : (wanted : ℕ) (s : Bytes) → Leaves (length s) (expect wanted s)
unfolding expect
expect-Leaves wanted [] = tt
expect-Leaves wanted (c ∷ s) = elim (Bool-cases (c == wanted)) [
  | inl found ↦ rw found (omega arith)
  | inr other ↦ rw other tt
]

abbrev Shorter : ℕ → Option (ℕ × ℕ × Bytes) → Type 0
Shorter n none = Unit {0}
Shorter n (some (a, b, s)) = suc (length s) ≤ n

bind-Shorter :
    (n : ℕ) (o : Option Bytes) (f : Bytes → Option (ℕ × ℕ × Bytes))
    → Leaves n o
    → ((s : Bytes) → suc (length s) ≤ n → Shorter n (f s))
    → Shorter n (o >>= f)
bind-Shorter n none f h k = tt
bind-Shorter n (some s) f h k = k s h

Leaves-mono : (m n : ℕ) (o : Option Bytes) → m ≤ n → Leaves m o → Leaves n o
Leaves-mono m n none h s = tt
Leaves-mono m n (some t) h s = omega arith

-- A number and the comma behind it.
comma-Leaves : (n : ℕ) (s : Bytes) → length s ≤ n → Leaves n (expect b',' (strtoul_decimal s).rest)
comma-Leaves n s h =
    Leaves-mono (length (strtoul_decimal s).rest) n (expect b',' (strtoul_decimal s).rest)
      (omega (arith, strtoul_decimal-rest s)) (expect-Leaves b',' (strtoul_decimal s).rest)

parse_lengths_first-Shorter : (n : ℕ) (s : Bytes) → length s ≤ n → Shorter n (parse_lengths true s)
unfolding parse_lengths
parse_lengths_first-Shorter n s h =
    bind-Shorter n (expect b',' (strtoul_decimal s).rest) _ (comma-Leaves n s h) λ rest shorter.
      bind-Shorter n (expect b',' (strtoul_decimal rest).rest) _ (comma-Leaves n rest (omega arith))
        λ rest' short. short

parse_lengths-Shorter : (first : Bool) (s : Bytes) → Shorter (length s) (parse_lengths first s)
unfolding parse_lengths
parse_lengths-Shorter true s = parse_lengths_first-Shorter (length s) s (omega arith)
parse_lengths-Shorter false s =
    bind-Shorter (length s) (expect b',' s) (parse_lengths true) (expect-Leaves b',' s)
      λ start shorter. parse_lengths_first-Shorter (length s) start (omega arith)

-- A run of the loop to its end, with no bound on its rounds: `none` stops the program. Each round has one that
-- follows it, so a loop that goes on for ever has no such run.
pub data Run : ArgumentMap → Bytes → Option (Option ArgumentMap) → Type 0 where
  finished : (m : ArgumentMap) → Run m [] (some (some m))
  terminated : (m : ArgumentMap) (c : ℕ) (s : Bytes) → c ≡ 0 → Run m (c ∷ s) (some (some m))
  malformed :
      (m : ArgumentMap) (c : ℕ) (s : Bytes)
      → c ≢ 0
      → parse_lengths (is_empty m) (c ∷ s) ≡ none
      → Run m (c ∷ s) (some none)
  overread :
      (m : ArgumentMap) (c : ℕ) (s : Bytes) (nchars argno : ℕ) (rest : Bytes)
      → c ≢ 0
      → parse_lengths (is_empty m) (c ∷ s) ≡ some (nchars, argno, rest)
      → argument_text nchars rest ≡ none
      → Run m (c ∷ s) none
  round :
      (m : ArgumentMap) (c : ℕ) (s : Bytes) (nchars argno : ℕ) (rest text : Bytes)
      (r : Option (Option ArgumentMap))
      → c ≢ 0
      → parse_lengths (is_empty m) (c ∷ s) ≡ some (nchars, argno, rest)
      → argument_text nchars rest ≡ some text
      → Run (append_argument m argno text) (drop nchars rest) r
      → Run m (c ∷ s) r

-- What a round leads to.
abbrev continued : ℕ → ArgumentMap → Option (ℕ × ℕ × Bytes) → Option (Option ArgumentMap)
continued f m o = elim o [
  | none ↦ some none
  | some (nchars, argno, rest) ↦ argument_text nchars rest >>= λ text.
      parse_arguments f (append_argument m argno text) (drop nchars rest)
]

round_text :
    (f : ℕ) (m : ArgumentMap) (c : ℕ) (s : Bytes) (nchars argno : ℕ) (rest : Bytes)
    → c ≢ 0
    → parse_lengths (is_empty m) (c ∷ s) ≡ some (nchars, argno, rest)
    → ((text : Bytes)
        → Run
            (append_argument m argno text)
            (drop nchars rest)
            (parse_arguments f (append_argument m argno text) (drop nchars rest)))
    → (o : Option Bytes) → argument_text nchars rest ≡ o
    → Run m
        (c ∷ s)
        (o >>= λ text. parse_arguments f (append_argument m argno text) (drop nchars rest))
round_text f m c s nchars argno rest ne parsed next none e =
    Run.overread m c s nchars argno rest ne parsed e
round_text f m c s nchars argno rest ne parsed next (some text) e =
    Run.round m c s nchars argno rest text _ ne parsed e (next text)

continued-Run :
    (f : ℕ) (m : ArgumentMap) (c : ℕ) (s : Bytes)
    → c ≢ 0
    → ((m : ArgumentMap) (t : Bytes)
        → suc (length t) ≤ length (c ∷ s)
        → Run m t (parse_arguments f m t))
    → (o : Option (ℕ × ℕ × Bytes)) → parse_lengths (is_empty m) (c ∷ s) ≡ o
    → Shorter (length (c ∷ s)) o
    → Run m (c ∷ s) (continued f m o)
continued-Run f m c s ne next none e shorter = Run.malformed m c s ne e
continued-Run f m c s ne next (some (nchars, argno, rest)) e shorter =
    round_text f m c s nchars argno rest ne e
      (λ text.
        next (append_argument m argno text) (drop nchars rest)
          (omega (arith, length-drop nchars rest)))
      (argument_text nchars rest) refl

-- The loop of A ends, whatever the text and the arguments so far: it has a run to its end, and the rounds of
-- the model, if there are as many as the text has bytes, give the result of that run.
pub parse_arguments-Run :
    (f : ℕ) (m : ArgumentMap) (s : Bytes) → length s ≤ f → Run m s (parse_arguments f m s)
unfolding parse_arguments
parse_arguments-Run f m [] enough = Run.finished m
parse_arguments-Run zero m (c ∷ s) enough = absurd (omega arith)
parse_arguments-Run (suc f) m (c ∷ s) enough = elim (Bool-cases (c == 0)) [
  | inl e ↦ rw e (Run.terminated m c s (ground arith))
  | inr e ↦ rw e (
      continued-Run f m c s (ground arith)
        (λ m' t shorter. parse_arguments-Run f m' t (omega arith))
        (parse_lengths (is_empty m) (c ∷ s)) refl (parse_lengths-Shorter (is_empty m) (c ∷ s)))
]
