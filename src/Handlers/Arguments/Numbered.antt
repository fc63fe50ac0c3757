-- ===== src/Handlers/Arguments/Numbered.antt =====
-- A of Sources/GDBRemote/Session.cpp: a list of arguments, as a debugger numbers it.
use ds.Base.{
  ℕ, zero, suc, ◌+◌, ◌*◌, ◌<◌, ◌≡◌, refl, ap, ◌∙◌, false, List, [], ◌∷◌, ◌++◌, Bytes, ◌==◌, ==_refl,
  ltb, length, map, arith,
}
use ds.Hex.{to_hex}
use ds.Structures.Numbers.{dec}
use ds.Handlers.Arguments.{
  ArgumentMap, append_argument, argument_at, argument_count, numbers_from, arguments_of,
}

-- `length,number,text` with the text in hexadecimal, which the length counts, and what follows.
abbrev pub entry : ℕ → Bytes → Bytes → Bytes
entry k s rest = dec (2 * length s) ++ (b',' ∷ (dec k ++ (b',' ∷ (to_hex s ++ rest))))

abbrev pub entries : ℕ → List Bytes → Bytes
entries k [] = []
entries k (s ∷ ss) = b',' ∷ entry k s (entries (k + 1) ss)

-- The arguments of A for a list.
abbrev pub arguments_text : List Bytes → Bytes
arguments_text [] = []
arguments_text (s ∷ ss) = entry 0 s (entries 1 ss)

abbrev pub numbered : ℕ → List Bytes → ArgumentMap
numbered k [] = []
numbered k (s ∷ ss) = (k, s) ∷ numbered (k + 1) ss

pub append_argument-numbered :
    (k n : ℕ) (xs : List Bytes) (s : Bytes)
    → n ≡ k + length xs
    → append_argument (numbered k xs) n s ≡ numbered k (xs ++ s ∷ [])
unfolding append_argument
append_argument-numbered k n [] s e = ap (λ m. (m, s) ∷ []) (omega arith)
append_argument-numbered k n (x ∷ xs) s e =
    let later = append_argument-numbered (k + 1) n xs s (omega arith) in
    let differs : (k == n) ≡ false = ground arith in
    let before : ltb n k ≡ false = ground arith in rw (differs, before, later) refl

argument_count-numbered :
    (k : ℕ) (x : Bytes) (xs : List Bytes)
    → argument_count (numbered k (x ∷ xs)) ≡ k + suc (length xs)
unfolding argument_count
argument_count-numbered k x [] = omega arith
argument_count-numbered k x (y ∷ ys) = argument_count-numbered (k + 1) y ys ∙ omega arith

-- A key in front is not looked at later.
skip :
    (key : ℕ) (value : Bytes) (m : ArgumentMap) (n first : ℕ)
    → key < first
    → map (argument_at ((key, value) ∷ m)) (numbers_from n first)
      ≡ map (argument_at m) (numbers_from n first)
unfolding argument_at numbers_from
skip key value m zero first h = refl
skip key value m (suc n) first h =
    let differs : (key == first) ≡ false = ground arith in
    rw (differs, skip key value m n (first + 1) (omega arith)) refl

arguments-numbered :
    (k : ℕ) (xs : List Bytes) → map (argument_at (numbered k xs)) (numbers_from (length xs) k) ≡ xs
unfolding argument_at numbers_from
arguments-numbered k [] = refl
arguments-numbered k (x ∷ xs) =
    rw (==_refl k, skip k x (numbered (k + 1) xs) (length xs) (k + 1) (omega arith))
      (ap (λ t. x ∷ t) (arguments-numbered (k + 1) xs))

pub arguments_of-numbered : (xs : List Bytes) → arguments_of (numbered 0 xs) ≡ xs
unfolding arguments_of
arguments_of-numbered [] = refl
arguments_of-numbered (x ∷ xs) =
    let count : argument_count (numbered 0 (x ∷ xs)) ≡ suc (length xs) =
      argument_count-numbered 0 x xs ∙ omega arith in
    ap (λ n. map (argument_at (numbered 0 (x ∷ xs))) (numbers_from n 0)) count
    ∙ arguments-numbered 0 (x ∷ xs)
