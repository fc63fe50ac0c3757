-- ===== src/Interpreter/Split.antt =====
-- The command and the arguments of a packet.
use ds.Base.{
  ℕ, zero, suc, ◌≡◌, refl, sym, ap, ◌⊎◌, inl, inr, Bool, true, false, ◌&&◌, ◌||◌, Option, none,
  some, [], ◌∷◌, ◌++◌, append-nil, Bytes, arith, ◌==◌, length, take, drop, Bool-cases, if_both, ltb,
  Option-cases,
}
use native.Mathlib.Numerals.{add-one}
use ds.Interpreter.{
  is_separator, is_colon, find_first_of, at_separator, second_is, command_bounds, substrings,
  split_command,
}

-- The packet is the command followed by the arguments, or by a separator and the arguments.
abbrev pub Parts : Bytes → Bytes × Bytes → Type 0
Parts bytes (command, arguments) =
    (bytes ≡ command ++ arguments)
    ⊎ ((c : ℕ) × (bytes ≡ command ++ c ∷ arguments) × (is_separator c ≡ true))

take-drop : (n : ℕ) (s : Bytes) → s ≡ take n s ++ drop n s
take-drop zero s = refl
take-drop (suc n) [] = refl
take-drop (suc n) (c ∷ s) = ap (λ t. c ∷ t) (take-drop n s)

take_all : (n : ℕ) (s : Bytes) → ltb n (length s) ≡ false → s ≡ take n s ++ []
take_all zero [] h = refl
take_all zero (c ∷ s) h = absurd (ground arith)
take_all (suc n) [] h = refl
take_all (suc n) (c ∷ s) h = ap (λ t. c ∷ t) (take_all n s (ground arith))

-- What find_first_of finds, where the test means a separator.
found :
    (p : ℕ → Bool) (s : Bytes) (i : ℕ)
    → find_first_of p s ≡ some i
    → (c : ℕ) × (s ≡ take i s ++ c ∷ drop (suc i) s) × (p c ≡ true)
unfolding find_first_of
found p [] i e = cc
found p (c ∷ s) i e = elim (Bool-cases (p c)) [
  | inl h ↦ let e' : ◌≡◌ {A = ℕ} 0 i = ground arith in rw (sym e') (c, refl, h)
  | inr h ↦ later h (λ j. found p s j) (Option-cases (find_first_of p s))
]
  where
    Found : Bytes → ℕ → Type 0
    Found t j = (d : ℕ) × (t ≡ take j t ++ d ∷ drop (suc j) t) × (p d ≡ true)

    later :
        p c ≡ false
        → ((j : ℕ) → find_first_of p s ≡ some j → Found s j)
        → (find_first_of p s ≡ none) ⊎ ((j : ℕ) × (find_first_of p s ≡ some j))
        → Found (c ∷ s) i
    later h rec (inl q) = absurd (ground arith)
    later h rec (inr (j, q)) =
        let i' : suc j ≡ i = ground arith in
        let (d, t, k) = rec j q in rw (sym i') (d, ap (λ u. c ∷ u) t, k)

-- The bounds cut the packet into its parts.
Cuts : Bytes → Option ℕ × Option ℕ → Type 0
Cuts bytes bounds = Parts bytes (substrings bytes bounds)

Parts-cut : (n : ℕ) (bytes : Bytes) → Cuts bytes (some n, none)
unfolding substrings Cuts
Parts-cut n bytes = elim (Bool-cases (ltb n (length bytes))) [
  | inl h ↦ rw h (inl (take-drop n bytes))
  | inr h ↦ rw h (inl (take_all n bytes h))
]

Parts-separator :
    (p : ℕ → Bool) (bytes : Bytes)
    → ((c : ℕ) → p c ≡ true → is_separator c ≡ true)
    → Cuts bytes (at_separator (find_first_of p bytes))
unfolding substrings at_separator Cuts
Parts-separator p bytes k = elim (Option-cases (find_first_of p bytes)) [
  | inl e ↦ rw e (inl (sym (append-nil bytes)))
  | inr (i, e) ↦ let (c, q, h) = found p bytes i e in rw (e, add-one) (inr (c, q, k c h))
]

colon_lem : (c : ℕ) → is_colon c ≡ true → is_separator c ≡ true
colon_lem c h = ground arith

bounds_cut : (bytes : Bytes) → Cuts bytes (command_bounds bytes)
unfolding command_bounds
bounds_cut [] = Parts-cut 1 []
bounds_cut (c ∷ s) =
    let one = Parts-cut 1 (c ∷ s) in
    let two = Parts-cut 2 (c ∷ s) in
    if_both (Cuts (c ∷ s)) (c == b'v' || c == b'q' || c == b'Q')
      (Parts-separator is_separator (c ∷ s) (λ x h. h))
      (if_both (Cuts (c ∷ s)) (c == b'b')
        (if_both (Cuts (c ∷ s)) (length (c ∷ s) == 2 && second_is b'c' b's' (c ∷ s)) two one)
        (if_both (Cuts (c ∷ s)) (c == b'_')
          (if_both (Cuts (c ∷ s)) (second_is b'M' b'm' (c ∷ s)) two one)
          (if_both (Cuts (c ∷ s)) (c == b'j') (Parts-separator is_colon (c ∷ s) colon_lem) one)))

-- No part of a packet is lost: it is the command followed by the arguments, or by one separator and
-- the arguments.
pub split_command-Parts : (bytes : Bytes) → Parts bytes (split_command bytes)
unfolding split_command Cuts
split_command-Parts bytes = bounds_cut bytes
