-- ===== src/Structures/Numbers/RoundTrip.antt =====
-- Sources/GDBRemote/Structures.cpp: numbers printed with std::hex and read with strtoul.
use ds.Base.{
  ℕ, zero, suc, ◌+◌, ◌-◌, ◌*◌, ◌/◌, ◌%◌, ◌^◌, ◌<◌, ◌≡◌, refl, sym, ap, ◌∙◌, inl, inr, Bool, true,
  false, ◌&&◌, ◌||◌, Option, none, some, [], ◌∷◌, ◌++◌, append_assoc, Bytes, ◌==◌, ltb, lt→ltb,
  ltb→lt, leb, if◌then◌else◌, Bool-cases, All, All-append, passes_under, passes_under-at, arith,
}
use ds.Hex.{nibble_to_hex, hex_to_nibble}
use ds.Structures.Numbers.{
  digits_of, hex, Scanned, scan_digits, is_some_digit, is_blank, scan_prefix, scan_sign,
  skip_blanks, strtoul,
}

abbrev is : ℕ → Option ℕ → Bool
is b none = false
is b (some a) = a == b

is-eq : (b : ℕ) (o : Option ℕ) → is b o ≡ true → o ≡ some b
is-eq b none h = cc
is-eq b (some a) h = ground arith

nibble_table : passes_under (λ n. is n (hex_to_nibble (nibble_to_hex n))) 16 ≡ true
unfolding passes_under hex_to_nibble nibble_to_hex
nibble_table = refl

pub hex_to_nibble-nibble_to_hex : (n : ℕ) → n < 16 → hex_to_nibble (nibble_to_hex n) ≡ some n
hex_to_nibble-nibble_to_hex n h = is-eq n _ (passes_under-at _ 16 n h nibble_table)

-- 16 to a power.
abbrev bound : ℕ → ℕ
bound zero = 1
bound (suc fuel) = 16 * bound fuel

not_leb : (a b : ℕ) → b < a → leb a b ≡ false
not_leb a b h = ground arith

pub scan_digits-digit :
    (acc d c : ℕ) (s : Bytes)
    → hex_to_nibble c ≡ some d
    → scan_digits acc false (c ∷ s)
      ≡ scan_digits
          (if ltb (acc * 16 + d) (2 ^ 64) then acc * 16 + d else 2 ^ 64 - 1)
          (leb (2 ^ 64) (acc * 16 + d))
          s
unfolding scan_digits
scan_digits-digit acc d c s e =
    ap
      (λ o. elim o as (λ x. Scanned) [
        | none ↦ record { number = acc; rest = c ∷ s; out_of_range = false }
        | some d' ↦
            scan_digits (if ltb (acc * 16 + d') (2 ^ 64) then acc * 16 + d' else 2 ^ 64 - 1)
              (leb (2 ^ 64) (acc * 16 + d')) s
      ])
      e

scan_digits-nibble :
    (acc n v : ℕ) (s : Bytes)
    → n < 16
    → v ≡ acc * 16 + n
    → v < 2 ^ 64
    → scan_digits acc false (nibble_to_hex n ∷ s) ≡ scan_digits v false s
scan_digits-nibble acc n v s h e small =
    scan_digits-digit acc n (nibble_to_hex n) s (hex_to_nibble-nibble_to_hex n h)
    ∙ rw (sym e, lt→ltb v (2 ^ 64) small, not_leb (2 ^ 64) v small) refl

pub scan_digits-digits_of :
    (fuel n : ℕ) (s : Bytes)
    → n < bound fuel
    → n < 2 ^ 64
    → scan_digits 0 false (digits_of 16 fuel n ++ s) ≡ scan_digits n false s
unfolding digits_of
scan_digits-digits_of zero n s h small = ap (λ x. scan_digits x false s) (omega arith)
scan_digits-digits_of (suc fuel) n s h small = elim (Bool-cases (ltb n 16)) [
  | inl one ↦ rw one (scan_digits-nibble 0 n n s (ltb→lt n 16 one) (omega arith) small)
  | inr more ↦
      rw (more, append_assoc (digits_of 16 fuel (n / 16)) (nibble_to_hex (n % 16) ∷ []) s)
        (scan_digits-digits_of fuel (n / 16) (nibble_to_hex (n % 16) ∷ s) (omega arith)
            (omega arith)
          ∙ scan_digits-nibble (n / 16) (n % 16) n s (omega arith) (omega arith) small)
]

-- A digit, and what a text that follows a number begins with: nothing that is read as part of it.
abbrev pub IsDigit : ℕ → Type 0
IsDigit c = is_some_digit (hex_to_nibble c) ≡ true

abbrev pub Ends : Bytes → Type 0
Ends [] = Unit {0}
Ends (c ∷ s) = (hex_to_nibble c ≡ none) × ((c == b'x' || c == b'X') ≡ false)

pub nibble-IsDigit : (n : ℕ) → n < 16 → IsDigit (nibble_to_hex n)
nibble-IsDigit n h = ap is_some_digit (hex_to_nibble-nibble_to_hex n h)

digits_of-IsDigit : (fuel n : ℕ) → All IsDigit (digits_of 16 fuel n)
unfolding digits_of
digits_of-IsDigit zero n = tt
digits_of-IsDigit (suc fuel) n = elim (Bool-cases (ltb n 16)) [
  | inl one ↦ rw one (nibble-IsDigit n (ltb→lt n 16 one), tt)
  | inr more ↦ rw more (
      All-append IsDigit (digits_of 16 fuel (n / 16)) (nibble_to_hex (n % 16) ∷ [])
        (digits_of-IsDigit fuel (n / 16)) (nibble-IsDigit (n % 16) (omega arith), tt))
]

-- What a digit is not.
pub digit_plain :
    (c : ℕ)
    → IsDigit c
    → (is_blank c ≡ false)
      × ((c == b'-') ≡ false)
      × ((c == b'+') ≡ false)
      × ((c == b'x' || c == b'X') ≡ false)
unfolding hex_to_nibble
digit_plain c h = ground arith

-- The second character is no x.
abbrev NoX : Bytes → Type 0
NoX [] = Unit {0}
NoX (c ∷ s) = (c == b'x' || c == b'X') ≡ false

two :
    {A : Type 0} (zero_digit x digit first : Bool) (a b c : A)
    → first ≡ true
    → x ≡ false
    → (if (zero_digit && x) && digit then a else if first then b else c) ≡ b
two zero_digit x digit first a b c f h = ground arith

scan_prefix-digit :
    (all s : Bytes) (c : ℕ)
    → IsDigit c
    → NoX s
    → scan_prefix all (c ∷ s) ≡ scan_digits 0 false (c ∷ s)
unfolding scan_prefix
scan_prefix-digit all [] c h x = rw h refl
scan_prefix-digit all (d ∷ []) c h x = rw h refl
scan_prefix-digit all (d ∷ e ∷ s) c h x =
    two (c == b'0') (d == b'x' || d == b'X') (is_some_digit (hex_to_nibble e))
      (is_some_digit (hex_to_nibble c)) _ _ _ h x

abbrev pub IsFull : Bytes → Type 0
IsFull [] = ⊥
IsFull (c ∷ s) = Unit {0}

append-IsFull_last : (s : Bytes) (c : ℕ) → IsFull (s ++ c ∷ [])
append-IsFull_last [] c = tt
append-IsFull_last (d ∷ s) c = tt

append-IsFull : (s t : Bytes) → IsFull s → IsFull (s ++ t)
append-IsFull [] t h = absurd h
append-IsFull (d ∷ s) t h = tt

pub digits_of-IsFull : (fuel n : ℕ) → IsFull (digits_of 16 (suc fuel) n)
unfolding digits_of
digits_of-IsFull fuel n = elim (Bool-cases (ltb n 16)) [
  | inl one ↦ rw one tt
  | inr more ↦ rw more (append-IsFull_last (digits_of 16 fuel (n / 16)) (nibble_to_hex (n % 16)))
]

follows-NoX : (t s : Bytes) → All IsDigit t → Ends s → NoX (t ++ s)
follows-NoX [] [] h e = tt
follows-NoX [] (c ∷ s) h e = e.1
follows-NoX (d ∷ t) s (h, hs) e = let (_, _, _, x) = digit_plain d h in x

pub strtoul-digits :
    (text s : Bytes)
    → IsFull text
    → All IsDigit text
    → Ends s
    → strtoul (text ++ s) ≡ scan_digits 0 false (text ++ s)
unfolding strtoul skip_blanks scan_sign
strtoul-digits [] s full h e = absurd full
strtoul-digits (c ∷ t) s full (h, hs) e =
    let (blank, minus, plus, _) = digit_plain c h in
    rw (blank, minus, plus) (scan_prefix-digit (c ∷ t ++ s) (t ++ s) c h (follows-NoX t s hs e))

pub stops :
    (n : ℕ) (s : Bytes)
    → Ends s
    → scan_digits n false s ≡ record { number = n; rest = s; out_of_range = false }
unfolding scan_digits
stops n [] e = refl
stops n (c ∷ s) (e, x) =
    ap
      (λ o. elim o as (λ x. Scanned) [
        | none ↦ record { number = n; rest = c ∷ s; out_of_range = false }
        | some d' ↦
            scan_digits (if ltb (n * 16 + d') (2 ^ 64) then n * 16 + d' else 2 ^ 64 - 1)
              (leb (2 ^ 64) (n * 16 + d')) s
      ])
      e

pub hex-IsFull : (n : ℕ) (s : Bytes) → IsFull (hex n ++ s)
unfolding hex
hex-IsFull n s = append-IsFull (digits_of 16 16 n) s (digits_of-IsFull 15 n)

pub hex-IsDigit : (n : ℕ) → All IsDigit (hex n)
unfolding hex
hex-IsDigit n = digits_of-IsDigit 16 n

-- strtoul in base 16 reads back what std::hex printed, before a text that cannot be read as part of
-- the number, and stops there.
pub strtoul-hex :
    (n : ℕ) (s : Bytes)
    → n < 2 ^ 64
    → Ends s
    → strtoul (hex n ++ s) ≡ record { number = n; rest = s; out_of_range = false }
unfolding hex
strtoul-hex n s h e =
    strtoul-digits (digits_of 16 16 n) s (digits_of-IsFull 15 n) (digits_of-IsDigit 16 n) e
    ∙ scan_digits-digits_of 16 n s h h
    ∙ stops n s e
