-- ===== src/Handlers/Scan/Decimals.antt =====
-- strtoul in base 10, as Sources/GDBRemote/Session.cpp calls it, on numbers that std::dec printed.
use ds.Base.{
  ℕ, zero, suc, ◌+◌, ◌-◌, ◌*◌, ◌/◌, ◌%◌, ◌^◌, ◌<◌, ◌≡◌, refl, ap, ◌∙◌, inl, inr, Bool, true, false,
  ◌&&◌, [], ◌∷◌, ◌++◌, Bytes, ◌==◌, ltb, leb, ltb→lt, lt→ltb, Bool-cases, arith, All, All-append,
  append_assoc, passes_under, passes_under-at, ==_iff,
}
use ds.Hex.{nibble_to_hex}
use ds.Structures.Numbers.{digits_of, dec, is_blank}
use ds.Structures.Numbers.RoundTrip.{IsFull}
use ds.Handlers.Scan.{scan_decimals, decimals_of, signed_decimals, after_blanks, strtoul_decimal}

abbrev pub is_decimal : ℕ → Bool
is_decimal c = leb b'0' c && leb c b'9'

abbrev pub IsDecimal : ℕ → Type 0
IsDecimal c = is_decimal c ≡ true

-- What a number may be followed by.
abbrev pub EndsDecimal : Bytes → Type 0
EndsDecimal [] = Unit {0}
EndsDecimal (c ∷ s) = is_decimal c ≡ false

digit_table : passes_under (λ n. nibble_to_hex n == b'0' + n) 10 ≡ true
unfolding passes_under nibble_to_hex
digit_table = refl

digit_lem : (n : ℕ) → n < 10 → nibble_to_hex n ≡ b'0' + n
digit_lem n h = (==_iff _ _).0 (passes_under-at _ 10 n h digit_table)

nibble-IsDecimal : (n : ℕ) → n < 10 → IsDecimal (nibble_to_hex n)
nibble-IsDecimal n h = rw (digit_lem n h) (ground arith)

digits_of-IsDecimal : (fuel n : ℕ) → All IsDecimal (digits_of 10 fuel n)
unfolding digits_of
digits_of-IsDecimal zero n = tt
digits_of-IsDecimal (suc fuel) n = elim (Bool-cases (ltb n 10)) [
  | inl one ↦ rw one (nibble-IsDecimal n (ltb→lt n 10 one), tt)
  | inr more ↦ rw more (
      All-append IsDecimal (digits_of 10 fuel (n / 10)) (nibble_to_hex (n % 10) ∷ [])
        (digits_of-IsDecimal fuel (n / 10)) (nibble-IsDecimal (n % 10) (omega arith), tt))
]

last-IsFull : (s : Bytes) (c : ℕ) → IsFull (s ++ c ∷ [])
last-IsFull [] c = tt
last-IsFull (d ∷ s) c = tt

digits_of-IsFull : (fuel n : ℕ) → IsFull (digits_of 10 (suc fuel) n)
unfolding digits_of
digits_of-IsFull fuel n = elim (Bool-cases (ltb n 10)) [
  | inl one ↦ rw one tt
  | inr more ↦ rw more (last-IsFull (digits_of 10 fuel (n / 10)) (nibble_to_hex (n % 10)))
]

scan_decimals-digit :
    (acc n v : ℕ) (s : Bytes)
    → n < 10
    → v ≡ acc * 10 + n
    → v < 2 ^ 64
    → scan_decimals acc false (nibble_to_hex n ∷ s) ≡ scan_decimals v false s
unfolding scan_decimals
scan_decimals-digit acc n v s h e small =
    let value : acc * 10 + (b'0' + n - b'0') ≡ v = omega arith in
    rw (digit_lem n h, value, lt→ltb v (2 ^ 64) small) (ground arith)

-- 10 to a power.
abbrev bound : ℕ → ℕ
bound zero = 1
bound (suc fuel) = 10 * bound fuel

scan_decimals-digits_of :
    (fuel n : ℕ) (s : Bytes)
    → n < bound fuel
    → n < 2 ^ 64
    → scan_decimals 0 false (digits_of 10 fuel n ++ s) ≡ scan_decimals n false s
unfolding digits_of
scan_decimals-digits_of zero n s h small = ap (λ x. scan_decimals x false s) (omega arith)
scan_decimals-digits_of (suc fuel) n s h small = elim (Bool-cases (ltb n 10)) [
  | inl one ↦ rw one (scan_decimals-digit 0 n n s (ltb→lt n 10 one) (omega arith) small)
  | inr more ↦
      rw (more, append_assoc (digits_of 10 fuel (n / 10)) (nibble_to_hex (n % 10) ∷ []) s)
        (scan_decimals-digits_of fuel (n / 10) (nibble_to_hex (n % 10) ∷ s) (omega arith)
            (omega arith)
          ∙ scan_decimals-digit (n / 10) (n % 10) n s (omega arith) (omega arith) small)
]

decimal_plain :
    (c : ℕ) → IsDecimal c → (is_blank c ≡ false) × ((c == b'-') ≡ false) × ((c == b'+') ≡ false)
decimal_plain c h = ground arith

strtoul_decimal-digits :
    (text s : Bytes)
    → IsFull text
    → All IsDecimal text
    → strtoul_decimal (text ++ s) ≡ scan_decimals 0 false (text ++ s)
unfolding strtoul_decimal after_blanks signed_decimals decimals_of
strtoul_decimal-digits [] s full h = absurd full
strtoul_decimal-digits (c ∷ t) s full (h, hs) =
    let (blank, minus, plus) = decimal_plain c h in rw (blank, minus, plus, h) refl

stops :
    (n : ℕ) (s : Bytes)
    → EndsDecimal s
    → scan_decimals n false s ≡ record { number = n; rest = s; out_of_range = false }
unfolding scan_decimals
stops n [] e = refl
stops n (c ∷ s) e = rw e refl

-- strtoul in base 10 reads back what std::dec printed, before a text that does not begin with a digit.
pub strtoul_decimal-dec :
    (n : ℕ) (s : Bytes)
    → n < 2 ^ 64
    → EndsDecimal s
    → strtoul_decimal (dec n ++ s) ≡ record { number = n; rest = s; out_of_range = false }
unfolding dec
strtoul_decimal-dec n s h e =
    strtoul_decimal-digits (digits_of 10 20 n) s (digits_of-IsFull 19 n) (digits_of-IsDecimal 20 n)
    ∙ scan_decimals-digits_of 20 n s (omega arith) h
    ∙ stops n s e

-- The text goes on, with no zero byte first.
abbrev pub Starts : Bytes → Type 0
Starts [] = ⊥
Starts (c ∷ s) = (c == 0) ≡ false

digits-Starts : (text s : Bytes) → IsFull text → All IsDecimal text → Starts (text ++ s)
digits-Starts [] s full h = absurd full
digits-Starts (c ∷ t) s full (h, hs) = ground arith

pub dec-Starts : (n : ℕ) (s : Bytes) → Starts (dec n ++ s)
unfolding dec
dec-Starts n s =
    digits-Starts (digits_of 10 20 n) s (digits_of-IsFull 19 n) (digits_of-IsDecimal 20 n)
