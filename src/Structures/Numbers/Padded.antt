-- ===== src/Structures/Numbers/Padded.antt =====
-- Numbers that Sources/GDBRemote/Structures.cpp prints with leading zeros, read with strtoul.
use ds.Base.{
  ℕ, zero, suc, ◌-◌, ◌^◌, ◌<◌, ◌≡◌, refl, sym, ap, ◌∙◌, false, some, [], ◌∷◌, ◌++◌, append_assoc,
  append-nil, length, Bytes, All, All-append,
}
use ds.Hex.{hex_to_nibble}
use ds.Structures.Numbers.{digits_of, hex, scan_digits, is_some_digit, strtoul, zeros, padded}
use ds.Structures.Numbers.RoundTrip.{
  scan_digits-digit, scan_digits-digits_of, IsDigit, IsFull, digits_of-IsFull, strtoul-digits,
  stops, hex-IsDigit,
}

-- Zeros in front of a number change nothing.
zero_digit : hex_to_nibble b'0' ≡ some 0
unfolding hex_to_nibble
zero_digit = refl

zeros-IsDigit : (k : ℕ) → All IsDigit (zeros k)
unfolding zeros
zeros-IsDigit zero = tt
zeros-IsDigit (suc k) = (ap is_some_digit zero_digit, zeros-IsDigit k)

scan_digits-zeros : (k : ℕ) (s : Bytes) → scan_digits 0 false (zeros k ++ s) ≡ scan_digits 0 false s
unfolding zeros
scan_digits-zeros zero s = refl
scan_digits-zeros (suc k) s =
    scan_digits-digit 0 0 b'0' (zeros k ++ s) zero_digit ∙ scan_digits-zeros k s

before-IsFull : (s t : Bytes) → IsFull t → IsFull (s ++ t)
before-IsFull [] t h = h
before-IsFull (c ∷ s) t h = tt

pub padded-IsDigit : (width n : ℕ) → All IsDigit (padded width (hex n))
unfolding padded
padded-IsDigit width n =
    All-append IsDigit (zeros (width - length (hex n))) (hex n)
      (zeros-IsDigit (width - length (hex n))) (hex-IsDigit n)

-- strtoul in base 16 reads a number back that was printed with leading zeros to a width.
pub strtoul-padded :
    (width n : ℕ)
    → n < 2 ^ 64
    → strtoul (padded width (hex n)) ≡ record { number = n; rest = []; out_of_range = false }
unfolding padded hex
strtoul-padded width n h =
    let k = width - length (hex n) in
    let digits = digits_of 16 16 n in
    ap strtoul (sym (append-nil (zeros k ++ digits)))
    ∙ strtoul-digits (zeros k ++ digits) [] (before-IsFull (zeros k) digits (digits_of-IsFull 15 n))
        (padded-IsDigit width n) tt
    ∙ ap (scan_digits 0 false) (append_assoc (zeros k) digits [])
    ∙ scan_digits-zeros k (digits ++ [])
    ∙ scan_digits-digits_of 16 n [] h h
    ∙ stops n [] tt
