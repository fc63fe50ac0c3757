-- ===== src/Structures/Numbers/Fixed.antt =====
-- Numbers that Sources/GDBRemote/Structures.cpp prints with std::hex to a width: their digits are those of
-- their bytes, the highest first.
use ds.Base.{
  ℕ, zero, suc, ◌+◌, ◌-◌, ◌*◌, ◌/◌, ◌%◌, ◌<◌, ◌≤◌, ◌≡◌, refl, sym, ap, ◌∙◌, inl, inr, true, false,
  [], ◌∷◌, ◌++◌, append_assoc, append-nil, Bytes, length, length-append, AreBytes, ltb, ltb→lt,
  lt→ltb, Bool-cases, arith,
}
use ds.Hex.{nibble_to_hex, to_hex}
use ds.Structures.Numbers.{digits_of, hex, zeros, padded}

-- The digits of a number, so many.
fixed : ℕ → ℕ → Bytes
fixed zero n = []
fixed (suc w) n = fixed w (n / 16) ++ nibble_to_hex (n % 16) ∷ []

abbrev pub bound : ℕ → ℕ
bound zero = 1
bound (suc w) = 16 * bound w

zeros_last : (w : ℕ) → zeros w ++ b'0' ∷ [] ≡ b'0' ∷ zeros w
unfolding zeros
zeros_last zero = refl
zeros_last (suc w) = ap (λ s. b'0' ∷ s) (zeros_last w)

fixed_zero : (w : ℕ) → fixed w 0 ≡ zeros w
unfolding fixed zeros nibble_to_hex
fixed_zero zero = refl
fixed_zero (suc w) = ap (λ s. s ++ b'0' ∷ []) (fixed_zero w) ∙ zeros_last w

shorter : (w : ℕ) (s : Bytes) (d : ℕ) → suc w - length (s ++ d ∷ []) ≡ w - length s
shorter w s d = omega (arith, length-append s (d ∷ []))

longer : (w : ℕ) (s : Bytes) (d : ℕ) → padded (suc w) (s ++ d ∷ []) ≡ padded w s ++ d ∷ []
unfolding padded
longer w s d =
    ap (λ k. zeros k ++ (s ++ d ∷ [])) (shorter w s d)
    ∙ sym (append_assoc (zeros (w - length s)) s (d ∷ []))

digits_of-one : (fuel n : ℕ) → ltb n 16 ≡ true → digits_of 16 (suc fuel) n ≡ nibble_to_hex n ∷ []
unfolding digits_of
digits_of-one fuel n one = rw one refl

digits_of-more :
    (fuel n : ℕ)
    → ltb n 16 ≡ false
    → digits_of 16 (suc fuel) n ≡ digits_of 16 fuel (n / 16) ++ nibble_to_hex (n % 16) ∷ []
unfolding digits_of
digits_of-more fuel n more = rw more refl

padded_empty : (w : ℕ) → padded w [] ≡ zeros w
unfolding padded
padded_empty w = append-nil (zeros (w - 0)) ∙ ap zeros (omega arith)

fixed_one : (w n : ℕ) → n < 16 → zeros w ++ nibble_to_hex n ∷ [] ≡ fixed (suc w) n
unfolding fixed
fixed_one w n h =
    let quotient : n / 16 ≡ 0 = omega arith in
    let rest : n % 16 ≡ n = omega arith in rw (quotient, rest, fixed_zero w) refl

padded_one : (fuel w n : ℕ) → n < 16 → padded (suc w) (digits_of 16 (suc fuel) n) ≡ fixed (suc w) n
padded_one fuel w n h =
    ap (padded (suc w)) (digits_of-one fuel n (lt→ltb n 16 h))
    ∙ longer w [] (nibble_to_hex n)
    ∙ ap (λ s. s ++ nibble_to_hex n ∷ []) (padded_empty w)
    ∙ fixed_one w n h

padded-fixed :
    (fuel w n : ℕ)
    → n < bound (suc w)
    → suc w ≤ fuel
    → padded (suc w) (digits_of 16 fuel n) ≡ fixed (suc w) n
unfolding fixed
padded-fixed zero w n h f = absurd (omega arith)
padded-fixed (suc fuel) zero n h f = padded_one fuel zero n (omega arith)
padded-fixed (suc fuel) (suc w) n h f = elim (Bool-cases (ltb n 16)) [
  | inl one ↦ padded_one fuel (suc w) n (ltb→lt n 16 one)
  | inr more ↦
      ap (padded (suc (suc w))) (digits_of-more fuel n more)
      ∙ longer (suc w) (digits_of 16 fuel (n / 16)) (nibble_to_hex (n % 16))
      ∙ ap (λ s. s ++ nibble_to_hex (n % 16) ∷ [])
          (padded-fixed fuel w (n / 16) (omega arith) (omega arith))
]

-- The bytes of a number, so many, the highest first.
big_endian : ℕ → ℕ → Bytes
big_endian zero n = []
big_endian (suc k) n = big_endian k (n / 256) ++ n % 256 ∷ []

abbrev pub twice : ℕ → ℕ
twice zero = 0
twice (suc k) = suc (suc (twice k))

to_hex-append : (s t : Bytes) → to_hex (s ++ t) ≡ to_hex s ++ to_hex t
unfolding to_hex
to_hex-append [] t = refl
to_hex-append (n ∷ s) t =
    ap (λ x. nibble_to_hex (n / 16) ∷ nibble_to_hex (n % 16) ∷ x) (to_hex-append s t)

by_bytes : (n : ℕ) → n / 16 / 16 ≡ n / 256
by_bytes n = omega arith

high_nibble : (n : ℕ) → n % 256 / 16 ≡ n / 16 % 16
high_nibble n = omega arith

low_nibble : (n : ℕ) → n % 256 % 16 ≡ n % 16
low_nibble n = omega arith

fixed-big_endian : (k n : ℕ) → fixed (twice k) n ≡ to_hex (big_endian k n)
unfolding fixed big_endian to_hex
fixed-big_endian zero n = refl
fixed-big_endian (suc k) n =
    ap (λ m. fixed (twice k) m ++ nibble_to_hex (n / 16 % 16) ∷ [] ++ nibble_to_hex (n % 16) ∷ [])
      (by_bytes n)
    ∙ ap (λ s. s ++ nibble_to_hex (n / 16 % 16) ∷ [] ++ nibble_to_hex (n % 16) ∷ [])
        (fixed-big_endian k (n / 256))
    ∙ append_assoc (to_hex (big_endian k (n / 256))) (nibble_to_hex (n / 16 % 16) ∷ [])
        (nibble_to_hex (n % 16) ∷ [])
    ∙ ap (λ s. to_hex (big_endian k (n / 256)) ++ s) (rw (high_nibble n, low_nibble n) refl)
    ∙ sym (to_hex-append (big_endian k (n / 256)) (n % 256 ∷ []))

-- The number of bytes, the highest first, behind a number.
abbrev pub horner : ℕ → Bytes → ℕ
horner a [] = a
horner a (b ∷ s) = horner (a * 256 + b) s

plus_zero : (k : ℕ) → k ≡ k + 0
plus_zero k = omega arith

zero_plus : (k : ℕ) → 0 + k ≡ k
zero_plus k = omega arith

one_more : (l k : ℕ) → suc l + k ≡ l + suc k
one_more l k = omega arith

big_endian-horner :
    (s : Bytes) (k a : ℕ)
    → AreBytes s
    → big_endian (length s + k) (horner a s) ≡ big_endian k a ++ s
unfolding big_endian
big_endian-horner [] k a h =
    ap (λ m. big_endian m a) (zero_plus k) ∙ sym (append-nil (big_endian k a))
big_endian-horner (b ∷ s) k a (h, hs) =
    let next : (a * 256 + b) / 256 ≡ a = omega arith in
    let rest : (a * 256 + b) % 256 ≡ b = omega arith in
    ap (λ m. big_endian m (horner (a * 256 + b) s)) (one_more (length s) k)
    ∙ big_endian-horner s (suc k) (a * 256 + b) hs
    ∙ rw (next, rest) (append_assoc (big_endian k a) (b ∷ []) s)

-- Bytes whose number is small enough are printed in their order.
pub printed :
    (b : ℕ) (t : Bytes)
    → AreBytes (b ∷ t)
    → horner 0 (b ∷ t) < bound (twice (suc (length t)))
    → twice (suc (length t)) ≤ 16
    → padded (twice (suc (length t))) (hex (horner 0 (b ∷ t))) ≡ to_hex (b ∷ t)
unfolding hex big_endian
printed b t h small few =
    let n = horner 0 (b ∷ t) in
    padded-fixed 16 (suc (twice (length t))) n small few
    ∙ fixed-big_endian (suc (length t)) n
    ∙ ap (λ k. to_hex (big_endian k n)) (plus_zero (suc (length t)))
    ∙ ap to_hex (big_endian-horner (b ∷ t) 0 0 h)

length-fixed : (w n : ℕ) → length (fixed w n) ≡ w
unfolding fixed
length-fixed zero n = refl
length-fixed (suc w) n =
    omega (
      arith,
      length-append (fixed w (n / 16)) (nibble_to_hex (n % 16) ∷ []),
      length-fixed w (n / 16),
    )

-- A number that is small enough takes exactly the width.
pub length-padded :
    (w n : ℕ) → n < bound (suc w) → suc w ≤ 16 → length (padded (suc w) (hex n)) ≡ suc w
unfolding hex
length-padded w n small few = ap length (padded-fixed 16 w n small few) ∙ length-fixed (suc w) n
