-- ===== src/Structures/RegisterTexts/Memory.antt =====
-- encodeRegisters of Sources/GDBRemote/Structures.cpp: a register's digits are its bytes in memory.
use ds.Base.{
  ℕ, zero, suc, ◌+◌, ◌-◌, ◌*◌, ◌/◌, ◌%◌, ◌^◌, ◌<◌, ◌≤◌, ◌≡◌, ◌||◌, refl, ap, ◌∙◌, false, some, [],
  ◌∷◌, Bytes, take, AreBytes, ltb, ◌==◌, arith,
}
use ds.Hex.{to_hex}
use ds.Structures.Numbers.{hex, padded}
use ds.Structures.RegisterTexts.{swap16, swap32, swap64, register_text}
use ds.Structures.Numbers.Fixed.{horner, printed}

swap16-bytes : (a b : ℕ) → a < 256 → b < 256 → swap16 (a + 256 * b) ≡ b + 256 * a
unfolding swap16
swap16-bytes a b h k = omega arith

low_half : (l h : ℕ) → l < 2 ^ 16 → (l + 2 ^ 16 * h) % 2 ^ 16 ≡ l
low_half l h p = omega arith

high_half : (l h : ℕ) → l < 2 ^ 16 → h < 2 ^ 16 → (l + 2 ^ 16 * h) / 2 ^ 16 % 2 ^ 16 ≡ h
high_half l h p q = omega arith

swap32-halves :
    (l h : ℕ) → l < 2 ^ 16 → h < 2 ^ 16 → swap32 (l + 2 ^ 16 * h) ≡ swap16 h + swap16 l * 2 ^ 16
unfolding swap32
swap32-halves l h p q = rw (low_half l h p, high_half l h p q) refl

low_word : (l h : ℕ) → l < 2 ^ 32 → (l + 2 ^ 32 * h) % 2 ^ 32 ≡ l
low_word l h p = omega arith

high_word : (l h : ℕ) → l < 2 ^ 32 → h < 2 ^ 32 → (l + 2 ^ 32 * h) / 2 ^ 32 % 2 ^ 32 ≡ h
high_word l h p q = omega arith

swap64-halves :
    (l h : ℕ) → l < 2 ^ 32 → h < 2 ^ 32 → swap64 (l + 2 ^ 32 * h) ≡ swap32 h + swap32 l * 2 ^ 32
unfolding swap64
swap64-halves l h p q = rw (low_word l h p, high_word l h p q) refl

-- The number of eight bytes, the lowest first.
unfoldable pub value_of_bytes : Bytes → ℕ
value_of_bytes [] = 0
value_of_bytes (b ∷ s) = b + 256 * value_of_bytes s

half :
    (a b c d : ℕ)
    → a < 256
    → b < 256
    → c < 256
    → d < 256
    → swap32 (a + 256 * b + 2 ^ 16 * (c + 256 * d)) ≡ ((a * 256 + b) * 256 + c) * 256 + d
half a b c d p q r t =
    swap32-halves (a + 256 * b) (c + 256 * d) (omega arith) (omega arith)
    ∙ rw (swap16-bytes a b p q, swap16-bytes c d r t) (omega arith)

module _ (a b c d e f g h : ℕ) where
  abbrev pub bytes : Bytes
  bytes = a ∷ b ∷ c ∷ d ∷ e ∷ f ∷ g ∷ h ∷ []

  swapped : AreBytes bytes → swap64 (value_of_bytes bytes) ≡ horner 0 bytes
  unfolding value_of_bytes
  swapped (p, (q, (r, (t, (u, (v, (x, (y, _)))))))) =
      let low = a + 256 * b + 2 ^ 16 * (c + 256 * d) in
      let high = e + 256 * f + 2 ^ 16 * (g + 256 * h) in
      let joined : value_of_bytes bytes ≡ low + 2 ^ 32 * high = omega arith in
      ap swap64 joined
      ∙ swap64-halves low high (omega arith) (omega arith)
      ∙ rw (half a b c d p q r t, half e f g h u v x y) (omega arith)

  text_of :
      (size n : ℕ) (s : Bytes)
      → (size == 0 || ltb 8 size) ≡ false
      → AreBytes bytes
      → horner 0 bytes / 2 ^ (64 - 8 * size) ≡ n
      → padded (2 * size) (hex n) ≡ to_hex s
      → register_text (record { size = size; value = value_of_bytes bytes }) ≡ some (to_hex s)
  unfolding register_text
  text_of size n s fits are quotient text = rw (fits, swapped are, quotient, text) refl

  text_1 :
      AreBytes bytes
      → register_text (record { size = 1; value = value_of_bytes bytes }) ≡ some (to_hex (a ∷ []))
  text_1 (p, (q, (r, (t, (u, (v, (x, (y, _)))))))) =
      text_of 1 (horner 0 (a ∷ [])) (a ∷ []) refl (p, (q, (r, (t, (u, (v, (x, (y, tt))))))))
        (omega arith) (printed a ([]) (p, tt) (omega arith) (omega arith))

  text_2 :
      AreBytes bytes
      → register_text (record { size = 2; value = value_of_bytes bytes })
        ≡ some (to_hex (a ∷ b ∷ []))
  text_2 (p, (q, (r, (t, (u, (v, (x, (y, _)))))))) =
      text_of 2 (horner 0 (a ∷ b ∷ [])) (a ∷ b ∷ []) refl (p, (q, (r, (t, (u, (v, (x, (y, tt))))))))
        (omega arith) (printed a (b ∷ []) (p, (q, tt)) (omega arith) (omega arith))

  text_3 :
      AreBytes bytes
      → register_text (record { size = 3; value = value_of_bytes bytes })
        ≡ some (to_hex (a ∷ b ∷ c ∷ []))
  text_3 (p, (q, (r, (t, (u, (v, (x, (y, _)))))))) =
      text_of 3 (horner 0 (a ∷ b ∷ c ∷ [])) (a ∷ b ∷ c ∷ []) refl
        (p, (q, (r, (t, (u, (v, (x, (y, tt)))))))) (omega arith)
        (printed a (b ∷ c ∷ []) (p, (q, (r, tt))) (omega arith) (omega arith))

  text_4 :
      AreBytes bytes
      → register_text (record { size = 4; value = value_of_bytes bytes })
        ≡ some (to_hex (a ∷ b ∷ c ∷ d ∷ []))
  text_4 (p, (q, (r, (t, (u, (v, (x, (y, _)))))))) =
      text_of 4 (horner 0 (a ∷ b ∷ c ∷ d ∷ [])) (a ∷ b ∷ c ∷ d ∷ []) refl
        (p, (q, (r, (t, (u, (v, (x, (y, tt)))))))) (omega arith)
        (printed a (b ∷ c ∷ d ∷ []) (p, (q, (r, (t, tt)))) (omega arith) (omega arith))

  text_5 :
      AreBytes bytes
      → register_text (record { size = 5; value = value_of_bytes bytes })
        ≡ some (to_hex (a ∷ b ∷ c ∷ d ∷ e ∷ []))
  text_5 (p, (q, (r, (t, (u, (v, (x, (y, _)))))))) =
      text_of 5 (horner 0 (a ∷ b ∷ c ∷ d ∷ e ∷ [])) (a ∷ b ∷ c ∷ d ∷ e ∷ []) refl
        (p, (q, (r, (t, (u, (v, (x, (y, tt)))))))) (omega arith)
        (printed a (b ∷ c ∷ d ∷ e ∷ []) (p, (q, (r, (t, (u, tt))))) (omega arith) (omega arith))

  text_6 :
      AreBytes bytes
      → register_text (record { size = 6; value = value_of_bytes bytes })
        ≡ some (to_hex (a ∷ b ∷ c ∷ d ∷ e ∷ f ∷ []))
  text_6 (p, (q, (r, (t, (u, (v, (x, (y, _)))))))) =
      text_of 6 (horner 0 (a ∷ b ∷ c ∷ d ∷ e ∷ f ∷ [])) (a ∷ b ∷ c ∷ d ∷ e ∷ f ∷ []) refl
        (p, (q, (r, (t, (u, (v, (x, (y, tt)))))))) (omega arith)
        (printed a (b ∷ c ∷ d ∷ e ∷ f ∷ []) (p, (q, (r, (t, (u, (v, tt)))))) (omega arith)
          (omega arith))

  text_7 :
      AreBytes bytes
      → register_text (record { size = 7; value = value_of_bytes bytes })
        ≡ some (to_hex (a ∷ b ∷ c ∷ d ∷ e ∷ f ∷ g ∷ []))
  text_7 (p, (q, (r, (t, (u, (v, (x, (y, _)))))))) =
      text_of 7 (horner 0 (a ∷ b ∷ c ∷ d ∷ e ∷ f ∷ g ∷ [])) (a ∷ b ∷ c ∷ d ∷ e ∷ f ∷ g ∷ []) refl
        (p, (q, (r, (t, (u, (v, (x, (y, tt)))))))) (omega arith)
        (printed a (b ∷ c ∷ d ∷ e ∷ f ∷ g ∷ []) (p, (q, (r, (t, (u, (v, (x, tt))))))) (omega arith)
          (omega arith))

  text_8 :
      AreBytes bytes
      → register_text (record { size = 8; value = value_of_bytes bytes })
        ≡ some (to_hex (a ∷ b ∷ c ∷ d ∷ e ∷ f ∷ g ∷ h ∷ []))
  text_8 (p, (q, (r, (t, (u, (v, (x, (y, _)))))))) =
      text_of 8 (horner 0 (a ∷ b ∷ c ∷ d ∷ e ∷ f ∷ g ∷ h ∷ [])) (a ∷ b ∷ c ∷ d ∷ e ∷ f ∷ g ∷ h ∷ [])
        refl (p, (q, (r, (t, (u, (v, (x, (y, tt)))))))) (omega arith)
        (printed a (b ∷ c ∷ d ∷ e ∷ f ∷ g ∷ h ∷ []) (p, (q, (r, (t, (u, (v, (x, (y, tt))))))))
          (omega arith) (omega arith))

  -- The text of a register of 1 to 8 bytes is its bytes in hexadecimal in the order in which a
  -- little-endian memory holds them, whatever the value has beyond its size.
  pub register_text-bytes :
      (size : ℕ)
      → 1 ≤ size
      → size ≤ 8
      → AreBytes bytes
      → register_text (record { size = size; value = value_of_bytes bytes })
        ≡ some (to_hex (take size bytes))
  register_text-bytes zero low high are = absurd (omega arith)
  register_text-bytes (suc zero) low high are = text_1 are
  register_text-bytes (suc (suc zero)) low high are = text_2 are
  register_text-bytes (suc (suc (suc zero))) low high are = text_3 are
  register_text-bytes (suc (suc (suc (suc zero)))) low high are = text_4 are
  register_text-bytes (suc (suc (suc (suc (suc zero))))) low high are = text_5 are
  register_text-bytes (suc (suc (suc (suc (suc (suc zero)))))) low high are = text_6 are
  register_text-bytes (suc (suc (suc (suc (suc (suc (suc zero))))))) low high are = text_7 are
  register_text-bytes (suc (suc (suc (suc (suc (suc (suc (suc zero)))))))) low high are = text_8 are
  register_text-bytes (suc (suc (suc (suc (suc (suc (suc (suc (suc n))))))))) low high are =
      absurd (omega arith)
