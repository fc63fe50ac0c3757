-- ===== src/Handlers/Files/Numbers.antt =====
-- vFile of Sources/GDBRemote/Session.cpp: the numbers of pread and pwrite, as GDB writes them.
use ds.Base.{
  ℕ, ◌^◌, ◌<◌, ◌≡◌, refl, sym, ap, ◌∙◌, false, some, [], ◌∷◌, ◌++◌, Bytes, arith, All, append-nil,
}
use ds.Session.{CompatibilityMode}
use ds.Structures.Numbers.{hex}
use ds.Structures.Numbers.RoundTrip.{
  strtoul-hex, digits_of-IsFull, hex-IsDigit, IsDigit, digit_plain, Ends, IsFull,
}
use ds.Structures.Stops.{is_lldb}
use ds.Handlers.Scan.{is_negative, signed_int, expect}
use ds.Handlers.Memory.Cycle.{comma_Ends}
use ds.Handlers.Files.{scan_number, scan_int, parse_pread, parse_pwrite, some_data}

not_negative : (s t : Bytes) → All IsDigit s → IsFull s → is_negative (s ++ t) ≡ false
unfolding is_negative
not_negative [] t h f = absurd f
not_negative (c ∷ s) t (digit, h) f =
    let (blank, minus, _, _) = digit_plain c digit in rw (blank, minus) refl

hex-IsFull : (n : ℕ) → IsFull (hex n)
unfolding hex
hex-IsFull n = digits_of-IsFull 15 n

module _ (mode : CompatibilityMode) (other : is_lldb mode ≡ false) where
  scan_number-hex :
      (n : ℕ) (s : Bytes)
      → n < 2 ^ 64
      → Ends s
      → scan_number mode (hex n ++ s) ≡ record { number = n; rest = s; out_of_range = false }
  unfolding scan_number
  scan_number-hex n s h e = rw other (strtoul-hex n s h e)

  scan_int-hex : (n : ℕ) (s : Bytes) → n < 2 ^ 32 → Ends s → scan_int mode (hex n ++ s) ≡ n
  unfolding scan_int signed_int
  scan_int-hex n s h e =
      rw
        (not_negative (hex n) s (hex-IsDigit n) (hex-IsFull n), scan_number-hex n s (omega arith) e)
        (ground arith)

  pub parse_pwrite-text :
      (fd offset c : ℕ) (s : Bytes)
      → fd < 2 ^ 32
      → offset < 2 ^ 64
      → parse_pwrite mode (hex fd ++ (b',' ∷ (hex offset ++ (b',' ∷ (c ∷ s)))))
        ≡ some (fd, offset, c ∷ s)
  unfolding parse_pwrite expect some_data
  parse_pwrite-text fd offset c s hf ho =
      rw
        (
          scan_int-hex fd (b',' ∷ (hex offset ++ (b',' ∷ (c ∷ s)))) hf
              (comma_Ends (hex offset ++ (b',' ∷ (c ∷ s)))),
          scan_number-hex fd (b',' ∷ (hex offset ++ (b',' ∷ (c ∷ s)))) (omega arith)
              (comma_Ends (hex offset ++ (b',' ∷ (c ∷ s)))),
          scan_number-hex offset (b',' ∷ (c ∷ s)) ho (comma_Ends (c ∷ s)),
        )
        refl

  last_number : (n : ℕ) → n < 2 ^ 64 → (scan_number mode (hex n)).number ≡ n
  last_number n h =
      ap (λ t. (scan_number mode t).number) (sym (append-nil (hex n)))
      ∙ ap (λ r. r.number) (scan_number-hex n [] h tt)

  pub parse_pread-text :
      (fd count offset : ℕ)
      → fd < 2 ^ 32
      → count < 2 ^ 64
      → offset < 2 ^ 64
      → parse_pread mode (hex fd ++ (b',' ∷ (hex count ++ (b',' ∷ hex offset))))
        ≡ some (fd, count, offset)
  unfolding parse_pread expect
  parse_pread-text fd count offset hf hc ho =
      rw
        (
          scan_int-hex fd (b',' ∷ (hex count ++ (b',' ∷ hex offset))) hf
              (comma_Ends (hex count ++ (b',' ∷ hex offset))),
          scan_number-hex fd (b',' ∷ (hex count ++ (b',' ∷ hex offset))) (omega arith)
              (comma_Ends (hex count ++ (b',' ∷ hex offset))),
          scan_number-hex count (b',' ∷ hex offset) hc (comma_Ends (hex offset)),
          last_number offset ho,
        )
        refl
