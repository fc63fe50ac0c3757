-- ===== src/Handlers/Xfer/Objects.antt =====
-- The arguments of qXfer of Sources/GDBRemote/Session.cpp, as a debugger writes them and as parse_transfer
-- reads them.
use ds.Base.{
  ℕ, ◌^◌, ◌<◌, ◌≡◌, refl, sym, ap, ◌∙◌, true, false, some, [], ◌∷◌, ◌++◌, Bytes, codes, append-nil,
  arith, All, Lacks, ==_ne, ==_refl,
}
use ds.Hex.{hex_to_nibble}
use ds.Structures.Numbers.{hex, strtoul, is_some_digit}
use ds.Structures.Numbers.RoundTrip.{strtoul-hex, hex-IsDigit, IsDigit}
use ds.Handlers.Scan.{cut, same_text}
use ds.Handlers.Xfer.{read_object, parse_transfer, parse_action_of, parse_read}

-- The arguments of a read.
abbrev pub read_text : Bytes → Bytes → ℕ → ℕ → Bytes
read_text object annex offset size =
    object
    ++ (b':' ∷ (codes "read" ++ (b':' ∷ (annex ++ (b':' ∷ (hex offset ++ (b',' ∷ hex size)))))))

pub cut_at : (sep : ℕ) (p s : Bytes) → Lacks sep p → cut sep (p ++ (sep ∷ s)) ≡ some (p, s)
unfolding cut
cut_at sep [] s h = rw (==_refl sep) refl
cut_at sep (c ∷ p) s (ne, h) = rw (==_ne c sep ne, cut_at sep p s h) refl

comma_no_digit : is_some_digit (hex_to_nibble b',') ≡ false
unfolding hex_to_nibble
comma_no_digit = refl

digits-Lacks : (s : Bytes) → All IsDigit s → Lacks b',' s
digits-Lacks [] h = tt
digits-Lacks (c ∷ s) (digit, h) =
    (λ e. cc (digit, comma_no_digit, ap (λ x. is_some_digit (hex_to_nibble x)) e), digits-Lacks s h)

same_text_self : (s : Bytes) → same_text s s ≡ true
unfolding same_text
same_text_self [] = refl
same_text_self (c ∷ s) = rw (==_refl c) (same_text_self s)

number_read : (n : ℕ) → n < 2 ^ 64 → (strtoul (hex n)).number ≡ n
number_read n h =
    ap (λ t. (strtoul t).number) (sym (append-nil (hex n)))
    ∙ ap (λ r. r.number) (strtoul-hex n [] h tt)

parse_read-hex :
    (object annex : Bytes) (offset size : ℕ)
    → offset < 2 ^ 64
    → size < 2 ^ 64
    → parse_read object annex (hex offset ++ (b',' ∷ hex size))
      ≡ some (read_object object annex offset size)
unfolding parse_read
parse_read-hex object annex offset size ho hs =
    rw
      (
        cut_at b',' (hex offset) (hex size) (digits-Lacks (hex offset) (hex-IsDigit offset)),
        number_read offset ho,
        number_read size hs,
      )
      refl

parse_action_of-read :
    (object annex text : Bytes)
    → parse_action_of (codes "read") object annex text ≡ parse_read object annex text
unfolding parse_action_of same_text
parse_action_of-read object annex text = refl

parse_transfer-fields :
    (object action annex text : Bytes)
    → Lacks b':' object
    → Lacks b':' action
    → Lacks b':' annex
    → parse_transfer (object ++ (b':' ∷ (action ++ (b':' ∷ (annex ++ (b':' ∷ text))))))
      ≡ parse_action_of action object annex text
unfolding parse_transfer
parse_transfer-fields object action annex text lo lc la =
    rw
      (
        cut_at b':' object (action ++ (b':' ∷ (annex ++ (b':' ∷ text)))) lo,
        cut_at b':' action (annex ++ (b':' ∷ text)) lc,
        cut_at b':' annex text la,
      )
      refl

pub parse_transfer-read_text :
    (object annex : Bytes) (offset size : ℕ)
    → Lacks b':' object
    → Lacks b':' annex
    → offset < 2 ^ 64
    → size < 2 ^ 64
    → parse_transfer (read_text object annex offset size)
      ≡ some (read_object object annex offset size)
unfolding parse_transfer
parse_transfer-read_text object annex offset size lo la ho hs =
    let numbers = hex offset ++ (b',' ∷ hex size) in
    parse_transfer-fields object (codes "read") annex numbers lo (omega arith) la
    ∙ parse_action_of-read object annex numbers
    ∙ parse_read-hex object annex offset size ho hs
