-- ===== src/Handlers/Memory/Cycle.antt =====
-- Sources/GDBRemote/Session.cpp: memory that M or X wrote, read by m.
use ds.Base.{
  ℕ, ◌+◌, ◌/◌, ◌%◌, ◌^◌, ◌<◌, ◌≡◌, refl, sym, ap, ◌∙◌, Bool, true, false, not, some, [], ◌∷◌, ◌++◌,
  Bytes, ◌==◌, leb, ◌>>=◌, length, take-append, append-nil, arith, AreBytes, passes_under,
  passes_under-at,
}
use ds.Hex.{nibble_to_hex, to_hex, hex_to_nibble}
use ds.Hex.RoundTrip.{hex_to_bytes-to_hex}
use ds.Errors.{success}
use ds.Structures.Numbers.{hex}
use ds.Structures.Numbers.RoundTrip.{strtoul-hex, Ends}
use ds.Handlers.Calls.{Call, Answer, on_read_memory, on_write_memory}
use ds.Handlers.World.{
  Delegate, World, Action, payload, failure, push, send, ask, chk_send, report, is_success,
}
use ds.Handlers.World.Replies.{send_error-success}
use ds.Handlers.Scan.{c_string, expect}
use ds.Handlers.Memory.{
  parse_range, parse_block, read_block, cut_to, or_invalid, or_stop, handle_m, handle_upper_m,
  handle_upper_x,
}

-- `addr,length`, and `addr,length:` before the text of a block.
abbrev pub range_text : ℕ → ℕ → Bytes
range_text a n = hex a ++ (b',' ∷ hex n)

abbrev pub block_text : ℕ → ℕ → Bytes → Bytes
block_text a n text = hex a ++ (b',' ∷ (hex n ++ (b':' ∷ text)))

pub comma_Ends : (s : Bytes) → Ends (b',' ∷ s)
unfolding hex_to_nibble
comma_Ends s = (refl, refl)

colon_Ends : (s : Bytes) → Ends (b':' ∷ s)
unfolding hex_to_nibble
colon_Ends s = (refl, refl)

pub parse_range-hex :
    (a n : ℕ) (s : Bytes)
    → a < 2 ^ 64
    → n < 2 ^ 64
    → Ends s
    → parse_range (hex a ++ (b',' ∷ (hex n ++ s))) ≡ some (a, n, s)
unfolding parse_range expect
parse_range-hex a n s ha hn e =
    rw (strtoul-hex a (b',' ∷ (hex n ++ s)) ha (comma_Ends (hex n ++ s)), strtoul-hex n s hn e) refl

pub parse_range-range_text :
    (a n : ℕ) → a < 2 ^ 64 → n < 2 ^ 64 → parse_range (range_text a n) ≡ some (a, n, [])
parse_range-range_text a n ha hn =
    ap (λ t. parse_range (hex a ++ (b',' ∷ t))) (sym (append-nil (hex n)))
    ∙ parse_range-hex a n [] ha hn tt

pub parse_block-block_text :
    (a n : ℕ) (text : Bytes)
    → a < 2 ^ 64
    → n < 2 ^ 64
    → parse_block (block_text a n text) ≡ some (a, n, text)
unfolding parse_block expect
parse_block-block_text a n text ha hn =
    rw (parse_range-hex a n (b':' ∷ text) ha hn (colon_Ends text)) refl

-- Hexadecimal digits are no zero bytes.
digit_table : passes_under (λ n. not (nibble_to_hex n == 0)) 256 ≡ true
unfolding passes_under nibble_to_hex
digit_table = refl

nibble-ne_zero : (n : ℕ) → n < 256 → (nibble_to_hex n == 0) ≡ false
nibble-ne_zero n h = not_true _ (passes_under-at _ 256 n h digit_table)
  where
    not_true : (b : Bool) → not b ≡ true → b ≡ false
    not_true true q = cc
    not_true false q = refl

c_string-to_hex : (s : Bytes) → AreBytes s → c_string (to_hex s) ≡ to_hex s
unfolding c_string to_hex
c_string-to_hex [] h = refl
c_string-to_hex (b ∷ s) (lt, rest) =
    rw
      (
        nibble-ne_zero (b / 16) (omega arith),
        nibble-ne_zero (b % 16) (omega arith),
        c_string-to_hex s rest,
      )
      refl

cut_to_whole : (s : Bytes) → cut_to (length s) s ≡ s
unfolding cut_to
cut_to_whole s = ground arith

read_block_whole : (s : Bytes) → read_block (length s) s ≡ some s
unfolding read_block
read_block_whole s = rw (short (length s)) (ap some (take-append s (0 ∷ [])))
  where
    short : (n : ℕ) → leb n (n + 1) ≡ true
    short n = ground arith

module _ (d : Delegate) where
  open d use {Target, perform}

  -- What the delegate's answer makes of the world.
  pub report-success :
      (c : Call) (w : World d) (t : Target) (answer : Answer c)
      → perform w.target c ≡ (t, success, answer)
      → report d c w ≡ some (record w { target = t; sent = w.sent ++ failure success ∷ [] })
  unfolding report ask
  report-success c w t answer h = rw h (send_error-success d (record w { target = t }))

  pub chk_send-success :
      (c : Call) (next : Answer c → Action d) (w : World d) (t : Target) (answer : Answer c)
      → perform w.target c ≡ (t, success, answer)
      → chk_send d c next w ≡ next answer (record w { target = t })
  unfolding chk_send ask is_success
  chk_send-success c next w t answer h = rw h refl

  -- M hands on the bytes of its packet, and X those of its packet.
  pub handle_upper_m-block_text :
      (a : ℕ) (bytes : Bytes) (w : World d)
      → a < 2 ^ 64
      → length bytes < 2 ^ 64
      → AreBytes bytes
      → handle_upper_m d (block_text a (length bytes) (to_hex bytes)) w
        ≡ report d (on_write_memory a bytes) w
  unfolding handle_upper_m or_invalid or_stop
  handle_upper_m-block_text a bytes w ha hn are =
      rw
        (
          parse_block-block_text a (length bytes) (to_hex bytes) ha hn,
          c_string-to_hex bytes are,
          hex_to_bytes-to_hex bytes are,
          cut_to_whole bytes,
        )
        refl

  pub handle_upper_x-block_text :
      (a : ℕ) (bytes : Bytes) (w : World d)
      → a < 2 ^ 64
      → length bytes < 2 ^ 64
      → handle_upper_x d (block_text a (length bytes) bytes) w
        ≡ chk_send d (on_write_memory a bytes) (λ written. send d (hex written)) w
  unfolding handle_upper_x or_invalid or_stop
  handle_upper_x-block_text a bytes w ha hn =
      rw (parse_block-block_text a (length bytes) bytes ha hn, read_block_whole bytes) refl

  pub handle_m-range_text :
      (a n : ℕ) (w : World d)
      → a < 2 ^ 64
      → n < 2 ^ 64
      → handle_m d (range_text a n) w
        ≡ chk_send d (on_read_memory a n) (λ bytes. send d (to_hex bytes)) w
  unfolding handle_m or_invalid
  handle_m-range_text a n w ha hn = rw (parse_range-range_text a n ha hn) refl

  -- If the delegate writes the bytes and then reads as many from the same address and finds them, then an M
  -- packet with the bytes in hexadecimal is answered with OK, and the m packet after it with the same
  -- hexadecimal text; both handlers return, and the target is the one that the delegate left.
  pub m-upper_m :
      (a : ℕ) (bytes : Bytes) (w : World d) (t t' : Target) (written : ℕ)
      → a < 2 ^ 64
      → length bytes < 2 ^ 64
      → AreBytes bytes
      → perform w.target (on_write_memory a bytes) ≡ (t, success, written)
      → perform t (on_read_memory a (length bytes)) ≡ (t', success, bytes)
      → (handle_upper_m d (block_text a (length bytes) (to_hex bytes)) w
          >>= handle_m d (range_text a (length bytes)))
        ≡ some (record w {
          target = t';
          sent = (w.sent ++ failure success ∷ []) ++ payload (to_hex bytes) ∷ [];
        })
  unfolding push
  m-upper_m a bytes w t t' written ha hn are wrote reads =
      ap (λ o. o >>= handle_m d (range_text a (length bytes)))
        (handle_upper_m-block_text a bytes w ha hn are
          ∙ report-success (on_write_memory a bytes) w t written wrote)
      ∙ handle_m-range_text a (length bytes) _ ha hn
      ∙ chk_send-success (on_read_memory a (length bytes)) (λ text. send d (to_hex text)) _ t' bytes
          reads
