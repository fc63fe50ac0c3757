-- ===== src/Handlers/Serving/Cycle.antt =====
-- Sources/GDBRemote/ProtocolInterpreter.cpp and Sources/GDBRemote/Session.cpp: memory that a packet M wrote, read by
-- a packet m.
use mathlib.Core.Path.{fun_ext}
use ds.Base.{
  ℕ, ◌/◌, ◌%◌, ◌^◌, ◌<◌, ◌≡◌, refl, ap, sym, ◌∙◌, false, some, Bytes, [], ◌∷◌, ◌++◌, ◌==◌, length,
  contains, ==_ne, All, AreBytes, arith, ◌>>=◌, append-nil,
}
use ds.Hex.{to_hex, hex_to_nibble, nibble_to_hex}
use ds.Errors.{success}
use ds.Interpreter.{split_command, command_bounds, substrings}
use ds.Structures.Numbers.{hex, is_some_digit}
use ds.Structures.Numbers.RoundTrip.{IsDigit, hex-IsDigit, nibble-IsDigit}
use ds.Handlers.Calls.{on_write_memory, on_read_memory}
use ds.Handlers.Commands.{Command, run}
use ds.Handlers.Memory.{handle_m, handle_upper_m}
use ds.Handlers.Memory.Cycle.{range_text, block_text, m-upper_m}
use ds.Handlers.World.{Delegate, World, payload, failure}
use ds.Handlers.Serving.{serve_packet}
use ds.Handlers.Serving.Named.{name_of, serve_packet-run}

-- A character that no hexadecimal text holds.
abbrev IsOther : ℕ → Type 0
IsOther sep = is_some_digit (hex_to_nibble sep) ≡ false

contains-digits :
    (sep : ℕ) (digits text : Bytes)
    → IsOther sep
    → All IsDigit digits
    → contains sep text ≡ false
    → contains sep (digits ++ text) ≡ false
contains-digits sep [] text other h e = e
contains-digits sep (c ∷ digits) text other (digit, h) e =
    rw (==_ne c sep (λ q. cc (digit, other, ap (λ x. is_some_digit (hex_to_nibble x)) q)))
      (contains-digits sep digits text other h e)

to_hex-IsDigit : (s : Bytes) → AreBytes s → All IsDigit (to_hex s)
unfolding to_hex
to_hex-IsDigit [] h = tt
to_hex-IsDigit (b ∷ s) (lt, h) =
    let rest : All IsDigit (nibble_to_hex (b % 16) ∷ to_hex s) =
      (nibble-IsDigit (b % 16) (omega arith), to_hex-IsDigit s h) in
    (nibble-IsDigit (b / 16) (omega arith), rest)

whole_plain :
    (sep : ℕ) (digits : Bytes) → IsOther sep → All IsDigit digits → contains sep digits ≡ false
whole_plain sep digits other h =
    ap (contains sep) (sym (append-nil digits)) ∙ contains-digits sep digits [] other h refl

range_text-plain :
    (sep a n : ℕ) → IsOther sep → (b',' == sep) ≡ false → contains sep (range_text a n) ≡ false
range_text-plain sep a n other comma =
    contains-digits sep (hex a) (b',' ∷ hex n) other (hex-IsDigit a)
      (rw comma (whole_plain sep (hex n) other (hex-IsDigit n)))

block_text-plain :
    (sep a n : ℕ) (bytes : Bytes)
    → IsOther sep
    → (b',' == sep) ≡ false
    → (b':' == sep) ≡ false
    → AreBytes bytes
    → contains sep (block_text a n (to_hex bytes)) ≡ false
block_text-plain sep a n bytes other comma colon h =
    contains-digits sep (hex a) (b',' ∷ (hex n ++ (b':' ∷ to_hex bytes))) other (hex-IsDigit a) (
      rw comma (
        contains-digits sep (hex n) (b':' ∷ to_hex bytes) other (hex-IsDigit n)
          (rw colon (whole_plain sep (to_hex bytes) other (to_hex-IsDigit bytes h)))))

split_upper_m : (args : Bytes) → split_command (b'M' ∷ args) ≡ (name_of Command.upper_m, args)
unfolding split_command command_bounds substrings name_of
split_upper_m args = ground arith

split_m : (args : Bytes) → split_command (b'm' ∷ args) ≡ (name_of Command.letter_m, args)
unfolding split_command command_bounds substrings name_of
split_m args = ground arith

star-IsOther : IsOther b'*'
unfolding hex_to_nibble
star-IsOther = refl

brace-IsOther : IsOther b'}'
unfolding hex_to_nibble
brace-IsOther = refl

module _ (d : Delegate) where
  open d use {Target, perform}

  serve_packet-upper_m :
      (a : ℕ) (bytes : Bytes) (w : World d)
      → AreBytes bytes
      → serve_packet d (b'M' ∷ block_text a (length bytes) (to_hex bytes)) w
        ≡ handle_upper_m d (block_text a (length bytes) (to_hex bytes)) w
  unfolding run
  serve_packet-upper_m a bytes w h =
      serve_packet-run d Command.upper_m _ (block_text a (length bytes) (to_hex bytes)) w
        (split_upper_m (block_text a (length bytes) (to_hex bytes)))
        (block_text-plain b'*' a (length bytes) bytes star-IsOther refl refl h)
        (block_text-plain b'}' a (length bytes) bytes brace-IsOther refl refl h)

  serve_packet-m :
      (a n : ℕ) (w : World d)
      → serve_packet d (b'm' ∷ range_text a n) w ≡ handle_m d (range_text a n) w
  unfolding run
  serve_packet-m a n w =
      serve_packet-run d Command.letter_m _ (range_text a n) w (split_m (range_text a n))
        (range_text-plain b'*' a n star-IsOther refl) (range_text-plain b'}' a n brace-IsOther refl)

  -- If the delegate writes the bytes and then reads as many from the same address and finds them, then a
  -- packet M with the bytes in hexadecimal is answered with OK, and the packet m after it with the same
  -- hexadecimal text: the interpreter splits both, finds their methods in its table and hands on the
  -- arguments as they were sent.
  pub serve_packet-memory :
      (a : ℕ) (bytes : Bytes) (w : World d) (t t' : Target) (written : ℕ)
      → a < 2 ^ 64
      → length bytes < 2 ^ 64
      → AreBytes bytes
      → perform w.target (on_write_memory a bytes) ≡ (t, success, written)
      → perform t (on_read_memory a (length bytes)) ≡ (t', success, bytes)
      → (serve_packet d (b'M' ∷ block_text a (length bytes) (to_hex bytes)) w
          >>= serve_packet d (b'm' ∷ range_text a (length bytes)))
        ≡ some (record w {
          target = t';
          sent = (w.sent ++ failure success ∷ []) ++ payload (to_hex bytes) ∷ [];
        })
  serve_packet-memory a bytes w t t' written ha hn are wrote reads =
      ap (λ o. o >>= serve_packet d (b'm' ∷ range_text a (length bytes)))
        (serve_packet-upper_m a bytes w are)
      ∙ ap (λ f. handle_upper_m d (block_text a (length bytes) (to_hex bytes)) w >>= f)
          (fun_ext λ v. serve_packet-m a (length bytes) v)
      ∙ m-upper_m d a bytes w t t' written ha hn are wrote reads
