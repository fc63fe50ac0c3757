-- ===== src/Handlers/Files/Cycle.antt =====
-- vFile of Sources/GDBRemote/Session.cpp: bytes that pwrite wrote, read by pread.
use ds.Base.{
  ℕ, ◌^◌, ◌<◌, ◌≡◌, refl, ap, ◌∙◌, false, some, [], ◌∷◌, ◌++◌, Bytes, codes, ◌>>=◌, length,
}
use ds.Errors.{ErrorCode, success}
use ds.Packet.Helpers.{escape}
use ds.Session.{CompatibilityMode}
use ds.Structures.Numbers.{hex}
use ds.Structures.Stops.{is_lldb}
use ds.Handlers.Calls.{Call, Answer, on_file_read, on_file_write}
use ds.Handlers.World.{Delegate, World, Action, is_success, push, ask, payload, escaped_payload}
use ds.Handlers.Scan.{cut, same_text}
use ds.Handlers.Memory.{or_invalid}
use ds.Handlers.Files.{
  print_number, parse_pread, parse_pwrite, file_pread, file_pwrite, file_reply, read_result,
  file_operation, handle_v_file,
}
use ds.Handlers.Files.Numbers.{parse_pwrite-text, parse_pread-text}

-- `pwrite:fd,offset,data` and `pread:fd,count,offset`, as GDB writes them.
abbrev pub pwrite_text : ℕ → ℕ → Bytes → Bytes
pwrite_text fd offset bytes = codes "pwrite:" ++ (hex fd ++ (b',' ∷ (hex offset ++ (b',' ∷ bytes))))

abbrev pub pread_text : ℕ → ℕ → ℕ → Bytes
pread_text fd count offset =
    codes "pread:" ++ (hex fd ++ (b',' ∷ (hex count ++ (b',' ∷ hex offset))))

module _ (d : Delegate) where
  open d use {Target, perform}

  ask-answer :
      (c : Call) (next : ErrorCode → Answer c → Action d) (w : World d) (t : Target)
      (code : ErrorCode) (answer : Answer c)
      → perform w.target c ≡ (t, code, answer)
      → ask d c next w ≡ next code answer (record w { target = t })
  unfolding ask
  ask-answer c next w t code answer h = rw h refl

  v_file-pwrite :
      (args : Bytes) (w : World d)
      → handle_v_file d (codes "pwrite:" ++ args) w ≡ file_pwrite d w.session.mode args w
  unfolding handle_v_file file_operation or_invalid cut same_text
  v_file-pwrite args w = refl

  v_file-pread :
      (args : Bytes) (w : World d)
      → handle_v_file d (codes "pread:" ++ args) w ≡ file_pread d w.session.mode args w
  unfolding handle_v_file file_operation or_invalid cut same_text
  v_file-pread args w = refl

  file_pwrite-parsed :
      (mode : CompatibilityMode) (args : Bytes) (fd offset : ℕ) (bytes : Bytes) (w : World d)
      → parse_pwrite mode args ≡ some (fd, offset, bytes)
      → file_pwrite d mode args w
        ≡ ask d
            (on_file_write fd offset bytes)
            (λ code written. file_reply d code (b'F' ∷ print_number mode written))
            w
  unfolding file_pwrite or_invalid
  file_pwrite-parsed mode args fd offset bytes w h = rw h refl

  file_pread-parsed :
      (mode : CompatibilityMode) (args : Bytes) (fd count offset : ℕ) (w : World d)
      → parse_pread mode args ≡ some (fd, count, offset)
      → file_pread d mode args w ≡ ask d (on_file_read fd count offset) (read_result d mode) w
  unfolding file_pread or_invalid
  file_pread-parsed mode args fd count offset w h = rw h refl

  file_reply-success :
      (text : Bytes) (w : World d)
      → file_reply d success text w ≡ some (record w { sent = w.sent ++ payload text ∷ [] })
  unfolding file_reply is_success push
  file_reply-success text w = refl

  read_result-success :
      (mode : CompatibilityMode) (count : ℕ) (bytes : Bytes) (w : World d)
      → read_result d mode success (count, bytes) w
        ≡ some (record w {
          sent =
              w.sent
              ++ escaped_payload (b'F' ∷ (print_number mode count ++ (b';' ∷ escape bytes))) ∷ [];
        })
  unfolding read_result is_success push
  read_result-success mode count bytes w = refl

print_number-hex :
    (mode : CompatibilityMode) (n : ℕ) → is_lldb mode ≡ false → print_number mode n ≡ hex n
unfolding print_number
print_number-hex mode n other = rw other refl

module _ (d : Delegate) where
  open d use {Target, perform}

  pwrite-answer :
      (fd offset c : ℕ) (s : Bytes) (w : World d) (t : Target) (written : ℕ)
      → is_lldb w.session.mode ≡ false
      → fd < 2 ^ 32
      → offset < 2 ^ 64
      → perform w.target (on_file_write fd offset (c ∷ s)) ≡ (t, success, written)
      → handle_v_file d (pwrite_text fd offset (c ∷ s)) w
        ≡ some (record w { target = t; sent = w.sent ++ payload (b'F' ∷ hex written) ∷ [] })
  pwrite-answer fd offset c s w t written other hf ho wrote =
      let mode = w.session.mode in
      v_file-pwrite d (hex fd ++ (b',' ∷ (hex offset ++ (b',' ∷ (c ∷ s))))) w
      ∙ file_pwrite-parsed d mode _ fd offset (c ∷ s) w
          (parse_pwrite-text mode other fd offset c s hf ho)
      ∙ ask-answer d (on_file_write fd offset (c ∷ s))
          (λ code n. file_reply d code (b'F' ∷ print_number mode n)) w t success written wrote
      ∙ file_reply-success d (b'F' ∷ print_number mode written) (record w { target = t })
      ∙ ap (λ text. some (record w { target = t; sent = w.sent ++ payload (b'F' ∷ text) ∷ [] }))
          (print_number-hex mode written other)

  pread-answer :
      (fd count offset : ℕ) (w : World d) (t : Target) (got : ℕ) (bytes : Bytes)
      → is_lldb w.session.mode ≡ false
      → fd < 2 ^ 32
      → count < 2 ^ 64
      → offset < 2 ^ 64
      → perform w.target (on_file_read fd count offset) ≡ (t, success, (got, bytes))
      → handle_v_file d (pread_text fd count offset) w
        ≡ some (record w {
          target = t;
          sent = w.sent ++ escaped_payload (b'F' ∷ (hex got ++ (b';' ∷ escape bytes))) ∷ [];
        })
  pread-answer fd count offset w t got bytes other hf hc ho read =
      let mode = w.session.mode in
      v_file-pread d (hex fd ++ (b',' ∷ (hex count ++ (b',' ∷ hex offset)))) w
      ∙ file_pread-parsed d mode _ fd count offset w
          (parse_pread-text mode other fd count offset hf hc ho)
      ∙ ask-answer d (on_file_read fd count offset) (read_result d mode) w t success (got, bytes)
          read
      ∙ read_result-success d mode got bytes (record w { target = t })
      ∙ ap
          (λ text. some (record w {
            target = t;
            sent = w.sent ++ escaped_payload (b'F' ∷ (text ++ (b';' ∷ escape bytes))) ∷ [];
          }))
          (print_number-hex mode got other)

  -- Outside of LLDB's mode, if the delegate writes some bytes to a file, and a read of as many from the same
  -- offset then finds them, vFile:pwrite is answered with the count that the delegate wrote, and
  -- vFile:pread with the count it read and the bytes, escaped; both handlers return.
  pub pread-pwrite :
      (fd offset c : ℕ) (s : Bytes) (w : World d) (t t' : Target) (written got : ℕ)
      → is_lldb w.session.mode ≡ false
      → fd < 2 ^ 32
      → offset < 2 ^ 64
      → length (c ∷ s) < 2 ^ 64
      → perform w.target (on_file_write fd offset (c ∷ s)) ≡ (t, success, written)
      → perform t (on_file_read fd (length (c ∷ s)) offset) ≡ (t', success, (got, c ∷ s))
      → (handle_v_file d (pwrite_text fd offset (c ∷ s)) w
          >>= handle_v_file d (pread_text fd (length (c ∷ s)) offset))
        ≡ some (record w {
          target = t';
          sent =
              (w.sent ++ payload (b'F' ∷ hex written) ∷ [])
              ++ escaped_payload (b'F' ∷ (hex got ++ (b';' ∷ escape (c ∷ s)))) ∷ [];
        })
  pread-pwrite fd offset c s w t t' written got other hf ho hn wrote read =
      ap (λ o. o >>= handle_v_file d (pread_text fd (length (c ∷ s)) offset))
        (pwrite-answer fd offset c s w t written other hf ho wrote)
      ∙ pread-answer fd (length (c ∷ s)) offset _ t' got (c ∷ s) other hf hn ho read
