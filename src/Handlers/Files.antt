-- ===== src/Handlers/Files.antt =====
-- Sources/GDBRemote/Session.cpp: vFile, the operations on files, and ConvertOpenFlags.
pub mod Flags
pub mod Numbers
pub mod Cycle
use ds.Base.{
  ℕ, ◌/◌, ◌%◌, ◌^◌, Bool, true, false, ◌||◌, Option, none, some, [], ◌∷◌, ◌++◌, Bytes, codes, ◌==◌,
  if◌then◌else◌, ◌>>=◌,
}
use ds.Hex.{to_hex, hex_to_bytes}
use ds.Errors.{ErrorCode, error_number, unsupported}
use ds.Packet.Helpers.{escape}
use ds.Session.{CompatibilityMode}
use ds.Structures.Numbers.{Scanned, strtoul, hex, dec}
use ds.Structures.Processes.{signed_dec}
use ds.Structures.Stops.{is_lldb}
use ds.Handlers.Calls.{
  OpenFlags, on_file_open, on_file_close, on_file_read, on_file_write, on_file_remove,
  on_file_read_link, on_file_exists, on_file_compute_md5, on_file_get_size,
}
use ds.Handlers.World.{Delegate, Action, is_success, push, send, send_error, ask, escaped_payload}
use ds.Handlers.Scan.{
  cut, expect, low32, c_string, same_text, is_negative, signed_int, strtoul_decimal,
}
use ds.Handlers.Memory.{or_invalid, or_stop}

-- `flags & (1 << k)`
abbrev pub has_bit : ℕ → ℕ → Bool
has_bit k flags = flags / 2 ^ k % 2 == 1

unfoldable pub lldb_open_flags : ℕ → Option OpenFlags
lldb_open_flags flags =
    if has_bit 0 flags || has_bit 1 flags
    then some (record {
      read = has_bit 0 flags;
      write = has_bit 1 flags;
      append = has_bit 2 flags;
      truncate = has_bit 3 flags;
      non_blocking = has_bit 4 flags;
      create = has_bit 5 flags || has_bit 6 flags;
      new_only = has_bit 6 flags;
      no_follow = has_bit 7 flags;
      close_on_exec = has_bit 8 flags;
    })
    else none

-- kOpenFlagRead and kOpenFlagWrite, by the two low bits.
unfoldable pub gdb_access : ℕ → Option (Bool × Bool)
gdb_access flags =
    if flags % 4 == 0
    then some (true, false)
    else if has_bit 0 flags
    then some (false, true)
    else if has_bit 1 flags
    then some (true, true)
    else none

unfoldable pub gdb_open_flags : ℕ → Option OpenFlags
unfolding gdb_access
gdb_open_flags flags = do
  (read, write) ← gdb_access flags
  some (record {
    read = read;
    write = write;
    append = has_bit 3 flags;
    truncate = has_bit 10 flags;
    non_blocking = false;
    create = has_bit 9 flags;
    new_only = has_bit 11 flags;
    no_follow = false;
    close_on_exec = false;
  })

-- Session::ConvertOpenFlags; `none` is kOpenFlagInvalid.
unfoldable pub convert_open_flags : CompatibilityMode → ℕ → Option OpenFlags
unfolding lldb_open_flags gdb_open_flags
convert_open_flags mode flags = if is_lldb mode then lldb_open_flags flags else gdb_open_flags flags

-- strtoull in `base`: LLDB's numbers are decimal.
unfoldable pub scan_number : CompatibilityMode → Bytes → Scanned
unfolding strtoul strtoul_decimal
scan_number mode s = if is_lldb mode then strtoul_decimal s else strtoul s

-- strtol in `base`, as an int
unfoldable pub scan_int : CompatibilityMode → Bytes → ℕ
unfolding scan_number signed_int is_negative
scan_int mode s = signed_int (is_negative s) (scan_number mode s)

-- `<< baseModifier` of an unsigned number, and of an int
unfoldable pub print_number : CompatibilityMode → ℕ → Bytes
unfolding hex dec
print_number mode n = if is_lldb mode then dec n else hex n

unfoldable pub print_int : CompatibilityMode → ℕ → Bytes
unfolding hex signed_dec
print_int mode n = if is_lldb mode then signed_dec n else hex n

-- `path,flags,mode`
unfoldable pub parse_open : CompatibilityMode → Bytes → Option (Bytes × OpenFlags × ℕ)
unfolding cut strtoul expect convert_open_flags
parse_open mode args = do
  (path, rest) ← cut b',' args
  let flags = strtoul rest
  rest' ← expect b',' flags.rest
  open_flags ← convert_open_flags mode (low32 flags.number)
  some (path, open_flags, low32 (strtoul rest').number)

-- `fd,count,offset`
unfoldable pub parse_pread : CompatibilityMode → Bytes → Option (ℕ × ℕ × ℕ)
unfolding scan_int scan_number expect
parse_pread mode args = do
  rest ← expect b',' (scan_number mode args).rest
  let count = scan_number mode rest
  rest' ← expect b',' count.rest
  some (scan_int mode args, count.number, (scan_number mode rest').number)

-- `fd,offset,data`, with some data
unfoldable pub some_data : ℕ → ℕ → Bytes → Option (ℕ × ℕ × Bytes)
some_data fd offset [] = none
some_data fd offset (c ∷ s) = some (fd, offset, c ∷ s)

unfoldable pub parse_pwrite : CompatibilityMode → Bytes → Option (ℕ × ℕ × Bytes)
unfolding scan_int scan_number expect some_data
parse_pwrite mode args = do
  rest ← expect b',' (scan_number mode args).rest
  let offset = scan_number mode rest
  data' ← expect b',' offset.rest
  some_data (scan_int mode args) offset.number data'

-- `F-1,` and the error in hexadecimal
unfoldable pub failure_text : ErrorCode → Bytes
unfolding hex error_number
failure_text code = codes "F-1," ++ hex (error_number code)

-- `<< std::hex << std::setw(2) << std::setfill('0') << n` for each byte: an unsigned char is printed as a
-- character, to which the width adds a zero.
unfoldable pub digest_text : Bytes → Bytes
digest_text [] = []
digest_text (n ∷ digest) = b'0' ∷ n ∷ digest_text digest

module _ (d : Delegate) where
  unfoldable pub file_reply : ErrorCode → Bytes → Action d
  unfolding is_success failure_text
  file_reply code text = if is_success code then send d text else send d (failure_text code)

  unfoldable pub file_open : CompatibilityMode → Bytes → Action d
  unfolding parse_open hex_to_bytes print_int
  file_open mode args = or_invalid d (parse_open mode args) λ (path, flags, permissions).
      or_stop d (hex_to_bytes path) λ name.
        ask d (on_file_open name flags permissions)
          λ code fd. file_reply code (b'F' ∷ print_int mode fd)

  unfoldable pub file_close : CompatibilityMode → Bytes → Action d
  unfolding scan_int
  file_close mode args =
      ask d (on_file_close (scan_int mode args)) λ code answer. file_reply code (codes "F0")

  unfoldable pub read_result : CompatibilityMode → ErrorCode → ℕ × Bytes → Action d
  unfolding is_success failure_text print_number escape
  read_result mode code (count, buffer) =
      if is_success code
      then push d (escaped_payload (b'F' ∷ (print_number mode count ++ (b';' ∷ escape buffer))))
      else send d (failure_text code)

  unfoldable pub file_pread : CompatibilityMode → Bytes → Action d
  unfolding parse_pread
  file_pread mode args =
      or_invalid d (parse_pread mode args)
        λ (fd, count, offset). ask d (on_file_read fd count offset) (read_result mode)

  unfoldable pub file_pwrite : CompatibilityMode → Bytes → Action d
  unfolding parse_pwrite print_number
  file_pwrite mode args = or_invalid d (parse_pwrite mode args) λ (fd, offset, buffer).
      ask d (on_file_write fd offset buffer)
        λ code written. file_reply code (b'F' ∷ print_number mode written)

  -- The path is all that follows.
  unfoldable pub with_path : Bytes → (Bytes → Action d) → Action d
  unfolding hex_to_bytes c_string
  with_path args next = or_stop d (hex_to_bytes (c_string args)) next

  unfoldable pub file_unlink : Bytes → Action d
  file_unlink args =
      with_path args λ path. ask d (on_file_remove path) λ code answer. file_reply code (codes "F0")

  unfoldable pub file_readlink : Bytes → Action d
  unfolding to_hex
  file_readlink args = with_path args λ path.
      ask d (on_file_read_link path)
        λ code resolved. file_reply code (codes "F0;" ++ to_hex resolved)

  unfoldable pub file_exists : Bytes → Action d
  unfolding is_success
  file_exists args = with_path args λ path.
      ask d (on_file_exists path)
        λ code answer. if is_success code then send d (codes "F,1") else send d (codes "F,0")

  unfoldable pub file_md5 : Bytes → Action d
  unfolding is_success digest_text
  file_md5 args = with_path args λ path. ask d (on_file_compute_md5 path) λ code digest.
      if is_success code then send d (codes "F," ++ digest_text digest) else send d (codes "F,x")

  unfoldable pub file_size : CompatibilityMode → Bytes → Action d
  unfolding is_success print_number hex error_number
  file_size mode args = with_path args λ path. ask d (on_file_get_size path) λ code size.
      if is_success code
      then send d (b'F' ∷ print_number mode size)
      else send d (b'E' ∷ hex (error_number code))

  unfoldable pub file_operation : CompatibilityMode → Bytes → Bytes → Action d
  unfolding same_text
  file_operation mode op args =
      if same_text op (codes "open")
      then file_open mode args
      else if same_text op (codes "close")
      then file_close mode args
      else if same_text op (codes "pread")
      then file_pread mode args
      else if same_text op (codes "pwrite")
      then file_pwrite mode args
      else if same_text op (codes "unlink")
      then file_unlink args
      else if same_text op (codes "readlink")
      then file_readlink args
      else if same_text op (codes "exists")
      then file_exists args
      else if same_text op (codes "MD5")
      then file_md5 args
      else if same_text op (codes "size")
      then file_size mode args
      else send_error d unsupported

  unfoldable pub handle_v_file : Bytes → Action d
  unfolding cut file_operation
  handle_v_file args w =
      or_invalid d (cut b':' args) (λ (op, rest). file_operation w.session.mode op rest) w
