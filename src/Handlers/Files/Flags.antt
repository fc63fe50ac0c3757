-- ===== src/Handlers/Files/Flags.antt =====
-- vFile:open and ConvertOpenFlags of Sources/GDBRemote/Session.cpp: the access and the options that GDB asks for.
use ds.Base.{
  ℕ, ◌+◌, ◌^◌, ◌<◌, ◌≡◌, refl, sym, ap, Bool, true, false, some, [], ◌∷◌, ◌++◌, Bytes,
  if◌then◌else◌, arith, append-nil, Lacks, ◌∙◌, ◌/◌, ◌%◌, ◌==◌, ◌≢◌, not, codes, AreBytes,
  passes_under, passes_under-at,
}
use ds.Session.{CompatibilityMode}
use ds.Structures.Numbers.{hex}
use ds.Structures.Numbers.RoundTrip.{strtoul-hex}
use ds.Structures.Stops.{is_lldb}
use ds.Handlers.Calls.{OpenFlags}
use ds.Handlers.Scan.{expect, low32}
use ds.Handlers.Xfer.Objects.{cut_at}
use ds.Handlers.Memory.Cycle.{comma_Ends}
use ds.Hex.{nibble_to_hex, to_hex}
use ds.Hex.RoundTrip.{hex_to_bytes-to_hex}
use ds.Handlers.Calls.{on_file_open}
use ds.Handlers.World.{Delegate, World, ask}
use ds.Handlers.Scan.{cut, same_text}
use ds.Handlers.Memory.{or_invalid, or_stop}
use ds.Handlers.Files.{
  convert_open_flags, gdb_open_flags, gdb_access, parse_open, file_open, file_operation, file_reply,
  print_int, handle_v_file,
}

-- How a debugger wants to open a file.
pub data Access : Type 0 where
  read_only write_only read_write : Access

pub record Opening : Type 0 where
  pub access : Access
  pub append : Bool
  pub create : Bool
  pub truncate : Bool
  pub exclusive : Bool

abbrev pub reads : Access → Bool
reads read_only = true
reads write_only = false
reads read_write = true

abbrev pub writes : Access → Bool
writes read_only = false
writes write_only = true
writes read_write = true

-- The numbers of GDB's File-I/O protocol: O_RDONLY, O_WRONLY and O_RDWR are 0, 1 and 2, O_APPEND is 8,
-- O_CREAT 0x200, O_TRUNC 0x400 and O_EXCL 0x800.
abbrev pub access_number : Access → ℕ
access_number read_only = 0
access_number write_only = 1
access_number read_write = 2

abbrev option_number : Bool → ℕ → ℕ
option_number asked n = if asked then n else 0

abbrev pub opening_number : Opening → ℕ
opening_number o =
    access_number o.access
    + (option_number o.append 8
        + (option_number o.create 0x200
            + (option_number o.truncate 0x400 + option_number o.exclusive 0x800)))

-- What the server is to open.
abbrev pub opened : Opening → OpenFlags
opened o = record {
  read = reads o.access;
  write = writes o.access;
  append = o.append;
  truncate = o.truncate;
  non_blocking = false;
  create = o.create;
  new_only = o.exclusive;
  no_follow = false;
  close_on_exec = false;
}

flags_of :
    (access : Access) (append create truncate exclusive : Bool)
    → let o : Opening = record {
      access = access;
      append = append;
      create = create;
      truncate = truncate;
      exclusive = exclusive;
    } in
      gdb_open_flags (low32 (opening_number o)) ≡ some (opened o)
unfolding gdb_open_flags gdb_access
flags_of read_only append create truncate exclusive = ground arith
flags_of write_only append create truncate exclusive = ground arith
flags_of read_write append create truncate exclusive = ground arith

opening_number-small : (o : Opening) → opening_number o < 2 ^ 32
opening_number-small o = ground arith

-- The arguments of vFile:open, as GDB writes them.
abbrev pub open_text : Bytes → Opening → ℕ → Bytes
open_text path o permissions =
    to_hex path ++ (b',' ∷ (hex (opening_number o) ++ (b',' ∷ hex permissions)))

comma_table : passes_under (λ n. not (nibble_to_hex n == b',')) 256 ≡ true
unfolding passes_under nibble_to_hex
comma_table = refl

nibble-ne_comma : (n : ℕ) → n < 256 → nibble_to_hex n ≢ b','
nibble-ne_comma n h = ground (arith, passes_under-at _ 256 n h comma_table)

to_hex-Lacks : (s : Bytes) → AreBytes s → Lacks b',' (to_hex s)
unfolding to_hex
to_hex-Lacks [] h = tt
to_hex-Lacks (b ∷ s) (lt, h) = (
  nibble-ne_comma (b / 16) (omega arith),
  (nibble-ne_comma (b % 16) (omega arith), to_hex-Lacks s h),
)

parse_open-open_text :
    (mode : CompatibilityMode) (path : Bytes) (o : Opening) (permissions : ℕ)
    → is_lldb mode ≡ false
    → AreBytes path
    → permissions < 2 ^ 32
    → parse_open mode (open_text path o permissions) ≡ some (to_hex path, opened o, permissions)
unfolding parse_open convert_open_flags expect
parse_open-open_text mode path o permissions m are small =
    rw
      (
        cut_at b',' (to_hex path) (hex (opening_number o) ++ (b',' ∷ hex permissions))
            (to_hex-Lacks path are),
        strtoul-hex (opening_number o) (b',' ∷ hex permissions)
            (omega (arith, opening_number-small o)) (comma_Ends (hex permissions)),
        m,
        flags_of o.access o.append o.create o.truncate o.exclusive,
        sym (append-nil (hex permissions)),
        strtoul-hex permissions [] (omega arith) tt,
      )
      (ap (λ n. some (to_hex path, opened o, n)) (omega arith))

module _ (d : Delegate) where
  v_file-open :
      (args : Bytes) (w : World d)
      → handle_v_file d (codes "open:" ++ args) w ≡ file_open d w.session.mode args w
  unfolding handle_v_file file_operation or_invalid cut same_text
  v_file-open args w = refl

  -- For a debugger that is not LLDB, vFile:open with any path, any of the three accesses, any of the four
  -- options in GDB's numbers, and a mode of 32 bits, asks the delegate once to open this path with this
  -- mode, for reading and for writing exactly as the access says, and to append, create, truncate and only
  -- create exactly as the options say; the reply is the descriptor, or the error code.
  pub handle_v_file-open :
      (path : Bytes) (o : Opening) (permissions : ℕ) (w : World d)
      → is_lldb w.session.mode ≡ false
      → AreBytes path
      → permissions < 2 ^ 32
      → handle_v_file d (codes "open:" ++ open_text path o permissions) w
        ≡ ask d
            (on_file_open path (opened o) permissions)
            (λ code fd. file_reply d code (b'F' ∷ print_int w.session.mode fd))
            w
  unfolding file_open or_invalid or_stop
  handle_v_file-open path o permissions w m are small =
      v_file-open (open_text path o permissions) w
      ∙ rw
          (
            parse_open-open_text w.session.mode path o permissions m are small,
            hex_to_bytes-to_hex path are,
          )
          refl
