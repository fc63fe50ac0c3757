-- ===== src/Handlers/Breakpoints.antt =====
-- Sources/GDBRemote/Session.cpp: the handlers Z, z and B, which insert and remove breakpoints.
use ds.Base.{ℕ, Option, some, Bytes, [], ◌∷◌, ◌==◌, leb, if◌then◌else◌, ◌>>=◌}
use ds.Errors.{invalid_argument}
use ds.Structures.Numbers.{strtoul}
use ds.Handlers.Calls.{on_insert_breakpoint, on_remove_breakpoint}
use ds.Handlers.World.{Delegate, Action, send_error, report}
use ds.Handlers.Scan.{expect, low32}
use ds.Handlers.Memory.{or_invalid}

-- The numbers of BreakpointType; kBreakpointTypeMax is none of them.
abbrev pub software_breakpoint : ℕ
software_breakpoint = 0

abbrev pub breakpoint_type_max : ℕ
breakpoint_type_max = 5

-- The address and the kind, behind the type.
unfoldable pub parse_site : Bytes → Option (ℕ × ℕ)
unfolding strtoul expect
parse_site text = do
  rest ← expect b',' text
  let address = strtoul rest
  rest' ← expect b',' address.rest
  some (address.number, low32 (strtoul rest').number)

module _ (d : Delegate) where
  unfoldable pub handle_upper_z : Bytes → Action d
  unfolding parse_site strtoul
  handle_upper_z args =
      let type = strtoul args in
      if leb breakpoint_type_max (low32 type.number)
      then send_error d invalid_argument
      else or_invalid d (parse_site type.rest)
          λ (address, kind). report d (on_insert_breakpoint (low32 type.number) address kind)

  unfoldable pub handle_z : Bytes → Action d
  unfolding parse_site strtoul
  handle_z args =
      let type = strtoul args in
      or_invalid d (parse_site type.rest)
        λ (address, kind). report d (on_remove_breakpoint (low32 type.number) address kind)

  -- The letter behind the address.
  unfoldable pub set_or_clear : ℕ → Bytes → Action d
  set_or_clear address [] = send_error d invalid_argument
  set_or_clear address (c ∷ s) =
      if c == b'C'
      then report d (on_remove_breakpoint software_breakpoint address 0)
      else if c == b'S'
      then report d (on_insert_breakpoint software_breakpoint address 0)
      else send_error d invalid_argument

  unfoldable pub handle_upper_b : Bytes → Action d
  unfolding strtoul expect
  handle_upper_b args =
      let address = strtoul args in
      or_invalid d (expect b',' address.rest) λ rest. set_or_clear address.number rest
