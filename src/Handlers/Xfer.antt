-- ===== src/Handlers/Xfer.antt =====
-- Sources/GDBRemote/Session.cpp: qXfer, and the other queries whose reply is a text of the delegate or of the
-- session itself.
pub mod Objects
pub mod Download
pub mod Speed
use ds.Base.{
  ℕ, zero, suc, ◌+◌, ◌-◌, ◌%◌, ◌^◌, Bool, true, false, ◌||◌, Option, none, some, [], ◌∷◌, ◌++◌,
  Bytes, codes, ◌==◌, if◌then◌else◌, ◌>>=◌, is_empty, length, take, ltb,
}
use ds.Hex.{to_hex, hex_to_bytes}
use ds.Errors.{ErrorCode, invalid_argument}
use ds.Breakpoint.Sites.{Address, unset, at}
use ds.Structures.Numbers.{strtoul, hex, dec}
use ds.Structures.Replies.{encode_version}
use ds.Structures.Hosts.{encode_host}
use ds.Structures.Processes.{encode_process}
use ds.Handlers.Calls.{
  on_xfer_read, on_xfer_write, on_query_server_version, on_query_host_info, on_query_process_info,
  on_query_process_info_of, on_query_hardware_watchpoint_count,
  on_query_shared_libraries_info_address, on_query_section_offsets, on_query_working_directory,
  on_query_file_load_address,
}
use ds.Structures.CpuTypes.{big}
use ds.Handlers.World.{Delegate, Action, is_success, send, send_error, send_ok, ask, chk_send}
use ds.Handlers.Scan.{same_text, cut, low32, strtoul_decimal, format_address}
use ds.Handlers.Memory.{or_invalid, or_stop}

-- What qXfer asks for.
pub data Transfer : Type 0 where
  read_object : Bytes → Bytes → ℕ → ℕ → Transfer
  write_object : Bytes → Bytes → ℕ → Bytes → Transfer

-- `offset:data` of a write.
unfoldable pub parse_written : Bytes → Bytes → Bytes → Option Transfer
unfolding cut strtoul
parse_written object annex text = do
  offset ← cut b':' text
  some (write_object object annex (strtoul offset.0).number offset.1)

-- `offset,length` of a read.
unfoldable pub parse_read : Bytes → Bytes → Bytes → Option Transfer
unfolding cut strtoul
parse_read object annex text = do
  offset ← cut b',' text
  some (read_object object annex (strtoul offset.0).number (strtoul offset.1).number)

unfoldable pub parse_action_of : Bytes → Bytes → Bytes → Bytes → Option Transfer
unfolding parse_written parse_read same_text
parse_action_of action object annex text =
    if same_text action (codes "write")
    then parse_written object annex text
    else if same_text action (codes "read")
    then parse_read object annex text
    else none

-- `object:action:annex:` and what follows.
unfoldable pub parse_transfer : Bytes → Option Transfer
unfolding cut parse_action_of
parse_transfer args = do
  object ← cut b':' args
  action ← cut b':' object.1
  annex ← cut b':' action.1
  parse_action_of action.0 object.0 annex.0 annex.1

-- `(last || buffer.empty() ? "l" : "m") + buffer`
unfoldable pub read_reply : Bytes → Bool → Bytes
read_reply buffer last = (if last || is_empty buffer then b'l' else b'm') ∷ buffer

abbrev filler : Bytes
filler = codes "1234567890qwertyuiopasdfghjklzxcvbnm"

-- The loop that appends the filler until the text is long enough; each round adds a character at least.
unfoldable pub fill : ℕ → ℕ → Bytes → Bytes
fill zero total text = text
fill (suc fuel) total text =
    let rest = fill fuel total (text ++ take (total - length text) filler) in
    if ltb (length text) total then rest else text

-- The value of response_size.
unfoldable pub parse_speed : Bytes → Option ℕ
unfolding cut strtoul_decimal
parse_speed args = do
  key ← cut b':' args
  value ← cut b';' key.1
  some (strtoul_decimal value.0).number

unfoldable pub section_item : Bytes → Bool → Bytes → Bytes
section_item name is_segment address =
    name ++ ((if is_segment then codes "Seg" else []) ++ (b'=' ∷ address))

-- The reply of qOffsets.
unfoldable pub offsets_reply : ℕ → Address → Address → Bool → Bytes
unfolding section_item format_address
offsets_reply regsize unset unset is_segment = []
offsets_reply regsize unset (at b) is_segment =
    section_item (codes "Data") is_segment (format_address regsize big b)
offsets_reply regsize (at a) unset is_segment =
    section_item (codes "Text") is_segment (format_address regsize big a)
offsets_reply regsize (at a) (at b) is_segment =
    section_item (codes "Text") is_segment (format_address regsize big a)
    ++ (b';' ∷ section_item (codes "Data") is_segment (format_address regsize big b))

module _ (d : Delegate) where
  open d use {Target, get_gpr_size, reserves}

  unfoldable pub transfer : Transfer → Action d
  unfolding read_reply hex
  transfer (read_object object annex offset size) =
      chk_send d (on_xfer_read object annex offset size)
        λ (buffer, last). send d (read_reply buffer last)
  transfer (write_object object annex offset buffer) =
      chk_send d (on_xfer_write object annex offset buffer) λ written. send d (hex written)

  unfoldable pub handle_q_xfer : Bytes → Action d
  unfolding parse_transfer
  handle_q_xfer args = or_invalid d (parse_transfer args) transfer

  unfoldable pub speed_reply : ℕ → Action d
  unfolding fill
  speed_reply size w =
      let total = (5 + size) % 2 ^ 64 in
      if size == 0
      then send_ok d w
      else if reserves total
      then send d (fill (size + 1) total (codes "data:")) w
      else none

  unfoldable pub handle_q_speed_test : Bytes → Action d
  unfolding parse_speed
  handle_q_speed_test args = or_invalid d (parse_speed args) speed_reply

  unfoldable pub handle_q_echo : Bytes → Action d
  handle_q_echo args = send d args

  unfoldable pub handle_q_step_packet_supported : Action d
  handle_q_step_packet_supported = send_ok d

  unfoldable pub handle_q_gdb_server_version : Action d
  unfolding encode_version
  handle_q_gdb_server_version =
      chk_send d on_query_server_version λ version. send d (encode_version version)

  unfoldable pub handle_q_host_info : Action d
  unfolding encode_host
  handle_q_host_info = chk_send d on_query_host_info λ info. send d (encode_host info)

  unfoldable pub handle_q_process_info : Action d
  unfolding encode_process
  handle_q_process_info =
      chk_send d on_query_process_info λ info w. send d (encode_process info w.session.mode false) w

  unfoldable pub handle_q_process_info_pid : Bytes → Action d
  unfolding encode_process strtoul_decimal
  handle_q_process_info_pid args =
      chk_send d (on_query_process_info_of (low32 (strtoul_decimal args).number))
        λ info w. send d (encode_process info w.session.mode true) w

  unfoldable pub handle_q_watchpoint_support_info : Action d
  unfolding dec
  handle_q_watchpoint_support_info =
      chk_send d on_query_hardware_watchpoint_count
        λ count. send d (codes "num:" ++ (dec count ++ codes ";"))

  -- An address that is not set is an error.
  unfoldable pub address_reply : ErrorCode → Address → Action d
  unfolding is_success format_address
  address_reply code unset w = send_error d (if is_success code then invalid_argument else code) w
  address_reply code (at address) w =
      if is_success code
      then send d (format_address (get_gpr_size w.target) big address) w
      else send_error d code w

  unfoldable pub handle_q_shlib_info_addr : Action d
  handle_q_shlib_info_addr = ask d on_query_shared_libraries_info_address address_reply

  unfoldable pub handle_q_offsets : Action d
  unfolding offsets_reply
  handle_q_offsets = chk_send d on_query_section_offsets λ (text, bss, is_segment) w.
      send d (offsets_reply (get_gpr_size w.target) text bss is_segment) w

  unfoldable pub handle_q_get_working_dir : Bytes → Action d
  unfolding to_hex
  handle_q_get_working_dir [] = chk_send d on_query_working_directory λ path. send d (to_hex path)
  handle_q_get_working_dir (c ∷ args) = send_error d invalid_argument

  unfoldable pub handle_q_file_load_address : Bytes → Action d
  unfolding hex_to_bytes format_address
  handle_q_file_load_address [] = send_error d invalid_argument
  handle_q_file_load_address (c ∷ args) = or_stop d (hex_to_bytes (c ∷ args)) λ path.
      chk_send d (on_query_file_load_address path)
        λ address w. send d (format_address (get_gpr_size w.target) big address) w
