-- ===== src/Handlers/Queries.antt =====
-- Sources/GDBRemote/Session.cpp: queries on threads, symbols, features, users, modules and programs.
use ds.Base.{
  ℕ, ◌%◌, ◌^◌, Bool, true, false, ◌&&◌, Option, none, some, List, [], ◌∷◌, ◌++◌, Bytes, codes,
  if◌then◌else◌, ◌>>=◌, is_empty, map,
}
use ds.Hex.{to_hex, hex_to_bytes}
use ds.Errors.{ErrorCode, unknown, unsupported, invalid_argument, error_number, error_string}
use ds.Session.{gdb_multiprocess}
use ds.Structures.Numbers.{strtoul, hex, dec}
use ds.Structures.Ids.{any_id, after_prefix}
use ds.Structures.Processes.{signed_dec}
use ds.Structures.Json.{threads_json}
use ds.Structures.Replies.{
  Feature, FeatureFlag, supported, not_supported, query_supported, parse_feature, ProgramResult,
  encode_result,
}
use ds.Structures.Stops.{RemoteStopInfo, encode_with_all_threads}
use ds.Handlers.Calls.{
  on_query_thread_info, on_query_thread_stop_info, on_create_threads_stop_info, on_query_symbol,
  on_query_supported, on_query_launch_success, on_query_user_name, on_query_group_name,
  on_fetch_stop_infos, on_query_shared_library_info, on_execute_program, on_execute_command,
  on_launch_debug_server,
}
use ds.Handlers.World.{
  Delegate, Action, is_success, default_id, push, escaped_payload, send, send_error, send_ok,
  send_computed, select, ask, chk_send, report,
}
use ds.Handlers.Scan.{cut, expect, low32, c_string, same_text, strtoul_decimal, parse_list}
use ds.Handlers.Threads.{parsed_id}
use ds.Handlers.Settings.{pieces_of}
use ds.Handlers.Memory.{or_invalid, or_stop}

-- `Feature(string)`
unfoldable pub new_feature : Bytes → Feature
unfolding parse_feature
new_feature text = (parse_feature (record { name = []; value = []; flag = not_supported }) text).0

unfoldable pub is_supported : FeatureFlag → Bool
is_supported supported = true
is_supported flag = false

-- Whether a peer that sends these features has process ids.
unfoldable pub is_multiprocess : List Feature → Bool
unfolding is_supported same_text
is_multiprocess [] = false
is_multiprocess (feature ∷ features) =
    let more = is_multiprocess features in
    if same_text feature.name (codes "multiprocess") && is_supported feature.flag
    then true
    else more

unfoldable pub flag_text : FeatureFlag → Bytes
flag_text supported = codes "+"
flag_text not_supported = codes "-"
flag_text query_supported = codes "?"

unfoldable pub feature_text : Feature → Bytes
unfolding flag_text
feature_text feature =
    feature.name
    ++ (if is_empty feature.value then flag_text feature.flag else b'=' ∷ feature.value)

-- What is appended to the result for each feature that has a name.
unfoldable pub append_features : Bytes → List Feature → Bytes
unfolding feature_text
append_features result [] = result
append_features result (feature ∷ features) =
    append_features
      (if is_empty feature.name
        then result
        else if is_empty result
        then feature_text feature
        else result ++ (b';' ∷ feature_text feature))
      features

-- `value:name`
unfoldable pub parse_symbol : Bytes × Bytes → Option (Bytes × Bytes)
unfolding hex_to_bytes
parse_symbol (value, name) = do
  value' ← hex_to_bytes value
  name' ← hex_to_bytes name
  some (value', name')

-- The two texts around a separator, and twice the whole text if there is none: npos + 1 is 0.
unfoldable pub parts_around : ℕ → Bytes → Bytes × Bytes
unfolding cut
parts_around separator args = elim (cut separator args) [ none ↦ (args, args) | some parts ↦ parts ]

unfoldable pub parse_module : Bytes → Option (Bytes × Bytes)
unfolding parts_around hex_to_bytes
parse_module args = do
  let (path, triple) = parts_around b';' args
  path' ← hex_to_bytes path
  triple' ← hex_to_bytes triple
  some (path', triple')

-- The directory of qPlatform_shell, if there is one.
unfoldable pub directory_of : Option Bytes → Option Bytes
unfolding hex_to_bytes c_string
directory_of none = some []
directory_of (some rest) = hex_to_bytes (c_string rest)

unfoldable pub parse_program : Bytes → Option (Bytes × ℕ × Bytes)
unfolding parts_around hex_to_bytes strtoul expect directory_of
parse_program args = do
  let (command, behind) = parts_around b',' args
  command' ← hex_to_bytes command
  let timeout = strtoul behind
  directory ← directory_of (expect b',' timeout.rest)
  some (command', low32 timeout.number, directory)

-- `error >= kErrorUnknown`
unfoldable pub is_unknown : ErrorCode → Bool
is_unknown unknown = true
is_unknown unsupported = true
is_unknown other = false

-- The host and the port of qLaunchGDBServer.
unfoldable pub server_of : Bytes × ℕ → List Bytes → Bytes × ℕ
unfolding after_prefix c_string strtoul_decimal
server_of (host, port) [] = (host, port)
server_of (host, port) (arg ∷ args) =
    server_of
      (elim (after_prefix (codes "host:") arg) [
        | some rest ↦ (c_string rest, port)
        | none ↦ elim (after_prefix (codes "port:") arg) [
          | some rest ↦ (host, (strtoul_decimal rest).number % 2 ^ 16)
          | none ↦ (host, port)
        ]
      ])
      args

module _ (d : Delegate) where
  open d use {json_text}

  unfoldable pub handle_q_thread_extra_info : Bytes → Action d
  unfolding parsed_id to_hex
  handle_q_thread_extra_info [] w = send_error d invalid_argument w
  handle_q_thread_extra_info (c ∷ args) w =
      or_invalid d (parsed_id w.session.mode (c ∷ args))
        (λ ptid. chk_send d (on_query_thread_info ptid) λ text. send d (to_hex text)) w

  -- The thread is selected before the other threads are asked for.
  unfoldable pub thread_stop : RemoteStopInfo → Action d
  unfolding select chk_send send_computed encode_with_all_threads
  thread_stop stop w = do
    w' ← select d stop.ptid w
    chk_send d on_create_threads_stop_info
        (λ json. send_computed d (encode_with_all_threads stop w.session.mode json)) w'

  unfoldable pub handle_q_thread_stop_info : Bytes → Action d
  unfolding strtoul thread_stop
  handle_q_thread_stop_info args =
      chk_send d
        (on_query_thread_stop_info (record default_id { tid = low32 (strtoul args).number }))
        thread_stop

  unfoldable pub next_symbol : Bytes → Action d
  unfolding to_hex
  next_symbol next = if is_empty next then send_ok d else send d (codes "qSymbol:" ++ to_hex next)

  unfoldable pub handle_q_symbol : Bytes → Action d
  unfolding cut parse_symbol next_symbol
  handle_q_symbol args = or_invalid d (cut b':' args) λ parts.
      or_stop d (parse_symbol parts) λ (value, name).
        if is_empty value && is_empty name
        then send_ok d
        else chk_send d (on_query_symbol name value) next_symbol

  -- The mode is set while the features are parsed.
  unfoldable pub handle_q_supported : Bytes → Action d
  unfolding new_feature is_multiprocess append_features parse_list
  handle_q_supported args w =
      let features = map new_feature (pieces_of (parse_list b';' args)) in
      let mode = if is_multiprocess features then gdb_multiprocess else w.session.mode in
      chk_send d (on_query_supported features) (λ local. send d (append_features [] local))
        (record w { session = record w.session { mode = mode } })

  unfoldable pub handle_q_launch_success : Action d
  unfolding is_success error_string
  handle_q_launch_success =
      ask d (on_query_launch_success any_id)
        λ code answer. if is_success code then send_ok d else send d (b'E' ∷ error_string code)

  -- The number of a user or a group is a uint32_t.
  unfoldable pub handle_q_user_name : Bytes → Action d
  unfolding strtoul_decimal to_hex
  handle_q_user_name args =
      chk_send d (on_query_user_name (low32 (strtoul_decimal args).number))
        λ name. send d (to_hex name)

  unfoldable pub handle_q_group_name : Bytes → Action d
  unfolding strtoul_decimal to_hex
  handle_q_group_name args =
      chk_send d (on_query_group_name (low32 (strtoul_decimal args).number))
        λ name. send d (to_hex name)

  -- The stops of all threads, and the thread that is selected if the session is not LLDB's.
  unfoldable pub threads_reply : List RemoteStopInfo × RemoteStopInfo → Action d
  unfolding select send_computed threads_json
  threads_reply (stops, process_stop) w = do
    w' ← select d process_stop.ptid w
    send_computed d (threads_json stops >>= λ threads. some (json_text threads)) w'

  unfoldable pub handle_j_threads_info : Action d
  unfolding chk_send threads_reply
  handle_j_threads_info = chk_send d on_fetch_stop_infos threads_reply

  unfoldable pub handle_q_module_info : Bytes → Action d
  unfolding parse_module
  handle_q_module_info args =
      or_stop d (parse_module args)
        λ (path, triple). chk_send d (on_query_shared_library_info path triple) λ info. send_ok d

  unfoldable pub program_reply : ErrorCode → ProgramResult → Action d
  unfolding is_success is_unknown hex error_number encode_result
  program_reply code result =
      if is_success code
      then push d (escaped_payload (encode_result result))
      else if is_unknown code
      then send_error d code
      else send d (codes "F," ++ hex (error_number code))

  unfoldable pub handle_q_platform_shell : Bytes → Action d
  unfolding parse_program program_reply
  handle_q_platform_shell args = or_stop d (parse_program args) λ (command, timeout, directory).
      ask d (on_execute_program command timeout directory) program_reply

  -- The command exit sends OK and ends the program.
  unfoldable pub handle_q_rcmd : Bytes → Action d
  unfolding hex_to_bytes same_text
  handle_q_rcmd args = or_stop d (hex_to_bytes args) λ command.
      if same_text command (codes "exit")
      then (λ w. none)
      else report d (on_execute_command command)

  unfoldable pub server_reply : ErrorCode → ℕ × ℕ → Action d
  unfolding is_success dec signed_dec
  server_reply code (port, pid) =
      if is_success code
      then send d (codes "port:" ++ (dec port ++ (codes ";pid:" ++ (signed_dec pid ++ codes ";"))))
      else send d (codes "port:0;pid:0;")

  unfoldable pub handle_q_launch_gdb_server : Bytes → Action d
  unfolding server_of parse_list server_reply
  handle_q_launch_gdb_server args =
      let (host, port) = server_of ([], 0) (pieces_of (parse_list b';' args)) in
      ask d (on_launch_debug_server host port) server_reply

  unfoldable pub handle_qt_status : Action d
  handle_qt_status = send_error d unsupported

  unfoldable pub handle_q_supports_detach_and_stay_stopped : Action d
  handle_q_supports_detach_and_stay_stopped = send_ok d

  unfoldable pub handle_qv_attach_or_wait_supported : Action d
  handle_qv_attach_or_wait_supported = send_ok d
