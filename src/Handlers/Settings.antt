-- ===== src/Handlers/Settings.antt =====
-- Sources/GDBRemote/Session.cpp: the handlers that set options of the session and of the target.
use ds.Base.{
  ℕ, Bool, true, false, not, Option, none, some, List, [], ◌∷◌, Bytes, codes, ◌==◌, if◌then◌else◌,
  map,
}
use ds.Hex.{hex_to_bytes}
use ds.Errors.{invalid_argument}
use ds.Session.{lldb}
use ds.Structures.Numbers.{strtoul}
use ds.Structures.Ids.{any_id}
use ds.Handlers.Calls.{
  Call, on_enable_extended_mode, on_toggle_debug_flag, on_set_max_packet_size,
  on_set_max_payload_size, on_set_architecture, on_set_working_directory, on_allow_operations,
  on_enable_control_agent, on_non_stop_mode, on_enable_bts_tracing, on_disable_aslr,
  on_pass_signals, on_program_signals, on_synchronize_thread_state, on_set_environment_variable,
  on_set_std_file, on_file_create_directory, on_file_set_permissions,
}
use ds.Handlers.World.{Delegate, Action, send, send_error, send_ok, chk_send, report}
use ds.Handlers.Scan.{same_text, c_string, cut, expect, low32, strtoul_decimal, atoi, parse_list}
use ds.Handlers.Memory.{or_invalid, or_stop}

-- `name=value`, or two empty texts.
unfoldable pub split_variable : Bytes → Bytes × Bytes
unfolding cut
split_variable text = elim (cut b'=' text) [ none ↦ ([], []) | some parts ↦ parts ]

abbrev pub pieces_of : Option (List Bytes) → List Bytes
pieces_of none = []
pieces_of (some list) = list

-- The numbers of a list, which are ints.
unfoldable pub parse_signals : Bytes → List ℕ
unfolding parse_list strtoul
parse_signals args = map (λ arg. low32 (strtoul arg).number) (pieces_of (parse_list b';' args))

-- `ops[key] = value` for each piece with a colon.
unfoldable pub operations : (Bytes → Option Bool) → List Bytes → Bytes → Option Bool
unfolding cut strtoul_decimal same_text
operations ops [] = ops
operations ops (arg ∷ args) =
    operations
      (elim (cut b':' arg) [
        | none ↦ ops
        | some (key, value) ↦
            λ k. if same_text k key then some (not ((strtoul_decimal value).number == 0)) else ops k
      ])
      args

module _ (d : Delegate) where
  unfoldable pub handle_exclamation_mark : Action d
  handle_exclamation_mark = report d on_enable_extended_mode

  unfoldable pub handle_d : Action d
  handle_d = report d on_toggle_debug_flag

  unfoldable pub set_variable : Bytes → Action d
  unfolding split_variable
  set_variable text =
      let (key, value) = split_variable text in report d (on_set_environment_variable key value)

  unfoldable pub handle_q_environment : Bytes → Action d
  handle_q_environment = set_variable

  unfoldable pub handle_q_environment_hex_encoded : Bytes → Action d
  unfolding hex_to_bytes
  handle_q_environment_hex_encoded args = or_stop d (hex_to_bytes args) set_variable

  unfoldable pub handle_q_non_stop : Bytes → Action d
  unfolding atoi
  handle_q_non_stop args = report d (on_non_stop_mode (not (atoi args == 0)))

  unfoldable pub handle_q_pass_signals : Bytes → Action d
  unfolding parse_signals
  handle_q_pass_signals args = report d (on_pass_signals (parse_signals args))

  unfoldable pub handle_q_program_signals : Bytes → Action d
  unfolding parse_signals
  handle_q_program_signals args = report d (on_program_signals (parse_signals args))

  -- The acknowledgments end before the reply is sent.
  unfoldable pub handle_q_start_no_ack_mode : Action d
  handle_q_start_no_ack_mode w =
      send_ok d (record w { session = record w.session { ackmode = false } })

  unfoldable pub handle_q_sync_thread_state : Action d
  handle_q_sync_thread_state = report d (on_synchronize_thread_state any_id)

  unfoldable pub handle_q_allow : Bytes → Action d
  unfolding operations parse_list
  handle_q_allow args =
      report d (on_allow_operations (operations (λ k. none) (pieces_of (parse_list b';' args))))

  unfoldable pub handle_q_agent : Bytes → Action d
  unfolding strtoul
  handle_q_agent args = report d (on_enable_control_agent (not (low32 (strtoul args).number == 0)))

  unfoldable pub handle_q_btrace : Bytes → Action d
  unfolding same_text
  handle_q_btrace args =
      if same_text args (codes "bts")
      then report d (on_enable_bts_tracing true)
      else if same_text args (codes "off")
      then report d (on_enable_bts_tracing false)
      else send_error d invalid_argument

  unfoldable pub handle_q_disable_randomization : Bytes → Action d
  unfolding strtoul
  handle_q_disable_randomization args =
      report d (on_disable_aslr (not (low32 (strtoul args).number == 0)))

  unfoldable pub handle_q_set_disable_aslr : Bytes → Action d
  unfolding strtoul_decimal
  handle_q_set_disable_aslr args =
      report d (on_disable_aslr (not (low32 (strtoul_decimal args).number == 0)))

  -- A size of 0 is refused.
  unfoldable pub set_size : (ℕ → Call) → ℕ → Action d
  set_size call size = if size == 0 then send_error d invalid_argument else report d (call size)

  unfoldable pub handle_q_set_max_packet_size : Bytes → Action d
  unfolding strtoul
  handle_q_set_max_packet_size args = set_size on_set_max_packet_size (low32 (strtoul args).number)

  unfoldable pub handle_q_set_max_payload_size : Bytes → Action d
  unfolding strtoul
  handle_q_set_max_payload_size args =
      set_size on_set_max_payload_size (low32 (strtoul args).number)

  unfoldable pub set_std_file : ℕ → Bytes → Action d
  unfolding hex_to_bytes
  set_std_file fileno args =
      or_stop d (hex_to_bytes args) λ path. report d (on_set_std_file fileno path)

  unfoldable pub handle_q_set_stdin : Bytes → Action d
  handle_q_set_stdin = set_std_file 0

  unfoldable pub handle_q_set_stdout : Bytes → Action d
  handle_q_set_stdout = set_std_file 1

  unfoldable pub handle_q_set_stderr : Bytes → Action d
  handle_q_set_stderr = set_std_file 2

  unfoldable pub handle_q_set_working_dir : Bytes → Action d
  unfolding hex_to_bytes
  handle_q_set_working_dir args =
      or_stop d (hex_to_bytes args) λ path. report d (on_set_working_directory path)

  unfoldable pub handle_q_launch_arch : Bytes → Action d
  handle_q_launch_arch args = report d (on_set_architecture args)

  -- Either of these two commands is what makes the session LLDB's.
  unfoldable pub handle_q_list_threads_in_stop_reply : Action d
  handle_q_list_threads_in_stop_reply w =
      send_ok d
        (record w { session = record w.session { mode = lldb; threads_in_stop_reply = true } })

  unfoldable pub handle_q_thread_suffix_supported : Action d
  handle_q_thread_suffix_supported w =
      send_ok d (record w { session = record w.session { mode = lldb } })

  unfoldable pub handle_q_platform_mkdir : Bytes → Action d
  unfolding hex_to_bytes c_string strtoul expect
  handle_q_platform_mkdir args =
      let mode = strtoul args in
      or_invalid d (expect b',' mode.rest) λ rest. or_stop d (hex_to_bytes (c_string rest)) λ path.
        chk_send d (on_file_create_directory path (low32 mode.number)) λ answer. send d (codes "F0")

  unfoldable pub handle_q_platform_chmod : Bytes → Action d
  unfolding hex_to_bytes c_string strtoul expect
  handle_q_platform_chmod args =
      let mode = strtoul args in
      or_invalid d (expect b',' mode.rest) λ rest. or_stop d (hex_to_bytes (c_string rest)) λ path.
        chk_send d (on_file_set_permissions path (low32 mode.number)) λ answer. send d (codes "F0")
