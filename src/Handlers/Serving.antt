-- ===== src/Handlers/Serving.antt =====
-- Sources/GDBRemote/Session.cpp and Sources/GDBRemote/ProtocolInterpreter.cpp: from a packet to the handler of its
-- command.
pub mod Cycle
pub mod Named
use ds.Base.{ℕ, zero, suc, Option, none, some, List, [], ◌∷◌, Bytes}
use ds.Errors.{unsupported}
use ds.Interpreter.{Handler, split_command}
use ds.Interpreter.Table.{session_table}
use ds.Session.{Dispatch, unknown_command, handled, overrun, on_command}
use ds.Handlers.Commands.{Command, run}
use ds.Handlers.World.{Delegate, Action, send_error}

-- The methods that the constructor registers, in its order, with the names of Handlers.Commands.
unfoldable pub callbacks : List Command
callbacks =
    Command.control_c ∷ Command.question_mark ∷ Command.exclamation_mark ∷ Command.upper_a
    ∷ Command.upper_b ∷ Command.letter_b ∷ Command.bc ∷ Command.bs ∷ Command.upper_c
    ∷ Command.letter_c ∷ Command.upper_d ∷ Command.letter_d ∷ Command.upper_g ∷ Command.letter_g
    ∷ Command.upper_h ∷ Command.upper_i ∷ Command.letter_i ∷ Command.j_threads_info
    ∷ Command.letter_k ∷ Command.allocate ∷ Command.deallocate ∷ Command.upper_m ∷ Command.letter_m
    ∷ Command.upper_p ∷ Command.letter_p ∷ Command.q_agent ∷ Command.q_allow
    ∷ Command.q_disable_randomization ∷ Command.q_environment ∷ Command.q_environment_hex_encoded
    ∷ Command.q_launch_arch ∷ Command.q_list_threads_in_stop_reply ∷ Command.q_non_stop
    ∷ Command.q_pass_signals ∷ Command.q_program_signals ∷ Command.q_restore_register_state
    ∷ Command.q_save_register_state ∷ Command.q_set_disable_aslr
    ∷ Command.q_set_enable_async_profiling ∷ Command.q_set_logging ∷ Command.q_set_max_packet_size
    ∷ Command.q_set_max_payload_size ∷ Command.q_set_stderr ∷ Command.q_set_stdin
    ∷ Command.q_set_stdout ∷ Command.q_set_working_dir ∷ Command.q_start_no_ack_mode
    ∷ Command.q_sync_thread_state ∷ Command.q_thread_suffix_supported ∷ Command.q_btrace
    ∷ Command.q_attached ∷ Command.q_c ∷ Command.q_crc ∷ Command.q_echo
    ∷ Command.q_file_load_address ∷ Command.q_gdb_server_version ∷ Command.q_get_pid
    ∷ Command.q_get_profile_data ∷ Command.q_get_tib_addr ∷ Command.q_get_tls_addr
    ∷ Command.q_get_working_dir ∷ Command.q_group_name ∷ Command.q_host_info
    ∷ Command.q_kill_spawned_process ∷ Command.q_l ∷ Command.q_launch_gdb_server
    ∷ Command.q_launch_success ∷ Command.q_memory_region_info ∷ Command.q_module_info
    ∷ Command.q_offsets ∷ Command.q_p ∷ Command.q_platform_chmod ∷ Command.q_platform_mkdir
    ∷ Command.q_platform_shell ∷ Command.q_process_info ∷ Command.q_process_info_pid
    ∷ Command.q_rcmd ∷ Command.q_register_info ∷ Command.q_search ∷ Command.q_shlib_info_addr
    ∷ Command.q_speed_test ∷ Command.q_step_packet_supported ∷ Command.q_supported
    ∷ Command.q_supports_detach_and_stay_stopped ∷ Command.q_symbol ∷ Command.q_thread_stop_info
    ∷ Command.q_thread_extra_info ∷ Command.qt_status ∷ Command.q_user_name
    ∷ Command.qv_attach_or_wait_supported ∷ Command.q_watchpoint_support_info ∷ Command.q_xfer
    ∷ Command.qf_process_info ∷ Command.qs_process_info ∷ Command.qf_thread_info
    ∷ Command.qs_thread_info ∷ Command.upper_r ∷ Command.letter_r ∷ Command.upper_s
    ∷ Command.letter_s ∷ Command.upper_t ∷ Command.letter_t ∷ Command.v_attach
    ∷ Command.v_attach_name ∷ Command.v_attach_wait ∷ Command.v_attach_or_wait
    ∷ Command.v_cont_question_mark ∷ Command.v_cont ∷ Command.v_file ∷ Command.v_flash_done
    ∷ Command.v_flash_erase ∷ Command.v_flash_write ∷ Command.v_kill ∷ Command.v_run
    ∷ Command.v_stopped ∷ Command.upper_x ∷ Command.letter_x ∷ Command.upper_z ∷ Command.letter_z
    ∷ []

unfoldable pub nth : List Command → ℕ → Option Command
nth [] i = none
nth (c ∷ cs) zero = some c
nth (c ∷ cs) (suc i) = nth cs i

-- `handler->callback`, for a handler of the session's table.
unfoldable pub command_of : Option ℕ → Option Command
unfolding callbacks nth
command_of none = none
command_of (some id) = nth callbacks id

module _ (d : Delegate) where
  -- The call of a method that is not there is undefined.
  unfoldable pub call_back : Option Command → Bytes → Action d
  call_back none args w = none
  call_back (some c) args w = run d c args w

  -- The end of ProtocolInterpreter::onCommand; an unescape that overruns its text is `none`.
  unfoldable pub serve : Dispatch → Action d
  unfolding call_back command_of
  serve unknown_command = send_error d unsupported
  serve overrun = λ w. none
  serve (handled h args) = call_back (command_of h.callback) args

  -- ProtocolInterpreter::onPacketData, for a packet that is valid and no acknowledgement, in a session that sends
  -- no acknowledgements.
  unfoldable pub serve_packet : Bytes → Action d
  unfolding serve
  serve_packet bytes =
      let (command, arguments) = split_command bytes in
      serve (on_command session_table command arguments)
