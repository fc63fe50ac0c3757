-- ===== src/Handlers/Answers/Once.antt =====
-- Sources/GDBRemote/Session.cpp: every command is answered once.
use mathlib.Core.Path.{subst}
use ds.Base.{Bytes, ◌≡◌, false, some}
use ds.Handlers.Memory.{
  handle_m, handle_upper_m, handle_upper_x, handle_x, handle_allocate, handle_deallocate,
  handle_q_crc, handle_q_search, handle_t, handle_v_flash_done, handle_v_flash_erase,
  handle_v_flash_write,
}
use ds.Handlers.Breakpoints.{handle_upper_z, handle_z, handle_upper_b}
use ds.Handlers.Registers.{
  handle_upper_g, handle_g, handle_upper_p, handle_p, handle_q_save_register_state,
  handle_q_restore_register_state, handle_q_register_info,
}
use ds.Handlers.Resume.{
  handle_bc, handle_bs, handle_upper_c, handle_upper_s, handle_c, handle_s, handle_i,
  handle_upper_i, handle_v_cont_question_mark,
}
use ds.Handlers.Ending.{
  handle_question_mark, handle_upper_r, handle_k, handle_v_kill, handle_q_kill_spawned_process,
  handle_upper_d, handle_v_attach, handle_v_attach_name, handle_v_attach_or_wait,
  handle_v_attach_wait, handle_v_run, handle_v_stopped,
}
use ds.Handlers.Threads.{
  handle_upper_h, handle_upper_t, handle_q_c, handle_q_get_pid, handle_qf_thread_info,
  handle_qs_thread_info, handle_q_p, handle_q_attached, handle_q_get_tib_addr,
  handle_q_get_tls_addr,
}
use ds.Handlers.Settings.{
  handle_exclamation_mark, handle_d, handle_q_environment, handle_q_environment_hex_encoded,
  handle_q_non_stop, handle_q_pass_signals, handle_q_program_signals, handle_q_sync_thread_state,
  handle_q_allow, handle_q_agent, handle_q_btrace, handle_q_disable_randomization,
  handle_q_set_disable_aslr, handle_q_set_max_packet_size, handle_q_set_max_payload_size,
  handle_q_set_stdin, handle_q_set_stdout, handle_q_set_stderr, handle_q_set_working_dir,
  handle_q_launch_arch, handle_q_platform_mkdir, handle_q_platform_chmod,
}
use ds.Handlers.Xfer.{
  handle_q_xfer, handle_q_speed_test, handle_q_echo, handle_q_step_packet_supported,
  handle_q_gdb_server_version, handle_q_host_info, handle_q_process_info, handle_q_process_info_pid,
  handle_q_watchpoint_support_info, handle_q_shlib_info_addr, handle_q_offsets,
}
use ds.Handlers.Queries.{
  handle_j_threads_info, handle_q_group_name, handle_q_launch_gdb_server, handle_q_launch_success,
  handle_q_module_info, handle_q_platform_shell, handle_q_rcmd,
  handle_q_supports_detach_and_stay_stopped, handle_q_symbol, handle_qt_status,
  handle_q_thread_stop_info, handle_q_user_name, handle_qv_attach_or_wait_supported,
}
use ds.Handlers.Processes.{handle_qf_process_info, handle_qs_process_info}
use ds.Handlers.Profiling.{handle_b, handle_q_set_enable_async_profiling}
use ds.Handlers.Arguments.{handle_upper_a}
use ds.Handlers.World.{Delegate, World}
use ds.Handlers.Commands.{Command, run}
use ds.Handlers.Commands.Kinds.{is_irregular}
use ds.Handlers.Answers.{Answered, Sends, answers}
use ds.Handlers.Answers.Parts.{parts}
use ds.Handlers.Answers.FileParts.{file_parts}

module _ (d : Delegate) where
  run-Sends :
      (c : Command) (args : Bytes) (w : World d)
      → is_irregular c ≡ false
      → Sends d w (run d c args w)
  unfolding run is_irregular handle_m handle_upper_m handle_upper_x handle_x handle_allocate
      handle_deallocate handle_q_crc handle_q_search handle_t handle_v_flash_done
      handle_v_flash_erase handle_v_flash_write handle_upper_z handle_z handle_upper_b
      handle_upper_g handle_g handle_upper_p handle_p handle_q_save_register_state
      handle_q_restore_register_state handle_q_register_info handle_bc handle_bs handle_upper_c
      handle_upper_s handle_c handle_s handle_i handle_upper_i handle_v_cont_question_mark
      handle_question_mark handle_upper_r handle_k handle_v_kill handle_q_kill_spawned_process
      handle_upper_d handle_v_attach handle_v_attach_name handle_v_attach_or_wait
      handle_v_attach_wait handle_v_run handle_v_stopped handle_upper_h handle_upper_t handle_q_c
      handle_q_get_pid handle_qf_thread_info handle_qs_thread_info handle_q_p handle_q_attached
      handle_q_get_tib_addr handle_q_get_tls_addr handle_exclamation_mark handle_d
      handle_q_environment handle_q_environment_hex_encoded handle_q_non_stop handle_q_pass_signals
      handle_q_program_signals handle_q_sync_thread_state handle_q_allow handle_q_agent
      handle_q_btrace handle_q_disable_randomization handle_q_set_disable_aslr
      handle_q_set_max_packet_size handle_q_set_max_payload_size handle_q_set_stdin
      handle_q_set_stdout handle_q_set_stderr handle_q_set_working_dir handle_q_launch_arch
      handle_q_platform_mkdir handle_q_platform_chmod handle_q_xfer handle_q_speed_test
      handle_q_echo handle_q_step_packet_supported handle_q_gdb_server_version handle_q_host_info
      handle_q_process_info handle_q_process_info_pid handle_q_watchpoint_support_info
      handle_q_shlib_info_addr handle_q_offsets handle_upper_a handle_b
      handle_q_set_enable_async_profiling handle_q_group_name handle_q_launch_gdb_server
      handle_q_launch_success handle_q_module_info handle_q_platform_shell handle_q_rcmd
      handle_q_supports_detach_and_stay_stopped handle_q_symbol handle_qt_status
      handle_q_thread_stop_info handle_q_user_name handle_qv_attach_or_wait_supported
      handle_j_threads_info handle_qf_process_info handle_qs_process_info
  run-Sends Command.letter_m args w regular = search (answers, parts, file_parts)
  run-Sends Command.control_c args w regular = cc
  run-Sends Command.letter_r args w regular = cc
  run-Sends Command.v_cont args w regular = cc
  run-Sends Command.q_set_logging args w regular = cc
  run-Sends Command.q_get_profile_data args w regular = cc
  run-Sends Command.q_supported args w regular = cc
  run-Sends other args w regular = search (answers, parts, file_parts)

  -- Every command but Ctrl-C, r, vCont, QSetLogging, qGetProfileData and qSupported, if its handler returns,
  -- has sent exactly one reply, behind what was sent before; it has not turned acknowledgments on again, it has left an LLDB session one, and it has
  -- not dropped the list of threads from the stop replies.
  pub run-Answered :
      (c : Command) (args : Bytes) (w w' : World d)
      → is_irregular c ≡ false
      → run d c args w ≡ some w'
      → Answered d w w'
  run-Answered c args w w' regular returned =
      subst (Sends d w) returned (run-Sends c args w regular)
