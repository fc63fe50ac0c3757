-- ===== src/Handlers/Commands.antt =====
-- Sources/GDBRemote/Session.cpp: the commands whose handlers are modelled, and the handler of each.
pub mod Kinds
use ds.Base.{Bytes}
use ds.Handlers.Memory.{
  handle_m, handle_upper_m, handle_upper_x, handle_x, handle_allocate, handle_deallocate,
  handle_q_crc, handle_q_search, handle_t, handle_q_memory_region_info, handle_v_flash_done,
  handle_v_flash_erase, handle_v_flash_write,
}
use ds.Handlers.Breakpoints.{handle_upper_z, handle_z, handle_upper_b}
use ds.Handlers.Registers.{
  handle_upper_g, handle_g, handle_upper_p, handle_p, handle_q_save_register_state,
  handle_q_restore_register_state, handle_q_register_info,
}
use ds.Handlers.Resume.{
  handle_bc, handle_bs, handle_upper_c, handle_upper_s, handle_c, handle_s, handle_i,
  handle_upper_i, handle_v_cont, handle_v_cont_question_mark,
}
use ds.Handlers.Ending.{
  handle_question_mark, handle_control_c, handle_r, handle_upper_r, handle_k, handle_v_kill,
  handle_q_kill_spawned_process, handle_upper_d, handle_v_attach, handle_v_attach_name,
  handle_v_attach_or_wait, handle_v_attach_wait, handle_v_run, handle_v_stopped,
}
use ds.Handlers.Threads.{
  handle_upper_h, handle_upper_t, handle_q_c, handle_q_get_pid, handle_qf_thread_info,
  handle_qs_thread_info, handle_q_l, handle_q_p, handle_q_attached, handle_q_get_tib_addr,
  handle_q_get_tls_addr,
}
use ds.Handlers.Settings.{
  handle_exclamation_mark, handle_d, handle_q_environment, handle_q_environment_hex_encoded,
  handle_q_non_stop, handle_q_pass_signals, handle_q_program_signals, handle_q_start_no_ack_mode,
  handle_q_sync_thread_state, handle_q_allow, handle_q_agent, handle_q_btrace,
  handle_q_disable_randomization, handle_q_set_disable_aslr, handle_q_set_max_packet_size,
  handle_q_set_max_payload_size, handle_q_set_stdin, handle_q_set_stdout, handle_q_set_stderr,
  handle_q_set_working_dir, handle_q_launch_arch, handle_q_list_threads_in_stop_reply,
  handle_q_thread_suffix_supported, handle_q_platform_mkdir, handle_q_platform_chmod,
}
use ds.Handlers.Xfer.{
  handle_q_xfer, handle_q_speed_test, handle_q_echo, handle_q_step_packet_supported,
  handle_q_gdb_server_version, handle_q_host_info, handle_q_process_info, handle_q_process_info_pid,
  handle_q_watchpoint_support_info, handle_q_shlib_info_addr, handle_q_offsets,
  handle_q_get_working_dir, handle_q_file_load_address,
}
use ds.Handlers.Files.{handle_v_file}
use ds.Handlers.Queries.{
  handle_j_threads_info, handle_q_group_name, handle_q_launch_gdb_server, handle_q_launch_success,
  handle_q_module_info, handle_q_platform_shell, handle_q_rcmd, handle_q_supported,
  handle_q_supports_detach_and_stay_stopped, handle_q_symbol, handle_qt_status,
  handle_q_thread_extra_info, handle_q_thread_stop_info, handle_q_user_name,
  handle_qv_attach_or_wait_supported,
}
use ds.Handlers.Processes.{handle_qf_process_info, handle_qs_process_info}
use ds.Handlers.Profiling.{
  handle_b, handle_q_set_enable_async_profiling, handle_q_set_logging, handle_q_get_profile_data,
}
use ds.Handlers.Arguments.{handle_upper_a}
use ds.Handlers.World.{Delegate, Action}

-- One for each Handle_ method.
pub data Command : Type 0 where
  letter_m upper_m upper_x letter_x : Command
  allocate deallocate q_crc q_search : Command
  letter_t q_memory_region_info v_flash_done v_flash_erase : Command
  v_flash_write upper_z letter_z upper_b : Command
  upper_g letter_g upper_p letter_p : Command
  q_save_register_state q_restore_register_state q_register_info bc : Command
  bs upper_c upper_s letter_c : Command
  letter_s letter_i upper_i v_cont : Command
  v_cont_question_mark question_mark control_c letter_r : Command
  upper_r letter_k v_kill q_kill_spawned_process : Command
  upper_d v_attach v_attach_name v_attach_or_wait : Command
  v_attach_wait v_run v_stopped upper_h : Command
  upper_t q_c q_get_pid qf_thread_info : Command
  qs_thread_info q_l q_p q_attached : Command
  q_get_tib_addr q_get_tls_addr exclamation_mark letter_d : Command
  q_environment q_environment_hex_encoded q_non_stop q_pass_signals : Command
  q_program_signals q_start_no_ack_mode q_sync_thread_state q_allow : Command
  q_agent q_btrace q_disable_randomization q_set_disable_aslr : Command
  q_set_max_packet_size q_set_max_payload_size q_set_stdin q_set_stdout : Command
  q_set_stderr q_set_working_dir q_launch_arch q_list_threads_in_stop_reply : Command
  q_thread_suffix_supported q_platform_mkdir q_platform_chmod q_xfer : Command
  q_speed_test q_echo q_step_packet_supported q_gdb_server_version : Command
  q_host_info q_process_info q_process_info_pid q_watchpoint_support_info : Command
  q_shlib_info_addr q_offsets q_get_working_dir q_file_load_address : Command
  upper_a letter_b q_set_enable_async_profiling q_set_logging : Command
  q_get_profile_data q_group_name q_launch_gdb_server q_launch_success : Command
  q_module_info q_platform_shell q_rcmd q_supported : Command
  q_supports_detach_and_stay_stopped q_symbol qt_status q_thread_extra_info : Command
  q_thread_stop_info q_user_name qv_attach_or_wait_supported qs_process_info : Command
  v_file : Command
  j_threads_info qf_process_info : Command

-- The handler of a command; some take no arguments.
unfoldable pub run : (d : Delegate) → Command → Bytes → Action d
run d letter_m args = handle_m d args
run d upper_m args = handle_upper_m d args
run d upper_x args = handle_upper_x d args
run d letter_x args = handle_x d args
run d allocate args = handle_allocate d args
run d deallocate args = handle_deallocate d args
run d q_crc args = handle_q_crc d args
run d q_search args = handle_q_search d args
run d letter_t args = handle_t d args
run d q_memory_region_info args = handle_q_memory_region_info d args
run d v_flash_done args = handle_v_flash_done d
run d v_flash_erase args = handle_v_flash_erase d args
run d v_flash_write args = handle_v_flash_write d args
run d upper_z args = handle_upper_z d args
run d letter_z args = handle_z d args
run d upper_b args = handle_upper_b d args
run d upper_g args = handle_upper_g d args
run d letter_g args = handle_g d args
run d upper_p args = handle_upper_p d args
run d letter_p args = handle_p d args
run d q_save_register_state args = handle_q_save_register_state d args
run d q_restore_register_state args = handle_q_restore_register_state d args
run d q_register_info args = handle_q_register_info d args
run d bc args = handle_bc d
run d bs args = handle_bs d
run d upper_c args = handle_upper_c d args
run d upper_s args = handle_upper_s d args
run d letter_c args = handle_c d args
run d letter_s args = handle_s d args
run d letter_i args = handle_i d args
run d upper_i args = handle_upper_i d args
run d v_cont args = handle_v_cont d args
run d v_cont_question_mark args = handle_v_cont_question_mark d
run d question_mark args = handle_question_mark d
run d control_c args = handle_control_c d
run d letter_r args = handle_r d
run d upper_r args = handle_upper_r d
run d letter_k args = handle_k d
run d v_kill args = handle_v_kill d args
run d q_kill_spawned_process args = handle_q_kill_spawned_process d args
run d upper_d args = handle_upper_d d args
run d v_attach args = handle_v_attach d args
run d v_attach_name args = handle_v_attach_name d args
run d v_attach_or_wait args = handle_v_attach_or_wait d args
run d v_attach_wait args = handle_v_attach_wait d args
run d v_run args = handle_v_run d args
run d v_stopped args = handle_v_stopped d
run d upper_h args = handle_upper_h d args
run d upper_t args = handle_upper_t d args
run d q_c args = handle_q_c d
run d q_get_pid args = handle_q_get_pid d
run d qf_thread_info args = handle_qf_thread_info d
run d qs_thread_info args = handle_qs_thread_info d
run d q_l args = handle_q_l d args
run d q_p args = handle_q_p d args
run d q_attached args = handle_q_attached d args
run d q_get_tib_addr args = handle_q_get_tib_addr d args
run d q_get_tls_addr args = handle_q_get_tls_addr d args
run d exclamation_mark args = handle_exclamation_mark d
run d letter_d args = handle_d d
run d q_environment args = handle_q_environment d args
run d q_environment_hex_encoded args = handle_q_environment_hex_encoded d args
run d q_non_stop args = handle_q_non_stop d args
run d q_pass_signals args = handle_q_pass_signals d args
run d q_program_signals args = handle_q_program_signals d args
run d q_start_no_ack_mode args = handle_q_start_no_ack_mode d
run d q_sync_thread_state args = handle_q_sync_thread_state d
run d q_allow args = handle_q_allow d args
run d q_agent args = handle_q_agent d args
run d q_btrace args = handle_q_btrace d args
run d q_disable_randomization args = handle_q_disable_randomization d args
run d q_set_disable_aslr args = handle_q_set_disable_aslr d args
run d q_set_max_packet_size args = handle_q_set_max_packet_size d args
run d q_set_max_payload_size args = handle_q_set_max_payload_size d args
run d q_set_stdin args = handle_q_set_stdin d args
run d q_set_stdout args = handle_q_set_stdout d args
run d q_set_stderr args = handle_q_set_stderr d args
run d q_set_working_dir args = handle_q_set_working_dir d args
run d q_launch_arch args = handle_q_launch_arch d args
run d q_list_threads_in_stop_reply args = handle_q_list_threads_in_stop_reply d
run d q_thread_suffix_supported args = handle_q_thread_suffix_supported d
run d q_platform_mkdir args = handle_q_platform_mkdir d args
run d q_platform_chmod args = handle_q_platform_chmod d args
run d q_xfer args = handle_q_xfer d args
run d q_speed_test args = handle_q_speed_test d args
run d q_echo args = handle_q_echo d args
run d q_step_packet_supported args = handle_q_step_packet_supported d
run d q_gdb_server_version args = handle_q_gdb_server_version d
run d q_host_info args = handle_q_host_info d
run d q_process_info args = handle_q_process_info d
run d q_process_info_pid args = handle_q_process_info_pid d args
run d q_watchpoint_support_info args = handle_q_watchpoint_support_info d
run d q_shlib_info_addr args = handle_q_shlib_info_addr d
run d q_offsets args = handle_q_offsets d
run d q_get_working_dir args = handle_q_get_working_dir d args
run d q_file_load_address args = handle_q_file_load_address d args
run d upper_a args = handle_upper_a d args
run d letter_b args = handle_b d args
run d q_set_enable_async_profiling args = handle_q_set_enable_async_profiling d args
run d q_set_logging args = handle_q_set_logging d args
run d q_get_profile_data args = handle_q_get_profile_data d args
run d q_group_name args = handle_q_group_name d args
run d q_launch_gdb_server args = handle_q_launch_gdb_server d args
run d q_launch_success args = handle_q_launch_success d
run d q_module_info args = handle_q_module_info d args
run d q_platform_shell args = handle_q_platform_shell d args
run d q_rcmd args = handle_q_rcmd d args
run d q_supported args = handle_q_supported d args
run d q_supports_detach_and_stay_stopped args = handle_q_supports_detach_and_stay_stopped d
run d q_symbol args = handle_q_symbol d args
run d qt_status args = handle_qt_status d
run d q_thread_extra_info args = handle_q_thread_extra_info d args
run d q_thread_stop_info args = handle_q_thread_stop_info d args
run d q_user_name args = handle_q_user_name d args
run d qv_attach_or_wait_supported args = handle_qv_attach_or_wait_supported d
run d qs_process_info args = handle_qs_process_info d
run d v_file args = handle_v_file d args
run d j_threads_info args = handle_j_threads_info d
run d qf_process_info args = handle_qf_process_info d args
