-- ===== src/Handlers/Commands/Kinds.antt =====
-- Sources/GDBRemote/Session.cpp: the commands whose handlers differ from the others.
use ds.Base.{Bool, true, false}
use ds.Handlers.Commands.{
  Command, control_c, letter_r, v_cont, q_set_logging, q_get_profile_data, q_supported, upper_m,
  upper_x, q_search, v_flash_write, upper_g, upper_p, bc, bs, upper_c, upper_s, letter_c, letter_s,
  letter_i, upper_i, question_mark, letter_k, v_kill, v_attach, v_attach_name, v_attach_or_wait,
  v_attach_wait, v_run, v_stopped, qf_thread_info, qs_thread_info, q_environment_hex_encoded,
  q_set_stdin, q_set_stdout, q_set_stderr, q_set_working_dir, q_platform_mkdir, q_platform_chmod,
  q_file_load_address, upper_a, q_module_info, q_platform_shell, q_rcmd, q_symbol,
  q_thread_stop_info, v_file, j_threads_info, q_speed_test,
}

-- The commands that may be answered by no reply, or by several, and qSupported, which may end the mode of LLDB.
unfoldable pub is_irregular : Command → Bool
is_irregular control_c = true
is_irregular letter_r = true
is_irregular v_cont = true
is_irregular q_set_logging = true
is_irregular q_get_profile_data = true
is_irregular q_supported = true
is_irregular other = false

-- The commands that can stop the program: they convert hexadecimal text, read a block of the arguments whose
-- length the packet gives, reserve as much memory as the packet says, divide by the size of a register, print a stop reply or threads, or end the server.
unfoldable pub is_fragile : Command → Bool
is_fragile upper_m = true
is_fragile upper_x = true
is_fragile q_search = true
is_fragile v_flash_write = true
is_fragile upper_g = true
is_fragile upper_p = true
is_fragile bc = true
is_fragile bs = true
is_fragile upper_c = true
is_fragile upper_s = true
is_fragile letter_c = true
is_fragile letter_s = true
is_fragile letter_i = true
is_fragile upper_i = true
is_fragile v_cont = true
is_fragile question_mark = true
is_fragile letter_k = true
is_fragile v_kill = true
is_fragile v_attach = true
is_fragile v_attach_name = true
is_fragile v_attach_or_wait = true
is_fragile v_attach_wait = true
is_fragile v_run = true
is_fragile v_stopped = true
is_fragile qf_thread_info = true
is_fragile qs_thread_info = true
is_fragile q_environment_hex_encoded = true
is_fragile q_set_stdin = true
is_fragile q_set_stdout = true
is_fragile q_set_stderr = true
is_fragile q_set_working_dir = true
is_fragile q_platform_mkdir = true
is_fragile q_platform_chmod = true
is_fragile q_file_load_address = true
is_fragile upper_a = true
is_fragile q_module_info = true
is_fragile q_platform_shell = true
is_fragile q_rcmd = true
is_fragile q_symbol = true
is_fragile q_thread_stop_info = true
is_fragile v_file = true
is_fragile j_threads_info = true
is_fragile q_speed_test = true
is_fragile other = false
