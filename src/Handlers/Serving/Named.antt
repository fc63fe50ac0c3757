-- ===== src/Handlers/Serving/Named.antt =====
-- Sources/GDBRemote/Session.cpp, Sources/GDBRemote/ProtocolInterpreter.cpp: every packet name reaches the method of its command.
use ds.Base.{◌∙◌, ap, sym, false, contains, ◌≡◌, refl, some, [], ◌∷◌, Bytes, codes}
use ds.Interpreter.{
  split_command, Handler, find_handler, lower_bound, handler_compare, compare_bytes,
}
use ds.Interpreter.Table.{session_table, sorted_handlers}
use ds.Interpreter.Dispatch.{table_sorted}
use ds.Handlers.Commands.{Command, run}
use ds.Handlers.World.{Delegate, World}
use ds.Session.{on_command}
use ds.Session.Commands.{on_command-found}
use ds.Handlers.Serving.{command_of, call_back, serve, serve_packet}

-- The name of a command in the protocol.
unfoldable pub name_of : Command → Bytes
name_of Command.control_c = 3 ∷ []
name_of Command.question_mark = codes "?"
name_of Command.exclamation_mark = codes "!"
name_of Command.upper_a = codes "A"
name_of Command.upper_b = codes "B"
name_of Command.letter_b = codes "b"
name_of Command.bc = codes "bc"
name_of Command.bs = codes "bs"
name_of Command.upper_c = codes "C"
name_of Command.letter_c = codes "c"
name_of Command.upper_d = codes "D"
name_of Command.letter_d = codes "d"
name_of Command.upper_g = codes "G"
name_of Command.letter_g = codes "g"
name_of Command.upper_h = codes "H"
name_of Command.upper_i = codes "I"
name_of Command.letter_i = codes "i"
name_of Command.j_threads_info = codes "jThreadsInfo"
name_of Command.letter_k = codes "k"
name_of Command.allocate = codes "_M"
name_of Command.deallocate = codes "_m"
name_of Command.upper_m = codes "M"
name_of Command.letter_m = codes "m"
name_of Command.upper_p = codes "P"
name_of Command.letter_p = codes "p"
name_of Command.q_agent = codes "QAgent"
name_of Command.q_allow = codes "QAllow"
name_of Command.q_disable_randomization = codes "QDisableRandomization"
name_of Command.q_environment = codes "QEnvironment"
name_of Command.q_environment_hex_encoded = codes "QEnvironmentHexEncoded"
name_of Command.q_launch_arch = codes "QLaunchArch"
name_of Command.q_list_threads_in_stop_reply = codes "QListThreadsInStopReply"
name_of Command.q_non_stop = codes "QNonStop"
name_of Command.q_pass_signals = codes "QPassSignals"
name_of Command.q_program_signals = codes "QProgramSignals"
name_of Command.q_restore_register_state = codes "QRestoreRegisterState"
name_of Command.q_save_register_state = codes "QSaveRegisterState"
name_of Command.q_set_disable_aslr = codes "QSetDisableASLR"
name_of Command.q_set_enable_async_profiling = codes "QSetEnableAsyncProfiling"
name_of Command.q_set_logging = codes "QSetLogging"
name_of Command.q_set_max_packet_size = codes "QSetMaxPacketSize"
name_of Command.q_set_max_payload_size = codes "QSetMaxPayloadSize"
name_of Command.q_set_stderr = codes "QSetSTDERR"
name_of Command.q_set_stdin = codes "QSetSTDIN"
name_of Command.q_set_stdout = codes "QSetSTDOUT"
name_of Command.q_set_working_dir = codes "QSetWorkingDir"
name_of Command.q_start_no_ack_mode = codes "QStartNoAckMode"
name_of Command.q_sync_thread_state = codes "QSyncThreadState"
name_of Command.q_thread_suffix_supported = codes "QThreadSuffixSupported"
name_of Command.q_btrace = codes "Qbtrace"
name_of Command.q_attached = codes "qAttached"
name_of Command.q_c = codes "qC"
name_of Command.q_crc = codes "qCRC"
name_of Command.q_echo = codes "qEcho"
name_of Command.q_file_load_address = codes "qFileLoadAddress"
name_of Command.q_gdb_server_version = codes "qGDBServerVersion"
name_of Command.q_get_pid = codes "qGetPid"
name_of Command.q_get_profile_data = codes "qGetProfileData"
name_of Command.q_get_tib_addr = codes "qGetTIBAddr"
name_of Command.q_get_tls_addr = codes "qGetTLSAddr"
name_of Command.q_get_working_dir = codes "qGetWorkingDir"
name_of Command.q_group_name = codes "qGroupName"
name_of Command.q_host_info = codes "qHostInfo"
name_of Command.q_kill_spawned_process = codes "qKillSpawnedProcess"
name_of Command.q_l = codes "qL"
name_of Command.q_launch_gdb_server = codes "qLaunchGDBServer"
name_of Command.q_launch_success = codes "qLaunchSuccess"
name_of Command.q_memory_region_info = codes "qMemoryRegionInfo"
name_of Command.q_module_info = codes "qModuleInfo"
name_of Command.q_offsets = codes "qOffsets"
name_of Command.q_p = codes "qP"
name_of Command.q_platform_chmod = codes "qPlatform_chmod"
name_of Command.q_platform_mkdir = codes "qPlatform_mkdir"
name_of Command.q_platform_shell = codes "qPlatform_shell"
name_of Command.q_process_info = codes "qProcessInfo"
name_of Command.q_process_info_pid = codes "qProcessInfoPID"
name_of Command.q_rcmd = codes "qRcmd"
name_of Command.q_register_info = codes "qRegisterInfo"
name_of Command.q_search = codes "qSearch"
name_of Command.q_shlib_info_addr = codes "qShlibInfoAddr"
name_of Command.q_speed_test = codes "qSpeedTest"
name_of Command.q_step_packet_supported = codes "qStepPacketSupported"
name_of Command.q_supported = codes "qSupported"
name_of Command.q_supports_detach_and_stay_stopped = codes "qSupportsDetachAndStayStopped"
name_of Command.q_symbol = codes "qSymbol"
name_of Command.q_thread_stop_info = codes "qThreadStopInfo"
name_of Command.q_thread_extra_info = codes "qThreadExtraInfo"
name_of Command.qt_status = codes "qTStatus"
name_of Command.q_user_name = codes "qUserName"
name_of Command.qv_attach_or_wait_supported = codes "qVAttachOrWaitSupported"
name_of Command.q_watchpoint_support_info = codes "qWatchpointSupportInfo"
name_of Command.q_xfer = codes "qXfer"
name_of Command.qf_process_info = codes "qfProcessInfo"
name_of Command.qs_process_info = codes "qsProcessInfo"
name_of Command.qf_thread_info = codes "qfThreadInfo"
name_of Command.qs_thread_info = codes "qsThreadInfo"
name_of Command.upper_r = codes "R"
name_of Command.letter_r = codes "r"
name_of Command.upper_s = codes "S"
name_of Command.letter_s = codes "s"
name_of Command.upper_t = codes "T"
name_of Command.letter_t = codes "t"
name_of Command.v_attach = codes "vAttach"
name_of Command.v_attach_name = codes "vAttachName"
name_of Command.v_attach_wait = codes "vAttachWait"
name_of Command.v_attach_or_wait = codes "vAttachOrWait"
name_of Command.v_cont_question_mark = codes "vCont?"
name_of Command.v_cont = codes "vCont"
name_of Command.v_file = codes "vFile"
name_of Command.v_flash_done = codes "vFlashDone"
name_of Command.v_flash_erase = codes "vFlashErase"
name_of Command.v_flash_write = codes "vFlashWrite"
name_of Command.v_kill = codes "vKill"
name_of Command.v_run = codes "vRun"
name_of Command.v_stopped = codes "vStopped"
name_of Command.upper_x = codes "X"
name_of Command.letter_x = codes "x"
name_of Command.upper_z = codes "Z"
name_of Command.letter_z = codes "z"

-- The entry of the table that is found for a name is the one of the command.
find_command :
    (c : Command)
    → (h : Handler) × (find_handler sorted_handlers (name_of c) ≡ some h)
      × (h.command ≡ name_of c)
      × (command_of h.callback ≡ some c)
unfolding find_handler lower_bound handler_compare compare_bytes sorted_handlers name_of command_of
find_command Command.letter_m = (_, refl, refl, refl)
find_command other = (_, refl, refl, refl)

found_command :
    (c : Command)
    → (h : Handler) × (find_handler session_table (name_of c) ≡ some h)
      × (h.command ≡ name_of c)
      × (command_of h.callback ≡ some c)
found_command c =
    let (h, found, name, command) = find_command c in
    (h, ap (λ t. find_handler t (name_of c)) table_sorted ∙ found, name, command)

module _ (d : Delegate) where
  serve-on_command :
      (c : Command) (args : Bytes)
      → contains b'*' args ≡ false
      → contains b'}' args ≡ false
      → serve d (on_command session_table (name_of c) args) ≡ run d c args
  unfolding serve call_back
  serve-on_command c args star brace =
      let (h, found, name, command) = found_command c in
      ap (λ n. serve d (on_command session_table n args)) (sym name)
      ∙ ap (serve d) (on_command-found h args (rw name found) star brace)
      ∙ ap (λ k. call_back d k args) command

  -- A packet that splits into the name of a command of Handlers.Commands and arguments without '*' and '}'
  -- runs the method of this command with these arguments: no entry of the sorted table hides another, the
  -- prefix handlers neither, and every name is registered with its own method.
  pub serve_packet-run :
      (c : Command) (bytes args : Bytes) (w : World d)
      → split_command bytes ≡ (name_of c, args)
      → contains b'*' args ≡ false
      → contains b'}' args ≡ false
      → serve_packet d bytes w ≡ run d c args w
  unfolding serve_packet
  serve_packet-run c bytes args w split star brace =
      rw split (ap (λ f. f w) (serve-on_command c args star brace))
