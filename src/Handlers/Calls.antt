-- ===== src/Handlers/Calls.antt =====
-- Headers/DebugServer2/GDBRemote/SessionDelegate.h: the operations that a session asks of its delegate, with
-- the values that each hands back through its references.
use ds.Base.{ℕ, Bool, Option, List, Bytes}
use ds.Breakpoint.Sites.{Address}
use ds.Structures.Ids.{ProcessThreadId}
use ds.Structures.Stops.{RemoteStopInfo}
use ds.Structures.Registers.{RegisterInfo}
use ds.Structures.Replies.{MemoryRegionInfo, ServerVersion, Feature, ProgramResult}
use ds.Structures.Hosts.{HostInfo}
use ds.Structures.Processes.{ProcessInfo}

pub data ResumeAction : Type 0 where
  invalid single_step single_step_with_signal single_step_cycle : ResumeAction
  single_step_cycle_with_signal continue continue_with_signal backward_step : ResumeAction
  backward_continue stop_action : ResumeAction

-- A signal is an int as its bit pattern.
pub record ThreadResumeAction : Type 0 where
  pub ptid : ProcessThreadId
  pub action : ResumeAction
  pub address : Address
  pub signal : ℕ
  pub ncycles : ℕ

pub data AttachMode : Type 0 where
  attach_now attach_and_wait attach_or_wait : AttachMode

-- What is to be attached to: onAttach has two overloads.
pub data AttachTarget : Type 0 where
  process : ℕ → AttachTarget
  named : Bytes → AttachTarget

-- The flags of Constants.h, one by one; kOpenFlagInvalid, which is none of them, is left out.
pub record OpenFlags : Type 0 where
  pub read : Bool
  pub write : Bool
  pub append : Bool
  pub truncate : Bool
  pub non_blocking : Bool
  pub create : Bool
  pub new_only : Bool
  pub no_follow : Bool
  pub close_on_exec : Bool

-- The members that qfProcessInfo sets; allUsers is `none` where it has no value.
pub record ProcessInfoMatch : Type 0 where
  pub base : ProcessInfo
  pub name_match : Bytes
  pub triple : Bytes
  pub all_users : Option Bool
  pub keys : List Bytes

-- A BreakpointType is its number, which the packet gives; conditions and commands are always empty.
pub data Call : Type 0 where
  on_enable_extended_mode on_toggle_debug_flag on_interrupt on_flash_done on_reset : Call
  on_query_server_version on_query_host_info on_query_current_thread on_query_process_info : Call
  on_query_hardware_watchpoint_count on_query_shared_libraries_info_address : Call
  on_query_section_offsets on_query_working_directory : Call
  on_set_max_packet_size on_set_max_payload_size : ℕ → Call
  on_send_input on_execute_command on_set_architecture on_set_working_directory : Bytes → Call
  on_allow_operations : (Bytes → Option Bool) → Call
  on_enable_control_agent on_non_stop_mode on_enable_bts_tracing on_disable_aslr : Bool → Call
  on_pass_signals on_program_signals : List ℕ → Call
  on_query_register_info on_query_attached on_query_process_info_of on_query_launch_success :
      ℕ → Call
  on_attach : AttachTarget → AttachMode → Call
  on_run_attach : Bytes → List Bytes → Call
  on_detach : ℕ → Bool → Call
  on_query_thread_stop_info on_terminate on_thread_is_alive : ProcessThreadId → Call
  on_query_tib_address on_query_thread_info : ProcessThreadId → Call
  on_query_tls_address : ProcessThreadId → ℕ → ℕ → Call
  on_restart on_synchronize_thread_state : ℕ → Call
  on_query_thread_list : ℕ → ℕ → Call
  on_resume : List ThreadResumeAction → Call
  on_read_general_registers on_save_registers : ProcessThreadId → Call
  on_write_general_registers : ProcessThreadId → List ℕ → Call
  on_restore_registers : ProcessThreadId → ℕ → Call
  on_read_register_value : ProcessThreadId → ℕ → Call
  on_write_register_value : ProcessThreadId → ℕ → Bytes → Call
  on_read_memory on_compute_crc on_flash_erase on_allocate_memory : ℕ → ℕ → Call
  on_write_memory on_search on_flash_write : ℕ → Bytes → Call
  on_deallocate_memory on_query_memory_region_info : ℕ → Call
  on_search_backward : ℕ → ℕ → ℕ → Call
  on_insert_breakpoint on_remove_breakpoint : ℕ → ℕ → ℕ → Call
  on_xfer_read : Bytes → Bytes → ℕ → ℕ → Call
  on_xfer_write : Bytes → Bytes → ℕ → Bytes → Call
  on_set_environment_variable : Bytes → Bytes → Call
  on_set_std_file : ℕ → Bytes → Call
  on_set_program_arguments : List Bytes → Call
  on_query_file_load_address : Bytes → Call
  on_file_create_directory on_file_set_permissions : Bytes → ℕ → Call
  on_file_open : Bytes → OpenFlags → ℕ → Call
  on_file_close on_set_baud_rate on_query_user_name on_query_group_name : ℕ → Call
  on_file_read : ℕ → ℕ → ℕ → Call
  on_file_write : ℕ → ℕ → Bytes → Call
  on_file_remove on_file_read_link on_file_exists on_file_compute_md5 on_file_get_size :
      Bytes → Call
  on_set_logging : Bytes → Bytes → List Bytes → Call
  on_query_supported : List Feature → Call
  on_query_symbol on_query_shared_library_info : Bytes → Bytes → Call
  on_enable_asynchronous_profiling : ProcessThreadId → Bool → ℕ → ℕ → Call
  on_query_profile_data : ProcessThreadId → ℕ → Call
  on_create_threads_stop_info on_fetch_stop_infos : Call
  on_query_process_list : ProcessInfoMatch → Bool → Call
  on_execute_program : Bytes → ℕ → Bytes → Call
  on_launch_debug_server : Bytes → ℕ → Call

-- The array of on_create_threads_stop_info is its text.
-- The value of a call whose references it fills; Unit for the others.
abbrev pub Answer : Call → Type 0
Answer on_query_server_version = ServerVersion
Answer on_query_host_info = HostInfo
Answer on_query_current_thread = ProcessThreadId
Answer on_query_process_info = ProcessInfo
Answer (on_query_process_info_of pid) = ProcessInfo
Answer on_query_hardware_watchpoint_count = ℕ
Answer on_query_shared_libraries_info_address = Address
Answer on_query_section_offsets = Address × Address × Bool
Answer on_query_working_directory = Bytes
Answer (on_query_register_info regno) = RegisterInfo
Answer (on_query_attached pid) = Bool
Answer (on_attach target mode) = RemoteStopInfo
Answer (on_run_attach filename arguments) = RemoteStopInfo
Answer (on_query_thread_stop_info ptid) = RemoteStopInfo
Answer (on_terminate ptid) = RemoteStopInfo
Answer (on_resume actions) = RemoteStopInfo
Answer (on_query_tib_address ptid) = ℕ
Answer (on_query_thread_info ptid) = Bytes
Answer (on_query_tls_address ptid offset link_map) = ℕ
Answer (on_query_thread_list pid last) = ℕ
Answer (on_read_general_registers ptid) = List ℕ
Answer (on_save_registers ptid) = ℕ
Answer (on_read_register_value ptid regno) = Bytes
Answer (on_read_memory address size) = Bytes
Answer (on_compute_crc address size) = ℕ
Answer (on_allocate_memory size permissions) = ℕ
Answer (on_write_memory address written) = ℕ
Answer (on_search address wanted) = ℕ
Answer (on_search_backward address wanted mask) = ℕ
Answer (on_query_memory_region_info address) = MemoryRegionInfo
Answer (on_xfer_read object annex offset size) = Bytes × Bool
Answer (on_xfer_write object annex offset buffer) = ℕ
Answer (on_query_file_load_address path) = ℕ
Answer (on_file_open path flags mode) = ℕ
Answer (on_file_read fd count offset) = ℕ × Bytes
Answer (on_file_write fd offset buffer) = ℕ
Answer (on_file_read_link path) = Bytes
Answer (on_file_compute_md5 path) = Bytes
Answer (on_file_get_size path) = ℕ
Answer (on_query_supported features) = List Feature
Answer (on_query_symbol name value) = Bytes
Answer on_create_threads_stop_info = Bytes
Answer on_fetch_stop_infos = List RemoteStopInfo × RemoteStopInfo
Answer (on_query_process_list match_info first) = ProcessInfo
Answer (on_execute_program command timeout directory) = ProgramResult
Answer (on_launch_debug_server host port) = ℕ × ℕ
Answer (on_query_user_name uid) = Bytes
Answer (on_query_group_name gid) = Bytes
Answer other = Unit {0}
