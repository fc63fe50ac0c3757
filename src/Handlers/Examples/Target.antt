-- ===== src/Handlers/Examples/Target.antt =====
-- A delegate for the session of Sources/GDBRemote/Session.cpp, whose target is a memory of a few bytes.
use ds.Base.{
  ◌+◌, Option, Bool, true, false, none, some, [], ◌∷◌, ◌++◌, Bytes, codes, length, take, drop, ltb,
  ◌^◌,
}
use ds.Errors.{ErrorCode, success, invalid_argument}
use ds.Session.{gdb_multiprocess}
use ds.Breakpoint.Sites.{unset}
use ds.Breakpoint.Hits.{signal_stop}
use ds.Structures.CpuTypes.{x86_64, little}
use ds.Structures.Ids.{ProcessThreadId}
use ds.Structures.Stops.{RemoteStopInfo, stop}
use ds.Structures.Registers.{no_encoding, no_format}
use ds.Structures.Processes.{ProcessInfo}
use ds.Handlers.Calls.{Call, Answer}
use ds.Handlers.Xfer.Download.{slice}
use ds.Handlers.World.{Delegate, World, payload, default_id}

-- A stop of thread 7 of process 5 by a signal.
abbrev pub a_thread : ProcessThreadId
a_thread = record { pid = 5; tid = 7 }

abbrev pub a_stop : RemoteStopInfo
a_stop = record {
  base = record { reason = signal_stop; watchpoint_address = unset; watchpoint_index = none };
  event = stop;
  status = 0;
  signal = 5;
  core = none;
  ptid = a_thread;
  thread_name = [];
  registers = [];
  threads = [];
}

abbrev a_process : ProcessInfo
a_process = record {
  pid = 5;
  parent_pid = 1;
  name = codes "a.out";
  real_uid = 0;
  real_gid = 0;
  effective_uid = 0;
  effective_gid = 0;
  cpu_type = x86_64;
  cpu_sub_type = 0;
  native_cpu_type = 0;
  native_cpu_sub_type = 0;
  endian = little;
  pointer_size = 8;
  os_type = [];
  os_vendor = [];
}

abbrev an_answer : (c : Call) → Answer c
an_answer Call.on_query_server_version = record {
  name = codes "ds2";
  version = [];
  patch_level = [];
  release_name = [];
  major_version = 1;
  minor_version = 0;
  build_number = 0;
}
an_answer Call.on_query_host_info = record {
  cpu_type = x86_64;
  cpu_sub_type = 0;
  host_name = [];
  os_type = [];
  os_vendor = [];
  os_build = [];
  os_kernel = [];
  os_version = [];
  endian = little;
  pointer_size = 8;
  default_packet_timeout = 0;
  watchpoint_exceptions_received_before = false;
}
an_answer Call.on_query_current_thread = a_thread
an_answer Call.on_query_process_info = a_process
an_answer (Call.on_query_process_info_of pid) = a_process
an_answer Call.on_query_hardware_watchpoint_count = 4
an_answer Call.on_query_shared_libraries_info_address = unset
an_answer Call.on_query_section_offsets = (unset, unset, false)
an_answer Call.on_query_working_directory = codes "/"
an_answer (Call.on_query_register_info regno) = record {
  set_name = [];
  register_name = codes "rax";
  alternate_name = [];
  generic_name = [];
  bit_size = 64;
  byte_offset = none;
  ehframe_register_index = none;
  dwarf_register_index = none;
  regno = regno;
  encoding = no_encoding;
  format = no_format;
  container_registers = [];
  invalidate_registers = [];
}
an_answer (Call.on_query_attached pid) = true
an_answer (Call.on_attach target mode) = a_stop
an_answer (Call.on_run_attach filename arguments) = a_stop
an_answer (Call.on_query_thread_stop_info ptid) = a_stop
an_answer (Call.on_terminate ptid) = a_stop
an_answer (Call.on_resume actions) = a_stop
an_answer (Call.on_query_tib_address ptid) = 0
an_answer (Call.on_query_thread_info ptid) = []
an_answer (Call.on_query_tls_address ptid offset link_map) = 0
an_answer (Call.on_query_thread_list pid last) = 7
an_answer (Call.on_read_general_registers ptid) = 0x1122 ∷ 3 ∷ []
an_answer (Call.on_save_registers ptid) = 1
an_answer (Call.on_read_register_value ptid regno) = 1 ∷ []
an_answer (Call.on_read_memory address size) = []
an_answer (Call.on_compute_crc address size) = 0
an_answer (Call.on_allocate_memory size permissions) = 0x1000
an_answer (Call.on_write_memory address written) = length written
an_answer (Call.on_search address wanted) = 0
an_answer (Call.on_search_backward address wanted mask) = 0
an_answer (Call.on_query_memory_region_info address) = record {
  start = 0;
  length = 8;
  protection = 7;
  name = [];
}
an_answer (Call.on_xfer_read object annex offset size) = ([], true)
an_answer (Call.on_xfer_write object annex offset buffer) = length buffer
an_answer (Call.on_query_file_load_address path) = 0
an_answer (Call.on_file_open path flags mode) = 3
an_answer (Call.on_file_read fd count offset) = (0, [])
an_answer (Call.on_file_write fd offset buffer) = length buffer
an_answer (Call.on_file_read_link path) = path
an_answer (Call.on_file_compute_md5 path) = 0x61 ∷ []
an_answer (Call.on_file_get_size path) = 4
an_answer (Call.on_query_supported features) = features
an_answer (Call.on_query_symbol name value) = []
an_answer Call.on_create_threads_stop_info = codes "[]"
an_answer Call.on_fetch_stop_infos = (a_stop ∷ [], a_stop)
an_answer (Call.on_query_process_list match_info first) = a_process
an_answer (Call.on_execute_program command timeout directory) = record {
  status = 0;
  signal = 0;
  output = command;
}
an_answer (Call.on_launch_debug_server host port) = (1234, 5)
an_answer (Call.on_query_user_name uid) = codes "root"
an_answer (Call.on_query_group_name gid) = codes "root"
an_answer other = tt

-- The target is a memory that starts at address 0 and is the only file, and there is one object for qXfer.
abbrev pub an_object : Bytes
an_object = codes "<threads/>"

abbrev pub sliced : Bytes → Option (Bytes × Bool) → Bytes × ErrorCode × (Bytes × Bool)
sliced t none = (t, invalid_argument, ([], true))
sliced t (some piece) = (t, success, piece)

abbrev pub answered : Bytes → (c : Call) → Bytes × ErrorCode × Answer c
answered t (Call.on_write_memory address written) =
    (take address t ++ (written ++ drop (address + length written) t), success, length written)
answered t (Call.on_read_memory address size) = (t, success, take size (drop address t))
answered t (Call.on_xfer_read object annex offset size) = sliced t (slice an_object offset size)
answered t (Call.on_file_write fd offset buffer) =
    (take offset t ++ (buffer ++ drop (offset + length buffer) t), success, length buffer)
answered t (Call.on_file_read fd count offset) =
    (t, success, (length (take count (drop offset t)), take count (drop offset t)))
answered t other = (t, success, an_answer other)

abbrev pub memory : Delegate
memory = record {
  Target = Bytes;
  native = little;
  reserves = λ n. ltb n (2 ^ 62);
  get_gpr_size = λ t. 64;
  perform = answered;
  json_text = λ threads. codes "[]";
}

abbrev pub start : World memory
start = record {
  session = record {
    mode = gdb_multiprocess;
    ackmode = true;
    threads_in_stop_reply = false;
    ptids = λ k. default_id;
  };
  target = 1 ∷ 2 ∷ 3 ∷ 4 ∷ [];
  sent = [];
}

abbrev pub read_two : World memory
read_two = record start { sent = payload (codes "0203") ∷ [] }
