-- ===== src/Structures/Stops.antt =====
-- StopInfo of Sources/GDBRemote/Structures.cpp: stop replies, on POSIX and little-endian. `none` is a
-- failed assertion, DS2BUG, or a shift that is undefined.
pub mod Total
use ds.Base.{
  ℕ, zero, suc, ◌+◌, ◌-◌, ◌*◌, ◌/◌, ◌%◌, ◌^◌, Bool, true, false, not, ◌&&◌, ◌||◌, Option, none,
  some, List, [], ◌∷◌, ◌++◌, Bytes, codes, ◌==◌, ltb, if◌then◌else◌, ◌>>=◌, is_empty,
}
use ds.Hex.{to_hex}
use ds.Session.{CompatibilityMode, gdb, gdb_multiprocess, lldb, lldb_thread}
use ds.Breakpoint.Sites.{Map}
use ds.Breakpoint.Manager.{value}
use ds.Breakpoint.Hits.{
  Reason, no_reason, write_watchpoint, read_watchpoint, access_watchpoint, breakpoint, trace,
  signal_stop, trap, StopInfo,
}
use ds.Structures.Numbers.{hex, dec, padded}
use ds.Structures.Ids.{ProcessThreadId, valid_id, encode_id}
use ds.Structures.RegisterTexts.{GpRegisterValue, encode_registers}

pub data StopEvent : Type 0 where
  no_event stop exit kill : StopEvent

-- Both structures StopInfo. The status is an int as its bit pattern, a signal is not negative, a core
-- of -1 is `none`; the registers and the threads are in order.
pub record RemoteStopInfo : Type 0 where
  pub base : StopInfo
  pub event : StopEvent
  pub status : ℕ
  pub signal : ℕ
  pub core : Option ℕ
  pub ptid : ProcessThreadId
  pub thread_name : Bytes
  pub registers : Map GpRegisterValue
  pub threads : List ℕ

-- `mode == kCompatibilityModeLLDB`, `mode == kCompatibilityModeGDB`
abbrev pub is_lldb : CompatibilityMode → Bool
is_lldb lldb = true
is_lldb mode = false

abbrev pub is_gdb : CompatibilityMode → Bool
is_gdb gdb = true
is_gdb mode = false

-- An index of -1 is printed as it is.
unfoldable pub index_text : Option ℕ → Bytes
index_text none = codes "-1"
index_text (some i) = dec i

-- The key of a watchpoint in GDB's modes.
unfoldable pub watch_key : Reason → Option Bytes
watch_key write_watchpoint = some (codes "watch")
watch_key read_watchpoint = some (codes "rwatch")
watch_key access_watchpoint = some (codes "awatch")
watch_key _ = none

-- StopInfo::getWatchpointInfo.
unfoldable pub watchpoint_info : StopInfo → CompatibilityMode → Bool → Option (Bytes × Bytes)
unfolding watch_key index_text hex dec to_hex value
watchpoint_info info mode encode_hex =
    let address = value info.watchpoint_address in
    let described = dec address ++ (codes " " ++ index_text info.watchpoint_index) in
    let as_text = λ (s : Bytes). if encode_hex then to_hex s else s in
    let in_gdb = (do key ← watch_key info.reason; some (key, as_text (hex address))) in
    if is_lldb mode then some (codes "description", as_text described) else in_gdb

-- StopInfo::reasonToString.
unfoldable pub reason_to_string : Reason → CompatibilityMode → Bytes × Bytes
reason_to_string trace mode = (codes "reason", codes "trace")
reason_to_string breakpoint mode = (codes "reason", codes "breakpoint")
reason_to_string signal_stop mode = (codes "reason", codes "signal")
reason_to_string trap mode = (codes "reason", codes "trap")
reason_to_string write_watchpoint lldb = (codes "reason", codes "watchpoint")
reason_to_string read_watchpoint lldb = (codes "reason", codes "watchpoint")
reason_to_string access_watchpoint lldb = (codes "reason", codes "watchpoint")
reason_to_string _ mode = ([], [])

-- `;key:value`
unfoldable pub item : Bytes → Bytes → Bytes
item key text = codes ";" ++ (key ++ (codes ":" ++ text))

-- Numbers in hexadecimal with commas between them.
unfoldable pub thread_list : List ℕ → Bytes
thread_list [] = []
thread_list (tid ∷ []) = hex tid
thread_list (tid ∷ next ∷ tids) = hex tid ++ (codes "," ++ thread_list (next ∷ tids))

unfoldable pub thread_mode : CompatibilityMode → CompatibilityMode
thread_mode lldb = lldb_thread
thread_mode mode = mode

abbrev pub is_signal_stop : Reason → Bool
is_signal_stop signal_stop = true
is_signal_stop _ = false

abbrev pub is_no_reason : Reason → Bool
is_no_reason no_reason = true
is_no_reason _ = false

abbrev pub core_item : Option ℕ → Bytes
unfolding item dec
core_item none = []
core_item (some core) = item (codes "core") (dec core)

unfoldable pub reason_item : Bytes × Bytes → Bytes
unfolding item
reason_item (key, text) = if not (is_empty key) && not (is_empty text) then item key text else []

-- The item of a watchpoint, if its address is not 0.
unfoldable pub watchpoint_item : RemoteStopInfo → CompatibilityMode → Option Bytes
unfolding watchpoint_info item value
watchpoint_item r mode =
    let found = (do
      (key, text) ← watchpoint_info r.base mode (is_lldb mode)
      some (item key text)) in
    if value r.base.watchpoint_address == 0 then some [] else found

-- The threads, or this one if there are none.
unfoldable pub threads_item : RemoteStopInfo → CompatibilityMode → Bool → Bytes
unfolding thread_list item encode_id
threads_item r mode list_threads =
    if not list_threads
    then []
    else item (codes "threads")
        (if is_empty r.threads then encode_id mode r.ptid else thread_list r.threads)

-- StopInfo::encodeInfo.
unfoldable pub encode_info : RemoteStopInfo → CompatibilityMode → Bool → Option Bytes
unfolding thread_mode encode_id item reason_item reason_to_string watchpoint_item threads_item dec
encode_info r mode list_threads = do
  watchpoint ← watchpoint_item r mode
  some (
      codes "thread:"
      ++ (encode_id (thread_mode mode) r.ptid
          ++ ((if is_empty r.thread_name then [] else item (codes "name") r.thread_name)
              ++ (core_item r.core
                  ++ (reason_item (reason_to_string r.base.reason mode)
                      ++ (watchpoint
                          ++ ((if is_signal_stop r.base.reason
                                then item (codes "signal") (dec r.signal)
                                else [])
                              ++ threads_item r (thread_mode mode) list_threads)))))))

abbrev is_missing : Option ℕ → Bool
is_missing none = true
is_missing (some core) = false

-- Nothing is known but that it stopped.
unfoldable pub is_simple : RemoteStopInfo → Bool
unfolding valid_id
is_simple r =
    not (valid_id r.ptid.pid || valid_id r.ptid.tid)
    && (is_missing r.core && (is_no_reason r.base.reason && is_empty r.registers))

-- Without any information, GDB's simpler form is used.
unfoldable pub stop_mode : RemoteStopInfo → CompatibilityMode → CompatibilityMode
unfolding is_simple
stop_mode r gdb_multiprocess = if is_simple r then gdb else gdb_multiprocess
stop_mode r mode = mode

-- A stop, in the mode chosen: LLDB has the thread first, GDB the registers.
unfoldable pub encode_stop : RemoteStopInfo → CompatibilityMode → Bool → Option Bytes
unfolding encode_info encode_registers padded hex
encode_stop r mode list_threads =
    let number = padded 2 (hex (if is_no_reason r.base.reason then 0 else r.signal % 256)) in
    let detailed = (do
      info ← encode_info r mode list_threads
      registers ← encode_registers r.registers
      some (
          codes "T"
          ++ (number
              ++ (if is_lldb mode
                  then info ++ (codes ";" ++ (registers ++ codes ";"))
                  else registers ++ (codes ";" ++ (info ++ codes ";")))))) in
    if is_gdb mode then some (codes "S" ++ number) else detailed

-- StopInfo::encode.
unfoldable pub encode_event : RemoteStopInfo → StopEvent → CompatibilityMode → Bool → Option Bytes
unfolding stop_mode encode_stop padded hex
encode_event r no_event mode list_threads = none
encode_event r stop mode list_threads = encode_stop r (stop_mode r mode) list_threads
encode_event r exit mode list_threads = some (codes "W" ++ padded 2 (hex (r.status % 256)))
encode_event r kill mode list_threads = some (codes "X" ++ padded 2 (hex (r.signal % 256)))

unfoldable pub encode_stop_info : RemoteStopInfo → CompatibilityMode → Bool → Option Bytes
unfolding encode_event
encode_stop_info r mode list_threads = encode_event r r.event mode list_threads

-- StopInfo::encodeWithAllThreads, on the text of the JSON array.
unfoldable pub encode_with_all_threads : RemoteStopInfo → CompatibilityMode → Bytes → Option Bytes
unfolding encode_stop_info to_hex
encode_with_all_threads r mode json = do
  text ← encode_stop_info r mode true
  some (text ++ (codes "jstopinfo:" ++ (to_hex json ++ codes ";")))
