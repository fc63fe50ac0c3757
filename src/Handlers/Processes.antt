-- ===== src/Handlers/Processes.antt =====
-- Sources/GDBRemote/Session.cpp: qfProcessInfo and qsProcessInfo, the list of processes, on POSIX.
use ds.Base.{
  ℕ, ◌-◌, ◌^◌, Bool, true, false, not, ◌||◌, Option, none, some, List, [], ◌∷◌, ◌++◌, Bytes, codes,
  ◌==◌, if◌then◌else◌,
}
use ds.Structures.Processes.{ProcessInfo, encode_process}
use ds.Structures.CpuTypes.{any_cpu, unknown_endian}
use ds.Structures.Ids.{any_id}
use ds.Handlers.Calls.{ProcessInfoMatch, on_query_process_list}
use ds.Handlers.World.{Delegate, Action, send, chk_send}
use ds.Handlers.Scan.{cut, low32, same_text, strtoul_decimal, parse_list}
use ds.Handlers.Settings.{pieces_of}

-- ProcessInfo(): kCPUSubTypeInvalid and kInvalidCPUType stand for numbers that no type has.
abbrev pub empty_process : ProcessInfo
empty_process = record {
  pid = any_id;
  parent_pid = any_id;
  name = [];
  real_uid = 0;
  real_gid = 0;
  effective_uid = 0;
  effective_gid = 0;
  cpu_type = any_cpu;
  cpu_sub_type = 2 ^ 32 - 2;
  native_cpu_type = 2 ^ 32 - 2;
  native_cpu_sub_type = 2 ^ 32 - 2;
  endian = unknown_endian;
  pointer_size = 0;
  os_type = [];
  os_vendor = [];
}

-- `ProcessInfoMatch match;` leaves allUsers without a value, `ProcessInfoMatch()` sets it to false.
abbrev pub empty_match : Option Bool → ProcessInfoMatch
empty_match all_users = record {
  base = empty_process;
  name_match = [];
  triple = [];
  all_users = all_users;
  keys = [];
}

-- The numbers are uint32_t, and a pid_t is its bit pattern.
abbrev pub decimal : Bytes → ℕ
decimal text = low32 (strtoul_decimal text).number

unfoldable pub set_number : ProcessInfo → Bytes → ℕ → Option ProcessInfo
unfolding same_text
set_number base key n =
    if same_text key (codes "pid")
    then some (record base { pid = n })
    else if same_text key (codes "uid")
    then some (record base { real_uid = n })
    else if same_text key (codes "gid")
    then some (record base { real_gid = n })
    else if same_text key (codes "parent_pid")
    then some (record base { parent_pid = n })
    else if same_text key (codes "euid")
    then some (record base { effective_uid = n })
    else if same_text key (codes "egid")
    then some (record base { effective_gid = n })
    else none

unfoldable pub set_text : ProcessInfoMatch → Bytes → Bytes → ProcessInfoMatch
unfolding same_text strtoul_decimal
set_text m key value =
    if same_text key (codes "name")
    then record m { base = record m.base { name = value } }
    else if same_text key (codes "name_match")
    then record m { name_match = value }
    else if same_text key (codes "all_users")
    then record m {
      all_users =
          some (not ((strtoul_decimal value).number == 0) || same_text value (codes "true"));
    }
    else if same_text key (codes "triple")
    then record m { triple = value }
    else m

unfoldable pub set_member : ProcessInfoMatch → Bytes → Bytes → ProcessInfoMatch
unfolding set_number set_text strtoul_decimal
set_member m key value = elim (set_number m.base key (decimal value)) [
  | some base ↦ record m { base = base }
  | none ↦ set_text m key value
]

-- The callback: it takes the key and the value from all the arguments, whatever its piece is.
unfoldable pub match_piece : Bytes → ProcessInfoMatch → ProcessInfoMatch
unfolding cut set_member
match_piece args m = elim (cut b':' args) [
  | none ↦ m
  | some (key, value) ↦
      let set = set_member m key value in record set { keys = set.keys ++ key ∷ [] }
]

unfoldable pub match_of : Bytes → ProcessInfoMatch → List Bytes → ProcessInfoMatch
unfolding match_piece
match_of args m [] = m
match_of args m (piece ∷ pieces) = match_of args (match_piece args m) pieces

module _ (d : Delegate) where
  unfoldable pub process_reply : ProcessInfo → Action d
  unfolding encode_process
  process_reply info w = send d (encode_process info w.session.mode true) w

  unfoldable pub handle_qf_process_info : Bytes → Action d
  unfolding match_of parse_list process_reply
  handle_qf_process_info args =
      let found = match_of args (empty_match none) (pieces_of (parse_list b';' args)) in
      chk_send d (on_query_process_list found true) process_reply

  unfoldable pub handle_qs_process_info : Action d
  unfolding process_reply
  handle_qs_process_info =
      chk_send d (on_query_process_list (empty_match (some false)) false) process_reply
