-- ===== src/Structures/Ids.antt =====
-- ProcessThreadId of Sources/GDBRemote/Structures.cpp, and of Headers/DebugServer2/Types.h. A pid_t is
-- its bit pattern of 32 bits; an unsigned long that is assigned to it loses its higher bits.
pub mod RoundTrip
use ds.Base.{
  ℕ, zero, suc, ◌-◌, ◌%◌, ◌^◌, Bool, true, false, not, ◌&&◌, ◌||◌, Option, none, some, [], ◌∷◌,
  ◌++◌, Bytes, codes, ◌==◌, if◌then◌else◌, take, drop,
}
use ds.Session.{CompatibilityMode, gdb, gdb_multiprocess, lldb, lldb_thread}
use ds.Structures.Numbers.{hex, Scanned, strtoul}

pub record ProcessThreadId : Type 0 where
  pub pid : ℕ
  pub tid : ℕ

-- kAllProcessId and kAllThreadId, kAnyProcessId and kAnyThreadId
abbrev pub all_id : ℕ
all_id = 0xffffffff

abbrev pub any_id : ℕ
any_id = 0

unfoldable pub valid_id : ℕ → Bool
valid_id id = not (id == all_id) && not (id == any_id)

abbrev pub thread_key : Bytes
thread_key = codes "thread:"

-- std::strncmp(s, prefix, n) == 0, for a prefix of n characters: what follows it.
unfoldable pub after_prefix : Bytes → Bytes → Option Bytes
after_prefix [] s = some s
after_prefix (p ∷ prefix) [] = none
after_prefix (p ∷ prefix) (c ∷ s) =
    let rest = after_prefix prefix s in if p == c then rest else none

-- CHECK_AND_RESET of a number that becomes the tid.
unfoldable pub with_tid : ProcessThreadId → Scanned → ProcessThreadId × Bool
with_tid id number =
    if number.out_of_range
    then (record id { tid = all_id }, false)
    else (record id { tid = number.number % 2 ^ 32 }, true)

-- CHECK_AND_RESET of a number that becomes the pid, and what comes then.
unfoldable pub with_pid :
    Scanned → (ProcessThreadId → Bytes → ProcessThreadId × Bool) → ProcessThreadId × Bool
with_pid number next =
    if number.out_of_range
    then (record { pid = all_id; tid = all_id }, false)
    else next (record { pid = number.number % 2 ^ 32; tid = all_id }) number.rest

-- After the pid of GDB's form: `.` and the tid, or nothing more.
unfoldable pub after_dot : ProcessThreadId → Bytes → ProcessThreadId × Bool
unfolding with_tid strtoul
after_dot id [] = (id, true)
after_dot id (c ∷ s) = if c == b'.' then with_tid id (strtoul s) else (id, true)

-- `thread:` and the tid.
unfoldable pub after_key : ProcessThreadId → Option Bytes → ProcessThreadId × Bool
unfolding with_tid strtoul
after_key id none = (id, true)
after_key id (some s) = with_tid id (strtoul s)

-- After LLDB's first number: `;` and perhaps the thread, or it was the tid.
unfoldable pub after_semicolon : ProcessThreadId → Bytes → ProcessThreadId × Bool
unfolding after_key after_prefix
after_semicolon id [] = (record { pid = any_id; tid = id.pid }, true)
after_semicolon id (c ∷ s) =
    if c == b';'
    then after_key id (after_prefix thread_key s)
    else (record { pid = any_id; tid = id.pid }, true)

abbrev pub all_ids : ProcessThreadId
all_ids = record { pid = all_id; tid = all_id }

-- GDB's two forms.
unfoldable pub parse_gdb : Bytes → ProcessThreadId × Bool
unfolding with_pid after_dot strtoul
parse_gdb [] = (all_ids, false)
parse_gdb (c ∷ s) =
    if c == b'p'
    then with_pid (strtoul s) after_dot
    else with_pid (strtoul (c ∷ s)) (λ id rest. (id, true))

-- ProcessThreadId::parse: what it leaves in the structure, and its result.
unfoldable pub parse_id : CompatibilityMode → Bytes → ProcessThreadId × Bool
unfolding parse_gdb with_pid after_semicolon after_key after_prefix strtoul
parse_id mode [] = (all_ids, false)
parse_id gdb (c ∷ s) = parse_gdb (c ∷ s)
parse_id gdb_multiprocess (c ∷ s) = parse_gdb (c ∷ s)
parse_id lldb (c ∷ s) = with_pid (strtoul (c ∷ s)) after_semicolon
parse_id lldb_thread (c ∷ s) = after_key all_ids (after_prefix thread_key (c ∷ s))

-- ProcessThreadId::encode.
unfoldable pub encode_id : CompatibilityMode → ProcessThreadId → Bytes
unfolding valid_id hex
encode_id gdb id = hex id.pid
encode_id gdb_multiprocess id =
    if valid_id id.tid then codes "p" ++ (hex id.pid ++ (codes "." ++ hex id.tid)) else hex id.pid
encode_id lldb id =
    if valid_id id.tid then hex id.pid ++ (codes ";" ++ (thread_key ++ hex id.tid)) else hex id.pid
encode_id lldb_thread id = if valid_id id.tid then hex id.tid else hex id.pid
