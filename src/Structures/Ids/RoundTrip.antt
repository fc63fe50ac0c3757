-- ===== src/Structures/Ids/RoundTrip.antt =====
-- ProcessThreadId of Sources/GDBRemote/Structures.cpp: what parse reads of what encode wrote.
use ds.Base.{
  ℕ, ◌%◌, ◌^◌, ◌<◌, ◌≡◌, refl, sym, ap, ◌∙◌, inl, inr, Bool, true, false, [], ◌∷◌, ◌++◌, append-nil,
  Bytes, codes, ◌==◌, if◌then◌else◌, Bool-cases, arith, All,
}
use ds.Hex.{hex_to_nibble}
use ds.Session.{CompatibilityMode, gdb, gdb_multiprocess, lldb, lldb_thread}
use ds.Structures.Numbers.{hex, Scanned, strtoul}
use ds.Structures.Numbers.RoundTrip.{Ends, IsFull, IsDigit, hex-IsFull, hex-IsDigit, strtoul-hex}
use ds.Structures.Ids.{
  ProcessThreadId, all_id, any_id, valid_id, thread_key, after_prefix, with_tid, with_pid,
  after_dot, after_key, after_semicolon, all_ids, parse_gdb, parse_id, encode_id,
}

-- encodeInfo of a stop writes `thread:` before the text of the mode for threads, which parse expects.
abbrev pub prefix_of : CompatibilityMode → Bytes
prefix_of lldb_thread = thread_key
prefix_of mode = []

-- GDB's short form has no thread, and LLDB's short form is read as a thread of any process.
abbrev pub read_back : CompatibilityMode → ProcessThreadId → ProcessThreadId
read_back gdb id = record id { tid = all_id }
read_back gdb_multiprocess id = if valid_id id.tid then id else record id { tid = all_id }
read_back lldb id = if valid_id id.tid then id else record { pid = any_id; tid = id.pid }
read_back lldb_thread id = record { pid = all_id; tid = if valid_id id.tid then id.tid else id.pid }

abbrev read : ℕ → Bytes → Scanned
read n s = record { number = n; rest = s; out_of_range = false }

narrow : (n : ℕ) → n < 2 ^ 32 → n % 2 ^ 32 ≡ n
narrow n h = omega arith

strtoul-all : (n : ℕ) → n < 2 ^ 32 → strtoul (hex n) ≡ read n []
strtoul-all n h = ap strtoul (sym (append-nil (hex n))) ∙ strtoul-hex n [] (omega arith) tt

with_tid-hex :
    (id : ProcessThreadId) (n : ℕ)
    → n < 2 ^ 32
    → with_tid id (strtoul (hex n)) ≡ (record id { tid = n }, true)
unfolding with_tid
with_tid-hex id n h = rw (strtoul-all n h, narrow n h) refl

with_pid-hex :
    (n : ℕ) (s : Bytes) (next : ProcessThreadId → Bytes → ProcessThreadId × Bool)
    → n < 2 ^ 32
    → Ends s
    → with_pid (strtoul (hex n ++ s)) next ≡ next (record { pid = n; tid = all_id }) s
unfolding with_pid
with_pid-hex n s next h e = rw (strtoul-hex n s (omega arith) e, narrow n h) refl

digit_no_p : (c : ℕ) → IsDigit c → (c == b'p') ≡ false
unfolding hex_to_nibble
digit_no_p c h = ground arith

-- A text that begins with a digit.
parse_gdb-digits :
    (text : Bytes)
    → IsFull text
    → All IsDigit text
    → parse_gdb text ≡ with_pid (strtoul text) (λ id rest. (id, true))
unfolding parse_gdb
parse_gdb-digits [] full h = absurd full
parse_gdb-digits (c ∷ s) full (h, hs) = rw (digit_no_p c h) refl

parse_lldb :
    (text : Bytes) → IsFull text → parse_id lldb text ≡ with_pid (strtoul text) after_semicolon
unfolding parse_id
parse_lldb [] full = absurd full
parse_lldb (c ∷ s) full = refl

hex-IsFull_alone : (n : ℕ) → IsFull (hex n)
hex-IsFull_alone n = rw (sym (append-nil (hex n))) (hex-IsFull n [])

short : (n : ℕ) → n < 2 ^ 32 → parse_gdb (hex n) ≡ (record { pid = n; tid = all_id }, true)
short n h =
    parse_gdb-digits (hex n) (hex-IsFull_alone n) (hex-IsDigit n)
    ∙ ap (λ x. with_pid (strtoul x) (λ id rest. (id, true))) (sym (append-nil (hex n)))
    ∙ with_pid-hex n [] (λ id rest. (id, true)) h tt

-- GDB's long form.
long :
    (id : ProcessThreadId)
    → id.pid < 2 ^ 32
    → id.tid < 2 ^ 32
    → parse_gdb (codes "p" ++ (hex id.pid ++ (codes "." ++ hex id.tid))) ≡ (id, true)
unfolding parse_gdb after_dot hex_to_nibble
long id p t =
    with_pid-hex id.pid (codes "." ++ hex id.tid) after_dot p (refl, refl)
    ∙ with_tid-hex (record { pid = id.pid; tid = all_id }) id.tid t

-- LLDB's long form.
with_thread :
    (id : ProcessThreadId)
    → id.pid < 2 ^ 32
    → id.tid < 2 ^ 32
    → parse_id lldb (hex id.pid ++ (codes ";" ++ (thread_key ++ hex id.tid))) ≡ (id, true)
unfolding after_semicolon after_key after_prefix hex_to_nibble
with_thread id p t =
    parse_lldb (hex id.pid ++ (codes ";" ++ (thread_key ++ hex id.tid)))
      (hex-IsFull id.pid (codes ";" ++ (thread_key ++ hex id.tid)))
    ∙ with_pid-hex id.pid (codes ";" ++ (thread_key ++ hex id.tid)) after_semicolon p (refl, refl)
    ∙ with_tid-hex (record { pid = id.pid; tid = all_id }) id.tid t

-- LLDB's short form.
alone : (n : ℕ) → n < 2 ^ 32 → parse_id lldb (hex n) ≡ (record { pid = any_id; tid = n }, true)
unfolding after_semicolon
alone n h =
    ap (parse_id lldb) (sym (append-nil (hex n)))
    ∙ parse_lldb (hex n ++ []) (hex-IsFull n [])
    ∙ with_pid-hex n [] after_semicolon h tt

-- The form of a thread list.
keyed :
    (n : ℕ)
    → n < 2 ^ 32
    → parse_id lldb_thread (thread_key ++ hex n) ≡ (record { pid = all_id; tid = n }, true)
unfolding parse_id after_prefix after_key
keyed n h = with_tid-hex all_ids n h

parse_gdb_only :
    (mode : CompatibilityMode) (text : Bytes)
    → IsFull text
    → (parse_id gdb text ≡ parse_gdb text) × (parse_id gdb_multiprocess text ≡ parse_gdb text)
unfolding parse_id
parse_gdb_only mode [] full = absurd full
parse_gdb_only mode (c ∷ s) full = (refl, refl)

-- Any process and thread identifiers of 32 bits that encode writes are read by parse in the same mode
-- (behind `thread:` in the mode for threads), which succeeds: GDB's mode keeps the process only, the
-- multiprocess and LLDB modes keep both if the thread is a definite one, and otherwise GDB reads a
-- process with all threads but LLDB reads a thread.
pub parse_id-encode_id :
    (mode : CompatibilityMode) (id : ProcessThreadId)
    → id.pid < 2 ^ 32
    → id.tid < 2 ^ 32
    → parse_id mode (prefix_of mode ++ encode_id mode id) ≡ (read_back mode id, true)
unfolding encode_id
parse_id-encode_id gdb id p t =
    (parse_gdb_only gdb (hex id.pid) (hex-IsFull_alone id.pid)).0 ∙ short id.pid p
parse_id-encode_id gdb_multiprocess id p t = elim (Bool-cases (valid_id id.tid)) [
  | inl v ↦ rw v (
      (parse_gdb_only gdb (codes "p" ++ (hex id.pid ++ (codes "." ++ hex id.tid))) tt).1
      ∙ long id p t)
  | inr v ↦ rw v ((parse_gdb_only gdb (hex id.pid) (hex-IsFull_alone id.pid)).1 ∙ short id.pid p)
]
parse_id-encode_id lldb id p t = elim (Bool-cases (valid_id id.tid)) [
  | inl v ↦ rw v (with_thread id p t)
  | inr v ↦ rw v (alone id.pid p)
]
parse_id-encode_id lldb_thread id p t = elim (Bool-cases (valid_id id.tid)) [
  | inl v ↦ rw v (keyed id.tid t)
  | inr v ↦ rw v (keyed id.pid p)
]
