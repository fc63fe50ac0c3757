-- ===== src/Structures/Stops/Total.antt =====
-- StopInfo of Sources/GDBRemote/Structures.cpp: when a stop reply is made.
use ds.Base.{
  ℕ, ◌≡◌, ◌≢◌, refl, inl, inr, Bool, true, false, ◌&&◌, ◌||◌, Option, none, some, List, [], ◌∷◌,
  Bytes, ◌==◌, leb, ltb, if_both, ◌>>=◌, Bool-cases, arith,
}
use ds.Session.{CompatibilityMode, gdb, gdb_multiprocess, lldb, lldb_thread}
use ds.Breakpoint.Sites.{Map, AllSites}
use ds.Breakpoint.Manager.{value}
use ds.Breakpoint.Hits.{Reason, write_watchpoint, read_watchpoint, access_watchpoint}
use ds.Structures.RegisterTexts.{GpRegisterValue, register_text, registers_into, encode_registers}
use ds.Structures.Stops.{
  StopEvent, no_event, stop, exit, kill, RemoteStopInfo, is_lldb, is_gdb, watch_key,
  watchpoint_info, watchpoint_item, encode_info, stop_mode, is_simple, encode_stop, encode_event,
  encode_stop_info,
}

-- A result is there.
abbrev pub IsMade {ℓ} : {A : Type ℓ} → Option A → Type 0
IsMade none = ⊥
IsMade (some a) = Unit {0}

bind-IsMade :
    {A B : Type 0} (o : Option A) (f : A → Option B)
    → IsMade o
    → ((a : A) → IsMade (f a))
    → IsMade (o >>= f)
bind-IsMade none f h k = absurd h
bind-IsMade (some a) f h k = k a

abbrev pub IsRegister : GpRegisterValue → Type 0
IsRegister r = (leb 1 r.size && leb r.size 8) ≡ true

in_range : (n : ℕ) → (leb 1 n && leb n 8) ≡ true → (n == 0 || ltb 8 n) ≡ false
in_range n h = ground arith

register_text-IsMade : (r : GpRegisterValue) → IsRegister r → IsMade (register_text r)
unfolding register_text
register_text-IsMade r h = rw (in_range r.size h) tt

registers_into-IsMade :
    (hex_index : Bool) (registers : Map GpRegisterValue) (regs : List (Bytes × Bytes))
    → AllSites IsRegister registers
    → IsMade (registers_into hex_index registers regs)
unfolding registers_into
registers_into-IsMade hex_index [] regs h = tt
registers_into-IsMade hex_index ((n, r) ∷ registers) regs (h, hs) =
    bind-IsMade (register_text r) _ (register_text-IsMade r h)
      λ text. registers_into-IsMade hex_index registers _ hs

encode_registers-IsMade :
    (registers : Map GpRegisterValue)
    → AllSites IsRegister registers
    → IsMade (encode_registers registers)
unfolding encode_registers
encode_registers-IsMade registers h =
    bind-IsMade (registers_into true registers []) _ (registers_into-IsMade true registers [] h)
      λ regs. tt

abbrev is_watchpoint : Reason → Bool
is_watchpoint write_watchpoint = true
is_watchpoint read_watchpoint = true
is_watchpoint access_watchpoint = true
is_watchpoint _ = false

-- A watchpoint's address goes with a watchpoint's reason, unless LLDB is told.
abbrev pub IsConsistent : RemoteStopInfo → CompatibilityMode → Type 0
IsConsistent r mode =
    (value r.base.watchpoint_address == 0 || (is_lldb mode || is_watchpoint r.base.reason)) ≡ true

watch_key-IsMade : (why : Reason) → is_watchpoint why ≡ true → IsMade (watch_key why)
unfolding watch_key
watch_key-IsMade write_watchpoint h = tt
watch_key-IsMade read_watchpoint h = tt
watch_key-IsMade access_watchpoint h = tt
watch_key-IsMade _ h = cc

watchpoint_info-IsMade :
    (r : RemoteStopInfo) (mode : CompatibilityMode) (encode_hex : Bool)
    → (is_lldb mode || is_watchpoint r.base.reason) ≡ true
    → IsMade (watchpoint_info r.base mode encode_hex)
unfolding watchpoint_info
watchpoint_info-IsMade r mode encode_hex h = elim (Bool-cases (is_lldb mode)) [
  | inl l ↦ rw l tt
  | inr l ↦ rw l (
      bind-IsMade (watch_key r.base.reason) _ (watch_key-IsMade r.base.reason (ground arith))
        λ key. tt)
]

watchpoint_item-IsMade :
    (r : RemoteStopInfo) (mode : CompatibilityMode)
    → IsConsistent r mode
    → IsMade (watchpoint_item r mode)
unfolding watchpoint_item
watchpoint_item-IsMade r mode h = elim (Bool-cases (value r.base.watchpoint_address == 0)) [
  | inl z ↦ rw z tt
  | inr z ↦ rw z (
      bind-IsMade (watchpoint_info r.base mode (is_lldb mode)) _
        (watchpoint_info-IsMade r mode (is_lldb mode) (ground arith)) λ found. tt)
]

encode_stop-IsMade :
    (r : RemoteStopInfo) (mode : CompatibilityMode) (list_threads : Bool)
    → AllSites IsRegister r.registers
    → IsConsistent r mode
    → IsMade (encode_stop r mode list_threads)
unfolding encode_stop encode_info
encode_stop-IsMade r mode list_threads h w = elim (Bool-cases (is_gdb mode)) [
  | inl g ↦ rw g tt
  | inr g ↦ rw g (
      bind-IsMade (encode_info r mode list_threads) _
        (bind-IsMade (watchpoint_item r mode) _ (watchpoint_item-IsMade r mode w) λ item. tt)
        λ info.
          bind-IsMade (encode_registers r.registers) _ (encode_registers-IsMade r.registers h)
            λ registers. tt)
]

stop_mode-IsConsistent :
    (r : RemoteStopInfo) (mode : CompatibilityMode)
    → IsConsistent r mode
    → IsConsistent r (stop_mode r mode)
unfolding stop_mode
stop_mode-IsConsistent r gdb w = w
stop_mode-IsConsistent r gdb_multiprocess w =
    if_both {yes = gdb} {no = gdb_multiprocess} (IsConsistent r) (is_simple r) w w
stop_mode-IsConsistent r lldb w = w
stop_mode-IsConsistent r lldb_thread w = w

encode_event-IsMade :
    (r : RemoteStopInfo) (event : StopEvent) (mode : CompatibilityMode) (list_threads : Bool)
    → event ≢ no_event
    → AllSites IsRegister r.registers
    → IsConsistent r mode
    → IsMade (encode_event r event mode list_threads)
unfolding encode_event
encode_event-IsMade r no_event mode list_threads some_event h w = absurd (some_event refl)
encode_event-IsMade r stop mode list_threads some_event h w =
    encode_stop-IsMade r (stop_mode r mode) list_threads h (stop_mode-IsConsistent r mode w)
encode_event-IsMade r exit mode list_threads some_event h w = tt
encode_event-IsMade r kill mode list_threads some_event h w = tt

-- A stop reply is made, with no failed assertion, DS2BUG or undefined shift, in every mode, if there
-- is an event, every register has 1 to 8 bytes, and a watchpoint's address goes with a watchpoint's
-- reason or the mode is LLDB's.
pub encode_stop_info-IsMade :
    (r : RemoteStopInfo) (mode : CompatibilityMode) (list_threads : Bool)
    → r.event ≢ no_event
    → AllSites IsRegister r.registers
    → IsConsistent r mode
    → IsMade (encode_stop_info r mode list_threads)
unfolding encode_stop_info
encode_stop_info-IsMade r mode list_threads some_event h w =
    encode_event-IsMade r r.event mode list_threads some_event h w
