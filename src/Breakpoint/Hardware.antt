-- ===== src/Breakpoint/Hardware.antt =====
-- Sources/Core/HardwareBreakpointManager.cpp and, for x86,
-- Sources/Core/X86/HardwareBreakpointManager.cpp. How the operating system reads and writes the debug
-- registers of a thread is a parameter.
mod Examples
pub mod Full
pub mod Locations
pub mod Threads
use ds.Base.{
  ℕ, suc, ◌+◌, ◌≡◌, ◌⊎◌, inl, inr, Bool, true, false, not, ◌&&◌, ◌||◌, Option, none, some, List, [],
  ◌∷◌, ◌==◌, leb, if◌then◌else◌, ◌>>=◌, length, get_or, set, map,
}
use ds.Errors.{ErrorCode, success, invalid_argument, unsupported}
use ds.Breakpoint.Sites.{Lifetime, Address, Site, Sites, find}
use ds.Breakpoint.Manager.{
  Manager, Methods, Returned, code, indeterminate, base_is_valid, value, add, remove, enable,
  disable,
}
use ds.Breakpoint.Control.{Bits, zeros, enable_debug_ctrl_reg, disable_debug_ctrl_reg}

-- dr0 to dr3, dr6 and dr7; dr4 and dr5 are always 0.
pub record DebugRegisters : Type 0 where
  pub addresses : List ℕ
  pub status : Bits
  pub control : Bits

-- What readDebugRegisters and writeDebugRegisters do over the operating system's calls.
pub record Cpu : Type 1 where
  pub State : Type 0
  pub read : State → ErrorCode ⊎ DebugRegisters
  pub write : State → DebugRegisters → State × ErrorCode

abbrev pub max_watchpoints : ℕ
max_watchpoints = 4

-- std::find over `_locations`.
unfoldable pub location_of : ℕ → List ℕ → Option ℕ
location_of a [] = none
location_of a (l ∷ ls) = if l == a then some 0 else (do i ← location_of a ls; some (suc i))

-- HardwareBreakpointManager::isValid for x86.
unfoldable pub hardware_is_valid : Address → ℕ → ℕ → ErrorCode
hardware_is_valid address size mode =
    if not (size == 1 || (size == 2 || (size == 4 || size == 8)))
    then invalid_argument
    else if not (size == 1) && mode == 1
    then invalid_argument
    else if mode == 3 || (mode == 5 || mode == 7)
    then invalid_argument
    else if mode == 2
    then unsupported
    else base_is_valid address

module _ (cpu : Cpu) where
  open cpu use {State, read, write}

  -- The part of enableLocation that works on one thread.
  unfoldable pub enable_thread : State → ℕ → ℕ → ℕ → ℕ → State × ErrorCode
  enable_thread s idx address mode size = elim (read s) [
    | inl error ↦ (s, error)
    | inr regs ↦ elim (enable_debug_ctrl_reg regs.control idx mode size) [
      | inl error ↦ (s, error)
      | inr ctrl_reg ↦ write s (record {
        addresses = set regs.addresses idx address;
        status = zeros;
        control = ctrl_reg;
      })
    ]
  ]

  unfoldable pub disable_thread : State → ℕ → State × ErrorCode
  disable_thread s idx = elim (read s) [
    | inl error ↦ (s, error)
    | inr regs ↦ write s (record regs {
      addresses = set regs.addresses idx 0;
      control = disable_debug_ctrl_reg regs.control idx;
    })
  ]

  -- A thread; `on` tells whether `_enabled` has its identifier.
  pub record Thread : Type 0 where
    pub stopped : Bool
    pub on : Bool
    pub registers : State

  pub record Hardware : Type 0 where
    pub locations : List ℕ
    pub threads : List Thread

  stored : Thread → State × ErrorCode → Thread × Returned
  stored t (s, error) = (record t { registers = s }, code error)

  -- The loop over the threads: `error` is what the last call returned, and nothing sets it if no
  -- thread qualifies.
  unfoldable pub each_thread :
      (Thread → Bool)
      → (State → State × ErrorCode)
      → Returned
      → List Thread
      → List Thread × Returned
  unfolding stored
  each_thread qualifies act error [] = ([], error)
  each_thread qualifies act error (t ∷ ts) =
      let (t', result) = stored t (act t.registers) in
      let (acted, last) = each_thread qualifies act result ts in
      let (skipped, same) = each_thread qualifies act error ts in
      if t.stopped && qualifies t then (t' ∷ acted, last) else (t ∷ skipped, same)

  -- `none` is a failed assertion: no free location although a site may be added.
  unfoldable pub available_location : Sites → List ℕ → Option (Option ℕ)
  available_location sites locations =
      if length sites == max_watchpoints
      then some none
      else (do i ← location_of 0 locations; some (some i))

  -- The address is entered where the result is kSuccess. To compare a result that nothing set is
  -- undefined; the model leaves the locations then.
  entered : Hardware → ℕ → ℕ → List Thread × Returned → Hardware × Returned
  entered h idx address (threads, code success) =
      (record { locations = set h.locations idx address; threads = threads }, code success)
  entered h idx address (threads, result) = (record h { threads = threads }, result)

  unfoldable pub enable_at : Hardware → Site → ℕ → Hardware × Returned
  unfolding entered
  enable_at h site idx = entered h idx site.address (
      each_thread (λ t. not t.on) (λ s. enable_thread s idx site.address site.mode site.size)
        indeterminate h.threads)

  enable_available : Hardware → Site → Option ℕ → Hardware × Returned
  enable_available h site none = (h, code invalid_argument)
  enable_available h site (some idx) = enable_at h site idx

  unfoldable pub hardware_enable_location : Sites → Hardware → Site → Option (Hardware × Returned)
  unfolding enable_available
  hardware_enable_location sites h site = elim (location_of site.address h.locations) [
    | some idx ↦ some (enable_at h site idx)
    | none ↦ do
      available ← available_location sites h.locations
      some (enable_available h site available)
  ]

  unfoldable pub hardware_disable_location : Hardware → Site → Hardware × Returned
  hardware_disable_location h site = elim (location_of site.address h.locations) [
    | none ↦ (h, code invalid_argument)
    | some idx ↦
        let (threads, result) =
          each_thread (λ t. t.on) (λ s. disable_thread s idx) indeterminate h.threads in
        (record h { threads = threads }, result)
  ]

  unfoldable pub all_on : List Thread → Bool
  all_on [] = true
  all_on (t ∷ ts) = t.on && all_on ts

  -- chooseBreakpointSize is DS2BUG.
  unfoldable pub hardware : Methods Hardware
  hardware = record {
    is_valid = λ address size mode. some (hardware_is_valid address size mode);
    choose_size = none;
    enabled = λ h. all_on h.threads;
    enable_location = hardware_enable_location;
    disable_location = λ sites h s. some (hardware_disable_location h s);
  }

  unfoldable pub hardware_add :
      Manager Hardware → Address → Lifetime → ℕ → ℕ → Option (Manager Hardware × Returned)
  unfolding hardware
  hardware_add m address lifetime size mode =
      if leb max_watchpoints (length m.sites)
      then some (m, code invalid_argument)
      else add hardware m address lifetime size (if mode == 2 then 6 else mode)

  -- The location of the address is freed first, whatever becomes of the site.
  unfoldable pub freed : Hardware → ℕ → Hardware
  freed h a = elim (location_of a h.locations) [
    | none ↦ h
    | some idx ↦ record h { locations = set h.locations idx 0 }
  ]

  unfoldable pub hardware_remove : Manager Hardware → Address → Option (Manager Hardware × Returned)
  unfolding hardware freed
  hardware_remove m address =
      remove hardware (record m { rest = freed m.rest (value address) }) address

  pub switched : Bool → Manager Hardware → Manager Hardware
  switched on m = record m {
    rest = record m.rest {
      threads = map {A = Thread} {B = Thread} (λ t. record t { on = on }) m.rest.threads;
    };
  }

  unfoldable pub hardware_enable : Manager Hardware → Option (Manager Hardware)
  unfolding hardware switched
  hardware_enable m = do m' ← enable hardware m; some (switched true m')

  unfoldable pub hardware_disable : Manager Hardware → Option (Manager Hardware)
  unfolding hardware switched
  hardware_disable m = do m' ← disable hardware m; some (switched false m')
