-- ===== src/Breakpoint/Hits.antt =====
-- A thread has stopped: which breakpoint it hit. The functions `hit` of
-- Sources/Core/X86/HardwareBreakpointManager.cpp and Sources/Core/X86/SoftwareBreakpointManager.cpp, and
-- fillStopInfo of both managers. Reading and writing the registers of a thread is a parameter.
mod Examples
pub mod Reports
use ds.Base.{
  ℕ, zero, suc, ◌+◌, ◌-◌, ◌%◌, ◌^◌, ◌≡◌, ◌⊎◌, inl, inr, Bool, true, false, not, ◌||◌, Option, none,
  some, List, [], ◌∷◌, ◌==◌, if◌then◌else◌, ◌>>=◌, length, get_or,
}
use ds.Errors.{ErrorCode, success}
use ds.Breakpoint.Sites.{Address, at, Site, Sites, find}
use ds.Breakpoint.Manager.{Manager, hit}
use ds.Breakpoint.Control.{Bits, zeros}
use ds.Breakpoint.Hardware.{Cpu, DebugRegisters, Thread, Hardware}

-- Headers/DebugServer2/Types.h, without the reasons for Windows.
pub data Reason : Type 0 where
  no_reason write_watchpoint read_watchpoint access_watchpoint breakpoint : Reason
  trace signal_stop trap thread_spawn thread_entry thread_exit : Reason

-- The fields that fillStopInfo sets; the index is `none` for -1.
pub record StopInfo : Type 0 where
  pub reason : Reason
  pub watchpoint_address : Address
  pub watchpoint_index : Option ℕ

-- The lowest bit that is set, of `n` bits from `i` on.
unfoldable pub first_set : Bits → ℕ → ℕ → Option ℕ
first_set status i zero = none
first_set status i (suc n) =
    let later = first_set status (i + 1) n in if status i then some i else later

-- The site at the location of a status bit; `none` is a failed assertion, or the end of the map read.
unfoldable pub site_hit : Sites → List ℕ → Option ℕ → Option (Option (ℕ × Site))
site_hit sites locations none = some none
site_hit sites locations (some i) =
    let found = (do site ← find (get_or locations i 0) sites; some (some (i, site))) in
    if get_or locations i 0 == 0 then none else found

-- The reason of a hardware stop; `none` is DS2BUG.
unfoldable pub reason_of : ℕ → Option Reason
reason_of mode =
    if mode == 1
    then some breakpoint
    else if mode == 4
    then some write_watchpoint
    else if mode == 2
    then some read_watchpoint
    else if mode == 6
    then some access_watchpoint
    else none

unfoldable pub filled : StopInfo → Option (ℕ × Site) → Option (StopInfo × Bool)
unfolding reason_of
filled info none = some (info, false)
filled info (some (idx, site)) = do
  reason ← reason_of site.mode
  some (
    record { reason = reason; watchpoint_address = at site.address; watchpoint_index = some idx },
    true,
  )

module _ (cpu : Cpu) where
  -- The status register is cleared whatever it said; the result of the write is not looked at.
  unfoldable pub hit_registers :
      Manager (Hardware cpu) → Thread cpu → DebugRegisters → Option (Thread cpu × Option (ℕ × Site))
  unfolding first_set site_hit
  hit_registers m t regs = do
    found ← site_hit m.sites m.rest.locations (first_set regs.status 0 4)
    some
        (record t { registers = (cpu.write t.registers (record regs { status = zeros })).0 }, found)

  by_registers :
      Manager (Hardware cpu)
      → Thread cpu
      → ErrorCode ⊎ DebugRegisters
      → Option (Thread cpu × Option (ℕ × Site))
  unfolding hit_registers
  by_registers m t (inl error) = some (t, none)
  by_registers m t (inr regs) = hit_registers m t regs

  unfoldable pub hardware_hit :
      Manager (Hardware cpu) → Thread cpu → Option (Thread cpu × Option (ℕ × Site))
  unfolding by_registers
  hardware_hit m t =
      let found = by_registers m t (cpu.read t.registers) in
      if length m.sites == 0
      then some (t, none)
      else if not t.stopped
      then some (t, none)
      else found

  unfoldable pub hardware_fill_stop_info :
      Manager (Hardware cpu) → Thread cpu → StopInfo → Option (Thread cpu × StopInfo × Bool)
  unfolding hardware_hit filled
  hardware_fill_stop_info m t info = do
    (t', found) ← hardware_hit m t
    (info', result) ← filled info found
    some (t', info', result)

-- The program counter of a thread: readCPUState, whose result is not looked at, and writeCPUState.
pub record Counter : Type 1 where
  pub State : Type 0
  pub pc : State → ℕ
  pub write : State → ℕ → State × ErrorCode

module _ {R : Type 0} (counter : Counter) where
  -- The thread is moved back to the breakpoint; abort and the failed assertion are `none`.
  moved_back :
      Manager R → ℕ → counter.State × ErrorCode → Option (Manager R × counter.State × Option ℕ)
  moved_back m back (s, success) = if back == counter.pc s then some (m, s, some 0) else none
  moved_back m back (s, error) = none

  by_site :
      counter.State → ℕ → Manager R × Option Site → Option (Manager R × counter.State × Option ℕ)
  unfolding moved_back
  by_site s back (m, none) = some (m, s, none)
  by_site s back (m, some site) = moved_back m back (counter.write s back)

  unfoldable pub software_hit :
      Manager R → Bool → counter.State → Option (Manager R × counter.State × Option ℕ)
  unfolding by_site
  software_hit m stepped s =
      let back = (counter.pc s + (2 ^ 64 - 1)) % 2 ^ 64 in
      let result = by_site s back (hit m (at back)) in
      if stepped then some (m, s, some 0) else result

  reported :
      StopInfo → Manager R × counter.State × Option ℕ → Manager R × counter.State × StopInfo × Bool
  reported info (m, s, none) = (m, s, info, false)
  reported info (m, s, some idx) = (m, s, record info { reason = breakpoint }, true)

  unfoldable pub software_fill_stop_info :
      Manager R
      → Bool
      → counter.State
      → StopInfo
      → Option (Manager R × counter.State × StopInfo × Bool)
  unfolding software_hit reported
  software_fill_stop_info m stepped s info = do
    outcome ← software_hit m stepped s
    some (reported info outcome)
