-- ===== src/Breakpoint/Hardware/Examples.antt =====
-- Watchpoints in the debug registers of a thread that is kept in memory.
use ds.Base.{ℕ, ◌≡◌, ◌≢◌, ◌<◌, refl, ◌⊎◌, inl, inr, true, false, none, some, [], ◌∷◌, arith, set}
use ds.Errors.{ErrorCode, success}
use ds.Breakpoint.Sites.{lifetime_permanent, Site, AllSites}
use ds.Breakpoint.Manager.{Manager}
use ds.Breakpoint.Control.{zeros}
use ds.Breakpoint.Control.Slots.{slot, encoded, Expressible}
use ds.Breakpoint.Hardware.{
  Cpu, DebugRegisters, Thread, Hardware, enable_thread, disable_thread, all_on, location_of,
  available_location, hardware_enable, switched,
}
use ds.Breakpoint.Hardware.Threads.{IsCpu, disable_thread-enable_thread}
use ds.Breakpoint.Hardware.Full.{hardware_enable_full}

abbrev bank : Cpu
bank = record { State = DebugRegisters; read = λ s. inr s; write = λ s regs. (regs, success) }

bank-IsCpu : IsCpu bank
bank-IsCpu = record { reads_back = λ s regs. (regs, refl, refl) }

abbrev empty : DebugRegisters
empty = record { addresses = 0 ∷ 0 ∷ 0 ∷ 0 ∷ []; status = zeros; control = zeros }

abbrev word_written : Expressible 4 4
word_written = (inr (inr (inl refl)), inr (inr (inl refl)))

disable_thread-enable_thread_example :
    (t t' : DebugRegisters) × (enabled disabled : DebugRegisters) × (enable_thread bank empty 2 4096
        4 4
      ≡ (t, success))
    × (◌≡◌ {A = ErrorCode ⊎ DebugRegisters} (inr t) (inr enabled))
    × (slot enabled.control 2 ≡ encoded 4 4)
    × (enabled.addresses ≡ set empty.addresses 2 4096)
    × ((i : ℕ) → i < 4 → i ≢ 2 → slot enabled.control i ≡ slot zeros i)
    × (disable_thread bank t 2 ≡ (t', success))
    × (◌≡◌ {A = ErrorCode ⊎ DebugRegisters} (inr t') (inr disabled))
    × ((slot disabled.control 2).on ≡ false)
    × (disabled.addresses ≡ set empty.addresses 2 0)
    × ((i : ℕ) → i < 4 → i ≢ 2 → slot disabled.control i ≡ slot zeros i)
disable_thread-enable_thread_example =
    disable_thread-enable_thread bank empty empty 2 4096 4 4 bank-IsCpu refl (omega arith)
      word_written

abbrev watch : Site
watch = record { refs = 1; address = 4096; lifetime = lifetime_permanent; mode = 4; size = 4 }

abbrev thread : Thread bank
thread = record { stopped = true; on = true; registers = empty }

abbrev watching : Hardware bank
watching = record { locations = 0 ∷ 4096 ∷ 0 ∷ 0 ∷ []; threads = thread ∷ [] }

abbrev idle : Hardware bank
idle = record { locations = 0 ∷ 0 ∷ 0 ∷ 0 ∷ []; threads = thread ∷ [] }

thread_on : all_on bank idle.threads ≡ true
unfolding all_on
thread_on = refl

first_available : available_location bank ((4096, watch) ∷ []) idle.locations ≡ some (some 0)
unfolding available_location location_of
first_available = refl

abbrev site_at : ℕ → Site
site_at a = record { refs = 1; address = a; lifetime = lifetime_permanent; mode = 4; size = 4 }

abbrev full : Manager (Hardware bank)
full = record {
  sites = (8, site_at 8) ∷ (16, site_at 16) ∷ (24, site_at 24) ∷ (32, site_at 32) ∷ [];
  rest = idle;
}

unplaced : AllSites (λ s. location_of s.address full.rest.locations ≡ none) full.sites
unfolding location_of
unplaced = (refl, (refl, (refl, (refl, tt))))

hardware_enable_full_example : hardware_enable bank full ≡ some (switched bank true full)
hardware_enable_full_example = hardware_enable_full bank full refl unplaced
