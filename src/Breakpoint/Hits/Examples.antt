-- ===== src/Breakpoint/Hits/Examples.antt =====
-- Stops of a thread whose registers are kept in memory.
use ds.Base.{ℕ, ◌≡◌, refl, inr, true, none, some, [], ◌∷◌, ◌==◌}
use ds.Errors.{success}
use ds.Breakpoint.Sites.{lifetime_until_hit, lifetime_none, unset, Site, find}
use ds.Breakpoint.Manager.{Manager}
use ds.Breakpoint.Control.{zeros}
use ds.Breakpoint.Hardware.{Cpu, DebugRegisters, Thread, Hardware}
use ds.Breakpoint.Hardware.Threads.{IsCpu}
use ds.Breakpoint.Hits.{no_reason, write_watchpoint, StopInfo, first_set, reason_of, Counter}
use ds.Breakpoint.Hits.Reports.{IsCounter}

abbrev running : StopInfo
running = record { reason = no_reason; watchpoint_address = unset; watchpoint_index = none }

abbrev register : Counter
register = record { State = ℕ; pc = λ s. s; write = λ s n. (n, success) }

register-IsCounter : IsCounter register
register-IsCounter = record { keeps = λ s n. (n, refl, refl) }

abbrev trap_site : Site
trap_site = record { refs = 0; address = 64; lifetime = lifetime_until_hit; mode = 1; size = 1 }

abbrev traps : Manager ℕ
traps = record { sites = (64, trap_site) ∷ []; rest = 0 }

trap_found : find 64 traps.sites ≡ some trap_site
unfolding find
trap_found = refl

abbrev bank : Cpu
bank = record { State = DebugRegisters; read = λ s. inr s; write = λ s regs. (regs, success) }

bank-IsCpu : IsCpu bank
bank-IsCpu = record { reads_back = λ s regs. (regs, refl, refl) }

abbrev third_hit : DebugRegisters
third_hit = record { addresses = 0 ∷ 0 ∷ 4096 ∷ 0 ∷ []; status = λ i. i == 2; control = zeros }

abbrev watch : Site
watch = record { refs = 1; address = 4096; lifetime = lifetime_none; mode = 4; size = 4 }

abbrev stopped : Thread bank
stopped = record { stopped = true; on = true; registers = third_hit }

abbrev watching : Manager (Hardware bank)
watching = record {
  sites = (4096, watch) ∷ [];
  rest = record { locations = 0 ∷ 0 ∷ 4096 ∷ 0 ∷ []; threads = stopped ∷ [] };
}

third_lowest : first_set third_hit.status 0 4 ≡ some 2
unfolding first_set
third_lowest = refl

watch_found : find 4096 watching.sites ≡ some watch
unfolding find
watch_found = refl

watch_reason : reason_of 4 ≡ some write_watchpoint
unfolding reason_of
watch_reason = refl
