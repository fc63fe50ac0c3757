-- ===== src/Breakpoint/Hits/Reports.antt =====
-- What a stop reports.
use ds.Base.{
  ℕ, ◌+◌, ◌-◌, ◌%◌, ◌^◌, ◌<◌, ◌≡◌, ◌≢◌, refl, inr, true, false, some, List, [], ◌∷◌, ◌==◌, arith,
  length, get_or, ==_refl, ==_ne,
}
use ds.Errors.{success}
use ds.Breakpoint.Sites.{at, Site, Sites, find, store}
use ds.Breakpoint.Manager.{Manager, hit}
use ds.Breakpoint.Control.{zeros}
use ds.Breakpoint.Hardware.{Cpu, DebugRegisters, Thread, Hardware}
use ds.Breakpoint.Hardware.Threads.{IsCpu}
use ds.Breakpoint.Hits.{
  Reason, breakpoint, StopInfo, first_set, site_hit, reason_of, filled, hit_registers, hardware_hit,
  hardware_fill_stop_info, Counter, software_hit, software_fill_stop_info,
}

-- The program counter is kept as it was written.
pub record IsCounter (counter : Counter) : Type 0 where
  pub keeps :
      (s : counter.State) (n : ℕ)
      → (t : counter.State) × (counter.write s n ≡ (t, success)) × (counter.pc t ≡ n)

back_lem : (a : ℕ) → a + 1 < 2 ^ 64 → (a + 1 + (2 ^ 64 - 1)) % 2 ^ 64 ≡ a
back_lem a h = omega arith

-- A site that was hit.
abbrev spent : Site → Site
spent site = record site { lifetime = record site.lifetime { until_hit = false } }

module _ {R : Type 0} (counter : Counter) where
  hit_found :
      (m : Manager R) (a : ℕ) (site : Site)
      → find a m.sites ≡ some site
      → hit m (at a) ≡ (record m { sites = store a (spent site) m.sites }, some (spent site))
  unfolding hit
  hit_found m a site f = rw (f, hit) refl

  software_step :
      (m : Manager R) (s t : counter.State) (a : ℕ) (site : Site)
      → find a m.sites ≡ some site
      → counter.pc s ≡ a + 1
      → a + 1 < 2 ^ 64
      → counter.write s a ≡ (t, success)
      → counter.pc t ≡ a
      → software_hit counter m false s
        ≡ some (record m { sites = store a (spent site) m.sites }, t, some 0)
  unfolding software_hit
  software_step m s t a site f p lt w k =
      rw (p, back_lem a lt, hit_found m a site f, w, k, ==_refl a) refl

  -- A thread that ran into the trap of a site, so that its program counter is one behind it, is moved
  -- back to the site and reported as stopped by a breakpoint; the site loses the flag that it lives
  -- until it is hit. (The thread was not stepping, and the counter can be written.)
  pub software_fill_stop_info-trap :
      (m : Manager R) (s : counter.State) (info : StopInfo) (a : ℕ) (site : Site)
      → IsCounter counter
      → find a m.sites ≡ some site
      → counter.pc s ≡ a + 1
      → a + 1 < 2 ^ 64
      → (t : counter.State) × (software_fill_stop_info counter m false s info
          ≡ some (
            record m {
              sites =
                  store a
                    (record site { lifetime = record site.lifetime { until_hit = false } })
                    m.sites;
            },
            t,
            record info { reason = breakpoint },
            true,
          ))
        × (counter.pc t ≡ a)
  unfolding software_fill_stop_info
  software_fill_stop_info-trap m s info a site laws f p lt =
      let (t, w, k) = laws.keeps s a in (t, rw (software_step m s t a site f p lt w k) refl, k)

nonempty :
    (a : ℕ) (sites : Sites) (site : Site) → find a sites ≡ some site → (length sites == 0) ≡ false
unfolding find
nonempty a [] site f = cc
nonempty a (x ∷ sites) site f = ground arith

site_found :
    (sites : Sites) (locations : List ℕ) (i : ℕ) (site : Site)
    → get_or locations i 0 ≢ 0
    → find (get_or locations i 0) sites ≡ some site
    → site_hit sites locations (some i) ≡ some (some (i, site))
unfolding site_hit
site_found sites locations i site n f = rw (==_ne (get_or locations i 0) 0 n, f) refl

module _ (cpu : Cpu) where
  first_call :
      (m : Manager (Hardware cpu)) (t : Thread cpu) (regs : DebugRegisters) (info : StopInfo)
      (i : ℕ) (site : Site) (why : Reason) (u : cpu.State)
      → (length m.sites == 0) ≡ false
      → t.stopped ≡ true
      → cpu.read t.registers ≡ inr regs
      → first_set regs.status 0 4 ≡ some i
      → get_or m.rest.locations i 0 ≢ 0
      → find (get_or m.rest.locations i 0) m.sites ≡ some site
      → reason_of site.mode ≡ some why
      → cpu.write t.registers (record regs { status = zeros }) ≡ (u, success)
      → hardware_fill_stop_info cpu m t info
        ≡ some (
          record t { registers = u },
          record { reason = why; watchpoint_address = at site.address; watchpoint_index = some i },
          true,
        )
  unfolding hardware_fill_stop_info hardware_hit hit_registers filled
  first_call m t regs info i site why u full st r fs n f q w =
      rw (full, st, r, fs, site_found m.sites m.rest.locations i site n f, w, q) refl

  second_call :
      (m : Manager (Hardware cpu)) (t : Thread cpu) (regs : DebugRegisters) (info : StopInfo)
      (v : cpu.State)
      → (length m.sites == 0) ≡ false
      → t.stopped ≡ true
      → cpu.read t.registers ≡ inr (record regs { status = zeros })
      → cpu.write t.registers (record regs { status = zeros }) ≡ (v, success)
      → hardware_fill_stop_info cpu m t info ≡ some (record t { registers = v }, info, false)
  unfolding hardware_fill_stop_info hardware_hit hit_registers filled site_hit first_set
  second_call m t regs info v full st r w = rw (full, st, r) (rw w refl)

  -- In a stopped thread whose debug registers can be read and written, and whose lowest status bit is
  -- that of a slot with a location and a site of a known mode, a stop is reported with the index of the
  -- slot, the address of the site and the reason of its mode; the status is cleared, so that the next
  -- call reports nothing.
  pub hardware_fill_stop_info-hit :
      (m : Manager (Hardware cpu)) (t : Thread cpu) (regs : DebugRegisters) (info : StopInfo)
      (i : ℕ) (site : Site) (why : Reason)
      → IsCpu cpu
      → t.stopped ≡ true
      → cpu.read t.registers ≡ inr regs
      → first_set regs.status 0 4 ≡ some i
      → get_or m.rest.locations i 0 ≢ 0
      → find (get_or m.rest.locations i 0) m.sites ≡ some site
      → reason_of site.mode ≡ some why
      → (t' t'' : Thread cpu) × (info' : StopInfo) × (hardware_fill_stop_info cpu m t info
          ≡ some (t', info', true))
        × (info' ≡ record {
          reason = why;
          watchpoint_address = at site.address;
          watchpoint_index = some i;
        })
        × (hardware_fill_stop_info cpu m t' info' ≡ some (t'', info', false))
  hardware_fill_stop_info-hit m t regs info i site why laws st r fs n f q =
      let (u, w, b) = laws.reads_back t.registers (record regs { status = zeros }) in
      let (v, w', b') = laws.reads_back u (record regs { status = zeros }) in
      let full = nonempty _ m.sites site f in
      (
        record t { registers = u },
        record t { registers = v },
        record { reason = why; watchpoint_address = at site.address; watchpoint_index = some i },
        first_call m t regs info i site why u full st r fs n f q w,
        refl,
        second_call m (record t { registers = u }) regs _ v full st b w',
      )
