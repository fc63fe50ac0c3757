-- ===== src/Breakpoint/Hardware/Full.antt =====
-- A manager whose sites are as many as the processor's watchpoints.
use ds.Base.{◌≡◌, refl, true, none, some, [], ◌∷◌, length}
use ds.Errors.{invalid_argument}
use ds.Breakpoint.Sites.{Site, Sites, AllSites}
use ds.Breakpoint.Manager.{Manager, code, each, enable}
use ds.Breakpoint.Hardware.{
  Cpu, Hardware, location_of, available_location, enable_available, hardware_enable_location,
  hardware, switched, hardware_enable,
}

module _ (cpu : Cpu) where
  refused :
      (sites : Sites) (h : Hardware cpu) (site : Site)
      → length sites ≡ 4
      → location_of site.address h.locations ≡ none
      → hardware_enable_location cpu sites h site ≡ some (h, code invalid_argument)
  unfolding hardware_enable_location available_location enable_available
  refused sites h site n q = rw (q, hardware_enable_location) (rw n refl)

  each_refused :
      (sites rest : Sites) (h : Hardware cpu)
      → length sites ≡ 4
      → AllSites (λ s. location_of s.address h.locations ≡ none) rest
      → each (hardware_enable_location cpu sites) rest h ≡ some h
  unfolding each
  each_refused sites [] h n q = refl
  each_refused sites ((k, s) ∷ rest) h n (q, qs) =
      rw (refused sites h s n q) (each_refused sites rest h n qs)

  -- Enabling a manager with four sites, none of which has a location yet, writes no debug register of
  -- any thread and gives no site a location, and marks every thread as enabled all the same.
  pub hardware_enable_full :
      (m : Manager (Hardware cpu))
      → length m.sites ≡ 4
      → AllSites (λ s. location_of s.address m.rest.locations ≡ none) m.sites
      → hardware_enable cpu m ≡ some (switched cpu true m)
  unfolding hardware_enable hardware enable
  hardware_enable_full m n q = rw (each_refused m.sites m.sites m.rest n q) refl
