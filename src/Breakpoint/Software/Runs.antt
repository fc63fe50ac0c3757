-- ===== src/Breakpoint/Software/Runs.antt =====
-- Sources/Core/SoftwareBreakpointManager.cpp and, for x86, Sources/Core/X86/SoftwareBreakpointManager.cpp:
-- whole histories of calls.
use ds.Base.{
  ℕ, Bool, ◌≡◌, refl, ◌||◌, true, Option, some, List, [], ◌∷◌, ◌==◌, arith, ◌>>=◌, Bool-cases, inl,
  inr,
}
use ds.Errors.{ErrorCode, success, invalid_argument}
use ds.Breakpoint.Sites.{Address, Site}
use ds.Breakpoint.Manager.{Manager, Returned, base_is_valid, add, remove, chosen, hit}
use ds.Breakpoint.Histories.{IsTotal}
use ds.Breakpoint.Histories.Runs.{Call, adds, removes, hits, enables, disables, clears}
use ds.Breakpoint.Software.{
  Memory, Software, patch, get_opcode, software_is_valid, enable_location, disable_location,
  software, software_clear, software_enable, software_disable,
}

-- kModeExec, and the only size of a trap.
abbrev pub is_one : ℕ → Bool
is_one n = n == 1

validates :
    (x : Address) (size mode : ℕ)
    → is_one mode ≡ true
    → (e : ErrorCode) × (software_is_valid x size mode ≡ some e)
unfolding software_is_valid
validates x size mode h = elim (Bool-cases (size == 0 || size == 1)) [
  | inl e ↦ (base_is_valid x, rw (h, e) refl)
  | inr e ↦ (invalid_argument, rw (h, e) refl)
]

module _ (mem : Memory) where
  chooses :
      (x : Address) (size mode : ℕ)
      → software_is_valid x size mode ≡ some success
      → (n : ℕ) × (chosen (software mem) size ≡ some n) × (is_one n ≡ true)
  unfolding chosen software software_is_valid
  chooses x size mode h = (1, ground arith, refl)

  enables_site :
      (r : Software mem) (s : Site)
      → is_one s.size ≡ true
      → (o : Software mem × Returned) × (enable_location mem r s ≡ some o)
  unfolding enable_location get_opcode
  enables_site r s h = (patch mem r s.address (0xcc ∷ []), rw h refl)

  pub software-IsTotal : IsTotal is_one is_one (software mem)
  unfolding software
  software-IsTotal = record {
    validates = validates;
    chooses = chooses;
    enables = λ sites r s h. enables_site r s h;
    disables = λ sites r s h. (disable_location mem r s, refl);
  }

  -- The manager after a call.
  call : Manager (Software mem) → Call → Option (Manager (Software mem))
  call m (adds x l size mode) = do (m', result) ← add (software mem) m x l size mode; some m'
  call m (removes x) = do (m', result) ← remove (software mem) m x; some m'
  call m (hits x) = some (hit m x).0
  call m enables = software_enable mem m
  call m disables = software_disable mem m
  call m clears = some (software_clear mem m)

  pub run : Manager (Software mem) → List Call → Option (Manager (Software mem))
  run m [] = some m
  run m (c ∷ cs) = do m' ← call m c; run m' cs
