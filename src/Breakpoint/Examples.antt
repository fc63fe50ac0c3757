-- ===== src/Breakpoint/Examples.antt =====
-- Breakpoints in a small memory.
use ds.Base.{
  ℕ, zero, suc, ◌+◌, ◌≡◌, refl, ◌⊎◌, inl, inr, false, Option, none, some, List, [], ◌∷◌, Bytes,
  ◌==◌, if◌then◌else◌, arith, ltb,
}
use ds.Errors.{ErrorCode, success, invalid_address}
use ds.Breakpoint.Sites.{lifetime_permanent, lifetime_one_shot, is_none, at, Site, find}
use ds.Breakpoint.Manager.{Manager, Methods, code, add, remove, base_is_valid}
use ds.Breakpoint.References.{IsSound, remove-add}
use ds.Breakpoint.Histories.Runs.{Call, adds, removes, hits, enables, disables}
use ds.Breakpoint.Software.{Memory, Software, software_enable, software_disable}
use ds.Breakpoint.Software.Restore.{IsMemory, masked}
use ds.Breakpoint.Software.Cycle.{is_site, software_disable-software_enable}

-- Methods that switch nothing and count their calls.
abbrev counting : Methods ℕ
counting = record {
  is_valid = λ x size mode. some (base_is_valid x);
  choose_size = some 1;
  enabled = λ n. false;
  enable_location = λ sites n s. some (n + 1, code success);
  disable_location = λ sites n s. some (n + 1, code success);
}

abbrev permanent_site : Site
permanent_site = record { refs = 1; address = 5; lifetime = lifetime_permanent; mode = 1; size = 1 }

abbrev started : Manager ℕ
started = record { sites = (5, permanent_site) ∷ []; rest = 0 }

started-IsSound : IsSound started
started-IsSound = record { keys = tt; counted = (refl, tt) }

five_valid : counting.is_valid (at 5) 1 1 ≡ some success
unfolding base_is_valid
five_valid = refl

fits : (s : Site) → find 5 started.sites ≡ some s → (s.mode ≡ 1) × (is_none s.lifetime ≡ false)
unfolding find is_none
fits s e = ground arith

remove-add_example :
    (m' : Manager ℕ) × (add counting started (at 5) lifetime_permanent 1 1
      ≡ some (m', code success))
    × (remove counting m' (at 5) ≡ some (started, code success))
remove-add_example = remove-add counting started 5 1 1 started-IsSound refl five_valid refl fits

-- A memory of mapped and unmapped addresses.
abbrev Cells : Type 0
Cells = ℕ → Option ℕ

read_cells : Cells → ℕ → ℕ → ErrorCode ⊎ Bytes
read_cells s a zero = inr []
read_cells s a (suc n) = elim (s a) [
  | none ↦ inl invalid_address
  | some b ↦ elim (read_cells s (a + 1) n) [ inl e ↦ inl e | inr bs ↦ inr (b ∷ bs) ]
]

write_cells : Cells → ℕ → Bytes → Cells × ErrorCode
write_cells s a [] = (s, success)
write_cells s a (v ∷ bs) = elim (s a) [
  | none ↦ (s, invalid_address)
  | some b ↦ write_cells (λ j. if a == j then some v else s j) (a + 1) bs
]

abbrev cells : Memory
cells = record { State = Cells; read = read_cells; write = write_cells }

cells-IsMemory : IsMemory cells
unfolding read_cells write_cells
cells-IsMemory = record {
  byte = λ s a. s a;
  read_mapped = λ s a b h. rw (h, read_cells) refl;
  read_unmapped = λ s a h. (invalid_address, rw (h, read_cells) refl);
  write_mapped =
      λ s a b v h. ((λ j. if a == j then some v else s j), rw (h, write_cells) refl, λ j. refl);
  write_nothing = λ s a. refl;
}

abbrev low : Cells
low j = if ltb j 8 then some j else none

abbrev stopped : Manager (Software cells)
stopped = record {
  sites = (5, permanent_site) ∷ [];
  rest = record { memory = low; insns = []; on = false };
}

stopped-IsSound : IsSound stopped
stopped-IsSound = record { keys = tt; counted = (refl, tt) }

software_disable-software_enable_example :
    (m' : Manager (Software cells)) × (m'' : Manager (Software cells)) × (software_enable cells
        stopped
      ≡ some m')
    × ((j : ℕ) → m'.rest.memory j ≡ masked (is_site j stopped.sites) (low j))
    × (software_disable cells m' ≡ some m'')
    × ((j : ℕ) → m''.rest.memory j ≡ low j)
unfolding cells-IsMemory
software_disable-software_enable_example =
    software_disable-software_enable cells cells-IsMemory stopped stopped-IsSound (refl, refl, tt)
      refl

abbrev calls : List Call
calls =
    adds (at 5) lifetime_permanent 1 1
    ∷ adds (at 9) lifetime_one_shot 0 1
    ∷ enables
    ∷ hits (at 9)
    ∷ disables
    ∷ removes (at 5)
    ∷ removes (at 7)
    ∷ []
