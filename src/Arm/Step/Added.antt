-- ===== src/Arm/Step/Added.antt =====
-- SoftwareBreakpointManager::add of Sources/Core/ARM/SoftwareBreakpointManager.cpp, on a one-shot
-- breakpoint of a known size.
use ds.Base.{
  ℕ, ◌≡◌, refl, ap, ◌∙◌, ◌⊎◌, inl, inr, Bytes, Bool, true, false, ◌||◌, Option, none, some, ◌==◌,
  if◌then◌else◌, if_both, sym, Bool-cases, arith,
}
use ds.Errors.{ErrorCode, success, invalid_argument}
use ds.Arm.Step.{Cpu, unset_pc}
use ds.Arm.Step.Prepare.{place}
use ds.Arm.Step.Sized.{is_size}
use ds.Arm.Breakpoints.{
  without_thumb_bit, arm_get_opcode, arm_is_valid, arm_software, arm_size, arm_add,
}
use ds.Breakpoint.Sites.{at, lifetime_one_shot, join, is_permanent, Site, Sites, find, store}
use ds.Breakpoint.Sites.Laws.{find-store}
use ds.Breakpoint.Manager.{
  Manager, Returned, code, base_is_valid, value, again, new_site, fresh, add_at, chosen, add_valid,
  add,
}
use ds.Breakpoint.Software.{Memory, Software, patch}

-- Whether the manager has a breakpoint at an address that the next stop removes.
abbrev pub is_one_shot : Option Site → Bool
is_one_shot none = false
is_one_shot (some site) = site.lifetime.one_shot

unfoldable pub one_shot_at : Sites → ℕ → Bool
one_shot_at sites a = is_one_shot (find a sites)

chosen_one :
    (same : Bool) (o : Option Site) (s : Site)
    → s.lifetime.one_shot ≡ true
    → (same ≡ true) ⊎ (is_one_shot o ≡ true)
    → is_one_shot (if same then some s else o) ≡ true
chosen_one true o s h known = h
chosen_one false o s h known = ground arith

pub one_shot_at-store :
    (a j : ℕ) (s : Site) (sites : Sites)
    → s.lifetime.one_shot ≡ true
    → (a ≡ j) ⊎ (one_shot_at sites j ≡ true)
    → one_shot_at (store a s sites) j ≡ true
unfolding one_shot_at
one_shot_at-store a j s sites h known =
    ap is_one_shot (find-store a j s sites) ∙ chosen_one (a == j) (find j sites) s h (ground arith)

two_or_four : (size : ℕ) → is_size size ≡ true → (size ≡ 2) ⊎ (size ≡ 4)
two_or_four size h = ground arith

some-if :
    {A : Type 0} (test : Bool) (x y : A)
    → some (if test then x else y) ≡ (if test then some x else some y)
some-if true x y = refl
some-if false x y = refl

is_size_of :
    (pc size : ℕ)
    → (pc == unset_pc || is_size size) ≡ true
    → (pc == unset_pc) ≡ false
    → is_size size ≡ true
is_size_of pc size h e = ground arith

opcode_of_size :
    (size : ℕ) → is_size size ≡ true → (opcode : Bytes) × (arm_get_opcode size ≡ some opcode)
unfolding arm_get_opcode
opcode_of_size size h = elim (two_or_four size h) [
  | inl e ↦ rw e (_, refl)
  | inr e ↦ rw e (_, refl)
]

module _ (mem : Memory) (read_cpu_state : mem.State → ErrorCode ⊎ Cpu) where
  abbrev pub M : Type 0
  M = Manager (Software mem)

  -- What adding a one-shot breakpoint does to the manager.
  abbrev pub IsAdded : M → ℕ → M × Returned → Type 0
  IsAdded m a (m', result) =
      ((s : Site) × (m'.sites ≡ store a s m.sites) × (s.lifetime.one_shot ≡ true))
      ⊎ ((m' ≡ m) × (result ≡ code invalid_argument))

  again-IsAdded : (m : M) (a : ℕ) (site : Site) → IsAdded m a (again m a lifetime_one_shot 1 site)
  unfolding again join is_permanent
  again-IsAdded m a site = elim (Bool-cases (site.mode == 1)) [
    | inl h ↦ rw h (inl (_, refl, ground arith))
    | inr h ↦ rw h (inr (refl, refl))
  ]

  -- A new breakpoint, whose opcode is known.
  abbrev with_new : M → ℕ → ℕ → Bytes → M × Returned
  with_new m a size opcode =
      let sites = store a (new_site a lifetime_one_shot size 1) m.sites in
      let (r, result) = patch mem m.rest a opcode in
      if m.rest.on
      then (record { sites = sites; rest = r }, result)
      else (record m { sites = sites }, code success)

  fresh-new :
      (m : M) (a size : ℕ) (opcode : Bytes)
      → arm_get_opcode size ≡ some opcode
      → fresh (arm_software mem) m (new_site a lifetime_one_shot size 1)
        ≡ some (with_new m a size opcode)
  unfolding fresh new_site arm_software
  fresh-new m a size opcode e = rw e (sym (some-if m.rest.on _ _))

  with_new-IsAdded : (m : M) (a size : ℕ) (opcode : Bytes) → IsAdded m a (with_new m a size opcode)
  unfolding new_site
  with_new-IsAdded m a size opcode =
      if_both (IsAdded m a) m.rest.on (inl (_, refl, refl)) (inl (_, refl, refl))

  add_at-IsAdded :
      (m : M) (a size : ℕ) (known : Option Site)
      → is_size size ≡ true
      → find a m.sites ≡ known
      → (r : M × Returned) × (add_at (arm_software mem) m a lifetime_one_shot size 1 ≡ some r)
        × IsAdded m a r
  unfolding add_at
  add_at-IsAdded m a size none h e =
      let (opcode, o) = opcode_of_size size h in
      (
        with_new m a size opcode,
        rw (add_at, e) (fresh-new m a size opcode o),
        with_new-IsAdded m a size opcode,
      )
  add_at-IsAdded m a size (some site) h e =
      (again m a lifetime_one_shot 1 site, rw (add_at, e) refl, again-IsAdded m a site)

  add-at :
      (m : M) (a size : ℕ)
      → is_size size ≡ true
      → add (arm_software mem) m (at a) lifetime_one_shot size 1
        ≡ add_at (arm_software mem) m a lifetime_one_shot size 1
  unfolding add arm_software arm_is_valid add_valid chosen base_is_valid value
  add-at m a size h = elim (two_or_four size h) [ inl e ↦ rw e refl | inr e ↦ rw e refl ]

  -- A target and its size; an unset one adds nothing.
  abbrev pub IsPlaced : M → ℕ → M × Returned → Type 0
  IsPlaced m pc (m', result) =
      ((pc == unset_pc) ≡ true) × (m' ≡ m) × (result ≡ code success)
      ⊎ IsAdded m (without_thumb_bit pc) (m', result)

  place-add :
      (m : M) (pc size : ℕ)
      → (pc == unset_pc) ≡ false
      → is_size size ≡ true
      → place mem read_cpu_state m pc size
        ≡ add_at (arm_software mem) m (without_thumb_bit pc) lifetime_one_shot size 1
  unfolding place arm_add arm_size value
  place-add m pc size e sized = elim (two_or_four size sized) [
    | inl z ↦ rw (z, e) (add-at m (without_thumb_bit pc) 2 refl)
    | inr z ↦ rw (z, e) (add-at m (without_thumb_bit pc) 4 refl)
  ]

  pub place-IsPlaced :
      (m : M) (pc size : ℕ)
      → (pc == unset_pc || is_size size) ≡ true
      → (r : M × Returned) × (place mem read_cpu_state m pc size ≡ some r) × IsPlaced m pc r
  unfolding place
  place-IsPlaced m pc size h = elim (Bool-cases (pc == unset_pc)) [
    | inl e ↦ ((m, code success), rw e refl, inl (e, refl, refl))
    | inr e ↦
        (let sized = is_size_of pc size h e in
          let (r, added, what) = add_at-IsAdded m (without_thumb_bit pc) size _ sized refl in
          (r, place-add m pc size e sized ∙ added, inr what))
  ]
