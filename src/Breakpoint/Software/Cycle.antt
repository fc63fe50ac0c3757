-- ===== src/Breakpoint/Software/Cycle.antt =====
-- Enabling a software breakpoint manager and disabling it again, as the process runs between stops.
use ds.Base.{
  ℕ, ◌≡◌, refl, ap, ◌∙◌, Bool, true, false, not, ◌&&◌, ◌||◌, some, [], ◌∷◌, ◌==◌, arith, ==_refl,
}
use ds.Breakpoint.Sites.{Sites, find}
use ds.Breakpoint.Manager.{Manager, each, enable, disable, expire}
use ds.Breakpoint.References.{IsSound}
use ds.Breakpoint.Histories.Runs.{expire-total}
use ds.Breakpoint.Software.{
  Memory, Software, enable_location, disable_location, software, software_enable, software_disable,
}
use ds.Breakpoint.Software.Sweep.{Placed, grown, shrunk, each-enable, each-disable}
use ds.Breakpoint.Software.Restore.{IsMemory, IsPatched, masked, with, without}

-- The addresses of the sites.
abbrev pub is_site : ℕ → Sites → Bool
is_site j [] = false
is_site j ((k, s) ∷ m) = k == j || is_site j m

abbrev pub Sized : Sites → Type 0
Sized [] = Unit {0}
Sized ((k, s) ∷ m) = (s.address ≡ k) × (s.size ≡ 1) × Sized m

module _ (mem : Memory) (laws : IsMemory mem) where
  open laws use {byte}

  grown_lem : (m : Sites) (D : ℕ → Bool) (j : ℕ) → grown m D j ≡ (is_site j m || D j)
  grown_lem [] D j = refl
  grown_lem ((k, s) ∷ m) D j = grown_lem m (with k D) j ∙ ground arith

  shrunk_lem : (m : Sites) (D : ℕ → Bool) (j : ℕ) → shrunk m D j ≡ (not (is_site j m) && D j)
  shrunk_lem [] D j = refl
  shrunk_lem ((k, s) ∷ m) D j = shrunk_lem m (without k D) j ∙ ground arith

  Placed-false : (m : Sites) → Sized m → Placed false (λ j. false) m
  Placed-false [] h = tt
  Placed-false ((k, s) ∷ m) (a, z, h) = (a, z, refl, Placed-false m h)

  Placed-true :
      (m : Sites) (D : ℕ → Bool)
      → Sized m
      → ((j : ℕ) → is_site j m ≡ true → D j ≡ true)
      → Placed true D m
  Placed-true [] D h c = tt
  Placed-true ((k, s) ∷ m) D (a, z, h) c =
      (a, z, c k (rw (==_refl k) refl), Placed-true m D h (λ j e. c j (ground arith)))

  grown-is_site : (m : Sites) (j : ℕ) → grown m (λ j. false) j ≡ is_site j m
  grown-is_site m j = grown_lem m (λ j. false) j ∙ ground arith

  shrunk-grown : (m : Sites) (j : ℕ) → shrunk m (grown m (λ j. false)) j ≡ false
  shrunk-grown m j = shrunk_lem m (grown m (λ j. false)) j ∙ rw (grown-is_site m j) (ground arith)

  clean : (r : Software mem) → r.insns ≡ [] → IsPatched mem laws r.memory (λ j. false) r
  clean r e = record {
    shows = λ j. refl;
    keeps = λ j. rw e (unfold find in refl);
    sorted = rw e tt;
  }

  enable_step :
      (m : Manager (Software mem)) (r : Software mem)
      → each (enable_location mem) m.sites m.rest ≡ some r
      → software_enable mem m ≡ some (record m { rest = record r { on = true } })
  unfolding software_enable software enable
  enable_step m r e = rw e refl

  disable_step :
      (m : Manager (Software mem)) (r : Software mem) (sites : Sites)
      → each (λ r s. some (disable_location mem r s)) m.sites m.rest ≡ some r
      → expire m.sites ≡ some sites
      → software_disable mem m ≡ some (record { sites = sites; rest = record r { on = false } })
  unfolding software_disable software disable
  disable_step m r sites e q = rw (e, q) refl

  -- For a sound manager with no opcode in the memory, over a memory that keeps the laws of IsMemory,
  -- and whose sites have size 1 and stand at their addresses: enabling it shows 0xcc at every mapped
  -- byte of a site, and every other byte as before; disabling it after that puts every byte back.
  pub software_disable-software_enable :
      (m : Manager (Software mem))
      → IsSound m
      → Sized m.sites
      → m.rest.insns ≡ []
      → (m' m'' : Manager (Software mem)) × (software_enable mem m ≡ some m')
        × ((j : ℕ) → byte m'.rest.memory j ≡ masked (is_site j m.sites) (byte m.rest.memory j))
        × (software_disable mem m' ≡ some m'')
        × ((j : ℕ) → byte m''.rest.memory j ≡ byte m.rest.memory j)
  software_disable-software_enable m h z e =
      let D : ℕ → Bool = grown m.sites (λ j. false) in
      let (r, up, p) =
        each-enable mem laws m.rest.memory (λ j. false) m.sites m.rest h.keys
          (Placed-false m.sites z) (clean m.rest e) in
      let on : Manager (Software mem) = record m { rest = record r { on = true } } in
      let (r', down, q) =
        each-disable mem laws m.rest.memory D m.sites on.rest h.keys
          (Placed-true m.sites D z (λ j c. grown-is_site m.sites j ∙ c))
          (record { shows = p.shows; keeps = p.keeps; sorted = p.sorted }) in
      let (sites, gone, _, _, _) = expire-total m.sites h.counted in
      (
        on,
        record { sites = sites; rest = record r' { on = false } },
        enable_step m r up,
        (λ j. p.shows j ∙ ap (λ b. masked b (byte m.rest.memory j)) (grown-is_site m.sites j)),
        disable_step on r' sites down gone,
        (λ j. q.shows j ∙ ap (λ b. masked b (byte m.rest.memory j)) (shrunk-grown m.sites j)),
      )
