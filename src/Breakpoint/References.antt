-- ===== src/Breakpoint/References.antt =====
-- Reference counts of the breakpoint manager.
use ds.Base.{
  ℕ, ◌+◌, ◌-◌, ◌<◌, ◌≡◌, refl, ap, ◌∙◌, inl, inr, true, false, not, none, some, ◌==◌, arith,
  ==_refl, Bool-cases, Option-cases,
}
use ds.Errors.{success}
use ds.Breakpoint.Sites.{
  Lifetime, lifetime_permanent, join, is_none, is_permanent, at, Site, Sites, find, store, erase,
  IsMap, AllSites,
}
use ds.Breakpoint.Sites.Laws.{find-store, erase-store, store-store, store-find, AllSites-find}
use ds.Breakpoint.Manager.{
  Manager, Methods, code, add, remove, again, new_site, fresh, add_at, add_valid, chosen, value,
  do_remove, remove_site,
}

-- A site is permanent exactly when it is referenced.
abbrev pub IsCounted : Site → Type 0
IsCounted s = s.lifetime.permanent ≡ not (s.refs == 0)

-- Permanent comes alone, as all callers pass it.
abbrev pub IsPlain : Lifetime → Type 0
IsPlain l = l.permanent ≡ is_permanent l

pub record IsSound {R : Type 0} (m : Manager R) : Type 0 where
  pub keys : IsMap m.sites
  pub counted : AllSites IsCounted m.sites

-- The site after another permanent breakpoint at its address, and after one was removed.
abbrev bumped : Site → Site
bumped s = record s { lifetime = join s.lifetime lifetime_permanent; refs = s.refs + 1 }

bumped-back :
    (s : Site) → s.lifetime.permanent ≡ true → record (bumped s) { refs = s.refs + 1 - 1 } ≡ s
unfolding join
bumped-back s p = ground arith

-- A temporary site loses the flag that it was given.
bumped-temporary :
    (s : Site)
    → s.lifetime.permanent ≡ false
    → record (bumped s) {
      refs = s.refs + 1 - 1;
      lifetime = record (bumped s).lifetime { permanent = false };
    }
      ≡ s
unfolding join
bumped-temporary s p = ground arith

temporary_left :
    (s : Site)
    → s.lifetime.permanent ≡ false
    → is_none s.lifetime ≡ false
    → is_permanent (bumped s).lifetime ≡ false
unfolding join is_none is_permanent
temporary_left s p n = ground arith

module _ {R : Type 0} (methods : Methods R) where
  open methods use {is_valid, choose_size, enabled, enable_location, disable_location}

  add_step :
      (m : Manager R) (a size mode : ℕ) (l : Lifetime)
      → is_valid (at a) size mode ≡ some success
      → (size == 0) ≡ false
      → add methods m (at a) l size mode ≡ add_at methods m a l size mode
  unfolding add add_valid chosen value
  add_step m a size mode l valid sized = rw valid (rw sized refl)

  add_known :
      (m : Manager R) (a size mode : ℕ) (s : Site)
      → find a m.sites ≡ some s
      → s.mode ≡ mode
      → add_at methods m a lifetime_permanent size mode
        ≡ some (record m { sites = store a (bumped s) m.sites }, code success)
  unfolding add_at again is_permanent
  add_known m a size mode s e f = rw (e, add_at) (ground arith)

  add_fresh :
      (m : Manager R) (a size mode : ℕ)
      → find a m.sites ≡ none
      → enabled m.rest ≡ false
      → add_at methods m a lifetime_permanent size mode
        ≡ some (
          record m { sites = store a (new_site a lifetime_permanent size mode) m.sites },
          code success,
        )
  unfolding add_at fresh new_site
  add_fresh m a size mode e off = rw (e, add_at) (rw off refl)

  remove_stored :
      (m : Manager R) (a : ℕ) (v : Site)
      → remove methods (record m { sites = store a v m.sites }) (at a)
        ≡ remove_site methods (record m { sites = store a v m.sites }) a v
  unfolding remove
  remove_stored m a v = rw (find-store a a v m.sites, ==_refl a, remove) refl

  -- One of several references goes.
  pub remove_one :
      (m : Manager R) (a : ℕ) (v : Site)
      → v.lifetime.permanent ≡ true
      → 1 < v.refs
      → remove_site methods m a v
        ≡ some (record m { sites = store a (record v { refs = v.refs - 1 }) m.sites }, code success)
  unfolding remove_site
  remove_one m a v p h = ground arith

  -- The last reference of a site that has another lifetime too.
  pub remove_flag :
      (m : Manager R) (a : ℕ) (v : Site)
      → v.lifetime.permanent ≡ true
      → v.refs ≡ 1
      → is_permanent v.lifetime ≡ false
      → remove_site methods m a v
        ≡ some (
          record m {
            sites =
                store a
                  (record v {
                    refs = v.refs - 1;
                    lifetime = record v.lifetime { permanent = false };
                  })
                  m.sites;
          },
          code success,
        )
  unfolding remove_site
  remove_flag m a v p r l = ground arith

  -- The last reference of a site that is permanent only, in a disabled manager.
  remove_last :
      (m : Manager R) (a : ℕ) (v : Site)
      → is_permanent v.lifetime ≡ true
      → v.refs ≡ 1
      → enabled m.rest ≡ false
      → remove_site methods m a v
        ≡ some (
          record m { sites = erase a (store a (record v { refs = v.refs - 1 }) m.sites) },
          code success,
        )
  unfolding remove_site do_remove is_permanent
  remove_last m a v l r off = ground arith

  -- A temporary site goes at once, whatever its references.
  pub remove_temporary :
      (m : Manager R) (a : ℕ) (v : Site)
      → v.lifetime.permanent ≡ false
      → remove_site methods m a v ≡ do_remove methods m a v
  unfolding remove_site
  remove_temporary m a v p = ground arith

  -- The last reference of a site that is permanent only.
  pub remove_only :
      (m : Manager R) (a : ℕ) (v : Site)
      → is_permanent v.lifetime ≡ true
      → v.refs ≡ 1
      → remove_site methods m a v
        ≡ do_remove methods
            (record m { sites = store a (record v { refs = v.refs - 1 }) m.sites })
            a
            (record v { refs = v.refs - 1 })
  unfolding remove_site is_permanent
  remove_only m a v p r = ground arith

  back :
      (m : Manager R) (a : ℕ) (s v w : Site)
      → IsMap m.sites
      → find a m.sites ≡ some s
      → w ≡ s
      → store a w (store a v m.sites) ≡ m.sites
  back m a s v w u e q = store-store a v w m.sites ∙ rw q (store-find a s m.sites u e)

  remove_known :
      (m : Manager R) (a : ℕ) (s : Site)
      → IsMap m.sites
      → find a m.sites ≡ some s
      → IsCounted s
      → is_none s.lifetime ≡ false
      → remove methods (record m { sites = store a (bumped s) m.sites }) (at a)
        ≡ some (m, code success)
  remove_known m a s u e c n = remove_stored m a (bumped s) ∙ (elim (Bool-cases (s.refs == 0)) [
    | inl zero_refs ↦
        remove_flag (record m { sites = store a (bumped s) m.sites }) a (bumped s)
          (unfold join in ground arith) (ground arith) (temporary_left s (rw zero_refs at c) n)
        ∙ ap (λ (t : Sites). some (record m { sites = t }, code success))
            (back m a s (bumped s) _ u e (bumped-temporary s (rw zero_refs at c)))
    | inr referenced ↦
        remove_one (record m { sites = store a (bumped s) m.sites }) a (bumped s)
          (unfold join in ground arith) (ground arith)
        ∙ ap (λ (t : Sites). some (record m { sites = t }, code success))
            (back m a s (bumped s) _ u e (bumped-back s (rw referenced at c)))
  ])

  remove_fresh :
      (m : Manager R) (a size mode : ℕ)
      → find a m.sites ≡ none
      → enabled m.rest ≡ false
      → remove methods
          (record m { sites = store a (new_site a lifetime_permanent size mode) m.sites })
          (at a)
        ≡ some (m, code success)
  remove_fresh m a size mode e off =
      let v = new_site a lifetime_permanent size mode in
      remove_stored m a v
      ∙ remove_last (record m { sites = store a v m.sites }) a v
          (unfold new_site is_permanent in refl) (unfold new_site is_permanent in refl) off
      ∙ ap (λ (t : Sites). some (record m { sites = t }, code success))
          (ap (erase a) (store-store a v _ m.sites) ∙ erase-store a _ m.sites e)

  -- Adding a permanent breakpoint and removing it again leaves a disabled, sound manager as it was, and
  -- both calls succeed: for a valid request with a size, at an address with no site, or with one of the
  -- same mode whose lifetime is not None.
  pub remove-add :
      (m : Manager R) (a size mode : ℕ)
      → IsSound m
      → enabled m.rest ≡ false
      → is_valid (at a) size mode ≡ some success
      → (size == 0) ≡ false
      → ((s : Site) → find a m.sites ≡ some s → (s.mode ≡ mode) × (is_none s.lifetime ≡ false))
      → (m' : Manager R) × (add methods m (at a) lifetime_permanent size mode
          ≡ some (m', code success))
        × (remove methods m' (at a) ≡ some (m, code success))
  remove-add m a size mode h off valid sized fits = elim (Option-cases (find a m.sites)) [
    | inl e ↦ (
      record m { sites = store a (new_site a lifetime_permanent size mode) m.sites },
      add_step m a size mode lifetime_permanent valid sized ∙ add_fresh m a size mode e off,
      remove_fresh m a size mode e off,
    )
    | inr (s, e) ↦ (
      record m { sites = store a (bumped s) m.sites },
      add_step m a size mode lifetime_permanent valid sized
          ∙ add_known m a size mode s e (fits s e).0,
      remove_known m a s h.keys e (AllSites-find IsCounted a m.sites h.counted e) (fits s e).1,
    )
  ]
