-- ===== src/Breakpoint/Histories.antt =====
-- What holds after any call of Sources/Core/BreakpointManager.cpp, and that it returns.
pub mod Runs
use ds.Base.{
  ℕ, zero, suc, ◌+◌, ◌-◌, ◌<◌, ◌≡◌, ◌≢◌, refl, sym, ap, ◌∙◌, ◌⊎◌, inl, inr, Bool, true, false, not,
  ◌&&◌, ◌||◌, Option, none, some, List, [], ◌∷◌, ◌==◌, if◌then◌else◌, arith, ==_refl, Bool-cases,
  Option-cases, ◌>>=◌, All,
}
use ds.Errors.{ErrorCode, success, invalid_argument, not_found}
use ds.Breakpoint.Sites.{
  Lifetime, lifetime_permanent, join, is_none, is_permanent, Address, unset, at, Site, Sites, find,
  store, erase, IsMap, Above, AllSites,
}
use ds.Breakpoint.Sites.Laws.{
  find-store, store-IsMap, erase-IsMap, AllSites-find, AllSites-store, AllSites-erase,
  AllSites-erase-store,
}
use ds.Breakpoint.Manager.{
  Manager, Methods, Returned, code, indeterminate, add, remove, again, new_site, fresh, add_at,
  add_valid, chosen, value, do_remove, remove_site, enable, disable, expire, expire_site, hit, each,
}
use ds.Breakpoint.References.{
  IsCounted, IsPlain, IsSound, remove_one, remove_flag, remove_temporary, remove_only,
}

-- A site is permanent exactly when it is referenced, and has a size that the subclass places.
abbrev pub IsFit : (ℕ → Bool) → Site → Type 0
IsFit fits s = IsCounted s × (fits s.size ≡ true)

pub record IsReady (fits : ℕ → Bool) {R : Type 0} (m : Manager R) : Type 0 where
  pub keys : IsMap m.sites
  pub ready : AllSites (IsFit fits) m.sites

-- A call that returns, and keeps the manager ready.
abbrev pub Keeps {ℓ} : (ℕ → Bool) → {R : Type 0} {A : Type ℓ} → (A → Manager R) → Option A → Type ℓ
Keeps fits {A} manager_of o = (a : A) × (o ≡ some a) × IsReady fits (manager_of a)

module _ (fits : ℕ → Bool) {R : Type 0} where
  stored :
      (m : Manager R) (a : ℕ) (s : Site)
      → IsReady fits m
      → IsFit fits s
      → IsReady fits (record m { sites = store a s m.sites })
  stored m a s h c = record {
    keys = store-IsMap a s m.sites h.keys;
    ready = AllSites-store (IsFit fits) a s m.sites c h.ready;
  }

  erased :
      (m : Manager R) (a : ℕ) → IsReady fits m → IsReady fits (record m { sites = erase a m.sites })
  erased m a h = record {
    keys = erase-IsMap a m.sites h.keys;
    ready = AllSites-erase (IsFit fits) a m.sites h.ready;
  }

  moved : (m : Manager R) (r : R) → IsReady fits m → IsReady fits (record m { rest = r })
  moved m r h = record { keys = h.keys; ready = h.ready }

  pub hit-IsReady : (m : Manager R) (x : Address) → IsReady fits m → IsReady fits (hit m x).0
  unfolding hit
  hit-IsReady m unset h = h
  hit-IsReady m (at a) h = elim (Option-cases (find a m.sites)) [
    | inl e ↦ rw (e, hit) h
    | inr (s, e) ↦ rw (e, hit) (stored m a _ h (AllSites-find (IsFit fits) a m.sites h.ready e))
  ]

  again-IsReady :
      (m : Manager R) (a : ℕ) (l : Lifetime) (mode : ℕ) (s : Site)
      → IsReady fits m
      → IsPlain l
      → IsFit fits s
      → IsReady fits (again m a l mode s).0
  unfolding again
  again-IsReady m a l mode s h p c = elim (Bool-cases (s.mode == mode)) [
    | inl e ↦ rw e (stored m a _ h (unfold join in ground arith))
    | inr e ↦ rw e h
  ]

new_site-IsFit :
    (fits : ℕ → Bool) (a : ℕ) (l : Lifetime) (size mode : ℕ)
    → IsPlain l
    → fits size ≡ true
    → IsFit fits (new_site a l size mode)
unfolding new_site
new_site-IsFit fits a l size mode p f = ground arith

-- What a subclass promises: its methods return for the modes that it allows and for the sizes that it
-- places, and it places every size that it takes for valid or chooses.
pub record IsTotal (allows fits : ℕ → Bool) {R : Type 0} (methods : Methods R) : Type 0 where
  pub validates :
      (x : Address) (size mode : ℕ)
      → allows mode ≡ true
      → (e : ErrorCode) × (methods.is_valid x size mode ≡ some e)
  pub chooses :
      (x : Address) (size mode : ℕ)
      → methods.is_valid x size mode ≡ some success
      → (n : ℕ) × (chosen methods size ≡ some n) × (fits n ≡ true)
  pub enables :
      (sites : Sites) (r : R) (s : Site)
      → fits s.size ≡ true
      → (o : R × Returned) × (methods.enable_location sites r s ≡ some o)
  pub disables :
      (sites : Sites) (r : R) (s : Site)
      → fits s.size ≡ true
      → (o : R × Returned) × (methods.disable_location sites r s ≡ some o)

module _ (allows fits : ℕ → Bool) {R : Type 0} (methods : Methods R)
    (total : IsTotal allows fits methods) where
  open methods use {is_valid, choose_size, enabled, enable_location, disable_location}

  fresh-Keeps :
      (m : Manager R) (s : Site)
      → IsReady fits m
      → IsFit fits s
      → Keeps fits (λ o. o.0) (fresh methods m s)
  unfolding fresh
  fresh-Keeps m s h c = elim (Bool-cases (enabled m.rest)) [
    | inl on ↦
        let sites : Sites = store s.address s m.sites in
        let (o, e) = total.enables sites m.rest s c.1 in
        (
          (record { sites = sites; rest = o.0 }, o.1),
          rw on (rw e refl),
          record {
            keys = store-IsMap s.address s m.sites h.keys;
            ready = AllSites-store (IsFit fits) s.address s m.sites c h.ready;
          },
        )
    | inr off ↦ (
      (record m { sites = store s.address s m.sites }, code success),
      rw off refl,
      stored fits m s.address s h c,
    )
  ]

  add_at-Keeps :
      (m : Manager R) (a : ℕ) (l : Lifetime) (size mode : ℕ)
      → IsReady fits m
      → IsPlain l
      → fits size ≡ true
      → Keeps fits (λ o. o.0) (add_at methods m a l size mode)
  unfolding add_at
  add_at-Keeps m a l size mode h p f = elim (Option-cases (find a m.sites)) [
    | inl e ↦
        rw (e, add_at)
          (fresh-Keeps m (new_site a l size mode) h (new_site-IsFit fits a l size mode p f))
    | inr (s, e) ↦
        rw (e, add_at)
          (
            again m a l mode s,
            refl,
            again-IsReady fits m a l mode s h p (AllSites-find (IsFit fits) a m.sites h.ready e),
          )
  ]

  add_valid-Keeps :
      (v : ErrorCode) (m : Manager R) (x : Address) (l : Lifetime) (size mode : ℕ)
      → (v ≡ success → (n : ℕ) × (chosen methods size ≡ some n) × (fits n ≡ true))
      → IsReady fits m
      → IsPlain l
      → Keeps fits (λ o. o.0) (add_valid methods v m x l size mode)
  unfolding add_valid
  add_valid-Keeps success m x l size mode k h p =
      let (n, e, f) = k refl in rw e (add_at-Keeps m (value x) l n mode h p f)
  add_valid-Keeps _ m x l size mode k h p = (_, refl, h)

  pub add-Keeps :
      (m : Manager R) (x : Address) (l : Lifetime) (size mode : ℕ)
      → IsReady fits m
      → IsPlain l
      → allows mode ≡ true
      → Keeps fits (λ o. o.0) (add methods m x l size mode)
  unfolding add
  add-Keeps m x l size mode h p a =
      let (v, e) = total.validates x size mode a in
      rw e (add_valid-Keeps v m x l size mode (λ q. total.chooses x size mode (e ∙ ap some q)) h p)

  do_remove-Keeps :
      (m : Manager R) (a : ℕ) (s : Site)
      → IsMap (erase a m.sites)
      → AllSites (IsFit fits) (erase a m.sites)
      → fits s.size ≡ true
      → (s.refs == 0) ≡ true
      → Keeps fits (λ o. o.0) (do_remove methods m a s)
  unfolding do_remove
  do_remove-Keeps m a s u c f z = elim (Bool-cases (enabled m.rest)) [
    | inl on ↦
        let (o, e) = total.disables m.sites m.rest s f in
        (
          (record { sites = erase a m.sites; rest = o.0 }, o.1),
          rw (z, on) (rw e refl),
          record { keys = u; ready = c },
        )
    | inr off ↦ (
      (record m { sites = erase a m.sites }, code success),
      rw (z, off) refl,
      record { keys = u; ready = c },
    )
  ]

  -- A referenced site, by what is left of its references and its lifetime.
  referenced-Keeps :
      (m : Manager R) (a : ℕ) (s : Site)
      → IsReady fits m
      → s.lifetime.permanent ≡ true
      → 0 < s.refs
      → fits s.size ≡ true
      → Keeps fits (λ o. o.0) (remove_site methods m a s)
  referenced-Keeps m a s h p pos f = elim (Bool-cases (s.refs - 1 == 0)) [
    | inr more ↦ (_, remove_one methods m a s p (ground arith), stored fits m a _ h (ground arith))
    | inl last ↦ elim (Bool-cases (is_permanent s.lifetime)) [
      | inl only ↦ rw (remove_only methods m a s only (ground arith)) (
          do_remove-Keeps _ a _ (erase-IsMap a _ (store-IsMap a _ m.sites h.keys))
            (AllSites-erase-store (IsFit fits) a _ m.sites h.ready) f last)
      | inr others ↦
          (_, remove_flag methods m a s p (ground arith) others, stored fits m a _ h (ground arith))
    ]
  ]

  remove_site-Keeps :
      (m : Manager R) (a : ℕ) (s : Site)
      → IsReady fits m
      → IsFit fits s
      → Keeps fits (λ o. o.0) (remove_site methods m a s)
  remove_site-Keeps m a s h c = elim (Bool-cases (s.lifetime.permanent)) [
    | inl p ↦ referenced-Keeps m a s h p (ground arith) c.1
    | inr p ↦ rw (remove_temporary methods m a s p) (
        do_remove-Keeps m a s (erase-IsMap a m.sites h.keys)
          (AllSites-erase (IsFit fits) a m.sites h.ready) c.1 (ground arith))
  ]

  pub remove-Keeps :
      (m : Manager R) (x : Address) → IsReady fits m → Keeps fits (λ o. o.0) (remove methods m x)
  unfolding remove
  remove-Keeps m unset h = (_, refl, h)
  remove-Keeps m (at a) h = elim (Option-cases (find a m.sites)) [
    | inl e ↦ rw (e, remove) ((m, code not_found), refl, h)
    | inr (s, e) ↦
        rw (e, remove) (remove_site-Keeps m a s h (AllSites-find (IsFit fits) a m.sites h.ready e))
  ]

pub each-total :
    {R : Type 0} (fits : ℕ → Bool) (f : R → Site → Option (R × Returned))
    → ((r : R) (s : Site) → fits s.size ≡ true → (o : R × Returned) × (f r s ≡ some o))
    → (m : Sites) (r : R) → AllSites (IsFit fits) m
    → (r' : R) × (each f m r ≡ some r')
unfolding each
each-total fits f k [] r c = (r, refl)
each-total fits f k ((a, s) ∷ m) r (c, cs) =
    let (o, e) = k r s c.1 in let (r', e') = each-total fits f k m o.0 cs in (r', rw e e')
