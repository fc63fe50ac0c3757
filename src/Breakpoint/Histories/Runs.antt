-- ===== src/Breakpoint/Histories/Runs.antt =====
-- Sources/Core/BreakpointManager.cpp: enabling and disabling, and the calls of a history.
use ds.Base.{ℕ, Bool, ◌≡◌, refl, true, ◌⊎◌, inl, inr, false, some, [], ◌∷◌, arith}
use ds.Breakpoint.Sites.{Lifetime, is_none, Address, Site, Sites, IsMap, Above, AllSites}
use ds.Breakpoint.Sites.Laws.{Above-trans, tail-IsMap}
use ds.Breakpoint.Manager.{Manager, Methods, enable, disable, expire, expire_site}
use ds.Breakpoint.References.{IsCounted, IsPlain}
use ds.Breakpoint.Histories.{IsFit, Keeps, IsReady, IsTotal, each-total}

abbrev spent : Site → Site
spent s = record s { lifetime = record s.lifetime { one_shot = false } }

expire_site-cases :
    (k : ℕ) (s : Site) (rest : Sites)
    → IsCounted s
    → (expire_site k s rest ≡ some ((k, spent s) ∷ rest)) ⊎ (expire_site k s rest ≡ some rest)
unfolding expire_site is_none
expire_site-cases k s rest c = ground arith

module _ (P : Site → Type 0) (counts : (s : Site) → P s → IsCounted s)
    (spends : (s : Site) → P s → P (spent s)) where
  -- What `disable` leaves: sites of the same kind, with no new keys.
  abbrev Expires : Sites → Type 0
  Expires m =
      (m' : Sites) × (expire m ≡ some m')
      × AllSites P m'
      × ((n : ℕ) → Above n m → Above n m')
      × (IsMap m → IsMap m')

  expires : (m : Sites) → AllSites P m → Expires m
  unfolding expire
  expires [] c = ([], refl, tt, (λ n b. b), (λ u. u))
  expires ((k, s) ∷ m) (c, cs) =
      let (m', e, cs', keeps, _) = expires m cs in
      elim (expire_site-cases k s m' (counts s c)) [
        | inl stays ↦ (
          (k, spent s) ∷ m',
          rw e stays,
          (spends s c, cs'),
          (λ n b. (b.0, keeps k b.1)),
          (λ u. keeps k u),
        )
        | inr goes ↦ (
          m',
          rw e goes,
          cs',
          (λ n b. keeps n (Above-trans {n = n} {k = k} m b.0 b.1)),
          (λ u. tail-IsMap k m' (keeps k u)),
        )
      ]

pub expire-total : (m : Sites) → AllSites IsCounted m → Expires IsCounted (λ s c. c) (λ s c. c) m
expire-total m c = expires IsCounted (λ s c'. c') (λ s c'. c') m c

module _ (allows fits : ℕ → Bool) {R : Type 0} (methods : Methods R)
    (total : IsTotal allows fits methods) where
  pub enable-Keeps : (m : Manager R) → IsReady fits m → Keeps fits (λ n. n) (enable methods m)
  unfolding enable
  enable-Keeps m h =
      let (r, e) =
        each-total fits (methods.enable_location m.sites) (total.enables m.sites) m.sites m.rest
          h.ready in
      (record m { rest = r }, rw e refl, record { keys = h.keys; ready = h.ready })

  pub disable-Keeps : (m : Manager R) → IsReady fits m → Keeps fits (λ n. n) (disable methods m)
  unfolding disable
  disable-Keeps m h =
      let (r, e) =
        each-total fits (methods.disable_location m.sites) (total.disables m.sites) m.sites m.rest
          h.ready in
      let (sites, q, c, keeps, map) =
        expires (IsFit fits) (λ s c. c.0) (λ s c. (c.0, c.1)) m.sites h.ready in
      (record { sites = sites; rest = r }, rw (e, q) refl, record { keys = map h.keys; ready = c })

-- The calls of a breakpoint manager.
pub data Call : Type 0 where
  adds : Address → Lifetime → ℕ → ℕ → Call
  removes hits : Address → Call
  enables disables clears : Call

-- A lifetime that is passed to `add` has Permanent alone or not at all, and its mode is allowed.
abbrev pub Allowed : (ℕ → Bool) → Call → Type 0
Allowed allows (adds x l size mode) = IsPlain l × (allows mode ≡ true)
Allowed allows _ = Unit
