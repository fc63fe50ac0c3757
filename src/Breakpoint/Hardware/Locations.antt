-- ===== src/Breakpoint/Hardware/Locations.antt =====
-- Which locations and threads the calls of the hardware breakpoint manager reach.
use ds.Base.{
  ℕ, ◌≡◌, ◌≢◌, refl, sym, ap, ◌∙◌, ◌⊎◌, inl, inr, true, not, Option, none, some, List, [], ◌∷◌,
  ◌++◌, arith, Option-cases, Lacks, set, length, ==_refl,
}
use ds.Errors.{ErrorCode, invalid_argument}
use ds.Breakpoint.Sites.{Site, Sites}
use ds.Breakpoint.Manager.{Returned, code, indeterminate}
use ds.Breakpoint.Hardware.{
  Cpu, Thread, Hardware, location_of, each_thread, entered, enable_at, enable_available,
  available_location, hardware_enable_location, hardware_disable_location, all_on, freed,
  enable_thread,
}

location_of-at :
    (a : ℕ) (xs ys : List ℕ) → Lacks a xs → location_of a (xs ++ a ∷ ys) ≡ some (length xs)
unfolding location_of
location_of-at a [] ys h = rw (==_refl a) refl
location_of-at a (x ∷ xs) ys h = ground (arith, location_of-at a xs ys h.1)

location_of-none : (a : ℕ) (xs : List ℕ) → Lacks a xs → location_of a xs ≡ none
unfolding location_of
location_of-none a [] h = refl
location_of-none a (x ∷ xs) h = ground (arith, location_of-none a xs h.1)

set-at : (xs ys : List ℕ) (a v : ℕ) → set (xs ++ a ∷ ys) (length xs) v ≡ xs ++ v ∷ ys
set-at [] ys a v = refl
set-at (x ∷ xs) ys a v = ap (λ t. x ∷ t) (set-at xs ys a v)

Lacks-cleared : (a : ℕ) (xs ys : List ℕ) → a ≢ 0 → Lacks a xs → Lacks a ys → Lacks a (xs ++ 0 ∷ ys)
Lacks-cleared a [] ys n h k = ((λ e. n (sym e)), k)
Lacks-cleared a (x ∷ xs) ys n h k = (h.0, Lacks-cleared a xs ys n h.1 k)

module _ (cpu : Cpu) where
  open cpu use {State}

  skip_all :
      (act : State → State × ErrorCode) (error : Returned) (ts : List (Thread cpu))
      → all_on cpu ts ≡ true
      → each_thread cpu (λ t. not t.on) act error ts ≡ (ts, error)
  unfolding each_thread all_on
  skip_all act error [] h = refl
  skip_all act error (t ∷ ts) h = ground (arith, skip_all act error ts)

  freed_lem :
      (h : Hardware cpu) (a : ℕ) (xs ys : List ℕ)
      → h.locations ≡ xs ++ a ∷ ys
      → Lacks a xs
      → freed cpu h a ≡ record h { locations = xs ++ 0 ∷ ys }
  unfolding freed
  freed_lem h a xs ys e p =
      let at : location_of a h.locations ≡ some (length xs) = rw e (location_of-at a xs ys p) in
      let cleared : set h.locations (length xs) 0 ≡ xs ++ 0 ∷ ys = rw e (set-at xs ys a 0) in
      rw (at, freed) (ap (λ (ls : List ℕ). record h { locations = ls }) cleared)

  disable_none :
      (h : Hardware cpu) (site : Site)
      → location_of site.address h.locations ≡ none
      → hardware_disable_location cpu h site ≡ (h, code invalid_argument)
  unfolding hardware_disable_location
  disable_none h site e = rw (e, hardware_disable_location) refl

  enable_at_on :
      (h : Hardware cpu) (site : Site) (idx : ℕ)
      → all_on cpu h.threads ≡ true
      → enable_at cpu h site idx ≡ (h, indeterminate)
  unfolding enable_at entered
  enable_at_on h site idx on =
      rw
        (skip_all (λ s. enable_thread cpu s idx site.address site.mode site.size) indeterminate
          h.threads on)
        refl

  untouched :
      {o : Option (Hardware cpu × Returned)} (h : Hardware cpu) (site : Site) (available : Option ℕ)
      → all_on cpu h.threads ≡ true
      → o ≡ some (enable_available cpu h site available)
      → (result : Returned) × (o ≡ some (h, result))
        × ((result ≡ indeterminate) ⊎ (result ≡ code invalid_argument))
  unfolding enable_available
  untouched h site none on e = (code invalid_argument, e, inr refl)
  untouched h site (some idx) on e =
      (indeterminate, e ∙ ap some (enable_at_on h site idx on), inl refl)

  known :
      (sites : Sites) (h : Hardware cpu) (site : Site) (idx : ℕ)
      → location_of site.address h.locations ≡ some idx
      → hardware_enable_location cpu sites h site ≡ some (enable_at cpu h site idx)
  unfolding hardware_enable_location
  known sites h site idx q = rw (q, hardware_enable_location) refl

  some_free :
      (sites : Sites) (h : Hardware cpu) (site : Site) (available : Option ℕ)
      → location_of site.address h.locations ≡ none
      → available_location cpu sites h.locations ≡ some available
      → hardware_enable_location cpu sites h site ≡ some (enable_available cpu h site available)
  unfolding hardware_enable_location
  some_free sites h site available q r = rw (q, r, hardware_enable_location) refl

  -- Once the location of an address is freed, as `remove` does before it asks the base class, its
  -- breakpoint cannot be switched off any more: disableLocation reports an invalid argument and
  -- changes no register. (The address is not 0 and had one location.)
  pub hardware_disable_location-freed :
      (h : Hardware cpu) (site : Site) (xs ys : List ℕ)
      → h.locations ≡ xs ++ site.address ∷ ys
      → site.address ≢ 0
      → Lacks site.address xs
      → Lacks site.address ys
      → (hardware_disable_location cpu (freed cpu h site.address) site
          ≡ (freed cpu h site.address, code invalid_argument))
        × ((freed cpu h site.address).threads ≡ h.threads)
  hardware_disable_location-freed h site xs ys e n p q =
      let cleared : Hardware cpu = record h { locations = xs ++ 0 ∷ ys } in
      let gone =
        location_of-none site.address (xs ++ 0 ∷ ys) (Lacks-cleared site.address xs ys n p q) in
      rw (freed_lem h site.address xs ys e p) (disable_none cleared site gone, refl)

  -- In a manager that is on for every thread, enableLocation changes nothing at all, and its result
  -- is not kSuccess: it is an invalid argument, or a variable that nothing has set. (The location is
  -- found, or the search for a free one passes its assertion.)
  pub hardware_enable_location-all_on :
      (sites : Sites) (h : Hardware cpu) (site : Site) (available : Option ℕ)
      → all_on cpu h.threads ≡ true
      → available_location cpu sites h.locations ≡ some available
      → (result : Returned) × (hardware_enable_location cpu sites h site ≡ some (h, result))
        × ((result ≡ indeterminate) ⊎ (result ≡ code invalid_argument))
  hardware_enable_location-all_on sites h site available on r =
      elim (Option-cases (location_of site.address h.locations)) [
        | inr (idx, q) ↦ (
          indeterminate,
          known sites h site idx q ∙ ap some (enable_at_on h site idx on),
          inl refl,
        )
        | inl q ↦ untouched h site available on (some_free sites h site available q r)
      ]
