-- ===== src/Breakpoint/Sites.antt =====
-- Headers/DebugServer2/Core/BreakpointManager.h: lifetimes, sites and the map of sites.
pub mod Laws
use ds.Base.{
  ℕ, zero, suc, ◌+◌, ◌<◌, ◌≡◌, ◌≢◌, refl, ◌⊎◌, Bool, true, false, not, ◌&&◌, ◌||◌, Option, none,
  some, List, [], ◌∷◌, ◌==◌, ltb, if◌then◌else◌, All,
}

-- A set of the flags Permanent, TemporaryOneShot and TemporaryUntilHit.
pub record Lifetime : Type 0 where
  pub permanent : Bool
  pub one_shot : Bool
  pub until_hit : Bool

abbrev pub lifetime_none : Lifetime
lifetime_none = record { permanent = false; one_shot = false; until_hit = false }

abbrev pub lifetime_permanent : Lifetime
lifetime_permanent = record { permanent = true; one_shot = false; until_hit = false }

abbrev pub lifetime_one_shot : Lifetime
lifetime_one_shot = record { permanent = false; one_shot = true; until_hit = false }

abbrev pub lifetime_until_hit : Lifetime
lifetime_until_hit = record { permanent = false; one_shot = false; until_hit = true }

-- `a | b`
unfoldable pub join : Lifetime → Lifetime → Lifetime
join a b = record {
  permanent = a.permanent || b.permanent;
  one_shot = a.one_shot || b.one_shot;
  until_hit = a.until_hit || b.until_hit;
}

-- `lifetime == Lifetime::None`, `lifetime == Lifetime::Permanent`
unfoldable pub is_none : Lifetime → Bool
is_none l = not l.permanent && (not l.one_shot && not l.until_hit)

unfoldable pub is_permanent : Lifetime → Bool
is_permanent l = l.permanent && (not l.one_shot && not l.until_hit)

-- Headers/DebugServer2/Types.h: an address may be unset.
pub data Address : Type 0 where
  unset : Address
  at : ℕ → Address

-- A mode is the number of its flags: 1 exec, 2 read, 4 write. `refs` is an int32_t that stays far
-- below its limit: it counts the calls of `add`.
pub record Site : Type 0 where
  pub refs : ℕ
  pub address : ℕ
  pub lifetime : Lifetime
  pub mode : ℕ
  pub size : ℕ

-- std::map<uint64_t, V>, in the order of its keys.
abbrev pub Map : Type 0 → Type 0
Map V = List (ℕ × V)

abbrev pub Sites : Type 0
Sites = Map Site

module _ {V : Type 0} where
  unfoldable pub find : ℕ → Map V → Option V
  find a [] = none
  find a ((k, s) ∷ m) = if k == a then some s else find a m

  -- Sets the value of a key, which is inserted in its place if it is new.
  unfoldable pub store : ℕ → V → Map V → Map V
  store a v [] = (a, v) ∷ []
  store a v ((k, s) ∷ m) =
      if k == a then (a, v) ∷ m else if ltb a k then (a, v) ∷ (k, s) ∷ m else (k, s) ∷ store a v m

  unfoldable pub erase : ℕ → Map V → Map V
  erase a [] = []
  erase a ((k, s) ∷ m) = if k == a then m else (k, s) ∷ erase a m

  -- The keys rise along the list and stay above a bound.
  abbrev pub Above : ℕ → Map V → Type 0
  Above n [] = Unit {0}
  Above n ((k, s) ∷ m) = (n < k) × Above k m

  -- A map has keys in order, the first of which may be any number.
  abbrev pub IsMap : Map V → Type 0
  IsMap [] = Unit {0}
  IsMap ((k, s) ∷ m) = Above k m

  abbrev pub AllSites {ℓ} : (V → Type ℓ) → Map V → Type ℓ
  AllSites P [] = Unit
  AllSites P ((k, s) ∷ m) = P s × AllSites P m
