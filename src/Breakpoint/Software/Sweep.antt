-- ===== src/Breakpoint/Software/Sweep.antt =====
-- Enabling or disabling every site of a map, one after the other.
use ds.Base.{ℕ, ◌≡◌, refl, Bool, true, false, some, [], ◌∷◌, arith}
use ds.Breakpoint.Sites.{Site, Sites, Above, IsMap}
use ds.Breakpoint.Sites.Laws.{Above-trans, tail-IsMap}
use ds.Breakpoint.Manager.{each}
use ds.Breakpoint.Software.{Memory, Software, get_opcode, patch, enable_location, disable_location}
use ds.Breakpoint.Software.Restore.{
  IsMemory, IsPatched, with, without, patch-IsPatched, disable-IsPatched,
}

-- The sites of a map are of size 1, at their keys, and all in a set or none.
abbrev pub Placed : Bool → (ℕ → Bool) → Sites → Type 0
Placed b D [] = Unit {0}
Placed b D ((k, s) ∷ m) = (s.address ≡ k) × (s.size ≡ 1) × (D k ≡ b) × Placed b D m

abbrev pub grown : Sites → (ℕ → Bool) → ℕ → Bool
grown [] D = D
grown ((k, s) ∷ m) D = grown m (with k D)

abbrev pub shrunk : Sites → (ℕ → Bool) → ℕ → Bool
shrunk [] D = D
shrunk ((k, s) ∷ m) D = shrunk m (without k D)

Placed-with :
    (k : ℕ) (D : ℕ → Bool) (m : Sites) → Above k m → Placed false D m → Placed false (with k D) m
Placed-with k D [] u h = tt
Placed-with k D ((j, s) ∷ m) u (a, z, d, h) =
    (a, z, ground arith, Placed-with k D m (Above-trans {n = k} {k = j} m u.0 u.1) h)

Placed-without :
    (k : ℕ) (D : ℕ → Bool) (m : Sites) → Above k m → Placed true D m → Placed true (without k D) m
Placed-without k D [] u h = tt
Placed-without k D ((j, s) ∷ m) u (a, z, d, h) =
    (a, z, ground arith, Placed-without k D m (Above-trans {n = k} {k = j} m u.0 u.1) h)

module _ (mem : Memory) (laws : IsMemory mem) where
  open mem use {State}

  enable_one :
      (r : Software mem) (s : Site)
      → s.size ≡ 1
      → enable_location mem r s ≡ some (patch mem r s.address (0xcc ∷ []))
  unfolding enable_location get_opcode
  enable_one r s z = rw z refl

  pub each-enable :
      (orig : State) (D : ℕ → Bool) (m : Sites) (r : Software mem)
      → IsMap m
      → Placed false D m
      → IsPatched mem laws orig D r
      → (r' : Software mem) × (each (enable_location mem) m r ≡ some r')
        × IsPatched mem laws orig (grown m D) r'
  unfolding each
  each-enable orig D [] r u h p = (r, refl, p)
  each-enable orig D ((k, s) ∷ m) r u (a, z, d, h) p =
      let q = patch-IsPatched mem laws orig D r k p d in
      let (r', e, t) =
        each-enable orig (with k D) m (patch mem r k (0xcc ∷ [])).0 (tail-IsMap k m u)
          (Placed-with k D m u h) q in
      (r', rw (enable_one r s z, a) e, t)

  pub each-disable :
      (orig : State) (D : ℕ → Bool) (m : Sites) (r : Software mem)
      → IsMap m
      → Placed true D m
      → IsPatched mem laws orig D r
      → (r' : Software mem) × (each (λ r s. some (disable_location mem r s)) m r ≡ some r')
        × IsPatched mem laws orig (shrunk m D) r'
  unfolding each
  each-disable orig D [] r u h p = (r, refl, p)
  each-disable orig D ((k, s) ∷ m) r u (a, z, d, h) p =
      let q = disable-IsPatched mem laws orig D r s p (rw a d) in
      let (r', e, t) =
        each-disable orig (without s.address D) m (disable_location mem r s).0 (tail-IsMap k m u)
          (rw a (Placed-without k D m u h)) q in
      (r', e, rw a at t)
