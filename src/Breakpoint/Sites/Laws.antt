-- ===== src/Breakpoint/Sites/Laws.antt =====
-- The laws of a sorted map.
use mathlib.Core.Path.{subst}
use ds.Base.{
  ℕ, ◌<◌, ◌≡◌, ◌≢◌, refl, sym, ◌∙◌, inl, inr, true, false, none, some, [], ◌∷◌, ◌==◌, if◌then◌else◌,
  arith, Bool-cases,
}
use ds.Breakpoint.Sites.{Map, find, store, erase, Above, IsMap, AllSites}

module _ {V : Type 0} where
  pub find-store :
      (a j : ℕ) (v : V) (m : Map V) → find j (store a v m) ≡ (if a == j then some v else find j m)
  unfolding find store
  find-store a j v [] = refl
  find-store a j v ((k, s) ∷ m) = ground (arith, find-store a j v m)

  pub find-erase_ne : (a j : ℕ) (m : Map V) → a ≢ j → find j (erase a m) ≡ find j m
  unfolding find erase
  find-erase_ne a j [] h = refl
  find-erase_ne a j ((k, s) ∷ m) h = ground (arith, find-erase_ne a j m h)

  pub Above-trans : {n k : ℕ} (m : Map V) → n < k → Above k m → Above n m
  Above-trans [] h b = tt
  Above-trans ((j, s) ∷ m) h b = (omega arith, b.1)

  find-Above : (a : ℕ) (m : Map V) → Above a m → find a m ≡ none
  unfolding find
  find-Above a [] b = refl
  find-Above a ((k, s) ∷ m) b =
      ground (arith, find-Above a m (Above-trans {n = a} {k = k} m b.0 b.1))

  pub find-erase_self : (a : ℕ) (m : Map V) → IsMap m → find a (erase a m) ≡ none
  unfolding find erase
  find-erase_self a [] h = refl
  find-erase_self a ((k, s) ∷ []) h = ground arith
  find-erase_self a ((k, s) ∷ (j, t) ∷ m) h =
      ground (arith, find-Above a ((j, t) ∷ m), find-erase_self a ((j, t) ∷ m) h.1)

  store-Above : (n a : ℕ) (v : V) (m : Map V) → n < a → Above n m → Above n (store a v m)
  unfolding store
  store-Above n a v [] h b = (h, tt)
  store-Above n a v ((k, s) ∷ m) h b = ground (arith, store-Above k a v m)

  pub store-IsMap : (a : ℕ) (v : V) (m : Map V) → IsMap m → IsMap (store a v m)
  unfolding store
  store-IsMap a v [] h = tt
  store-IsMap a v ((k, s) ∷ m) h = ground (arith, store-Above k a v m)

  erase-Above : (n a : ℕ) (m : Map V) → Above n m → Above n (erase a m)
  unfolding erase
  erase-Above n a [] b = tt
  erase-Above n a ((k, s) ∷ m) b =
      ground (arith, erase-Above k a m b.1, Above-trans {n = n} {k = k} m b.0 b.1)

  pub tail-IsMap : (k : ℕ) (m : Map V) → Above k m → IsMap m
  tail-IsMap k [] b = tt
  tail-IsMap k ((j, s) ∷ m) b = b.1

  pub erase-IsMap : (a : ℕ) (m : Map V) → IsMap m → IsMap (erase a m)
  unfolding erase
  erase-IsMap a [] h = tt
  erase-IsMap a ((k, s) ∷ m) h = ground (arith, erase-Above k a m h, tail-IsMap k m h)

  -- Erasing what was stored under a new key leaves the map as it was.
  pub erase-store : (a : ℕ) (v : V) (m : Map V) → find a m ≡ none → erase a (store a v m) ≡ m
  unfolding find store erase
  erase-store a v [] h = ground arith
  erase-store a v ((k, s) ∷ m) h = ground (arith, erase-store a v m)

  -- The second of two writes to a key decides.
  pub store-store : (a : ℕ) (v w : V) (m : Map V) → store a w (store a v m) ≡ store a w m
  unfolding store
  store-store a v w [] = ground arith
  store-store a v w ((k, s) ∷ m) = ground (arith, store-store a v w m)

  -- Writing what a key holds changes nothing.
  pub store-find : (a : ℕ) (v : V) (m : Map V) → IsMap m → find a m ≡ some v → store a v m ≡ m
  unfolding find store
  store-find a v [] u h = cc
  store-find a v ((k, s) ∷ m) u h =
      ground
        (arith, store-find a v m (tail-IsMap k m u), find-Above a m, Above-trans {n = a} {k = k} m)

  find_head :
      (a k : ℕ) (t : V) (m : Map V) {s : V} → (k == a) ≡ true → find a ((k, t) ∷ m) ≡ some s → t ≡ s
  unfolding find
  find_head a k t m h e = ground arith

  find_tail : (a k : ℕ) (t : V) (m : Map V) → (k == a) ≡ false → find a ((k, t) ∷ m) ≡ find a m
  unfolding find
  find_tail a k t m h = rw h refl

module _ {ℓ} {V : Type 0} (P : V → Type ℓ) where
  pub AllSites-find : (a : ℕ) (m : Map V) {s : V} → AllSites P m → find a m ≡ some s → P s
  AllSites-find a [] h e = unfold find in cc
  AllSites-find a ((k, t) ∷ m) {s} (p, ps) e = elim (Bool-cases (k == a)) [
    | inl h ↦ subst P (find_head a k t m h e) p
    | inr h ↦ AllSites-find a m ps (sym (find_tail a k t m h) ∙ e)
  ]

  pub AllSites-store : (a : ℕ) (v : V) (m : Map V) → P v → AllSites P m → AllSites P (store a v m)
  unfolding store
  AllSites-store a v [] p ps = (p, tt)
  AllSites-store a v ((k, s) ∷ m) p (q, qs) = ground (arith, AllSites-store a v m p qs)

  pub AllSites-erase : (a : ℕ) (m : Map V) → AllSites P m → AllSites P (erase a m)
  unfolding erase
  AllSites-erase a [] ps = ps
  AllSites-erase a ((k, s) ∷ m) (q, qs) = ground (arith, AllSites-erase a m qs)

  -- What was stored under the key does not matter once it is erased.
  pub AllSites-erase-store :
      (a : ℕ) (v : V) (m : Map V) → AllSites P m → AllSites P (erase a (store a v m))
  unfolding store erase
  AllSites-erase-store a v [] ps = ground arith
  AllSites-erase-store a v ((k, s) ∷ m) (q, qs) = ground (arith, AllSites-erase-store a v m qs)
