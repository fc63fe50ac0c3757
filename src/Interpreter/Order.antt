-- ===== src/Interpreter/Order.antt =====
-- The order of std::string::compare.
use Prim.Native.Nat.{Ordering}
use ds.Base.{ℕ, zero, suc, ◌≡◌, refl, ◌⊎◌, inl, inr, Bytes, [], ◌∷◌, ◌++◌, arith, take}
use ds.Interpreter.{compare_bytes}

pub compare_bytes_refl : (s : Bytes) → compare_bytes s s ≡ Ordering.eq
unfolding compare_bytes
compare_bytes_refl [] = refl
compare_bytes_refl (a ∷ s) = ground (arith, compare_bytes_refl s)

pub eq_of_compare_bytes : (s t : Bytes) → compare_bytes s t ≡ Ordering.eq → s ≡ t
unfolding compare_bytes
eq_of_compare_bytes [] [] h = refl
eq_of_compare_bytes [] (b ∷ t) h = cc
eq_of_compare_bytes (a ∷ s) [] h = cc
eq_of_compare_bytes (a ∷ s) (b ∷ t) h = ground (arith, eq_of_compare_bytes s t)

pub lt-append :
    (s t r : Bytes) → compare_bytes s t ≡ Ordering.lt → compare_bytes s (t ++ r) ≡ Ordering.lt
unfolding compare_bytes
lt-append [] [] r h = cc
lt-append [] (b ∷ t) r h = refl
lt-append (a ∷ s) [] r h = cc
lt-append (a ∷ s) (b ∷ t) r h = ground (arith, lt-append s t r)

pub lt_trans :
    (s t u : Bytes)
    → compare_bytes s t ≡ Ordering.lt
    → compare_bytes t u ≡ Ordering.lt
    → compare_bytes s u ≡ Ordering.lt
unfolding compare_bytes
lt_trans [] [] u h k = cc
lt_trans (a ∷ s) [] u h k = cc
lt_trans s (b ∷ t) [] h k = cc
lt_trans [] (b ∷ t) (c ∷ u) h k = refl
lt_trans (a ∷ s) (b ∷ t) (c ∷ u) h k = ground (arith, lt_trans s t u)

-- Cutting two texts to one length keeps their order, or makes them equal.
pub take_mono :
    (n : ℕ) (s t : Bytes)
    → compare_bytes s t ≡ Ordering.lt
    → (take n s ≡ take n t) ⊎ (compare_bytes (take n s) (take n t) ≡ Ordering.lt)
unfolding compare_bytes
take_mono zero s t h = inl refl
take_mono (suc n) [] [] h = inl refl
take_mono (suc n) [] (b ∷ t) h = inr refl
take_mono (suc n) (a ∷ s) [] h = cc
take_mono (suc n) (a ∷ s) (b ∷ t) h = ground (arith, take_mono n s t)
