-- ===== src/Breakpoint/Control/Slots.antt =====
-- What the control register says of each of the four slots.
use ds.Base.{
  ℕ, ◌+◌, ◌*◌, ◌<◌, ◌≤◌, ◌≡◌, ◌≢◌, refl, ◌⊎◌, inl, inr, Bool, true, false, ◌||◌, ◌==◌,
  if◌then◌else◌, arith, Bool-cases, ◌∙◌,
}
use ds.Breakpoint.Control.{
  Bits, enable_bit, disable_bit, disable_bits, set_mode, set_length, enable_debug_ctrl_reg,
  disable_debug_ctrl_reg,
}

-- The flag G, the two bits of R/W and the two bits of LEN, the low one first.
pub record Slot : Type 0 where
  pub on : Bool
  pub rw : Bool × Bool
  pub len : Bool × Bool

unfoldable pub slot : Bits → ℕ → Slot
slot c i = record {
  on = c (i * 2 + 1);
  rw = (c (16 + i * 4), c (16 + i * 4 + 1));
  len = (c (16 + i * 4 + 2), c (16 + i * 4 + 3));
}

-- The encoding of Intel's manual: 00 execution, 01 writes, 11 reads and writes; 00, 01, 11 and 10
-- for a length of 1, 2, 4 and 8 bytes.
unfoldable pub encoded : ℕ → ℕ → Slot
encoded mode size = record {
  on = true;
  rw = if mode == 1 then (false, false) else if mode == 4 then (true, false) else (true, true);
  len =
      if mode == 1 || size == 1
      then (false, false)
      else if size == 2
      then (true, false)
      else if size == 4
      then (true, true)
      else (false, true);
}

-- The modes and sizes that the register can express.
abbrev pub Expressible : ℕ → ℕ → Type 0
Expressible mode size =
    ((mode ≡ 1) ⊎ (mode ≡ 2) ⊎ (mode ≡ 4) ⊎ (mode ≡ 6))
    × ((size ≡ 1) ⊎ (size ≡ 2) ⊎ (size ≡ 4) ⊎ (size ≡ 8))

mode_set :
    (c : Bits) (k mode : ℕ)
    → (mode ≡ 1) ⊎ (mode ≡ 2) ⊎ (mode ≡ 4) ⊎ (mode ≡ 6)
    → (d : Bits) × (set_mode c k mode ≡ inr d)
      × ((d k, d (k + 1)) ≡ (encoded mode 1).rw)
      × ((j : ℕ) → j ≢ k → j ≢ k + 1 → d j ≡ c j)
unfolding set_mode encoded enable_bit disable_bit
mode_set c k mode (inl e) = rw e (_, refl, ground arith, λ j a b. ground arith)
mode_set c k mode (inr (inl e)) = rw e (_, refl, ground arith, λ j a b. ground arith)
mode_set c k mode (inr (inr (inl e))) = rw e (_, refl, ground arith, λ j a b. ground arith)
mode_set c k mode (inr (inr (inr e))) = rw e (_, refl, ground arith, λ j a b. ground arith)

length_set :
    (c : Bits) (k mode size : ℕ)
    → (size ≡ 1) ⊎ (size ≡ 2) ⊎ (size ≡ 4) ⊎ (size ≡ 8)
    → (d : Bits) × (set_length c k mode size ≡ inr d)
      × ((d (k + 2), d (k + 3)) ≡ (encoded mode size).len)
      × ((j : ℕ) → j ≢ k + 2 → j ≢ k + 3 → d j ≡ c j)
unfolding set_length encoded enable_bit disable_bit
length_set c k mode size s = elim (Bool-cases (mode == 1)) [
  | inl e ↦ rw e (_, refl, ground arith, λ j a b. ground arith)
  | inr n ↦ by_size n s
]
  where
    by_size :
        (mode == 1) ≡ false
        → (size ≡ 1) ⊎ (size ≡ 2) ⊎ (size ≡ 4) ⊎ (size ≡ 8)
        → (d : Bits) × (set_length c k mode size ≡ inr d)
          × ((d (k + 2), d (k + 3)) ≡ (encoded mode size).len)
          × ((j : ℕ) → j ≢ k + 2 → j ≢ k + 3 → d j ≡ c j)
    by_size n (inl e) = rw (n, e) (_, refl, ground arith, λ j a b. ground arith)
    by_size n (inr (inl e)) = rw (n, e) (_, refl, ground arith, λ j a b. ground arith)
    by_size n (inr (inr (inl e))) = rw (n, e) (_, refl, ground arith, λ j a b. ground arith)
    by_size n (inr (inr (inr e))) = rw (n, e) (_, refl, ground arith, λ j a b. ground arith)

enable_step :
    (c d f : Bits) (idx mode size : ℕ)
    → set_mode (enable_bit c (idx * 2 + 1)) (16 + idx * 4) mode ≡ inr d
    → set_length d (16 + idx * 4) mode size ≡ inr f
    → enable_debug_ctrl_reg c idx mode size ≡ inr (disable_bits f 32 64)
unfolding enable_debug_ctrl_reg
enable_step c d f idx mode size e g = ground arith

pair : {a b c d : Bool} → a ≡ b → c ≡ d → ◌≡◌ {A = Bool × Bool} (a, c) (b, d)
pair p q = rw (p, q) refl

enabled_same : (c : Bits) (i : ℕ) → enable_bit c i i ≡ true
unfolding enable_bit
enabled_same c i = ground arith

enabled_other : (c : Bits) (i j : ℕ) → j ≢ i → enable_bit c i j ≡ c j
unfolding enable_bit
enabled_other c i j ne = ground arith

-- The lower half is where the slots are.
slot-cut : (f : Bits) (i : ℕ) → i < 4 → slot (disable_bits f 32 64) i ≡ slot f i
unfolding slot disable_bits
slot-cut f i lt = ground arith

upper_clear : (f : Bits) (j : ℕ) → 32 ≤ j → j < 64 → disable_bits f 32 64 j ≡ false
unfolding disable_bits
upper_clear f j a b = ground arith

slot_made :
    (f : Bits) (idx mode size : ℕ)
    → f (idx * 2 + 1) ≡ true
    → (f (16 + idx * 4), f (16 + idx * 4 + 1)) ≡ (encoded mode 1).rw
    → (f (16 + idx * 4 + 2), f (16 + idx * 4 + 3)) ≡ (encoded mode size).len
    → slot f idx ≡ encoded mode size
unfolding slot encoded
slot_made f idx mode size a b c = rw (a, b, c) refl

slot_kept :
    (c f : Bits) (idx i : ℕ)
    → ((j : ℕ)
        → j ≢ idx * 2 + 1
        → j ≢ 16 + idx * 4
        → j ≢ 16 + idx * 4 + 1
        → j ≢ 16 + idx * 4 + 2
        → j ≢ 16 + idx * 4 + 3
        → f j ≡ c j)
    → i < 4
    → idx < 4
    → i ≢ idx
    → slot f i ≡ slot c i
unfolding slot
slot_kept c f idx i same lt lt' ne =
    rw
      (
        same (i * 2 + 1) (omega arith) (omega arith) (omega arith) (omega arith) (omega arith),
        same (16 + i * 4) (omega arith) (omega arith) (omega arith) (omega arith) (omega arith),
        same (16 + i * 4 + 1) (omega arith) (omega arith) (omega arith) (omega arith) (omega arith),
        same (16 + i * 4 + 2) (omega arith) (omega arith) (omega arith) (omega arith) (omega arith),
        same (16 + i * 4 + 3) (omega arith) (omega arith) (omega arith) (omega arith) (omega arith),
      )
      refl

-- For a mode and a size that the register can express, enableDebugCtrlReg succeeds, the slot then
-- reads as the encoding of both, whatever it held before, every other of the four slots reads as
-- before, and the upper half is clear.
pub enable_debug_ctrl_reg-slot :
    (c : Bits) (idx mode size : ℕ)
    → idx < 4
    → Expressible mode size
    → (d : Bits) × (enable_debug_ctrl_reg c idx mode size ≡ inr d)
      × (slot d idx ≡ encoded mode size)
      × ((i : ℕ) → i < 4 → i ≢ idx → slot d i ≡ slot c i)
      × ((j : ℕ) → 32 ≤ j → j < 64 → d j ≡ false)
enable_debug_ctrl_reg-slot c idx mode size lt (m, s) =
    let b : Bits = enable_bit c (idx * 2 + 1) in
    let k : ℕ = 16 + idx * 4 in
    let (d, e, p, u) = mode_set b k mode m in
    let (f, g, q, v) = length_set d k mode size s in
    (
      disable_bits f 32 64,
      enable_step c d f idx mode size e g,
      slot-cut f idx lt
          ∙ slot_made f idx mode size
              (v _ (omega arith) (omega arith)
                ∙ u _ (omega arith) (omega arith)
                ∙ enabled_same c (idx * 2 + 1))
              (pair (v k (omega arith) (omega arith)) (v (k + 1) (omega arith) (omega arith)) ∙ p)
              q,
      (λ i a ne.
          slot-cut f i a
          ∙ slot_kept c f idx i
              (λ j n n0 n1 n2 n3. v j n2 n3 ∙ u j n0 n1 ∙ enabled_other c (idx * 2 + 1) j n) a lt
              ne),
      upper_clear f,
    )

-- disableDebugCtrlReg switches the slot off and leaves the three other slots as they were.
pub disable_debug_ctrl_reg-slot :
    (c : Bits) (idx : ℕ)
    → idx < 4
    → ((slot (disable_debug_ctrl_reg c idx) idx).on ≡ false)
      × ((i : ℕ) → i < 4 → i ≢ idx → slot (disable_debug_ctrl_reg c idx) i ≡ slot c i)
unfolding disable_debug_ctrl_reg disable_bits disable_bit slot
disable_debug_ctrl_reg-slot c idx lt = (ground arith, λ i a b. ground arith)
