-- ===== src/Arm/Step/Skipped.antt =====
-- Sources/Architecture/ARM/SoftwareSingleStep.cpp: the loop over the instructions of an IT block.
use ds.Base.{
  ℕ, zero, suc, ◌+◌, ◌-◌, ◌*◌, ◌%◌, ◌<◌, ◌≤◌, ◌≡◌, ◌≢◌, refl, ap, ◌∙◌, ltb, lt→ltb, ◌==◌,
  if◌then◌else◌, arith,
}
use ds.Arm.Arithmetic.{field}
use ds.Arm.Thumb.{thumb_inst_size, ffs4}
use ds.Arm.Step.{done, undefined}
use ds.Arm.Step.ThumbStep.{skip_block}

-- How many instructions an IT instruction covers: the lowest bit of the mask that is set ends it.
abbrev pub covered : ℕ → ℕ
covered mask =
    if mask % 2 == 1 then 4 else if mask % 4 == 2 then 3 else if mask % 8 == 4 then 2 else 1

pub ffs4-covered : (mask : ℕ) → mask < 16 → mask ≢ 0 → 5 - ffs4 mask ≡ covered mask
unfolding ffs4
ffs4-covered mask h some_bit = ground arith

plus_zero : (a : ℕ) → a + 0 ≡ a
plus_zero a = omega arith

zero_plus : (a : ℕ) → 0 + a ≡ a
zero_plus a = omega arith

plus_assoc : (a b c : ℕ) → (a + b) + c ≡ a + (b + c)
plus_assoc a b c = omega arith

pub covered-bound : (mask : ℕ) → covered mask ≤ 4
covered-bound mask = ground arith

-- The bytes of so many instructions.
unfoldable pub block_length : ℕ → ℕ → ℕ → ℕ
unfolding thumb_inst_size
block_length zero block at = 0
block_length (suc n) block at =
    let size = thumb_inst_size (field block (at * 8) 16) in size + block_length n block (at + size)

inst_size-bounds : (h : ℕ) → (2 ≤ thumb_inst_size h) × (thumb_inst_size h ≤ 4)
unfolding thumb_inst_size
inst_size-bounds h = ground arith

pub block_length-bounds :
    (n block at : ℕ) → (2 * n ≤ block_length n block at) × (block_length n block at ≤ 4 * n)
unfolding block_length
block_length-bounds zero block at = (omega arith, omega arith)
block_length-bounds (suc n) block at =
    let size = thumb_inst_size (field block (at * 8) 16) in
    let (a, b) = inst_size-bounds (field block (at * 8) 16) in
    let (c, d) = block_length-bounds n block (at + size) in (omega arith, omega arith)

skip_block-length :
    (n block skip : ℕ)
    → skip + 4 * n ≤ 16
    → skip_block n block skip ≡ done (skip + block_length n block skip)
unfolding skip_block block_length
skip_block-length zero block skip h = ap done (omega arith)
skip_block-length (suc n) block skip h =
    let size = thumb_inst_size (field block (skip * 8) 16) in
    let (a, b) = inst_size-bounds (field block (skip * 8) 16) in
    rw (lt→ltb skip 16 (omega arith), skip_block-length n block (skip + size) (omega arith))
      (ap done (omega arith))

pub skip_block-all : (n block : ℕ) → n ≤ 4 → skip_block n block 0 ≡ done (block_length n block 0)
skip_block-all n block h = skip_block-length n block 0 (omega arith) ∙ ap done (omega arith)

-- One instruction more than are sure to be in the buffer.
skip_block-past :
    (n block skip : ℕ)
    → skip + 4 * n ≤ 16
    → skip_block (suc n) block skip ≡ (
        if ltb (skip + block_length n block skip) 16
        then done (skip + block_length (suc n) block skip)
        else undefined)
unfolding skip_block block_length
skip_block-past zero block skip h =
    let size = thumb_inst_size (field block (skip * 8) 16) in
    rw (plus_zero skip, plus_zero size) refl
skip_block-past (suc n) block skip h =
    let size = thumb_inst_size (field block (skip * 8) 16) in
    let (a, b) = inst_size-bounds (field block (skip * 8) 16) in
    rw (lt→ltb skip 16 (omega arith)) (
      skip_block-past n block (skip + size) (omega arith)
      ∙ rw
          (
            plus_assoc skip size (block_length n block (skip + size)),
            plus_assoc skip size (block_length (suc n) block (skip + size)),
          )
          refl)

pub skip_block-five :
    (block : ℕ)
    → skip_block 5 block 0
      ≡ (if ltb (block_length 4 block 0) 16 then done (block_length 5 block 0) else undefined)
skip_block-five block =
    skip_block-past 4 block 0 (omega arith)
    ∙ rw (zero_plus (block_length 4 block 0), zero_plus (block_length 5 block 0)) refl
