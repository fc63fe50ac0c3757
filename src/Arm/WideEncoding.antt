-- ===== src/Arm/WideEncoding.antt =====
-- An encoder of B.W and BL for Sources/Architecture/ARM/ThumbBranchInfo.cpp, and what
-- MakeT2BranchDisp makes of its fields.
use ds.Base.{ℕ, ◌+◌, ◌-◌, ◌*◌, ◌%◌, ◌^◌, ◌<◌, ◌≤◌, ◌≡◌, ◌⊎◌, ◌==◌, if◌then◌else◌, arith}
use ds.Arm.Arithmetic.{field, add32, sign_ext}
use ds.Arm.Thumb.{make_t2_branch_disp, wide_disp}

pub below_two : (n : ℕ) → n < 2 → (n ≡ 0) ⊎ (n ≡ 1)
below_two n h = ground arith

-- The distance from the place that pc stands for to the target.
abbrev pub distance : ℕ → ℕ → ℕ
distance pc target = (target + 2 * 2 ^ 32 - (pc + 4)) % 2 ^ 32

-- A signed number of 25 bits that is even.
abbrev pub IsNear : ℕ → Type 0
IsNear d = (d % 2 ≡ 0) × (d < 2 ^ 32) × ((d < 2 ^ 24) ⊎ (2 ^ 32 - 2 ^ 24 ≤ d))

-- J1 and J2 are NOT (I1 EOR S) and NOT (I2 EOR S).
abbrev coded : ℕ → ℕ → ℕ
coded i s = (i + s + 1) % 2

-- The halfwords of B.W (link 0) and BL (link 1) with a distance.
abbrev pub wide_high : ℕ → ℕ
wide_high d = 0xf000 + field d 24 1 * 2 ^ 10 + field d 12 10

abbrev pub wide_low : ℕ → ℕ → ℕ
wide_low link d =
    2 ^ 15
    + link * 2 ^ 14
    + coded (field d 23 1) (field d 24 1) * 2 ^ 13
    + 2 ^ 12
    + coded (field d 22 1) (field d 24 1) * 2 ^ 11
    + field d 1 11

pub high-fields :
    (d : ℕ)
    → (field (wide_high d) 11 5 ≡ 0x1e)
      × (field (wide_high d) 10 1 ≡ field d 24 1)
      × (field (wide_high d) 0 10 ≡ field d 12 10)
high-fields d = (omega arith, omega arith, omega arith)

pub low-fields :
    (link d : ℕ)
    → link < 2
    → (field (wide_low link d) 14 2 ≡ 2 + link)
      × (field (wide_low link d) 12 1 ≡ 1)
      × (field (wide_low link d) 13 1 ≡ coded (field d 23 1) (field d 24 1))
      × (field (wide_low link d) 11 1 ≡ coded (field d 22 1) (field d 24 1))
      × (field (wide_low link d) 0 11 ≡ field d 1 11)
low-fields link d l = (omega arith, omega arith, omega arith, omega arith, omega arith)

uncoded : (i s : ℕ) → i < 2 → s < 2 → (if coded i s == s then 1 else 0) ≡ i
uncoded i s h k = ground arith

rejoined :
    (d : ℕ)
    → IsNear d
    → sign_ext
        ((((((field d 24 1 * 2 + field d 23 1) * 2 + field d 22 1) * 2 ^ 10 + field d 12 10)
              * 2 ^ 11
            + field d 1 11)
          * 2 ^ 1))
        25
      ≡ d
rejoined d (even, bound, near) = ground arith

pub there :
    (pc target : ℕ)
    → pc < 2 ^ 32
    → target < 2 ^ 32
    → add32 pc (add32 (distance pc target) 4) ≡ target
there pc target p t = omega arith

pub wide_disp-distance :
    (link d : ℕ)
    → link < 2
    → IsNear d
    → wide_disp (wide_high d) (wide_low link d) 11 (field (wide_low link d) 0 11) 1 ≡ d
unfolding wide_disp make_t2_branch_disp
wide_disp-distance link d l near =
    let (_, s, imm_h) = high-fields d in
    let (_, _, j1, j2, imm_l) = low-fields link d l in
    rw
      (
        s,
        imm_h,
        j1,
        j2,
        imm_l,
        uncoded (field d 23 1) (field d 24 1) (omega arith) (omega arith),
        uncoded (field d 22 1) (field d 24 1) (omega arith) (omega arith),
      )
      (rejoined d near)
