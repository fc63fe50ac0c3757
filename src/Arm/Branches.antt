-- ===== src/Arm/Branches.antt =====
-- Sources/Architecture/ARM/ARMBranchInfo.cpp and SoftwareSingleStep.cpp of the same directory: an
-- encoder of B and BL, and the single step over them.
use ds.Base.{
  ℕ, ◌+◌, ◌-◌, ◌*◌, ◌/◌, ◌%◌, ◌^◌, ◌<◌, ◌≤◌, ◌≡◌, ◌⊎◌, refl, ◌∙◌, Bool, true, false, ◌==◌, ==_ne,
  not, ◌||◌, some, passes_under, passes_under-at, if◌then◌else◌, arith,
}
use ds.Arm.{b_i, bl_i, cond_of, BranchInfo, branch, or_else}
use ds.Arm.Arithmetic.{field, add32, sign_ext}
use ds.Arm.Decode.{fresh_info, get_b, arm_branch_info}
use ds.Arm.Step.{Cpu, no_targets, unset_pc, done, links, settle, fetch}
use ds.Arm.Step.ArmStep.{is_always, arm_switch, arm_branch, arm_found, prepare_arm}
use ds.Breakpoint.Software.{Memory}

-- The distance from the place that pc stands for, two instructions on, to the target.
abbrev distance : ℕ → ℕ → ℕ
distance pc target = (target + 2 * 2 ^ 32 - (pc + 8)) % 2 ^ 32

-- B (link 0) or BL (link 1) with a condition.
abbrev arm_b : ℕ → ℕ → ℕ → ℕ → ℕ
arm_b cond link pc target =
    cond * 2 ^ 28 + 5 * 2 ^ 25 + link * 2 ^ 24 + distance pc target / 4 % 2 ^ 24

-- A signed number of 26 bits that is a multiple of four.
abbrev IsReachable : ℕ → ℕ → Type 0
IsReachable pc target =
    (distance pc target % 4 ≡ 0)
    × ((distance pc target < 2 ^ 25) ⊎ (2 ^ 32 - 2 ^ 25 ≤ distance pc target))

arm_b-fields :
    (cond link i : ℕ)
    → cond < 16
    → link < 2
    → i < 2 ^ 24
    → (field (cond * 2 ^ 28 + 5 * 2 ^ 25 + link * 2 ^ 24 + i) 25 3 ≡ 5)
      × (field (cond * 2 ^ 28 + 5 * 2 ^ 25 + link * 2 ^ 24 + i) 24 1 ≡ link)
      × (field (cond * 2 ^ 28 + 5 * 2 ^ 25 + link * 2 ^ 24 + i) 28 4 ≡ cond)
      × (field (cond * 2 ^ 28 + 5 * 2 ^ 25 + link * 2 ^ 24 + i) 0 24 ≡ i)
arm_b-fields cond link i c l h = (omega arith, omega arith, omega arith, omega arith)

back :
    (d : ℕ)
    → (d % 4 ≡ 0)
    → ((d < 2 ^ 25) ⊎ (2 ^ 32 - 2 ^ 25 ≤ d))
    → d < 2 ^ 32
    → sign_ext (d / 4 % 2 ^ 24 * 4 + 0) 26 ≡ d
back d z h b = ground arith

there :
    (pc target : ℕ)
    → pc < 2 ^ 32
    → target < 2 ^ 32
    → add32 pc (add32 (distance pc target) 8) ≡ target
there pc target p t = omega arith

-- The condition 14 is AL.
same : Bool → Bool → Bool
same true b = b
same false b = not b

same-eq : (a b : Bool) → same a b ≡ true → a ≡ b
unfolding same
same-eq a b h = ground arith

always_table : passes_under (λ c. same (is_always (cond_of c)) (c == 14)) 15 ≡ true
unfolding passes_under same is_always cond_of
always_table = refl

is_always-cond_of : (cond : ℕ) → cond < 15 → is_always (cond_of cond) ≡ (cond == 14)
is_always-cond_of cond h = same-eq _ _ (passes_under-at _ 15 cond h always_table)

-- What decoding gives.
abbrev arm_b_info : ℕ → ℕ → ℕ → BranchInfo
arm_b_info cond link d = record fresh_info {
  cond = cond_of cond;
  type = some (if link == 1 then bl_i else b_i);
  disp = add32 d 8;
}

get_b-fields :
    (insn cond link i : ℕ)
    → cond < 15
    → field insn 25 3 ≡ 5
    → field insn 24 1 ≡ link
    → field insn 28 4 ≡ cond
    → field insn 0 24 ≡ i
    → get_b insn fresh_info ≡ branch (arm_b_info cond link (sign_ext (i * 4 + 0) 26))
unfolding get_b
get_b-fields insn cond link i c f l k h = rw (f, l, k, h, ==_ne cond 15 (omega arith)) refl

arm_branch_info-arm_b :
    (cond link pc target : ℕ)
    → cond < 15
    → link < 2
    → IsReachable pc target
    → arm_branch_info (arm_b cond link pc target)
      ≡ branch (arm_b_info cond link (distance pc target))
unfolding arm_branch_info or_else
arm_branch_info-arm_b cond link pc target c l (whole, near) =
    let d = distance pc target in
    let (f, k, h, i) = arm_b-fields cond link (d / 4 % 2 ^ 24) (omega arith) l (omega arith) in
    rw
      (
        get_b-fields (arm_b cond link pc target) cond link _ c f k h i,
        back d whole near (omega arith),
      )
      refl

module _ (mem : Memory) (memory : mem.State) (pc : ℕ) (cpu : Cpu) where
  direct :
      (linked always : Bool) (info : BranchInfo)
      → is_always info.cond ≡ always
      → arm_branch mem memory pc cpu info (some (if linked then bl_i else b_i)) no_targets
        ≡ done (record {
          link = linked;
          next_pc = if not always || linked then add32 pc 4 else unset_pc;
          next_size = if not always || linked then 4 else 0;
          branch_pc = add32 pc info.disp;
          branch_size = 4;
        })
  unfolding arm_branch arm_switch links settle
  direct true true info h = rw h refl
  direct true false info h = rw h refl
  direct false true info h = rw h refl
  direct false false info h = rw h refl

  -- A single step in ARM state over a B or BL, whatever its condition (of 0 to 14) and its target (a
  -- distance of a multiple of four within 32 MB): the branch's target is found again, as ARM code;
  -- the next instruction is a target too unless the branch is always taken and no call; a BL links.
  pub prepare_arm-arm_b :
      (cond link target : ℕ)
      → pc < 2 ^ 32
      → target < 2 ^ 32
      → cond < 15
      → link < 2
      → IsReachable pc target
      → fetch mem memory pc 4 ≡ done (arm_b cond link pc target)
      → prepare_arm mem memory pc cpu no_targets
        ≡ done (record {
          link = link == 1;
          next_pc = if not (cond == 14) || link == 1 then add32 pc 4 else unset_pc;
          next_size = if not (cond == 14) || link == 1 then 4 else 0;
          branch_pc = target;
          branch_size = 4;
        })
  unfolding prepare_arm arm_found
  prepare_arm-arm_b cond link target p t c l near read =
      let d = distance pc target in
      rw (read, arm_branch_info-arm_b cond link pc target c l near)
        (direct (link == 1) (cond == 14) (arm_b_info cond link d) (is_always-cond_of cond c)
          ∙ rw (there pc target p t) refl)
