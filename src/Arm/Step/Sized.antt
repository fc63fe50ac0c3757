-- ===== src/Arm/Step/Sized.antt =====
-- Sources/Architecture/ARM/SoftwareSingleStep.cpp: which sizes the two functions leave behind.
use ds.Base.{ℕ, ◌≡◌, refl, Bool, true, ◌||◌, Option, none, some, ◌==◌, not, if_both, arith}
use ds.Arm.{
  BranchType, no_type, b_i, bcc_i, cb_i, bx_r, bl_i, blx_i, blx_r, mov_pc, ldr_pc, ldm_pc, pop_pc,
  sub_pc, tbb, tbh, BranchInfo, Decoded, no_branch, branch,
}
use ds.Arm.Arithmetic.{field, add32}
use ds.Arm.Step.{
  Cpu, Targets, unset_pc, no_targets, Outcome, done, failed, undefined, ◌>>=◌, links, register,
  settle, aim, fetch,
}
use ds.Arm.Step.ThumbStep.{
  thumb_switch, thumb_table, thumb_load_address, thumb_branch, thumb_found, after_block, skip_block,
  prepare_thumb, may_fall_through,
}
use ds.Arm.Step.ArmStep.{
  arm_switch, arm_move_target, arm_load_address, arm_branch, arm_found, prepare_arm, is_always,
}
use ds.Breakpoint.Software.{Memory}

-- What holds of a result, if there is one.
abbrev pub OnDone {ℓ κ} : {A : Type ℓ} → (A → Type κ) → Outcome A → Type κ
OnDone P (done a) = P a
OnDone P (failed error) = Unit
OnDone P undefined = Unit

pub OnDone-bind {ℓ κ ι} :
    {A : Type ℓ} {B : Type κ} (P : B → Type ι) (o : Outcome A) (f : A → Outcome B)
    → ((a : A) → OnDone P (f a))
    → OnDone P (o >>= f)
OnDone-bind P (done a) f h = h a
OnDone-bind P (failed error) f h = tt
OnDone-bind P undefined f h = tt

abbrev pub is_size : ℕ → Bool
is_size size = size == 2 || size == 4

-- The next instruction's address has a size if it is set.
abbrev NextIsSized : Targets → Type 0
NextIsSized t = (t.next_pc == unset_pc || is_size t.next_size) ≡ true

-- So do both addresses, and one of them is set.
abbrev pub IsSized : Targets → Type 0
IsSized t =
    NextIsSized t
    × ((t.branch_pc == unset_pc || is_size t.branch_size) ≡ true)
    × ((is_size t.next_size || is_size t.branch_size) ≡ true)

-- What the switch leaves: no size yet, or a good one.
abbrev IsAimed : Targets → Type 0
IsAimed t = NextIsSized t × ((t.branch_size == 0 || is_size t.branch_size) ≡ true)

settle-IsSized : (t : Targets) → IsAimed t → IsSized (settle t)
unfolding settle
settle-IsSized t (next, size) = ground arith

settled : (o : Outcome Targets) → OnDone IsAimed o → OnDone IsSized (o >>= λ t. done (settle t))
settled (done t) h = settle-IsSized t h
settled (failed error) h = tt
settled undefined h = tt

module _ (mem : Memory) (memory : mem.State) (pc : ℕ) (cpu : Cpu) where
  thumb_table-IsAimed :
      (info : BranchInfo) (size : ℕ) (t : Targets)
      → NextIsSized t
      → OnDone IsAimed (thumb_table mem memory pc cpu info size t)
  unfolding thumb_table
  thumb_table-IsAimed info size t h = OnDone-bind IsAimed (register cpu info.reg1) _ λ base.
      OnDone-bind IsAimed (register cpu info.reg2) _
        λ index. OnDone-bind IsAimed (fetch mem memory _ size) _ λ offset. (h, refl)

  loaded :
      (info : BranchInfo) (t : Targets)
      → IsAimed t
      → OnDone IsAimed (do
        base ← register cpu info.reg1
        target ← fetch mem memory (add32 base info.disp) 4
        done (aim t target t.branch_size))
  loaded info t h =
      OnDone-bind IsAimed (register cpu info.reg1) _
        λ base. OnDone-bind IsAimed (fetch mem memory (add32 base info.disp) 4) _ λ target. h

  thumb_switch-IsAimed :
      (info : BranchInfo) (type : BranchType) (t : Targets)
      → IsAimed t
      → OnDone IsAimed (thumb_switch mem memory pc cpu info type t)
  unfolding thumb_switch
  thumb_switch-IsAimed info no_type t h = h
  thumb_switch-IsAimed info b_i t (h, z) = (h, refl)
  thumb_switch-IsAimed info bl_i t (h, z) = (h, refl)
  thumb_switch-IsAimed info bcc_i t (h, z) = (h, refl)
  thumb_switch-IsAimed info cb_i t (h, z) = (h, refl)
  thumb_switch-IsAimed info bx_r t h = OnDone-bind IsAimed (register cpu info.reg1) _ λ target. h
  thumb_switch-IsAimed info blx_r t h = OnDone-bind IsAimed (register cpu info.reg1) _ λ target. h
  thumb_switch-IsAimed info mov_pc t h = OnDone-bind IsAimed (register cpu info.reg1) _ λ target. h
  thumb_switch-IsAimed info ldr_pc t h = OnDone-bind IsAimed (register cpu info.reg1) _ λ base.
      OnDone-bind IsAimed (thumb_load_address cpu info base) _
        λ address. OnDone-bind IsAimed (fetch mem memory address 4) _ λ target. h
  thumb_switch-IsAimed info ldm_pc t h = loaded info t h
  thumb_switch-IsAimed info pop_pc t h = loaded info t h
  thumb_switch-IsAimed info blx_i t (h, z) = (h, refl)
  thumb_switch-IsAimed info sub_pc t h = OnDone-bind IsAimed (register cpu info.reg1) _ λ base. h
  thumb_switch-IsAimed info tbb t (h, z) = thumb_table-IsAimed info 1 t h
  thumb_switch-IsAimed info tbh t (h, z) = thumb_table-IsAimed info 2 t h
  thumb_switch-IsAimed info other t h = tt

  arm_switch-IsAimed :
      (info : BranchInfo) (type : BranchType) (t : Targets)
      → IsAimed t
      → OnDone IsAimed (arm_switch mem memory pc cpu info type t)
  unfolding arm_switch
  arm_switch-IsAimed info b_i t (h, z) = (h, refl)
  arm_switch-IsAimed info bl_i t (h, z) = (h, refl)
  arm_switch-IsAimed info bcc_i t (h, z) = (h, refl)
  arm_switch-IsAimed info bx_r t h = OnDone-bind IsAimed (register cpu info.reg1) _ λ target. h
  arm_switch-IsAimed info blx_r t h = OnDone-bind IsAimed (register cpu info.reg1) _ λ target. h
  arm_switch-IsAimed info mov_pc t h =
      OnDone-bind IsAimed (arm_move_target cpu info info.mode) _ λ target. h
  arm_switch-IsAimed info ldr_pc t h = OnDone-bind IsAimed (register cpu info.reg1) _ λ base.
      OnDone-bind IsAimed (arm_load_address cpu info info.mode base) _
        λ address. OnDone-bind IsAimed (fetch mem memory address 4) _ λ target. h
  arm_switch-IsAimed info ldm_pc t h = loaded info t h
  arm_switch-IsAimed info pop_pc t h = loaded info t h
  arm_switch-IsAimed info blx_i t (h, z) = (h, refl)
  arm_switch-IsAimed info sub_pc t h = OnDone-bind IsAimed (register cpu info.reg1) _ λ base. h
  arm_switch-IsAimed info other t h = tt

  thumb_branch-IsSized :
      (insn : ℕ) (info : BranchInfo) (type : Option BranchType) (t : Targets)
      → IsAimed t
      → OnDone IsSized (thumb_branch mem memory pc cpu insn info type t)
  unfolding thumb_branch
  thumb_branch-IsSized insn info none t h = tt
  thumb_branch-IsSized insn info (some type) t h = settled _ (
      thumb_switch-IsAimed info type _
        (if_both IsAimed (may_fall_through type) (ground arith, h.1) h))

  thumb_found-IsSized :
      (insn : ℕ) (found : Option BranchInfo)
      → OnDone IsSized (thumb_found mem memory pc cpu insn found no_targets)
  unfolding thumb_found after_block
  thumb_found-IsSized insn none = (ground arith, refl, refl)
  thumb_found-IsSized insn (some info) =
      if_both (OnDone IsSized) info.it
        (OnDone-bind IsSized (fetch mem memory (add32 pc 2) 16) _ λ block.
          OnDone-bind IsSized (skip_block info.it_count block 0) _
            λ skip. (ground arith, refl, refl))
        (thumb_branch-IsSized insn info info.type no_targets (refl, refl))

  -- Each address that PrepareThumbSoftwareSingleStep sets has a size of 2 or 4, and it sets at least
  -- one.
  pub prepare_thumb-IsSized : OnDone IsSized (prepare_thumb mem memory pc cpu no_targets)
  unfolding prepare_thumb
  prepare_thumb-IsSized =
      OnDone-bind IsSized (fetch mem memory pc 8) _
        λ insns. thumb_found-IsSized (field insns 0 32) _

  arm_branch-IsSized :
      (info : BranchInfo) (type : Option BranchType) (t : Targets)
      → IsAimed t
      → OnDone IsSized (arm_branch mem memory pc cpu info type t)
  unfolding arm_branch
  arm_branch-IsSized info none t h = tt
  arm_branch-IsSized info (some type) t h = settled _ (
      arm_switch-IsAimed info type _
        (if_both IsAimed (not (is_always info.cond) || links type) (ground arith, h.1) h))

  arm_found-IsSized :
      (decoded : Decoded) → OnDone IsSized (arm_found mem memory pc cpu decoded no_targets)
  unfolding arm_found
  arm_found-IsSized no_branch = (ground arith, refl, refl)
  arm_found-IsSized (branch info) = arm_branch-IsSized info info.type no_targets (refl, refl)
  arm_found-IsSized Decoded.undefined = tt

  -- Each address that PrepareARMSoftwareSingleStep sets has a size of 2 or 4, and it sets at least one.
  pub prepare_arm-IsSized : OnDone IsSized (prepare_arm mem memory pc cpu no_targets)
  unfolding prepare_arm
  prepare_arm-IsSized = OnDone-bind IsSized (fetch mem memory pc 4) _ λ insn. arm_found-IsSized _
