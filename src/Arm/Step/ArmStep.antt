-- ===== src/Arm/Step/ArmStep.antt =====
-- PrepareARMSoftwareSingleStep of Sources/Architecture/ARM/SoftwareSingleStep.cpp.
use ds.Base.{ℕ, ◌*◌, ◌%◌, ◌^◌, Bool, true, false, not, ◌||◌, Option, none, some, if◌then◌else◌}
use ds.Errors.{unsupported}
use ds.Arm.{
  BranchType, b_i, bcc_i, bx_r, bl_i, blx_i, blx_r, mov_pc, ldr_pc, ldm_pc, pop_pc, sub_pc,
  BranchDisp, normal, lsl, BranchCond, al, BranchInfo, Decoded, no_branch, branch,
}
use ds.Arm.Arithmetic.{add32, neg32}
use ds.Arm.Decode.{arm_branch_info}
use ds.Arm.Step.{
  Cpu, Targets, Outcome, done, failed, undefined, ◌>>=◌, register, links, settle, fetch, aim,
}
use ds.Breakpoint.Software.{Memory}

-- `info.cond == kCondAL`
unfoldable pub is_always : BranchCond → Bool
is_always al = true
is_always other = false

-- MOV pc, by its mode.
unfoldable pub arm_move_target : Cpu → BranchInfo → BranchDisp → Outcome ℕ
arm_move_target cpu info normal = register cpu info.reg1
arm_move_target cpu info other = failed unsupported

-- The address that LDR loads the pc from, by its mode.
unfoldable pub arm_load_address : Cpu → BranchInfo → BranchDisp → ℕ → Outcome ℕ
arm_load_address cpu info lsl base = do
  offset ← register cpu info.reg2
  done (add32 base (offset * 2 ^ info.disp % 2 ^ 32))
arm_load_address cpu info normal base = elim info.reg2 [
  | none ↦ done (add32 base info.disp)
  | some r ↦ done (add32 (add32 base (cpu.regs r)) info.disp)
]
arm_load_address cpu info other base = failed unsupported

module _ (mem : Memory) (memory : mem.State) (pc : ℕ) (cpu : Cpu) where
  -- The switch on the type.
  unfoldable pub arm_switch : BranchInfo → BranchType → Targets → Outcome Targets
  unfolding arm_move_target arm_load_address
  arm_switch info b_i t = done (aim t (add32 pc info.disp) 4)
  arm_switch info bl_i t = done (aim t (add32 pc info.disp) 4)
  arm_switch info bcc_i t = done (aim t (add32 pc info.disp) 4)
  arm_switch info bx_r t = do target ← register cpu info.reg1; done (aim t target t.branch_size)
  arm_switch info blx_r t = do target ← register cpu info.reg1; done (aim t target t.branch_size)
  arm_switch info mov_pc t = do
    target ← arm_move_target cpu info info.mode
    done (aim t target t.branch_size)
  arm_switch info ldr_pc t = do
    base ← register cpu info.reg1
    address ← arm_load_address cpu info info.mode base
    target ← fetch mem memory address 4
    done (aim t target t.branch_size)
  arm_switch info ldm_pc t = do
    base ← register cpu info.reg1
    target ← fetch mem memory (add32 base info.disp) 4
    done (aim t target t.branch_size)
  arm_switch info pop_pc t = do
    base ← register cpu info.reg1
    target ← fetch mem memory (add32 base info.disp) 4
    done (aim t target t.branch_size)
  arm_switch info blx_i t = done (aim t (add32 pc info.disp) 2)
  arm_switch info sub_pc t = do
    base ← register cpu info.reg1
    done (aim t (add32 base (neg32 info.disp)) t.branch_size)
  arm_switch info other t = failed unsupported

  -- A branch; a type that nothing has set is indeterminate.
  unfoldable pub arm_branch : BranchInfo → Option BranchType → Targets → Outcome Targets
  unfolding arm_switch links is_always settle
  arm_branch info none t = undefined
  arm_branch info (some type) t =
      let linked = record t { link = links type } in
      let behind = record linked { next_pc = add32 pc 4; next_size = 4 } in
      do
        t' ←
            arm_switch info type
              (if not (is_always info.cond) || links type then behind else linked)
        done (settle t')

  unfoldable pub arm_found : Decoded → Targets → Outcome Targets
  unfolding arm_branch
  arm_found no_branch t = done (record t { next_pc = add32 pc 4; next_size = 4 })
  arm_found (branch info) t = arm_branch info info.type t
  arm_found Decoded.undefined t = undefined

  -- PrepareARMSoftwareSingleStep.
  unfoldable pub prepare_arm : Targets → Outcome Targets
  unfolding arm_found arm_branch_info
  prepare_arm t = do insn ← fetch mem memory pc 4; arm_found (arm_branch_info insn) t
