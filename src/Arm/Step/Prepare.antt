-- ===== src/Arm/Step/Prepare.antt =====
-- PrepareSoftwareSingleStep of Sources/Architecture/ARM/SoftwareSingleStep.cpp: a one-shot breakpoint
-- goes to each place where the next instruction may be.
use ds.Base.{ℕ, ◌%◌, ◌^◌, ◌⊎◌, Option, none, some, ◌==◌, if◌then◌else◌, ◌>>=◌}
use ds.Errors.{ErrorCode, success}
use ds.Arm.Step.{Cpu, Targets, unset_pc, no_targets, Outcome, done, failed, undefined}
use ds.Arm.Step.ThumbStep.{prepare_thumb}
use ds.Arm.Step.ArmStep.{prepare_arm}
use ds.Arm.Breakpoints.{arm_add}
use ds.Breakpoint.Sites.{Address, unset, at, lifetime_one_shot}
use ds.Breakpoint.Manager.{Manager, Returned, code}
use ds.Breakpoint.Software.{Memory, Software}

-- `address.valid() ? address.value() : state.pc()`, as a uint32_t.
unfoldable pub start_pc : Cpu → Address → ℕ
start_pc cpu unset = cpu.regs 15
start_pc cpu (at a) = a % 2 ^ 32

module _ (mem : Memory) (read_cpu_state : mem.State → ErrorCode ⊎ Cpu) where
  -- Where the next instruction may be.
  unfoldable pub targets : mem.State → Cpu → Address → Outcome Targets
  unfolding prepare_thumb prepare_arm start_pc
  targets memory cpu address =
      if cpu.thumb
      then prepare_thumb mem memory (start_pc cpu address) cpu no_targets
      else prepare_arm mem memory (start_pc cpu address) cpu no_targets

  -- A target that is set must have a size.
  unfoldable pub place : Manager (Software mem) → ℕ → ℕ → Option (Manager (Software mem) × Returned)
  unfolding arm_add
  place m pc size =
      if pc == unset_pc
      then some (m, code success)
      else if size == 0
      then none
      else arm_add mem read_cpu_state m (at pc) lifetime_one_shot size 1

  -- The breakpoint behind the instruction, once the one at the branch's target is there.
  unfoldable pub place_next :
      Targets → Manager (Software mem) × Returned → Option (Manager (Software mem) × Returned)
  unfolding place
  place_next t (m, code success) = place m t.next_pc t.next_size
  place_next t (m, result) = some (m, result)

  unfoldable pub place_targets :
      Manager (Software mem) → Outcome Targets → Option (Manager (Software mem) × Returned)
  unfolding place place_next
  place_targets m undefined = none
  place_targets m (failed error) = some (m, code error)
  place_targets m (done t) = do
    (m', result) ← place m t.branch_pc t.branch_size
    place_next t (m', result)

  -- PrepareSoftwareSingleStep; `none` is undefined behaviour or a failed assertion.
  unfoldable pub prepare :
      Manager (Software mem) → Cpu → Address → Option (Manager (Software mem) × Returned)
  unfolding targets place_targets
  prepare m cpu address = place_targets m (targets m.rest.memory cpu address)
