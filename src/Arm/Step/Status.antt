-- ===== src/Arm/Step/Status.antt =====
-- Sources/Architecture/ARM/ARMBranchInfo.cpp and SoftwareSingleStep.cpp of the same directory: the
-- step over data-processing instructions that have no result but the flags, and over their space.
use ds.Base.{ℕ, ◌≡◌, refl, Option, none, some, ==_ne, arith}
use ds.Arm.{BranchType, Decoded, no_branch, or_else}
use ds.Arm.Arithmetic.{field}
use ds.Arm.Decode.{
  fresh_info, get_b, get_bx, alu_type, alu_immediate, expand_modified_immediate, get_alu_pc,
  arm_branch_info,
}
use ds.Arm.Step.{Cpu, no_targets, undefined, done, fetch}
use ds.Arm.Step.ArmStep.{arm_branch, arm_found, prepare_arm}
use ds.Breakpoint.Software.{Memory}

alu_type-status :
    (insn : ℕ) (type : Option BranchType)
    → field insn 23 2 ≡ 2
    → alu_type (field insn 21 4) type ≡ type
unfolding alu_type
alu_type-status insn type f =
    rw
      (
        ==_ne (field insn 21 4) 0 (omega arith),
        ==_ne (field insn 21 4) 1 (omega arith),
        ==_ne (field insn 21 4) 2 (omega arith),
        ==_ne (field insn 21 4) 3 (omega arith),
        ==_ne (field insn 21 4) 4 (omega arith),
        ==_ne (field insn 21 4) 5 (omega arith),
        ==_ne (field insn 21 4) 6 (omega arith),
        ==_ne (field insn 21 4) 7 (omega arith),
        ==_ne (field insn 21 4) 12 (omega arith),
        ==_ne (field insn 21 4) 13 (omega arith),
        ==_ne (field insn 21 4) 14 (omega arith),
        ==_ne (field insn 21 4) 15 (omega arith),
      )
      refl

get_b-immediate : (insn : ℕ) → field insn 25 3 ≡ 1 → get_b insn fresh_info ≡ no_branch
unfolding get_b
get_b-immediate insn f = rw f refl

get_bx-immediate : (insn : ℕ) → field insn 25 3 ≡ 1 → get_bx insn fresh_info ≡ no_branch
unfolding get_bx
get_bx-immediate insn f = rw (==_ne (field insn 6 22) 0x4bffc (omega arith)) refl

get_alu_pc-immediate :
    (insn : ℕ)
    → field insn 25 3 ≡ 1
    → field insn 12 4 ≡ 15
    → get_alu_pc insn fresh_info
      ≡ alu_immediate insn fresh_info (expand_modified_immediate (field insn 0 12))
unfolding get_alu_pc
get_alu_pc-immediate insn f r = rw (f, r) refl

module _ (mem : Memory) (memory : mem.State) (pc : ℕ) (cpu : Cpu) where
  alu_immediate-status :
      (insn : ℕ) (constant : Option ℕ) (other : Decoded)
      → field insn 23 2 ≡ 2
      → arm_found mem memory pc cpu
          (or_else (alu_immediate insn fresh_info constant) other)
          no_targets
        ≡ undefined
  unfolding arm_found alu_immediate or_else arm_branch
  alu_immediate-status insn none other f = refl
  alu_immediate-status insn (some disp) other f = rw (alu_type-status insn none f) refl

  -- A single step in ARM state at a data-processing instruction with a constant, an opcode of 8 to 11
  -- and 15 where the register of the result would be, as NOP (0xe320f000), WFI, MSR with a constant and
  -- the old forms of TST, TEQ, CMP and CMN have it: the behaviour is undefined, since the instruction is
  -- taken for a branch whose type nothing sets, or since a constant without a rotation is shifted by 32.
  pub prepare_arm-status :
      (insn : ℕ)
      → field insn 25 3 ≡ 1
      → field insn 23 2 ≡ 2
      → field insn 12 4 ≡ 15
      → fetch mem memory pc 4 ≡ done insn
      → prepare_arm mem memory pc cpu no_targets ≡ undefined
  unfolding prepare_arm arm_branch_info
  prepare_arm-status insn f o r read =
      rw (read, get_b-immediate insn f, get_bx-immediate insn f, get_alu_pc-immediate insn f r)
        (alu_immediate-status insn (expand_modified_immediate (field insn 0 12)) _ o)
