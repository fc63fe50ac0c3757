-- ===== src/Arm/Step.antt =====
-- Sources/Architecture/ARM/SoftwareSingleStep.cpp: what both instruction sets share. The next
-- instruction is computed from the current one, and a breakpoint goes wherever it may be. The
-- variables link, nextPC, nextPCSize, branchPC and branchPCSize are a record.
pub mod ThumbStep
pub mod ArmStep
pub mod Prepare
pub mod Sized
pub mod Added
pub mod Status
pub mod Kept
pub mod Skipped
pub mod Blocks
pub mod Placed
use ds.Base.{
  ℕ, ◌+◌, ◌-◌, ◌*◌, ◌/◌, ◌%◌, ◌^◌, ◌⊎◌, inl, inr, Bool, true, false, Option, none, some, List, [],
  ◌∷◌, Bytes, ◌==◌, if◌then◌else◌,
}
use ds.Errors.{ErrorCode}
use ds.Arm.{BranchType, bl_i, blx_i, blx_r}
use ds.Arm.Arithmetic.{add32}
use ds.Breakpoint.Software.{Memory}

-- ARM's CPUState as far as it is read here: gp.regs, whose last one is the pc, and isThumb.
pub record Cpu : Type 0 where
  pub regs : ℕ → ℕ
  pub thumb : Bool

pub record Targets : Type 0 where
  pub link : Bool
  pub next_pc : ℕ
  pub next_size : ℕ
  pub branch_pc : ℕ
  pub branch_size : ℕ

-- static_cast<uint32_t>(-1)
abbrev pub unset_pc : ℕ
unset_pc = 0xffffffff

abbrev pub no_targets : Targets
no_targets = record {
  link = false;
  next_pc = unset_pc;
  next_size = 0;
  branch_pc = unset_pc;
  branch_size = 0;
}

-- A result, an error code other than kSuccess, or undefined behaviour or a failed assertion.
pub data Outcome {ℓ} (A : Type ℓ) : Type ℓ where
  done : A → Outcome A
  failed : ErrorCode → Outcome A
  undefined : Outcome A

-- CHK: an error is returned at once.
infixl 5 ◌>>=◌
abbrev pub ◌>>=◌ {ℓ κ} : {A : Type ℓ} {B : Type κ} → Outcome A → (A → Outcome B) → Outcome B
done a >>= f = f a
failed error >>= f = failed error
undefined >>= f = undefined

unfoldable pub little_endian : Bytes → ℕ
little_endian [] = 0
little_endian (b ∷ bytes) = b + 256 * little_endian bytes

-- state.gp.regs[r]; an index of -1 is outside the array.
abbrev pub register : Cpu → Option ℕ → Outcome ℕ
register cpu none = undefined
register cpu (some r) = done (cpu.regs r)

-- The branches that keep a return address.
unfoldable pub links : BranchType → Bool
links bl_i = true
links blx_i = true
links blx_r = true
links other = false

-- Utils::Align with an alignment of a power of two.
unfoldable pub align_up : ℕ → ℕ → ℕ
align_up number alignment = add32 number (alignment - 1) / alignment * alignment

-- A target with its size known.
abbrev pub aim : Targets → ℕ → ℕ → Targets
aim t pc size = record t { branch_pc = pc; branch_size = size }

-- With no size chosen before, the lowest bit of the target tells Thumb from ARM.
unfoldable pub settle : Targets → Targets
settle t =
    if t.branch_size == 0
    then record t {
      branch_size = if t.branch_pc % 2 == 1 then 2 else 4;
      branch_pc = t.branch_pc - t.branch_pc % 2;
    }
    else t

-- process->readMemory into an integer of so many bytes.
module _ (mem : Memory) where
  abbrev pub fetch : mem.State → ℕ → ℕ → Outcome ℕ
  unfolding little_endian
  fetch memory address size = elim (mem.read memory address size) [
    | inl error ↦ failed error
    | inr bytes ↦ done (little_endian bytes)
  ]
