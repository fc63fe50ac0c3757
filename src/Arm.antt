-- ===== src/Arm.antt =====
-- Headers/DebugServer2/Architecture/ARM/Branching.h: what is decoded of an instruction that may change
-- the program counter. An int32_t is its bit pattern, a number below 2 ^ 32.
pub mod Arithmetic
pub mod Decode
pub mod Thumb
pub mod Step
pub mod Breakpoints
pub mod Branches
pub mod WideEncoding
pub mod WideBranches
pub mod Examples
use ds.Base.{ℕ, Bool, false, Option, none, List, [], ◌∷◌, get_or}

pub data BranchType : Type 0 where
  no_type b_i bcc_i cb_i bx_r bl_i blx_i blx_r mov_pc ldr_pc ldm_pc pop_pc sub_pc tbb tbh :
      BranchType
  adc_pc add_pc and_pc bic_pc eor_pc orr_pc rsb_pc rsc_pc sbc_pc mvn_pc asr_pc lsl_pc lsr_pc
        ror_pc :
      BranchType
  rrx_pc : BranchType

pub data BranchDisp : Type 0 where
  normal lsl lsr asr ror rrx : BranchDisp

pub data BranchCond : Type 0 where
  eq ne cs cc mi pl vs vc hi ls ge lt le gt al nv : BranchCond

-- static_cast<BranchCond> of a number of four bits.
unfoldable pub cond_of : ℕ → BranchCond
cond_of n =
    get_or
      (eq ∷ ne ∷ cs ∷ BranchCond.cc ∷ mi ∷ pl ∷ vs ∷ vc ∷ hi ∷ ls ∷ ge ∷ lt ∷ le ∷ gt ∷ al ∷ []) n
      nv

-- `type` is `none` until a statement sets it; a register of -1 is `none`. The members of the union,
-- of which ARM uses `subt` and Thumb the other two, are fields.
pub record BranchInfo : Type 0 where
  pub it : Bool
  pub it_count : ℕ
  pub subt : Bool
  pub type : Option BranchType
  pub cond : BranchCond
  pub mode : BranchDisp
  pub reg1 : Option ℕ
  pub reg2 : Option ℕ
  pub disp : ℕ
  pub align : ℕ

-- The outcome of a decoder: whether it knows the instruction, or has undefined behaviour.
pub data Decoded : Type 0 where
  no_branch : Decoded
  branch : BranchInfo → Decoded
  undefined : Decoded

-- `a || b`
unfoldable pub or_else : Decoded → Decoded → Decoded
or_else no_branch d = d
or_else (branch info) d = branch info
or_else undefined d = undefined
