-- ===== src/Arm/Step/ThumbStep.antt =====
-- PrepareThumbSoftwareSingleStep of Sources/Architecture/ARM/SoftwareSingleStep.cpp.
use ds.Base.{
  ℕ, zero, suc, ◌+◌, ◌*◌, ◌%◌, ◌^◌, Bool, true, false, Option, none, some, ◌==◌, ltb, if◌then◌else◌,
}
use ds.Errors.{unsupported}
use ds.Arm.{
  BranchType, no_type, b_i, bcc_i, cb_i, bx_r, bl_i, blx_i, blx_r, mov_pc, ldr_pc, ldm_pc, pop_pc,
  sub_pc, tbb, tbh, BranchDisp, lsl, BranchInfo,
}
use ds.Arm.Arithmetic.{field, add32, neg32, sign_ext}
use ds.Arm.Thumb.{thumb_inst_size, thumb_branch_info}
use ds.Arm.Step.{
  Cpu, Targets, Outcome, done, failed, undefined, ◌>>=◌, register, links, align_up, settle, fetch,
  aim,
}
use ds.Breakpoint.Software.{Memory}

-- The loop over the instructions of an IT block, in a buffer of eight halfwords.
unfoldable pub skip_block : ℕ → ℕ → ℕ → Outcome ℕ
unfolding thumb_inst_size
skip_block zero block skip = done skip
skip_block (suc n) block skip =
    let rest = skip_block n block (skip + thumb_inst_size (field block (skip * 8) 16)) in
    if ltb skip 16 then rest else undefined

-- `info.mode == kBranchDispLSL`
is_lsl : BranchDisp → Bool
is_lsl lsl = true
is_lsl other = false

-- The conditional branches and the calls go on behind the instruction too.
unfoldable pub may_fall_through : BranchType → Bool
unfolding links
may_fall_through bcc_i = true
may_fall_through cb_i = true
may_fall_through type = links type

-- The address that LDR loads the pc from.
unfoldable pub thumb_load_address : Cpu → BranchInfo → ℕ → Outcome ℕ
unfolding is_lsl
thumb_load_address cpu info base =
    let shifted = (do
      offset ← register cpu info.reg2
      done (add32 base (offset * 2 ^ info.disp % 2 ^ 32))) in
    if is_lsl info.mode then shifted else (elim info.reg2 [
      | none ↦ done (add32 base info.disp)
      | some r ↦ done (add32 (add32 base (cpu.regs r)) info.disp)
    ])

-- `info.reg1 == 15`
is_pc : Option ℕ → Bool
is_pc none = false
is_pc (some r) = r == 15

module _ (mem : Memory) (memory : mem.State) (pc : ℕ) (cpu : Cpu) where
  -- The case of the table branches, whose entries have so many bytes.
  unfoldable pub thumb_table : BranchInfo → ℕ → Targets → Outcome Targets
  unfolding is_pc
  thumb_table info size t = do
    base ← register cpu info.reg1
    index ← register cpu info.reg2
    let table = if is_pc info.reg1 then add32 base 4 else base
    offset ← fetch mem memory (add32 table (index * 2 ^ info.disp % 2 ^ 32)) size
    done (aim t (add32 (add32 pc 4) (sign_ext offset 16 * 2 % 2 ^ 32)) 2)

  -- The switch on the type.
  unfoldable pub thumb_switch : BranchInfo → BranchType → Targets → Outcome Targets
  unfolding thumb_load_address thumb_table align_up
  thumb_switch info no_type t = done t
  thumb_switch info b_i t = done (aim t (add32 pc info.disp) 2)
  thumb_switch info bl_i t = done (aim t (add32 pc info.disp) 2)
  thumb_switch info bcc_i t = done (aim t (add32 pc info.disp) 2)
  thumb_switch info cb_i t = done (aim t (add32 pc info.disp) 2)
  thumb_switch info bx_r t = do target ← register cpu info.reg1; done (aim t target t.branch_size)
  thumb_switch info blx_r t = do target ← register cpu info.reg1; done (aim t target t.branch_size)
  thumb_switch info mov_pc t = do target ← register cpu info.reg1; done (aim t target t.branch_size)
  thumb_switch info ldr_pc t = do
    base ← register cpu info.reg1
    address ← thumb_load_address cpu info base
    target ← fetch mem memory address 4
    done (aim t target t.branch_size)
  thumb_switch info ldm_pc t = do
    base ← register cpu info.reg1
    target ← fetch mem memory (add32 base info.disp) 4
    done (aim t target t.branch_size)
  thumb_switch info pop_pc t = do
    base ← register cpu info.reg1
    target ← fetch mem memory (add32 base info.disp) 4
    done (aim t target t.branch_size)
  thumb_switch info blx_i t = done (aim t (align_up (add32 pc info.disp) info.align) 4)
  thumb_switch info sub_pc t = do
    base ← register cpu info.reg1
    done (aim t (add32 base (neg32 info.disp)) t.branch_size)
  thumb_switch info tbb t = thumb_table info 1 t
  thumb_switch info tbh t = thumb_table info 2 t
  thumb_switch info other t = failed unsupported

  -- The instructions of the IT block are skipped.
  unfoldable pub after_block : BranchInfo → Targets → Outcome Targets
  unfolding skip_block
  after_block info t = do
    block ← fetch mem memory (add32 pc 2) 16
    skip ← skip_block info.it_count block 0
    done (record t { next_pc = add32 (add32 pc 2) skip; next_size = 2 })

  -- A branch outside of an IT block; the type is always set.
  unfoldable pub thumb_branch : ℕ → BranchInfo → Option BranchType → Targets → Outcome Targets
  unfolding thumb_switch may_fall_through links thumb_inst_size settle
  thumb_branch insn info none t = undefined
  thumb_branch insn info (some type) t =
      let linked = record t { link = links type } in
      let behind = record linked { next_pc = add32 pc (thumb_inst_size insn); next_size = 2 } in
      do
        t' ← thumb_switch info type (if may_fall_through type then behind else linked)
        done (settle t')

  unfoldable pub thumb_found : ℕ → Option BranchInfo → Targets → Outcome Targets
  unfolding after_block thumb_branch thumb_inst_size
  thumb_found insn none t =
      done (record t { next_pc = add32 pc (thumb_inst_size insn); next_size = 2 })
  thumb_found insn (some info) t =
      if info.it then after_block info t else thumb_branch insn info info.type t

  -- PrepareThumbSoftwareSingleStep.
  unfoldable pub prepare_thumb : Targets → Outcome Targets
  unfolding thumb_found thumb_branch_info
  prepare_thumb t = do
    insns ← fetch mem memory pc 8
    thumb_found (field insns 0 32)
        (thumb_branch_info (field insns 0 16) (field insns 16 16) (field insns 32 16)) t
