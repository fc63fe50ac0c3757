-- ===== src/Arm/Examples.antt =====
-- Single steps over instructions in a small memory.
use ds.Base.{
  ℕ, ◌≢◌, ◌+◌, ◌≡◌, refl, ◌⊎◌, inl, inr, false, true, ◌||◌, some, [], ◌∷◌, ◌++◌, Bytes, length,
  take, drop, arith, ◌≤◌, ◌*◌,
}
use ds.Errors.{ErrorCode, success}
use ds.Arm.Branches.{prepare_arm-arm_b}
use ds.Arm.WideBranches.{prepare_thumb-wide}
use ds.Arm.Arithmetic.{add32}
use ds.Arm.Step.{Cpu, no_targets, done, little_endian}
use ds.Arm.Step.ArmStep.{prepare_arm}
use ds.Arm.Step.ThumbStep.{prepare_thumb}
use ds.Arm.Step.Blocks.{prepare_thumb-it}
use ds.Arm.Step.Skipped.{block_length, covered}
use ds.Arm.Step.Prepare.{targets, prepare}
use ds.Arm.Step.Sized.{is_size}
use ds.Arm.Step.Placed.{IsCovered, prepare_places}
use ds.Breakpoint.Sites.{at}
use ds.Breakpoint.Manager.{Manager, Returned, code}
use ds.Breakpoint.Software.{Memory, Software}

-- The bytes from address 0 on.
abbrev flat : Memory
flat = record {
  State = Bytes;
  read = λ s a n. inr (take n (drop a s));
  write = λ s a bytes. (take a s ++ bytes ++ drop (a + length bytes) s, success);
}

abbrev arm_cpu : Cpu
arm_cpu = record { regs = λ r. 0; thumb = false }

abbrev thumb_cpu : Cpu
thumb_cpu = record { regs = λ r. 0; thumb = true }

-- BLEQ to address 0x1000.
abbrev arm_code : Bytes
arm_code = 0xfe ∷ 0x03 ∷ 0x00 ∷ 0x0b ∷ []

prepare_arm-arm_b_example :
    prepare_arm flat arm_code 0 arm_cpu no_targets
    ≡ done (record { link = true; next_pc = 4; next_size = 4; branch_pc = 0x1000; branch_size = 4 })
unfolding little_endian
prepare_arm-arm_b_example =
    prepare_arm-arm_b flat arm_code 0 arm_cpu 0 1 0x1000 (omega arith) (omega arith) (omega arith)
      (omega arith) (refl, inl (omega arith)) refl

-- BL to address 0xfffffff0, backwards, and two more halfwords.
abbrev thumb_code : Bytes
thumb_code = 0xff ∷ 0xf7 ∷ 0xf6 ∷ 0xff ∷ 0 ∷ 0xbf ∷ 0 ∷ 0xbf ∷ []

prepare_thumb-wide_example :
    prepare_thumb flat thumb_code 0 thumb_cpu no_targets
    ≡ done (record {
      link = true;
      next_pc = 4;
      next_size = 2;
      branch_pc = 0xfffffff0;
      branch_size = 2;
    })
unfolding little_endian
prepare_thumb-wide_example =
    prepare_thumb-wide flat thumb_code 0 thumb_cpu 1 0xfffffff0 0xbf00bf00fff6f7ff (omega arith)
      (omega arith) (omega arith) (refl, omega arith, inr (omega arith)) refl refl refl

-- ITE EQ with a wide and a narrow instruction behind it.
abbrev it_code : Bytes
it_code =
    0x0c ∷ 0xbf ∷ 0x4f ∷ 0xf0 ∷ 1 ∷ 0 ∷ 0x01 ∷ 0x20 ∷ 0 ∷ 0xbf ∷ 0 ∷ 0xbf ∷ 0 ∷ 0xbf ∷ 0 ∷ 0xbf ∷ 0
    ∷ 0xbf ∷ []

abbrev it_block : ℕ
unfolding little_endian
it_block = little_endian (take 16 (drop 2 it_code))

prepare_thumb-it_example :
    (prepare_thumb flat it_code 0 thumb_cpu no_targets
      ≡ done (record no_targets {
        next_pc = add32 2 (block_length (covered 12) it_block 0);
        next_size = 2;
      }))
    × (2 * covered 12 ≤ block_length (covered 12) it_block 0)
    × (block_length (covered 12) it_block 0 ≤ 16)
unfolding little_endian
prepare_thumb-it_example =
    prepare_thumb-it flat it_code 0 thumb_cpu 0 12 (little_endian (take 8 it_code)) it_block
      (omega arith) (omega arith) (omega arith) refl refl refl

-- WFE, and only wide instructions behind it.
abbrev hint_code : Bytes
hint_code =
    0x20 ∷ 0xbf ∷ 0x4f ∷ 0xf0 ∷ 1 ∷ 0 ∷ 0x4f ∷ 0xf0 ∷ 1 ∷ 0 ∷ 0x4f ∷ 0xf0 ∷ 1 ∷ 0 ∷ 0x4f ∷ 0xf0 ∷ 1
    ∷ 0 ∷ []

-- NOP
abbrev nop_code : Bytes
nop_code = 0x00 ∷ 0xf0 ∷ 0x20 ∷ 0xe3 ∷ []

abbrev empty_manager : Manager (Software flat)
empty_manager = record { sites = []; rest = record { memory = arm_code; insns = []; on = true } }

abbrev read_arm : Bytes → ErrorCode ⊎ Cpu
read_arm memory = inr arm_cpu

prepare_places_example :
    (is_size 4 || is_size 4) ≡ true
    × ((r : Manager (Software flat) × Returned) × (prepare flat read_arm empty_manager arm_cpu
            (at 0)
          ≡ some r)
        × ((r.1 ≢ code success)
            ⊎ (IsCovered flat read_arm r.0 0x1000 × IsCovered flat read_arm r.0 4)))
unfolding targets little_endian
prepare_places_example =
    prepare_places flat read_arm empty_manager arm_cpu (at 0)
      (record { link = true; next_pc = 4; next_size = 4; branch_pc = 0x1000; branch_size = 4 })
      prepare_arm-arm_b_example
