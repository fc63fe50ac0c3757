-- ===== src/Arm/Step/Blocks.antt =====
-- Sources/Architecture/ARM/ThumbBranchInfo.cpp and SoftwareSingleStep.cpp of the same directory: the
-- step over an IT block, and over what is taken for one.
use mathlib.Core.Path.{subst}
use ds.Base.{
  ℕ, ◌+◌, ◌-◌, ◌*◌, ◌<◌, ◌≤◌, ◌≡◌, ◌≢◌, refl, sym, ap, ◌∙◌, Bool, true, false, Option, none, some,
  ltb, ==_ne, if◌then◌else◌, arith,
}
use ds.Arm.{no_type, BranchInfo, cond_of}
use ds.Arm.Arithmetic.{field, add32}
use ds.Arm.Decode.{fresh_info}
use ds.Arm.Thumb.{ffs4, get_it, decoders, after_it, thumb_branch_info}
use ds.Arm.Step.{Cpu, Targets, no_targets, Outcome, done, undefined, ◌>>=◌, fetch}
use ds.Arm.Step.ThumbStep.{skip_block, after_block, thumb_found, prepare_thumb}
use ds.Arm.Step.Kept.{Keeps, decoders-Keeps}
use ds.Arm.Step.Skipped.{
  covered, ffs4-covered, covered-bound, block_length, block_length-bounds, skip_block-all,
  skip_block-five,
}
use ds.Breakpoint.Software.{Memory}

-- An IT instruction, with its condition and its mask.
abbrev it_instruction : ℕ → ℕ → ℕ
it_instruction cond mask = 0xbf00 + cond * 16 + mask

it_fields :
    (cond mask : ℕ)
    → cond < 16
    → mask < 16
    → (field (it_instruction cond mask) 8 8 ≡ 0xbf)
      × (field (it_instruction cond mask) 0 8 ≡ cond * 16 + mask)
      × (field (it_instruction cond mask) 0 4 ≡ mask)
      × (field (it_instruction cond mask) 4 4 ≡ cond)
it_fields cond mask c m = (omega arith, omega arith, omega arith, omega arith)

abbrev it_info : ℕ → ℕ → BranchInfo
it_info cond mask = record fresh_info {
  type = some no_type;
  align = 1;
  it = true;
  it_count = 5 - ffs4 mask;
  cond = cond_of cond;
}

get_it-fields :
    (cond mask : ℕ)
    → cond < 16
    → mask < 16
    → cond * 16 + mask ≢ 0
    → get_it (it_instruction cond mask) (record fresh_info { type = some no_type })
      ≡ it_info cond mask
unfolding get_it
get_it-fields cond mask c m some_bit =
    let (a, b, d, e) = it_fields cond mask c m in
    rw (a, b, d, e, ==_ne (cond * 16 + mask) 0 some_bit) refl

bind-if :
    (test : Bool) (a : ℕ) (f : ℕ → Outcome Targets)
    → ((if test then done a else undefined) >>= f) ≡ (if test then f a else undefined)
bind-if true a f = refl
bind-if false a f = refl

-- Whatever stands behind it, the count of the IT instruction is found.
abbrev IsBlock : ℕ → Option BranchInfo → Type 0
IsBlock count none = ⊥
IsBlock count (some info) = (info.it ≡ true) × (info.it_count ≡ count)

kept-IsBlock :
    (info : BranchInfo) (next : Option BranchInfo)
    → info.it ≡ true
    → Keeps info next
    → IsBlock info.it_count (elim next [ none ↦ some info | some info' ↦ some info' ])
kept-IsBlock info none i k = (i, refl)
kept-IsBlock info (some found) i (a, b) = (a ∙ i, b)

thumb_branch_info-IsBlock :
    (cond mask h1 h2 : ℕ)
    → cond < 16
    → mask < 16
    → cond * 16 + mask ≢ 0
    → IsBlock (5 - ffs4 mask) (thumb_branch_info (it_instruction cond mask) h1 h2)
unfolding thumb_branch_info after_it
thumb_branch_info-IsBlock cond mask h1 h2 c m some_bit =
    subst (λ x. IsBlock (5 - ffs4 mask) (after_it x (it_instruction cond mask) h1 h2))
      (sym (get_it-fields cond mask c m some_bit))
      (kept-IsBlock (it_info cond mask) (decoders h1 h2 (it_info cond mask)) refl
        (decoders-Keeps h1 h2 (it_info cond mask)))

module _ (mem : Memory) (memory : mem.State) (pc : ℕ) (cpu : Cpu) where
  thumb_found-block :
      (insn count block : ℕ) (found : Option BranchInfo)
      → IsBlock count found
      → fetch mem memory (add32 pc 2) 16 ≡ done block
      → thumb_found mem memory pc cpu insn found no_targets ≡ (do
        skip ← skip_block count block 0
        done (record no_targets { next_pc = add32 (add32 pc 2) skip; next_size = 2 }))
  unfolding thumb_found after_block
  thumb_found-block insn count block none h read = absurd h
  thumb_found-block insn count block (some info) (i, n) read = rw (i, n, read) refl

  prepare_thumb-block :
      (cond mask insns block : ℕ)
      → cond < 16
      → mask < 16
      → cond * 16 + mask ≢ 0
      → fetch mem memory pc 8 ≡ done insns
      → field insns 0 16 ≡ it_instruction cond mask
      → fetch mem memory (add32 pc 2) 16 ≡ done block
      → prepare_thumb mem memory pc cpu no_targets ≡ (do
        skip ← skip_block (5 - ffs4 mask) block 0
        done (record no_targets { next_pc = add32 (add32 pc 2) skip; next_size = 2 }))
  unfolding prepare_thumb
  prepare_thumb-block cond mask insns block c m some_bit read e read' =
      let found = thumb_branch_info (field insns 0 16) (field insns 16 16) (field insns 32 16) in
      let is =
        subst
          (λ h.
            IsBlock (5 - ffs4 mask) (thumb_branch_info h (field insns 16 16) (field insns 32 16)))
          (sym e)
          (thumb_branch_info-IsBlock cond mask (field insns 16 16) (field insns 32 16) c m
            some_bit) in
      rw read (thumb_found-block (field insns 0 32) (5 - ffs4 mask) block found is read')

  -- A single step in Thumb state at an IT instruction, whose mask is not 0: whatever stands behind it,
  -- exactly the one to four instructions that the mask covers are skipped, and no more than the eight
  -- halfwords that were read are looked at. The only target is the instruction behind them.
  pub prepare_thumb-it :
      (cond mask insns block : ℕ)
      → cond < 16
      → mask < 16
      → mask ≢ 0
      → fetch mem memory pc 8 ≡ done insns
      → field insns 0 16 ≡ it_instruction cond mask
      → fetch mem memory (add32 pc 2) 16 ≡ done block
      → (prepare_thumb mem memory pc cpu no_targets
          ≡ done (record no_targets {
            next_pc = add32 (add32 pc 2) (block_length (covered mask) block 0);
            next_size = 2;
          }))
        × (2 * covered mask ≤ block_length (covered mask) block 0)
        × (block_length (covered mask) block 0 ≤ 16)
  prepare_thumb-it cond mask insns block c m bit read e read' =
      let count = covered mask in
      let four = covered-bound mask in
      let (low, high) = block_length-bounds count block 0 in
      let step = prepare_thumb-block cond mask insns block c m (omega arith) read e read' in
      (step ∙ rw (ffs4-covered mask m bit, skip_block-all count block four) refl, low, omega arith)

  -- A single step in Thumb state at a hint like YIELD, WFE, WFI or SEV, whose low four bits are 0: it
  -- is taken for an IT instruction over five instructions, whatever stands behind it. If the next four
  -- are wide then the fifth lies outside of the buffer of eight halfwords; else the only target is the
  -- instruction behind the fifth.
  pub prepare_thumb-hint :
      (hint insns block : ℕ)
      → hint < 16
      → hint ≢ 0
      → fetch mem memory pc 8 ≡ done insns
      → field insns 0 16 ≡ 0xbf00 + hint * 16
      → fetch mem memory (add32 pc 2) 16 ≡ done block
      → prepare_thumb mem memory pc cpu no_targets ≡ (
          if ltb (block_length 4 block 0) 16
          then done (record no_targets {
            next_pc = add32 (add32 pc 2) (block_length 5 block 0);
            next_size = 2;
          })
          else undefined)
  unfolding ffs4
  prepare_thumb-hint hint insns block h other read e read' =
      prepare_thumb-block hint 0 insns block h (omega arith) (omega arith) read (omega (arith, e))
        read'
      ∙ ap
          (λ o. o >>= λ skip.
            done (record no_targets { next_pc = add32 (add32 pc 2) skip; next_size = 2 }))
          (skip_block-five block)
      ∙ bind-if (ltb (block_length 4 block 0) 16) _ _
