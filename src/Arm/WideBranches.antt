-- ===== src/Arm/WideBranches.antt =====
-- Sources/Architecture/ARM/ThumbBranchInfo.cpp and SoftwareSingleStep.cpp of the same directory: an
-- encoder of B.W and BL, which have 25 bits of offset, and the single step over them.
use ds.Base.{
  ℕ, ◌^◌, ◌<◌, ◌≡◌, inl, inr, refl, ap, ◌∙◌, Option, Bool, true, false, ◌==◌, ==_ne, some, none,
  if◌then◌else◌, arith,
}
use ds.Arm.{no_type, b_i, bl_i, BranchInfo, normal, al}
use ds.Arm.Arithmetic.{field, add32}
use ds.Arm.Decode.{fresh_info}
use ds.Arm.Thumb.{
  get_it, get_b_n, get_bcc_n, get_bl, get_b_w, get_blx_r, get_bx, get_mov_pc, get_pop_pc, decoders,
  thumb_branch_info, after_it, thumb_inst_size, insn_is_thumb1,
}
use ds.Arm.Step.{Cpu, no_targets, unset_pc, done, links, settle, fetch}
use ds.Arm.Step.ThumbStep.{may_fall_through, thumb_switch, thumb_branch, thumb_found, prepare_thumb}
use ds.Breakpoint.Software.{Memory}
use ds.Arm.WideEncoding.{
  below_two, distance, IsNear, wide_high, wide_low, high-fields, low-fields, there,
  wide_disp-distance,
}

-- A halfword that begins a wide branch is none of the instructions of one halfword.
get_it-wide :
    (h : ℕ) (info : BranchInfo)
    → field h 11 5 ≡ 0x1e
    → get_it h info ≡ record info { align = 1; it = false; it_count = 0; cond = al }
unfolding get_it
get_it-wide h info f = rw (==_ne (field h 8 8) 0xbf (omega arith)) refl

get_b_n-wide : (h : ℕ) (info : BranchInfo) → field h 11 5 ≡ 0x1e → get_b_n h info ≡ none
unfolding get_b_n
get_b_n-wide h info f = rw f refl

get_bcc_n-wide : (h : ℕ) (info : BranchInfo) → field h 11 5 ≡ 0x1e → get_bcc_n h info ≡ none
unfolding get_bcc_n
get_bcc_n-wide h info f = rw (==_ne (field h 12 4) 0xd (omega arith)) refl

get_blx_r-wide : (h : ℕ) (info : BranchInfo) → field h 11 5 ≡ 0x1e → get_blx_r h info ≡ none
unfolding get_blx_r
get_blx_r-wide h info f = rw (==_ne (field h 7 9) 0x8f (omega arith)) refl

get_bx-wide : (h : ℕ) (info : BranchInfo) → field h 11 5 ≡ 0x1e → get_bx h info ≡ none
unfolding get_bx
get_bx-wide h info f = rw (==_ne (field h 7 9) 0x8e (omega arith)) refl

get_mov_pc-wide : (h : ℕ) (info : BranchInfo) → field h 11 5 ≡ 0x1e → get_mov_pc h info ≡ none
unfolding get_mov_pc
get_mov_pc-wide h info f = rw (==_ne (field h 7 9) 0x8d (omega arith)) refl

get_pop_pc-wide : (h : ℕ) (info : BranchInfo) → field h 11 5 ≡ 0x1e → get_pop_pc h info ≡ none
unfolding get_pop_pc
get_pop_pc-wide h info f = rw (==_ne (field h 8 8) 0xbd (omega arith)) refl

-- What decoding gives.
abbrev wide_info : ℕ → ℕ → BranchInfo → BranchInfo
wide_info link d info = record info {
  type = some (if link == 1 then bl_i else b_i);
  mode = normal;
  reg1 = none;
  reg2 = none;
  disp = add32 d 4;
}

get_bl-call :
    (d : ℕ) (info : BranchInfo)
    → IsNear d
    → get_bl (wide_high d) (wide_low 1 d) info ≡ some (wide_info 1 d info)
unfolding get_bl
get_bl-call d info near =
    let (f, _, _) = high-fields d in
    let (k, z, _, _, _) = low-fields 1 d (omega arith) in
    rw (f, k, z, wide_disp-distance 1 d (omega arith) near) refl

get_bl-jump : (d : ℕ) (info : BranchInfo) → get_bl (wide_high d) (wide_low 0 d) info ≡ none
unfolding get_bl
get_bl-jump d info =
    let (f, _, _) = high-fields d in
    let (k, z, _, _, _) = low-fields 0 d (omega arith) in rw (f, k) refl

get_b_w-jump :
    (d : ℕ) (info : BranchInfo)
    → IsNear d
    → get_b_w (wide_high d) (wide_low 0 d) info ≡ some (wide_info 0 d info)
unfolding get_b_w
get_b_w-jump d info near =
    let (f, _, _) = high-fields d in
    let (k, z, _, _, _) = low-fields 0 d (omega arith) in
    rw (f, k, z, wide_disp-distance 0 d (omega arith) near) refl

decoders-call :
    (d : ℕ) (info : BranchInfo)
    → IsNear d
    → decoders (wide_high d) (wide_low 1 d) info ≡ some (wide_info 1 d info)
unfolding decoders
decoders-call d info near =
    let h = wide_high d in
    let (f, _, _) = high-fields d in
    rw (get_b_n-wide h info f, get_bcc_n-wide h info f, get_bl-call d info near) refl

decoders-jump :
    (d : ℕ) (info : BranchInfo)
    → IsNear d
    → decoders (wide_high d) (wide_low 0 d) info ≡ some (wide_info 0 d info)
unfolding decoders
decoders-jump d info near =
    let h = wide_high d in
    let (f, _, _) = high-fields d in
    rw
      (
        get_b_n-wide h info f,
        get_bcc_n-wide h info f,
        get_bl-jump d info,
        get_blx_r-wide h info f,
        get_bx-wide h info f,
        get_mov_pc-wide h info f,
        get_pop_pc-wide h info f,
        get_b_w-jump d info near,
      )
      refl

decoders-wide :
    (link d : ℕ) (info : BranchInfo)
    → link < 2
    → IsNear d
    → decoders (wide_high d) (wide_low link d) info ≡ some (wide_info link d info)
decoders-wide link d info l near = elim (below_two link l) [
  | inl e ↦ rw e (decoders-jump d info near)
  | inr e ↦ rw e (decoders-call d info near)
]

-- The instruction before the decoders run.
abbrev start_info : BranchInfo
start_info = record fresh_info { type = some no_type }

thumb_branch_info-wide :
    (link d h2 : ℕ)
    → link < 2
    → IsNear d
    → thumb_branch_info (wide_high d) (wide_low link d) h2 ≡ some (wide_info link d start_info)
unfolding thumb_branch_info after_it
thumb_branch_info-wide link d h2 l near =
    let (f, _, _) = high-fields d in
    rw (get_it-wide (wide_high d) start_info f) (decoders-wide link d start_info l near)

decoded :
    (insns link d : ℕ)
    → link < 2
    → IsNear d
    → field insns 0 16 ≡ wide_high d
    → field insns 16 16 ≡ wide_low link d
    → thumb_branch_info (field insns 0 16) (field insns 16 16) (field insns 32 16)
      ≡ some (wide_info link d start_info)
decoded insns link d l near high low =
    ap (λ x. thumb_branch_info x (field insns 16 16) (field insns 32 16)) high
    ∙ ap (λ y. thumb_branch_info (wide_high d) y (field insns 32 16)) low
    ∙ thumb_branch_info-wide link d (field insns 32 16) l near

first_part :
    (h insn : ℕ)
    → field insn 0 16 ≡ h
    → field h 11 5 ≡ 0x1e
    → (field (field insn 0 32) 13 3 ≡ 7) × (field (field insn 0 32) 11 2 ≡ 2)
first_part h insn e f = (omega arith, omega arith)

four_bytes : (insn d : ℕ) → field insn 0 16 ≡ wide_high d → thumb_inst_size (field insn 0 32) ≡ 4
unfolding thumb_inst_size insn_is_thumb1
four_bytes insn d h =
    let (f, _, _) = high-fields d in
    let (a, b) = first_part (wide_high d) insn h f in rw (a, b) refl

module _ (mem : Memory) (memory : mem.State) (pc : ℕ) (cpu : Cpu) where
  direct :
      (linked : Bool) (insn : ℕ) (info : BranchInfo)
      → thumb_inst_size insn ≡ 4
      → thumb_branch mem memory pc cpu insn info (some (if linked then bl_i else b_i)) no_targets
        ≡ done (record {
          link = linked;
          next_pc = if linked then add32 pc 4 else unset_pc;
          next_size = if linked then 2 else 0;
          branch_pc = add32 pc info.disp;
          branch_size = 2;
        })
  unfolding thumb_branch thumb_switch may_fall_through links settle
  direct true insn info h = rw h refl
  direct false insn info h = refl

  prepare_thumb-found :
      (insns : ℕ) (found : Option BranchInfo)
      → fetch mem memory pc 8 ≡ done insns
      → thumb_branch_info (field insns 0 16) (field insns 16 16) (field insns 32 16) ≡ found
      → prepare_thumb mem memory pc cpu no_targets
        ≡ thumb_found mem memory pc cpu (field insns 0 32) found no_targets
  unfolding prepare_thumb
  prepare_thumb-found insns found read e =
      rw read (ap (λ x. thumb_found mem memory pc cpu (field insns 0 32) x no_targets) e)

  -- A single step in Thumb state over a B.W or BL to any target at an even distance within 16 MB: the
  -- target is found again, as Thumb code; a BL links and has the instruction behind it, of four bytes,
  -- as a second target.
  pub prepare_thumb-wide :
      (link target insns : ℕ)
      → pc < 2 ^ 32
      → target < 2 ^ 32
      → link < 2
      → IsNear (distance pc target)
      → fetch mem memory pc 8 ≡ done insns
      → field insns 0 16 ≡ wide_high (distance pc target)
      → field insns 16 16 ≡ wide_low link (distance pc target)
      → prepare_thumb mem memory pc cpu no_targets
        ≡ done (record {
          link = link == 1;
          next_pc = if link == 1 then add32 pc 4 else unset_pc;
          next_size = if link == 1 then 2 else 0;
          branch_pc = target;
          branch_size = 2;
        })
  unfolding thumb_found
  prepare_thumb-wide link target insns p t l near read high low =
      let d = distance pc target in
      prepare_thumb-found insns (some (wide_info link d start_info)) read
        (decoded insns link d l near high low)
      ∙ direct (link == 1) (field insns 0 32) (wide_info link d start_info)
          (four_bytes insns d high)
      ∙ rw (there pc target p t) refl
