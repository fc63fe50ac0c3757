-- ===== src/Arm/Thumb.antt =====
-- Sources/Architecture/ARM/ThumbBranchInfo.cpp. An instruction is given by its halfwords.
use ds.Base.{
  ℕ, ◌+◌, ◌-◌, ◌*◌, ◌%◌, ◌^◌, Bool, true, false, not, ◌&&◌, ◌||◌, Option, none, some, ◌==◌, ltb,
  if◌then◌else◌,
}
use ds.Arm.{
  BranchType, no_type, b_i, bcc_i, cb_i, bx_r, bl_i, blx_i, blx_r, mov_pc, ldr_pc, ldm_pc, pop_pc,
  sub_pc, tbb, tbh, normal, lsl, al, cond_of, BranchInfo,
}
use ds.Arm.Arithmetic.{field, add32, neg32, sign_ext, count_bits}
use ds.Arm.Decode.{fresh_info}

-- Whether an instruction is a single halfword.
unfoldable pub insn_is_thumb1 : ℕ → Bool
insn_is_thumb1 insn = not (field insn 13 3 == 7) || field insn 11 2 == 0

-- GetThumbInstSize.
unfoldable pub thumb_inst_size : ℕ → ℕ
unfolding insn_is_thumb1
thumb_inst_size insn = if insn_is_thumb1 insn then 2 else 4

-- The bits are put together from the top; `xor_values` tells whether j1 and j2 are encoded by s.
unfoldable pub make_t2_branch_disp : ℕ → ℕ → ℕ → ℕ → ℕ → ℕ → ℕ → ℕ → Bool → ℕ
make_t2_branch_disp s j1 j2 imm_h_size imm_h imm_l_size imm_l zero_pad xor_values =
    let i1 = if xor_values then (if j1 == s then 1 else 0) else j2 in
    let i2 = if xor_values then (if j2 == s then 1 else 0) else j1 in
    sign_ext
      (((((s * 2 + i1) * 2 + i2) * 2 ^ imm_h_size + imm_h) * 2 ^ imm_l_size + imm_l) * 2 ^ zero_pad)
      (3 + imm_h_size + imm_l_size + zero_pad)

-- Utils::FFS of a number of four bits.
unfoldable pub ffs4 : ℕ → ℕ
ffs4 n =
    if n % 2 == 1
    then 1
    else if field n 1 1 == 1
    then 2
    else if field n 2 1 == 1
    then 3
    else if field n 3 1 == 1
    then 4
    else 0

-- IT <cond>: what it sets.
unfoldable pub get_it : ℕ → BranchInfo → BranchInfo
unfolding ffs4 cond_of
get_it insn info =
    if field insn 8 8 == 0xbf && not (field insn 0 8 == 0)
    then record info {
      align = 1;
      it = true;
      it_count = 5 - ffs4 (field insn 0 4);
      cond = cond_of (field insn 4 4);
    }
    else record info { align = 1; it = false; it_count = 0; cond = al }

-- A decoder sets these members in all its cases; `none` is a return of false.
abbrev found : BranchInfo → BranchType → Option ℕ → Option ℕ → ℕ → Option BranchInfo
found info type reg1 reg2 disp =
    some (record info { type = some type; mode = normal; reg1 = reg1; reg2 = reg2; disp = disp })

unfoldable pub get_b_n : ℕ → BranchInfo → Option BranchInfo
get_b_n insn info =
    if field insn 11 5 == 0x1c
    then found info b_i none none (add32 (sign_ext (field insn 0 11 * 2) 12) 4)
    else none

unfoldable pub get_bcc_n : ℕ → BranchInfo → Option BranchInfo
unfolding cond_of
get_bcc_n insn info =
    if field insn 12 4 == 0xd && ltb (field insn 8 4) 14
    then found (record info { cond = cond_of (field insn 8 4) }) bcc_i none none
        (add32 (sign_ext (field insn 0 8 * 2) 9) 4)
    else none

unfoldable pub get_bx : ℕ → BranchInfo → Option BranchInfo
get_bx insn info =
    if field insn 7 9 == 0x8e then found info bx_r (some (field insn 3 4)) none 0 else none

unfoldable pub get_blx_r : ℕ → BranchInfo → Option BranchInfo
get_blx_r insn info =
    if field insn 7 9 == 0x8f then found info blx_r (some (field insn 3 4)) none 0 else none

unfoldable pub get_mov_pc : ℕ → BranchInfo → Option BranchInfo
get_mov_pc insn info =
    if field insn 7 9 == 0x8d && field insn 0 3 == 7
    then found info mov_pc (some (field insn 3 4)) none 0
    else none

unfoldable pub get_pop_pc : ℕ → BranchInfo → Option BranchInfo
unfolding count_bits
get_pop_pc insn info =
    if field insn 8 8 == 0xbd
    then found info pop_pc (some 13) none (count_bits 8 (field insn 0 8) * 4)
    else none

-- The offset of B.W, BL and BLX, with the low part as wide as given.
unfoldable pub wide_disp : ℕ → ℕ → ℕ → ℕ → ℕ → ℕ
unfolding make_t2_branch_disp
wide_disp h0 h1 imm_l_size imm_l zero_pad =
    make_t2_branch_disp (field h0 10 1) (field h1 13 1) (field h1 11 1) 10 (field h0 0 10)
      imm_l_size imm_l zero_pad true

unfoldable pub get_b_w : ℕ → ℕ → BranchInfo → Option BranchInfo
unfolding wide_disp
get_b_w h0 h1 info =
    if field h0 11 5 == 0x1e && (field h1 14 2 == 2 && field h1 12 1 == 1)
    then found info b_i none none (add32 (wide_disp h0 h1 11 (field h1 0 11) 1) 4)
    else none

unfoldable pub get_bcc_w : ℕ → ℕ → BranchInfo → Option BranchInfo
unfolding make_t2_branch_disp cond_of
get_bcc_w h0 h1 info =
    if field h0 11 5 == 0x1e
      && (not (field h0 7 3 == 7) && (field h1 14 2 == 2 && field h1 12 1 == 0))
    then found (record info { cond = cond_of (field h0 6 4) }) bcc_i none none
        (add32
          (make_t2_branch_disp (field h0 10 1) (field h1 13 1) (field h1 11 1) 6 (field h0 0 6) 11
            (field h1 0 11) 1 false)
          4)
    else none

unfoldable pub get_bl : ℕ → ℕ → BranchInfo → Option BranchInfo
unfolding wide_disp
get_bl h0 h1 info =
    if field h0 11 5 == 0x1e && (field h1 14 2 == 3 && field h1 12 1 == 1)
    then found info bl_i none none (add32 (wide_disp h0 h1 11 (field h1 0 11) 1) 4)
    else none

unfoldable pub get_blx_i : ℕ → ℕ → BranchInfo → Option BranchInfo
unfolding wide_disp
get_blx_i h0 h1 info =
    if field h0 11 5 == 0x1e && (field h1 14 2 == 3 && field h1 12 1 == 0)
    then found (record info { align = 4 }) blx_i none none
        (add32 (wide_disp h0 h1 10 (field h1 1 10) 2) 2)
    else none

unfoldable pub get_cbz : ℕ → BranchInfo → Option BranchInfo
get_cbz insn info =
    if field insn 12 4 == 0xb && (field insn 10 1 == 0 && field insn 8 1 == 1)
    then found info cb_i none none ((field insn 9 1 * 32 + field insn 3 5) * 2 + 4)
    else none

unfoldable pub get_ldr_pc : ℕ → ℕ → BranchInfo → Option BranchInfo
get_ldr_pc h0 h1 info =
    let rn = some (field h0 0 4) in
    let label = field h1 0 12 in
    let shift = field h1 4 2 in
    let offset = field h1 0 8 in
    if field h0 4 12 == 0xf8d && field h1 12 4 == 0xf
    then found info ldr_pc rn none (field h1 0 12)
    else if (field h0 8 8 == 0xf8 && field h0 0 7 == 0x5f) && field h1 12 4 == 0xf
    then found info ldr_pc (some 15) none (if field h0 7 1 == 0 then neg32 label else label)
    else if field h0 4 12 == 0xf85 && field h1 6 10 == 0x3c0
    then some (record info {
      type = some ldr_pc;
      reg1 = rn;
      reg2 = some (field h1 0 4);
      disp = shift;
      mode = if shift == 0 then normal else lsl;
    })
    else if field h0 4 12 == 0xf85 && field h1 11 5 == 0x1f
    then found info ldr_pc rn none
        (if field h1 10 1 == 1 then (if field h1 9 1 == 0 then neg32 offset else offset) else 0)
    else none

-- The list has pc, so the count is at least 1.
unfoldable pub get_ldm_pc : ℕ → ℕ → BranchInfo → Option BranchInfo
unfolding count_bits
get_ldm_pc h0 h1 info =
    let writes_back = field h0 5 1 == 1 in
    if (field h0 6 10 == 0x3a2 && field h0 4 1 == 1) && field h1 15 1 == 1
    then found info (if writes_back && field h0 0 4 == 13 then pop_pc else ldm_pc)
        (some (field h0 0 4)) none ((count_bits 16 h1 - 1) * 4)
    else none

unfoldable pub get_subs_pc_lr : ℕ → ℕ → BranchInfo → Option BranchInfo
get_subs_pc_lr h0 h1 info =
    if h0 == 0xf3de && field h1 8 8 == 0x8f
    then found info sub_pc (some (field h0 0 4)) none (field h1 0 8)
    else none

unfoldable pub get_tbb : ℕ → ℕ → BranchInfo → Option BranchInfo
get_tbb h0 h1 info =
    if field h0 4 12 == 0xe8d && field h1 4 12 == 0xf00
    then found info tbb (some (field h0 0 4)) (some (field h1 0 4)) 0
    else none

unfoldable pub get_tbh : ℕ → ℕ → BranchInfo → Option BranchInfo
get_tbh h0 h1 info =
    if field h0 4 12 == 0xe8d && field h1 4 12 == 0xf01
    then found info tbh (some (field h0 0 4)) (some (field h1 0 4)) 1
    else none

-- `a || b`
infixr 30 ◌orelse◌
abbrev pub ◌orelse◌ : Option BranchInfo → Option BranchInfo → Option BranchInfo
none orelse d = d
(some info) orelse d = some info

-- The decoders in their order.
unfoldable pub decoders : ℕ → ℕ → BranchInfo → Option BranchInfo
unfolding get_b_n get_bcc_n get_bl get_blx_r get_bx get_mov_pc get_pop_pc get_b_w get_bcc_w
    get_blx_i get_cbz get_ldr_pc get_ldm_pc get_subs_pc_lr get_tbb get_tbh
decoders h0 h1 info =
    get_b_n h0 info
    orelse get_bcc_n h0 info
    orelse get_bl h0 h1 info
    orelse get_blx_r h0 info
    orelse get_bx h0 info
    orelse get_mov_pc h0 info
    orelse get_pop_pc h0 info
    orelse get_b_w h0 h1 info
    orelse get_bcc_w h0 h1 info
    orelse get_blx_i h0 h1 info
    orelse get_cbz h0 info
    orelse get_ldr_pc h0 h1 info
    orelse get_ldm_pc h0 h1 info
    orelse get_subs_pc_lr h0 h1 info
    orelse get_tbb h0 h1 info
    orelse get_tbh h0 h1 info

-- The instruction behind an IT instruction is decoded too; its result does not matter then.
unfoldable pub after_it : BranchInfo → ℕ → ℕ → ℕ → Option BranchInfo
unfolding decoders
after_it info h0 h1 h2 =
    if info.it
    then (elim (decoders h1 h2 info) [ none ↦ some info | some info' ↦ some info' ])
    else decoders h0 h1 info

-- GetThumbBranchInfo, on the first three of its halfwords.
unfoldable pub thumb_branch_info : ℕ → ℕ → ℕ → Option BranchInfo
unfolding after_it get_it
thumb_branch_info h0 h1 h2 =
    after_it (get_it h0 (record fresh_info { type = some no_type })) h0 h1 h2
