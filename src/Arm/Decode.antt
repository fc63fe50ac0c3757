-- ===== src/Arm/Decode.antt =====
-- Sources/Architecture/ARM/ARMBranchInfo.cpp.
use ds.Base.{
  ℕ, ◌+◌, ◌-◌, ◌*◌, ◌/◌, ◌%◌, ◌^◌, Bool, false, ◌&&◌, ◌||◌, Option, none, some, ◌==◌, if◌then◌else◌,
}
use ds.Arm.{
  BranchType, b_i, bx_r, bl_i, blx_i, blx_r, mov_pc, ldr_pc, ldm_pc, pop_pc, sub_pc, adc_pc, add_pc,
  and_pc, bic_pc, eor_pc, orr_pc, rsb_pc, rsc_pc, sbc_pc, mvn_pc, BranchDisp, normal, lsl, lsr, asr,
  ror, rrx, al, cond_of, BranchInfo, Decoded, no_branch, branch, undefined, or_else,
}
use ds.Arm.Arithmetic.{field, add32, neg32, sign_ext, count_bits}

-- The rotation of a value of eight bits. With no rotation the code shifts by 32, which is undefined.
unfoldable pub expand_modified_immediate : ℕ → Option ℕ
expand_modified_immediate value =
    let rotate = field value 8 4 * 2 in
    let low = value % 256 in
    if rotate == 0 then none else some (low / 2 ^ rotate + low * 2 ^ (32 - rotate) % 2 ^ 32)

unfoldable pub decode_shift_mode : ℕ → ℕ → BranchDisp
decode_shift_mode disp type =
    if type % 4 == 0
    then lsl
    else if type % 4 == 1
    then lsr
    else if type % 4 == 2
    then asr
    else if disp == 0
    then rrx
    else ror

-- B<cc>, BL<cc> and BLX.
unfoldable pub get_b : ℕ → BranchInfo → Decoded
unfolding cond_of
get_b insn info =
    let link = field insn 24 1 == 1 in
    let exchange = field insn 28 4 == 15 in
    let h = if exchange then field insn 24 1 else 0 in
    if field insn 25 3 == 5
    then branch (record info {
      cond = if exchange then al else cond_of (field insn 28 4);
      type = some (if exchange then blx_i else if link then bl_i else b_i);
      mode = normal;
      reg1 = none;
      reg2 = none;
      disp = add32 (sign_ext (field insn 0 24 * 4 + h * 2) 26) 8;
    })
    else no_branch

-- BX and BLX of a register.
unfoldable pub get_bx : ℕ → BranchInfo → Decoded
unfolding cond_of
get_bx insn info =
    if field insn 6 22 == 0x4bffc && field insn 4 1 == 1
    then branch (record info {
      cond = cond_of (field insn 28 4);
      type = some (if field insn 5 1 == 0 then bx_r else blx_r);
      mode = normal;
      reg1 = some (field insn 0 4);
      reg2 = none;
      disp = 0;
    })
    else no_branch

-- The type that the opcode of an operation with pc as its result sets, which 8 to 11 do not set.
unfoldable pub alu_type : ℕ → Option BranchType → Option BranchType
alu_type opcode type =
    if opcode == 0
    then some and_pc
    else if opcode == 1
    then some eor_pc
    else if opcode == 2
    then some sub_pc
    else if opcode == 3
    then some rsb_pc
    else if opcode == 4
    then some add_pc
    else if opcode == 5
    then some adc_pc
    else if opcode == 6
    then some sbc_pc
    else if opcode == 7
    then some rsc_pc
    else if opcode == 12
    then some orr_pc
    else if opcode == 13
    then some mov_pc
    else if opcode == 14
    then some bic_pc
    else if opcode == 15
    then some mvn_pc
    else type

-- The form with a constant, once the constant is known.
unfoldable pub alu_immediate : ℕ → BranchInfo → Option ℕ → Decoded
unfolding alu_type cond_of
alu_immediate insn info none = undefined
alu_immediate insn info (some disp) =
    let opcode = field insn 21 4 in
    branch (record info {
      cond = cond_of (field insn 28 4);
      reg1 = if opcode == 13 || opcode == 15 then none else some (field insn 16 4);
      reg2 = none;
      disp = disp;
      mode = normal;
      type = alu_type opcode info.type;
    })

-- The form with registers.
unfoldable pub alu_registers : ℕ → BranchInfo → BranchInfo
unfolding alu_type cond_of decode_shift_mode
alu_registers insn info =
    let opcode = field insn 21 4 in
    let disp = field insn 7 5 in
    let shift = field insn 5 2 in
    let move = opcode == 13 in
    record info {
      cond = cond_of (field insn 28 4);
      reg1 = some (if move then field insn 0 4 else field insn 16 4);
      reg2 = if move then none else some (field insn 0 4);
      disp = disp;
      mode = if disp == 0 && shift == 0 then normal else decode_shift_mode disp shift;
      type = alu_type opcode info.type;
    }

unfoldable pub get_alu_pc : ℕ → BranchInfo → Decoded
unfolding alu_immediate alu_registers expand_modified_immediate
get_alu_pc insn info =
    if field insn 25 3 == 1 && field insn 12 4 == 15
    then alu_immediate insn info (expand_modified_immediate (field insn 0 12))
    else if field insn 25 3 == 0 && (field insn 12 4 == 15 && field insn 4 1 == 0)
    then branch (alu_registers insn info)
    else no_branch

-- LDR pc. The second test is the one for a label, which the first one includes.
unfoldable pub get_ldr_pc : ℕ → BranchInfo → Decoded
unfolding cond_of decode_shift_mode
get_ldr_pc insn info =
    let base = record info {
      type = some ldr_pc;
      cond = cond_of (field insn 28 4);
      mode = normal;
      reg1 = some (field insn 16 4);
      reg2 = none;
      disp = 0;
    } in
    let indexed = field insn 24 1 == 1 in
    let down = field insn 23 1 == 0 in
    let offset = if indexed then field insn 0 12 else 0 in
    let load = field insn 22 1 == 0 && (field insn 20 1 == 1 && field insn 12 4 == 15) in
    if field insn 25 3 == 2 && load
    then branch (record base { disp = if down then neg32 offset else offset })
    else if field insn 24 4 == 5 && field insn 12 11 == 0x1ff
    then branch (record base {
      reg1 = some 15;
      disp = if down then neg32 (field insn 0 12) else field insn 0 12;
    })
    else if field insn 25 3 == 3 && (load && field insn 4 1 == 0)
    then branch (record base {
      reg2 = if indexed then some (field insn 0 4) else none;
      disp = if indexed then field insn 7 5 else 0;
      mode = if indexed then decode_shift_mode (field insn 7 5) (field insn 5 2) else normal;
      subt = down;
    })
    else no_branch

-- The tests for LDMIA (8, 1), LDMDA (8, 0), LDMIB (9, 1) and LDMDB (9, 0) with pc in the list.
unfoldable pub is_ldm : ℕ → ℕ → ℕ → Bool
is_ldm insn op up =
    field insn 24 4 == op
    && (field insn 23 1 == up
        && (field insn 22 1 == 0 && (field insn 20 1 == 1 && field insn 15 1 == 1)))

unfoldable pub get_ldm_pc : ℕ → BranchInfo → Decoded
unfolding is_ldm cond_of count_bits
get_ldm_pc insn info =
    let writes_back = field insn 21 1 == 1 in
    let increments_after =
      field insn 24 4 == 8
      && (field insn 23 1 == 1 && (field insn 22 1 == 0 && field insn 20 1 == 1)) in
    if is_ldm insn 8 1 || (is_ldm insn 8 0 || (is_ldm insn 9 1 || is_ldm insn 9 0))
    then branch (record info {
      cond = cond_of (field insn 28 4);
      type =
          some
            (if increments_after && (writes_back && field insn 16 4 == 13) then pop_pc else ldm_pc);
      mode = normal;
      reg1 = some (field insn 16 4);
      reg2 = none;
      disp = count_bits 15 (field insn 0 15) * 4;
    })
    else no_branch

-- What getBranchInfo sets first, in a BranchInfo whose type nothing has set.
abbrev pub fresh_info : BranchInfo
fresh_info = record {
  it = false;
  it_count = 0;
  subt = false;
  type = none;
  cond = al;
  mode = normal;
  reg1 = none;
  reg2 = none;
  disp = 0;
  align = 1;
}

-- GetARMBranchInfo.
unfoldable pub arm_branch_info : ℕ → Decoded
unfolding or_else get_b get_bx get_alu_pc get_ldr_pc get_ldm_pc
arm_branch_info insn = or_else (get_b insn fresh_info) (
    or_else (get_bx insn fresh_info) (
      or_else (get_alu_pc insn fresh_info)
        (or_else (get_ldr_pc insn fresh_info) (get_ldm_pc insn fresh_info))))
