-- ===== src/Arm/Breakpoints.antt =====
-- Sources/Core/ARM/SoftwareBreakpointManager.cpp: the part of SoftwareBreakpointManager for ARM, on
-- POSIX and little-endian. The CPU state of the current thread is a parameter, as is the memory.
use ds.Base.{
  ℕ, ◌-◌, ◌%◌, ◌⊎◌, inl, inr, Bool, true, false, not, ◌||◌, Option, none, some, List, [], ◌∷◌,
  Bytes, ◌==◌, ltb, if◌then◌else◌, ◌>>=◌, map,
}
use ds.Errors.{ErrorCode, invalid_argument}
use ds.Arm.Thumb.{thumb_inst_size}
use ds.Arm.Step.{Cpu, little_endian}
use ds.Breakpoint.Sites.{Address, at, Lifetime, Site}
use ds.Breakpoint.Manager.{
  Manager, Methods, Returned, code, base_is_valid, value, has, hit, add, remove,
}
use ds.Breakpoint.Software.{Memory, Software, patch, disable_location}

-- SoftwareBreakpointManager::getOpcode; another type is a DS2BUG.
unfoldable pub arm_get_opcode : ℕ → Option Bytes
arm_get_opcode type =
    if type == 2
    then some (0x01 ∷ 0xde ∷ [])
    else if type == 3
    then some (0xf0 ∷ 0xf7 ∷ 0x00 ∷ 0xa0 ∷ [])
    else if type == 4
    then some (0xf0 ∷ 0x01 ∷ 0xf0 ∷ 0xe7 ∷ [])
    else none

-- `size < 2 || size > 4`
abbrev pub is_no_size : ℕ → Bool
is_no_size size = ltb size 2 || ltb 4 size

-- SoftwareBreakpointManager::isValid, which asserts the mode.
unfoldable pub arm_is_valid : Address → ℕ → ℕ → Option ErrorCode
arm_is_valid address size mode =
    if not (mode == 1)
    then none
    else if is_no_size size
    then some invalid_argument
    else some (base_is_valid address)

-- `address.value() & ~1ULL`
unfoldable pub without_thumb_bit : ℕ → ℕ
without_thumb_bit a = a - a % 2

-- SoftwareBreakpointManager::remove, which asserts that the address has no Thumb bit; `has` too.
unfoldable pub arm_remove :
    {R : Type 0} → Methods R → Manager R → Address → Option (Manager R × Returned)
arm_remove methods m address = if value address % 2 == 1 then none else remove methods m address

unfoldable pub arm_has : {R : Type 0} → Manager R → Address → Option Bool
arm_has m address = if value address % 2 == 1 then none else some (has m address)

-- SoftwareBreakpointManager::enumerate: the sites that the callback is given, in order.
unfoldable pub arm_enumerate : {R : Type 0} → Manager R → List Site
unfolding without_thumb_bit
arm_enumerate m = map (λ (k, s). record s { address = without_thumb_bit s.address }) m.sites

-- SoftwareBreakpointManager::hit, with the state that readCPUState fills.
unfoldable pub arm_hit : {R : Type 0} → Manager R → Cpu → Manager R × Option Site
arm_hit m cpu = hit m (at (cpu.regs 15))

module _ (mem : Memory) where
  -- The virtual methods of the manager; chooseBreakpointSize is a DS2BUG.
  unfoldable pub arm_software : Methods (Software mem)
  unfolding arm_is_valid arm_get_opcode disable_location
  arm_software = record {
    is_valid = arm_is_valid;
    choose_size = none;
    enabled = λ r. r.on;
    enable_location = λ sites r site. (do
      opcode ← arm_get_opcode site.size
      some (patch mem r site.address opcode));
    disable_location = λ sites r site. some (disable_location mem r site);
  }

  module _ (read_cpu_state : mem.State → ErrorCode ⊎ Cpu) where
    -- Whether the breakpoint is for Thumb: the address says so, or the current state.
    unfoldable pub for_thumb : mem.State → ℕ → ErrorCode ⊎ Bool
    for_thumb memory a =
        if a % 2 == 1
        then inr true
        else (elim (read_cpu_state memory) [ inl error ↦ inl error | inr cpu ↦ inr cpu.thumb ])

    -- 3 stands for a Thumb instruction of two halfwords.
    unfoldable pub thumb_size : mem.State → ℕ → ErrorCode ⊎ ℕ
    unfolding without_thumb_bit thumb_inst_size little_endian
    thumb_size memory a = elim (mem.read memory (without_thumb_bit a) 4) [
      | inl error ↦ inl error
      | inr insn ↦ inr (if thumb_inst_size (little_endian insn) == 2 then 2 else 3)
    ]

    -- The size of the breakpoint, where the given one is none.
    unfoldable pub arm_size : mem.State → ℕ → ℕ → ErrorCode ⊎ ℕ
    unfolding for_thumb thumb_size
    arm_size memory a size =
        if is_no_size size
        then (elim (for_thumb memory a) [
          | inl error ↦ inl error
          | inr true ↦ thumb_size memory a
          | inr false ↦ inr 4
        ])
        else inr size

    -- SoftwareBreakpointManager::add.
    unfoldable pub arm_add :
        Manager (Software mem)
        → Address
        → Lifetime
        → ℕ
        → ℕ
        → Option (Manager (Software mem) × Returned)
    unfolding arm_size without_thumb_bit arm_software
    arm_add m address lifetime size mode = elim (arm_size m.rest.memory (value address) size) [
      | inl error ↦ some (m, code error)
      | inr size' ↦ add arm_software m (at (without_thumb_bit (value address))) lifetime size' mode
    ]
