-- ===== src/Breakpoint/Control.antt =====
-- The debug control register of x86: Headers/DebugServer2/Utils/Bits.h and the two functions of
-- Sources/Core/X86/HardwareBreakpointManager.cpp that change the register. A uint64_t is given by its
-- bits. The branch for Windows is left out.
pub mod Slots
use ds.Base.{
  ℕ, ◌+◌, ◌*◌, ◌≡◌, ◌⊎◌, inl, inr, Bool, true, false, not, ◌&&◌, ◌||◌, ◌==◌, leb, ltb,
  if◌then◌else◌,
}
use ds.Errors.{ErrorCode, invalid_argument}

abbrev pub Bits : Type 0
Bits = ℕ → Bool

abbrev pub zeros : Bits
zeros i = false

unfoldable pub enable_bit : Bits → ℕ → Bits
enable_bit number idx i = i == idx || number i

unfoldable pub disable_bit : Bits → ℕ → Bits
disable_bit number idx i = not (i == idx) && number i

-- The bits from `first` through `last - 1`.
unfoldable pub disable_bits : Bits → ℕ → ℕ → Bits
disable_bits number first last i = not (leb first i && ltb i last) && number i

-- The flags R/W<idx>; the mode is the number of its flags.
unfoldable pub set_mode : Bits → ℕ → ℕ → ErrorCode ⊎ Bits
unfolding enable_bit disable_bit
set_mode ctrl_reg info_idx mode =
    if mode == 1
    then inr (disable_bit (disable_bit ctrl_reg info_idx) (info_idx + 1))
    else if mode == 4
    then inr (disable_bit (enable_bit ctrl_reg info_idx) (info_idx + 1))
    else if mode == 2 || mode == 6
    then inr (enable_bit (enable_bit ctrl_reg info_idx) (info_idx + 1))
    else inl invalid_argument

-- The flags LEN<idx>, always 0 for exec breakpoints.
unfoldable pub set_length : Bits → ℕ → ℕ → ℕ → ErrorCode ⊎ Bits
unfolding enable_bit disable_bit
set_length ctrl_reg info_idx mode size =
    if mode == 1 || size == 1
    then inr (disable_bit (disable_bit ctrl_reg (info_idx + 2)) (info_idx + 3))
    else if size == 2
    then inr (disable_bit (enable_bit ctrl_reg (info_idx + 2)) (info_idx + 3))
    else if size == 4
    then inr (enable_bit (enable_bit ctrl_reg (info_idx + 2)) (info_idx + 3))
    else if size == 8
    then inr (enable_bit (disable_bit ctrl_reg (info_idx + 2)) (info_idx + 3))
    else inl invalid_argument

-- On an error the caller drops the register.
unfoldable pub enable_debug_ctrl_reg : Bits → ℕ → ℕ → ℕ → ErrorCode ⊎ Bits
unfolding enable_bit disable_bits set_mode set_length
enable_debug_ctrl_reg ctrl_reg idx mode size =
    elim (set_mode (enable_bit ctrl_reg (idx * 2 + 1)) (16 + idx * 4) mode) [
      | inl error ↦ inl error
      | inr with_mode ↦ elim (set_length with_mode (16 + idx * 4) mode size) [
        | inl error ↦ inl error
        | inr with_length ↦ inr (disable_bits with_length 32 64)
      ]
    ]

unfoldable pub disable_debug_ctrl_reg : Bits → ℕ → Bits
unfolding disable_bit disable_bits
disable_debug_ctrl_reg ctrl_reg idx = disable_bits (disable_bit ctrl_reg (idx * 2 + 1)) 32 64
