-- ===== src/Arm/Arithmetic.antt =====
-- The fields of an instruction word, and the arithmetic of int32_t on bit patterns. A test
-- `(insn & mask) == value` is a test of the fields that the mask selects.
use ds.Base.{ℕ, zero, suc, ◌+◌, ◌-◌, ◌/◌, ◌%◌, ◌^◌, ltb, if◌then◌else◌}

-- (x >> low) & ((1 << width) - 1)
abbrev pub field : ℕ → ℕ → ℕ → ℕ
field x low width = x / 2 ^ low % 2 ^ width

abbrev pub add32 : ℕ → ℕ → ℕ
add32 a b = (a + b) % 2 ^ 32

-- -x
abbrev pub neg32 : ℕ → ℕ
neg32 x = (2 ^ 32 - x) % 2 ^ 32

-- SignExt: the low `size` bits as a signed number.
abbrev pub sign_ext : ℕ → ℕ → ℕ
sign_ext n size =
    if ltb (n % 2 ^ size) (2 ^ (size - 1)) then n % 2 ^ size else n % 2 ^ size + 2 ^ 32 - 2 ^ size

-- The number of bits set among the low `width` ones.
unfoldable pub count_bits : ℕ → ℕ → ℕ
count_bits zero n = 0
count_bits (suc width) n = n % 2 + count_bits width (n / 2)
