-- ===== src/Structures/RegisterTexts.antt =====
-- StopInfo::encodeRegisters of Sources/GDBRemote/Structures.cpp, on little-endian, with the functions of
-- Headers/DebugServer2/Utils/SwapEndian.h. `none` is a shift that is undefined.
pub mod Memory
use ds.Base.{
  ℕ, zero, suc, ◌+◌, ◌-◌, ◌*◌, ◌/◌, ◌%◌, ◌^◌, Bool, true, false, not, ◌&&◌, ◌||◌, Option, none,
  some, List, [], ◌∷◌, ◌++◌, Bytes, codes, ◌==◌, ltb, if◌then◌else◌, ◌>>=◌, is_empty,
}
use ds.Hex.{to_hex}
use ds.Session.{CompatibilityMode, gdb, gdb_multiprocess, lldb, lldb_thread}
use ds.Breakpoint.Sites.{Map}
use ds.Breakpoint.Manager.{value}
use ds.Breakpoint.Hits.{
  Reason, no_reason, write_watchpoint, read_watchpoint, access_watchpoint, breakpoint, trace,
  signal_stop, trap, StopInfo,
}
use ds.Structures.Numbers.{hex, dec, padded}
use ds.Structures.Ids.{ProcessThreadId, valid_id, encode_id}

-- A register's size in bytes, and its value.
pub record GpRegisterValue : Type 0 where
  pub size : ℕ
  pub value : ℕ

-- Swap16, Swap32 and Swap64 of Headers/DebugServer2/Utils/SwapEndian.h: the halves, each swapped, change
-- places.
unfoldable pub swap16 : ℕ → ℕ
swap16 x = x / 2 ^ 8 % 2 ^ 8 + x % 2 ^ 8 * 2 ^ 8

unfoldable pub swap32 : ℕ → ℕ
unfolding swap16
swap32 x = swap16 (x / 2 ^ 16 % 2 ^ 16) + swap16 (x % 2 ^ 16) * 2 ^ 16

unfoldable pub swap64 : ℕ → ℕ
unfolding swap32
swap64 x = swap32 (x / 2 ^ 32 % 2 ^ 32) + swap32 (x % 2 ^ 32) * 2 ^ 32

-- The digits of a register: a shift by 64 bits or more is undefined.
unfoldable pub register_text : GpRegisterValue → Option Bytes
unfolding swap64 padded hex
register_text r =
    if r.size == 0 || ltb 8 r.size
    then none
    else some (padded (2 * r.size) (hex (swap64 r.value / 2 ^ (64 - 8 * r.size))))

-- std::string's order, by unsigned characters.
unfoldable pub text_ltb : Bytes → Bytes → Bool
text_ltb s [] = false
text_ltb [] (d ∷ t) = true
text_ltb (c ∷ s) (d ∷ t) = let rest = text_ltb s t in if c == d then rest else ltb c d

-- std::map::insert, which keeps the value of a key that is there.
unfoldable pub insert_new : Bytes → Bytes → List (Bytes × Bytes) → List (Bytes × Bytes)
unfolding text_ltb
insert_new key text [] = (key, text) ∷ []
insert_new key text ((k, v) ∷ m) =
    let later = insert_new key text m in
    if text_ltb key k
    then (key, text) ∷ (k, v) ∷ m
    else if text_ltb k key
    then (k, v) ∷ later
    else (k, v) ∷ m

-- StopInfo::encodeRegisters into a map, in which the indices are in hexadecimal or decimal.
unfoldable pub registers_into :
    Bool → Map GpRegisterValue → List (Bytes × Bytes) → Option (List (Bytes × Bytes))
unfolding register_text insert_new padded hex dec
registers_into hex_index [] regs = some regs
registers_into hex_index ((number, r) ∷ registers) regs = do
  text ← register_text r
  registers_into hex_index registers
      (insert_new (if hex_index then padded 2 (hex (number % 256)) else dec number) text regs)

unfoldable pub register_list : List (Bytes × Bytes) → Bytes
register_list [] = []
register_list ((key, text) ∷ []) = key ++ (codes ":" ++ text)
register_list ((key, text) ∷ next ∷ regs) =
    key ++ (codes ":" ++ (text ++ (codes ";" ++ register_list (next ∷ regs))))

-- StopInfo::encodeRegisters into a text.
unfoldable pub encode_registers : Map GpRegisterValue → Option Bytes
unfolding registers_into register_list
encode_registers registers = do regs ← registers_into true registers []; some (register_list regs)
