-- ===== src/Handlers/Registers.antt =====
-- Sources/GDBRemote/Session.cpp: the handlers that read, write, save and describe registers.
pub mod Texts
use ds.Base.{
  ℕ, zero, suc, ◌*◌, ◌/◌, Bool, true, false, Option, none, some, List, [], ◌∷◌, ◌++◌, Bytes, ◌==◌,
  if◌then◌else◌, length, take, drop,
}
use ds.Hex.{to_hex, hex_to_bytes}
use ds.Session.{lldb_thread}
use ds.Breakpoint.Sites.{Address, unset, at}
use ds.Structures.Numbers.{strtoul, dec}
use ds.Structures.Ids.{ProcessThreadId, parse_id}
use ds.Structures.Stops.{is_lldb}
use ds.Structures.Registers.{encode_register}
use ds.Handlers.Calls.{
  on_read_general_registers, on_write_general_registers, on_read_register_value,
  on_write_register_value, on_save_registers, on_restore_registers, on_query_register_info,
}
use ds.Structures.CpuTypes.{Endian}
use ds.Handlers.World.{Delegate, SessionState, Action, default_id, send, chk_send, report}
use ds.Handlers.Scan.{c_string, expect, cut, low32, strtoul_decimal, parse_address, format_address}
use ds.Handlers.Memory.{or_invalid, or_stop}

-- ptid.parse(text, kCompatibilityModeLLDBThread), if it succeeds.
unfoldable pub parsed_thread : Bytes → Option ProcessThreadId
unfolding parse_id
parsed_thread text =
    let (ptid, parsed) = parse_id lldb_thread text in if parsed then some ptid else none

-- `if (*eptr++ == ';')` and the thread, for LLDB.
unfoldable pub thread_suffix : Bytes → Option ProcessThreadId
unfolding parsed_thread
thread_suffix [] = some default_id
thread_suffix (c ∷ s) = if c == b';' then parsed_thread s else some default_id

-- The thread of a command: the suffix for LLDB, and otherwise the one that H has set.
unfoldable pub thread_of : SessionState → ℕ → Bytes → Option ProcessThreadId
unfolding thread_suffix
thread_of session key suffix =
    if is_lldb session.mode then thread_suffix suffix else some (session.ptids key)

-- The value of P and what stands from the semicolon on, which only LLDB's packets have.
unfoldable pub split_value : Bool → Bytes → Bytes × Bytes
unfolding cut
split_value false text = (text, [])
split_value true text = elim (cut b';' text) [
  | none ↦ (text, [])
  | some (value, suffix) ↦ (value, b';' ∷ suffix)
]

-- `address = value`, or 0 for an address that is not set.
abbrev pub address_value : Address → ℕ
address_value unset = 0
address_value (at a) = a

-- The registers of G: so many texts of the same length.
unfoldable pub parse_registers : ℕ → Endian → ℕ → ℕ → Bytes → List ℕ
unfolding parse_address
parse_registers regsize endian reglen zero text = []
parse_registers regsize endian reglen (suc n) text =
    address_value (parse_address regsize endian (take reglen text)).0
    ∷ parse_registers regsize endian reglen n (drop reglen text)

unfoldable pub format_registers : ℕ → Endian → List ℕ → Bytes
unfolding format_address
format_registers regsize endian [] = []
format_registers regsize endian (value ∷ regs) =
    format_address regsize endian value ++ format_registers regsize endian regs

module _ (d : Delegate) where
  open d use {Target, native, get_gpr_size}

  -- nargs is 0 / 0 if the register size is below a byte; a target has registers of 32 or 64 bits.
  unfoldable pub handle_upper_g : Bytes → Action d
  unfolding thread_of parse_registers
  handle_upper_g args w =
      let regsize = get_gpr_size w.target in
      let reglen = regsize / 8 * 2 in
      or_invalid d (thread_of w.session b'g' args)
        (λ ptid. report d (
          on_write_general_registers ptid
            (parse_registers regsize native reglen (length args / reglen) args)))
        w

  unfoldable pub handle_g : Bytes → Action d
  unfolding thread_of format_registers
  handle_g args w =
      or_invalid d (thread_of w.session b'g' args)
        (λ ptid.
          chk_send d (on_read_general_registers ptid)
            λ regs w'. send d (format_registers (get_gpr_size w'.target) native regs) w')
        w

  unfoldable pub handle_upper_p : Bytes → Action d
  unfolding thread_of split_value c_string hex_to_bytes strtoul expect
  handle_upper_p args w =
      let regno = strtoul args in
      or_invalid d (expect b'=' regno.rest)
        (λ rest.
          let parts = split_value (is_lldb w.session.mode) (c_string rest) in
          or_stop d (hex_to_bytes parts.0) λ value.
            or_invalid d (thread_of w.session b'g' parts.1)
              λ ptid. report d (on_write_register_value ptid (low32 regno.number) value))
        w

  unfoldable pub handle_p : Bytes → Action d
  unfolding thread_of to_hex strtoul
  handle_p args w =
      let regno = strtoul args in
      or_invalid d (thread_of w.session b'g' regno.rest)
        (λ ptid.
          chk_send d (on_read_register_value ptid (low32 regno.number))
            λ value. send d (to_hex value))
        w

  -- The result of `parse` is not tested here.
  unfoldable pub handle_q_save_register_state : Bytes → Action d
  unfolding parse_id dec
  handle_q_save_register_state args =
      chk_send d (on_save_registers (parse_id lldb_thread args).0) λ id. send d (dec id)

  unfoldable pub saved_thread : Bytes → ProcessThreadId
  unfolding parse_id
  saved_thread [] = default_id
  saved_thread (c ∷ s) = if c == b';' then (parse_id lldb_thread s).0 else default_id

  unfoldable pub handle_q_restore_register_state : Bytes → Action d
  unfolding saved_thread strtoul_decimal
  handle_q_restore_register_state args =
      let id = strtoul_decimal args in
      report d (on_restore_registers (saved_thread id.rest) id.number)

  unfoldable pub handle_q_register_info : Bytes → Action d
  unfolding encode_register strtoul
  handle_q_register_info args =
      chk_send d (on_query_register_info (low32 (strtoul args).number))
        λ info. send d (encode_register info none)
