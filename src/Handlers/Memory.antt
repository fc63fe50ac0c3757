-- ===== src/Handlers/Memory.antt =====
-- Sources/GDBRemote/Session.cpp: the handlers that read, write, allocate and search the target's memory.
pub mod Cycle
use ds.Base.{
  ℕ, ◌+◌, ◌/◌, Bool, true, false, ◌&&◌, Option, none, some, [], ◌∷◌, ◌++◌, Bytes, codes, ◌==◌, leb,
  if◌then◌else◌, ◌>>=◌, length, take, drop,
}
use ds.Hex.{to_hex, hex_to_bytes}
use ds.Errors.{ErrorCode, invalid_argument, invalid_address, unsupported}
use ds.Structures.Numbers.{strtoul, hex, padded}
use ds.Structures.Ids.{after_prefix}
use ds.Structures.Replies.{encode_region}
use ds.Handlers.Calls.{
  on_read_memory, on_write_memory, on_allocate_memory, on_deallocate_memory, on_compute_crc,
  on_flash_erase, on_flash_write, on_flash_done, on_search, on_search_backward,
  on_query_memory_region_info,
}
use ds.Structures.CpuTypes.{big}
use ds.Handlers.World.{
  Delegate, Action, is_success, is_not_found, send, send_error, send_ok, ask, chk_send, report,
}
use ds.Handlers.Scan.{c_string, expect, low32, format_address}

-- `addr,length` and what follows.
unfoldable pub parse_range : Bytes → Option (ℕ × ℕ × Bytes)
unfolding strtoul expect
parse_range args = do
  let address = strtoul args
  rest ← expect b',' address.rest
  let size = strtoul rest
  some (address.number, size.number, size.rest)

-- `addr,length:` and what follows the colon.
unfoldable pub parse_block : Bytes → Option (ℕ × ℕ × Bytes)
unfolding parse_range expect
parse_block args = do
  range ← parse_range args
  rest ← expect b':' range.2
  some (range.0, range.1, rest)

-- ByteVector(bytePtr, bytePtr + length): the arguments' terminating zero may be read, and no byte after it.
unfoldable pub read_block : ℕ → Bytes → Option Bytes
read_block size rest =
    if leb size (length rest + 1) then some (take size (rest ++ 0 ∷ [])) else none

-- kProtectionExecute, kProtectionWrite and kProtectionRead are bits 0, 1 and 2.
unfoldable pub protection_flags : Bytes → Bool × Bool × Bool
protection_flags [] = (false, false, false)
protection_flags (c ∷ s) =
    let (r, w, x) = protection_flags s in
    if c == b'r'
    then (true, w, x)
    else if c == b'w'
    then (r, true, x)
    else if c == b'x'
    then (r, w, true)
    else (r, w, x)

unfoldable pub protection_of : Bytes → ℕ
unfolding protection_flags
protection_of s =
    let (r, w, x) = protection_flags s in
    (if r then 4 else 0) + (if w then 2 else 0) + (if x then 1 else 0)

-- The start and the size of _M and the letters of its permissions.
unfoldable pub parse_allocation : Bytes → Option (ℕ × Bytes)
unfolding strtoul expect c_string
parse_allocation args = do
  let size = strtoul args
  rest ← expect b',' size.rest
  some (size.number, c_string rest)

-- `address:pattern,mask`
unfoldable pub parse_backward : Bytes → Option (ℕ × ℕ × ℕ)
unfolding strtoul expect
parse_backward args = do
  let address = strtoul args
  rest ← expect b':' address.rest
  let wanted = strtoul rest
  rest' ← expect b',' wanted.rest
  some (address.number, low32 wanted.number, low32 (strtoul rest').number)

-- `address;length;pattern`, behind `memory:`
unfoldable pub parse_search : Bytes → Option (ℕ × ℕ × Bytes)
unfolding strtoul expect
parse_search args = do
  let address = strtoul args
  rest ← expect b';' address.rest
  let size = strtoul rest
  rest' ← expect b';' size.rest
  some (address.number, size.number, rest')

-- std::string(text, pos): what stands from the position on, or std::out_of_range.
unfoldable pub from_position : Bytes → ℕ → Option Bytes
from_position text pos = if leb pos (length text) then some (drop pos text) else none

-- `data.resize(length)` if there is more.
unfoldable pub cut_to : ℕ → Bytes → Bytes
cut_to size bytes = if leb (length bytes) size then bytes else take size bytes

module _ (d : Delegate) where
  open d use {Target, get_gpr_size}

  -- A handler whose arguments are malformed answers with an error.
  unfoldable pub or_invalid {ℓ} : {A : Type ℓ} → Option A → (A → Action d) → Action d
  or_invalid none next = send_error d invalid_argument
  or_invalid (some a) next = next a

  -- A conversion that stops the program when it fails.
  unfoldable pub or_stop {ℓ} : {A : Type ℓ} → Option A → (A → Action d) → Action d
  or_stop none next w = none
  or_stop (some a) next w = next a w

  unfoldable pub handle_m : Bytes → Action d
  unfolding parse_range to_hex
  handle_m args = or_invalid (parse_range args) λ (address, size, rest).
      chk_send d (on_read_memory address size) λ bytes. send d (to_hex bytes)

  unfoldable pub handle_upper_m : Bytes → Action d
  unfolding parse_block hex_to_bytes cut_to c_string
  handle_upper_m args = or_invalid (parse_block args) λ (address, size, rest).
      or_stop (hex_to_bytes (c_string rest))
        λ bytes. report d (on_write_memory address (cut_to size bytes))

  unfoldable pub handle_upper_x : Bytes → Action d
  unfolding parse_block read_block hex
  handle_upper_x args = or_invalid (parse_block args) λ (address, size, rest).
      or_stop (read_block size rest)
        λ bytes. chk_send d (on_write_memory address bytes) λ written. send d (hex written)

  unfoldable pub handle_x : Bytes → Action d
  unfolding parse_range
  handle_x args = or_invalid (parse_range args) λ (address, size, rest).
      if address == 0 && size == 0
      then send_ok d
      else chk_send d (on_read_memory address size) λ bytes. send d bytes

  unfoldable pub handle_allocate : Bytes → Action d
  unfolding parse_allocation protection_of padded hex
  handle_allocate args = or_invalid (parse_allocation args) λ (size, letters).
      chk_send d (on_allocate_memory size (protection_of letters))
        λ address w. send d (padded (get_gpr_size w.target / 4) (hex address)) w

  unfoldable pub handle_deallocate : Bytes → Action d
  unfolding strtoul
  handle_deallocate args = report d (on_deallocate_memory (strtoul args).number)

  unfoldable pub handle_q_crc : Bytes → Action d
  unfolding parse_range padded hex
  handle_q_crc args = or_invalid (parse_range args) λ (address, size, rest).
      chk_send d (on_compute_crc address size) λ crc. send d (padded 8 (hex crc))

  -- A match is answered with the address of the request.
  unfoldable pub search_reply : ℕ → ErrorCode → ℕ → Action d
  unfolding is_success is_not_found format_address
  search_reply address code location w =
      if is_success code
      then send d (codes "1," ++ format_address (get_gpr_size w.target) big address) w
      else if is_not_found code
      then send d (codes "0") w
      else send_error d code w

  -- What stands behind `memory:`.
  unfoldable pub search_behind : Option Bytes → Action d
  unfolding parse_search hex_to_bytes from_position c_string
  search_behind none = send_error d unsupported
  search_behind (some rest) = or_invalid (parse_search rest) λ (address, size, text).
      or_stop (hex_to_bytes (c_string text)) λ bytes. or_stop (from_position bytes size) λ wanted.
        ask d (on_search address wanted) λ code location. search_reply address code location

  unfoldable pub handle_q_search : Bytes → Action d
  unfolding after_prefix
  handle_q_search args = search_behind (after_prefix (codes "memory:") args)

  unfoldable pub handle_t : Bytes → Action d
  unfolding parse_backward format_address
  handle_t args = or_invalid (parse_backward args) λ (address, wanted, mask).
      chk_send d (on_search_backward address wanted mask)
        λ location w. send d (format_address (get_gpr_size w.target) big location) w

  unfoldable pub handle_q_memory_region_info : Bytes → Action d
  unfolding strtoul encode_region
  handle_q_memory_region_info [] = send_ok d
  handle_q_memory_region_info (c ∷ args) =
      chk_send d (on_query_memory_region_info (strtoul (c ∷ args)).number)
        λ info. send d (encode_region info)

  unfoldable pub handle_v_flash_done : Action d
  handle_v_flash_done = report d on_flash_done

  unfoldable pub handle_v_flash_erase : Bytes → Action d
  unfolding parse_range
  handle_v_flash_erase args =
      or_invalid (parse_range args) λ (address, size, rest). report d (on_flash_erase address size)

  abbrev is_invalid_address : ErrorCode → Bool
  is_invalid_address invalid_address = true
  is_invalid_address other = false

  unfoldable pub handle_v_flash_write : Bytes → Action d
  unfolding parse_block read_block
  handle_v_flash_write args = or_invalid (parse_block args) λ (address, size, rest).
      or_stop (read_block size rest) λ bytes. ask d (on_flash_write address bytes) λ code answer.
        if is_invalid_address code then send d (codes "E.memtype") else send_error d code
