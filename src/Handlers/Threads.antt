-- ===== src/Handlers/Threads.antt =====
-- Sources/GDBRemote/Session.cpp: the handlers that select and list threads.
use ds.Base.{
  ℕ, Bool, true, false, Option, none, some, [], ◌∷◌, ◌++◌, Bytes, codes, ◌==◌, if◌then◌else◌, ◌>>=◌,
  drop, length, leb,
}
use ds.Hex.{to_hex}
use ds.Errors.{ErrorCode, invalid_argument}
use ds.Session.{CompatibilityMode, gdb, packet_separator}
use ds.Structures.Numbers.{strtoul, hex, padded}
use ds.Structures.Ids.{ProcessThreadId, all_id, any_id, parse_id, encode_id}
use ds.Structures.Stops.{is_lldb}
use ds.Handlers.Calls.{
  on_thread_is_alive, on_query_current_thread, on_query_thread_list, on_query_thread_info,
  on_query_attached, on_query_tib_address, on_query_tls_address,
}
use ds.Structures.CpuTypes.{big}
use ds.Handlers.World.{
  Delegate, Action, assign, is_success, is_not_found, send, send_error, send_ok, ask, chk_send,
  report, send_computed,
}
use ds.Handlers.Scan.{cut, expect, low32, format_address}
use ds.Handlers.Memory.{or_invalid}

-- ptid.parse(text, mode), if it succeeds.
unfoldable pub parsed_id : CompatibilityMode → Bytes → Option ProcessThreadId
unfolding parse_id
parsed_id mode text = let (ptid, parsed) = parse_id mode text in if parsed then some ptid else none

-- The command of H and its thread; a process of -1 is refused.
unfoldable pub parse_selection : CompatibilityMode → Bytes → Option (ℕ × ProcessThreadId)
unfolding parsed_id
parse_selection mode [] = none
parse_selection mode (command ∷ []) = none
parse_selection mode (command ∷ c ∷ s) = do
  ptid ← parsed_id mode (c ∷ s)
  if ptid.pid == all_id then none else some (command, ptid)

-- The reply of qL: the count and whether it is done, the thread of the request and the one found.
unfoldable pub list_reply : Bool → ℕ → ℕ → Bytes
unfolding padded hex
list_reply found next tid =
    codes "qM"
    ++ ((if found then codes "10" else codes "01")
        ++ (padded 8 (hex next) ++ padded 8 (hex (if found then tid else 0))))

-- `thread-id,offset,lm`
unfoldable pub parse_tls : CompatibilityMode → Bytes → Option (ProcessThreadId × ℕ × ℕ)
unfolding cut parsed_id strtoul expect
parse_tls mode args = do
  parts ← cut b',' args
  ptid ← parsed_id mode args
  let offset = strtoul parts.1
  rest ← expect b',' offset.rest
  some (ptid, offset.number, (strtoul rest).number)

-- LLDB is sent the process only.
unfoldable pub current_mode : CompatibilityMode → CompatibilityMode
current_mode mode = if is_lldb mode then gdb else mode

module _ (d : Delegate) where
  open d use {Target, get_gpr_size}

  -- `_ptids[command] = ptid`, and OK.
  unfoldable pub select_for : ℕ → ProcessThreadId → Action d
  unfolding assign
  select_for command ptid w =
      send_ok d
        (record w { session = record w.session { ptids = assign w.session.ptids command ptid } })

  unfoldable pub handle_upper_h : Bytes → Action d
  unfolding parse_selection
  handle_upper_h args w =
      or_invalid d (parse_selection w.session.mode args)
        (λ (command, ptid). chk_send d (on_thread_is_alive ptid) λ answer. select_for command ptid)
        w

  unfoldable pub handle_upper_t : Bytes → Action d
  unfolding parsed_id
  handle_upper_t args w =
      or_invalid d (parsed_id w.session.mode args) (λ ptid. report d (on_thread_is_alive ptid)) w

  unfoldable pub handle_q_c : Action d
  unfolding current_mode encode_id
  handle_q_c =
      chk_send d on_query_current_thread
        λ ptid w. send d (codes "QC" ++ encode_id (current_mode w.session.mode) ptid) w

  unfoldable pub handle_q_get_pid : Action d
  unfolding hex
  handle_q_get_pid = chk_send d on_query_current_thread λ ptid. send d (hex ptid.pid)

  -- The reply of qfThreadInfo and qsThreadInfo.
  unfoldable pub thread_reply : ErrorCode → ℕ → Action d
  unfolding is_success is_not_found packet_separator hex
  thread_reply code tid w =
      if is_success code
      then send_computed d
          (do
            separator ← packet_separator w.session.mode
            some (codes "m" ++ (separator ++ hex tid)))
          w
      else if is_not_found code
      then send d (codes "l") w
      else send_error d code w

  unfoldable pub handle_qf_thread_info : Action d
  handle_qf_thread_info = ask d (on_query_thread_list any_id all_id) thread_reply

  unfoldable pub handle_qs_thread_info : Action d
  handle_qs_thread_info = ask d (on_query_thread_list any_id any_id) thread_reply

  unfoldable pub found_reply : ℕ → ErrorCode → ℕ → Action d
  unfolding is_success is_not_found list_reply
  found_reply next code tid =
      if is_success code
      then send d (list_reply true next tid)
      else if is_not_found code
      then send d (list_reply false next tid)
      else send_error d code

  unfoldable pub handle_q_l : Bytes → Action d
  unfolding strtoul
  handle_q_l (a ∷ b ∷ c ∷ s) =
      let next = low32 (strtoul (c ∷ s)).number in
      ask d (on_query_thread_list any_id next) (found_reply next)
  handle_q_l args = send_error d invalid_argument

  -- The thread-id stands behind eight characters.
  unfoldable pub handle_q_p : Bytes → Action d
  unfolding parsed_id to_hex
  handle_q_p args w =
      if leb 8 (length args)
      then or_invalid d (parsed_id w.session.mode (drop 8 args))
          (λ ptid. chk_send d (on_query_thread_info ptid) λ text. send d (to_hex text)) w
      else send_error d invalid_argument w

  unfoldable pub handle_q_attached : Bytes → Action d
  unfolding strtoul
  handle_q_attached args =
      chk_send d (on_query_attached (low32 (strtoul args).number))
        λ attached. send d (if attached then codes "1" else codes "0")

  unfoldable pub handle_q_get_tib_addr : Bytes → Action d
  unfolding parsed_id format_address
  handle_q_get_tib_addr args w =
      or_invalid d (parsed_id w.session.mode args)
        (λ ptid.
          chk_send d (on_query_tib_address ptid)
            λ address w'. send d (format_address (get_gpr_size w'.target) big address) w')
        w

  unfoldable pub handle_q_get_tls_addr : Bytes → Action d
  unfolding parse_tls format_address
  handle_q_get_tls_addr args w =
      or_invalid d (parse_tls w.session.mode args)
        (λ (ptid, offset, link_map).
          chk_send d (on_query_tls_address ptid offset link_map)
            λ address w'. send d (format_address (get_gpr_size w'.target) big address) w')
        w
