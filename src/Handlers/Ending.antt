-- ===== src/Handlers/Ending.antt =====
-- Sources/GDBRemote/Session.cpp: the handlers that attach to, start, leave and end the target.
pub mod Run
use ds.Base.{
  ℕ, Bool, false, Option, none, some, List, [], ◌∷◌, ◌++◌, Bytes, ◌==◌, if◌then◌else◌, ◌>>=◌,
}
use ds.Hex.{hex_to_bytes}
use ds.Errors.{ErrorCode}
use ds.Structures.Numbers.{strtoul}
use ds.Structures.Ids.{ProcessThreadId, any_id}
use ds.Structures.Stops.{RemoteStopInfo}
use ds.Handlers.Calls.{
  AttachMode, attach_now, attach_and_wait, attach_or_wait, AttachTarget, process, named,
  on_query_thread_stop_info, on_terminate, on_attach, on_run_attach, on_detach, on_interrupt,
  on_restart, on_reset,
}
use ds.Handlers.World.{
  Delegate, Action, default_id, is_success, is_not_found, send_error, send_ok, ask, chk_send,
  report, send_stop,
}
use ds.Handlers.Scan.{low32, strtoul_decimal, parse_list}
use ds.Handlers.Memory.{or_stop}

-- The mode and the process of D, which are 0 and any process with no arguments.
unfoldable pub detached_process : Bytes → ℕ
unfolding strtoul
detached_process [] = any_id
detached_process (c ∷ s) = if c == b';' then low32 (strtoul s).number else any_id

unfoldable pub parse_detach : Bytes → ℕ × Bool
unfolding detached_process strtoul_decimal
parse_detach [] = (any_id, false)
parse_detach (c ∷ s) =
    let mode = strtoul_decimal (c ∷ s) in (detached_process mode.rest, low32 mode.number == 1)

-- The callback of vRun for each piece: `index` stays 0, so the piece becomes the file name.
unfoldable pub run_pieces : ℕ → Bytes → List Bytes → List Bytes → Option (Bytes × List Bytes)
unfolding hex_to_bytes
run_pieces index filename arguments [] = some (filename, arguments)
run_pieces index filename arguments (arg ∷ args) =
    let rest = λ (text : Bytes).
      run_pieces index (if index == 0 then text else filename)
        (if index == 0 then arguments else arguments ++ text ∷ []) args in
    hex_to_bytes arg >>= rest

-- ParseList's result is not used.
unfoldable pub parse_run : Bytes → Option (Bytes × List Bytes)
unfolding run_pieces parse_list
parse_run args = elim (parse_list b';' args) [
  | none ↦ some ([], [])
  | some list ↦ run_pieces 0 [] [] list
]

module _ (d : Delegate) where
  unfoldable pub handle_question_mark : Action d
  handle_question_mark = chk_send d (on_query_thread_stop_info default_id) λ stop. send_stop d stop

  -- A reply only if there is an error.
  unfoldable pub handle_control_c : Action d
  unfolding is_success
  handle_control_c =
      ask d on_interrupt λ code answer w. if is_success code then some w else send_error d code w

  -- No reply.
  unfoldable pub handle_r : Action d
  handle_r = ask d on_reset λ code answer w. some w

  unfoldable pub handle_upper_r : Action d
  handle_upper_r = report d (on_restart any_id)

  unfoldable pub terminate : ProcessThreadId → Action d
  terminate ptid = chk_send d (on_terminate ptid) λ stop. send_stop d stop

  unfoldable pub handle_k : Action d
  handle_k = terminate default_id

  -- The process becomes a ProcessThreadId with no thread.
  unfoldable pub handle_v_kill : Bytes → Action d
  unfolding strtoul
  handle_v_kill args = terminate (record { pid = low32 (strtoul args).number; tid = any_id })

  unfoldable pub handle_q_kill_spawned_process : Bytes → Action d
  unfolding strtoul_decimal
  handle_q_kill_spawned_process args =
      report d (on_terminate (record { pid = low32 (strtoul_decimal args).number; tid = any_id }))

  unfoldable pub handle_upper_d : Bytes → Action d
  unfolding parse_detach
  handle_upper_d args = let (pid, stopped) = parse_detach args in report d (on_detach pid stopped)

  unfoldable pub attach : AttachTarget → AttachMode → Action d
  attach target mode = chk_send d (on_attach target mode) λ stop. send_stop d stop

  unfoldable pub handle_v_attach : Bytes → Action d
  unfolding strtoul
  handle_v_attach args = attach (process (low32 (strtoul args).number)) attach_now

  -- vAttachName, vAttachOrWait and vAttachWait.
  unfoldable pub attach_named : AttachMode → Bytes → Action d
  unfolding hex_to_bytes
  attach_named mode args = or_stop d (hex_to_bytes args) λ name. attach (named name) mode

  unfoldable pub handle_v_attach_name : Bytes → Action d
  handle_v_attach_name = attach_named attach_now

  unfoldable pub handle_v_attach_or_wait : Bytes → Action d
  handle_v_attach_or_wait = attach_named attach_or_wait

  unfoldable pub handle_v_attach_wait : Bytes → Action d
  handle_v_attach_wait = attach_named attach_and_wait

  unfoldable pub handle_v_run : Bytes → Action d
  unfolding parse_run
  handle_v_run args = or_stop d (parse_run args) λ (filename, arguments).
      chk_send d (on_run_attach filename arguments) λ stop. send_stop d stop

  unfoldable pub stopped_reply : ErrorCode → RemoteStopInfo → Action d
  unfolding is_success is_not_found
  stopped_reply code stop =
      if is_success code
      then send_stop d stop
      else if is_not_found code
      then send_ok d
      else send_error d code

  unfoldable pub handle_v_stopped : Action d
  handle_v_stopped = ask d (on_query_thread_stop_info default_id) stopped_reply
