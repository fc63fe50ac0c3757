-- ===== src/Handlers/Resume.antt =====
-- Sources/GDBRemote/Session.cpp: the handlers that resume the target, and what they read of their actions.
pub mod Selection
pub mod Actions
use ds.Base.{
  ℕ, not, Option, none, some, List, [], ◌∷◌, ◌++◌, Bytes, codes, ◌==◌, if◌then◌else◌, ◌>>=◌,
}
use ds.Hex.{hex_to_bytes}
use ds.Errors.{invalid_argument}
use ds.Session.{CompatibilityMode}
use ds.Breakpoint.Sites.{Address, unset}
use ds.Structures.Numbers.{strtoul}
use ds.Structures.Ids.{parse_id}
use ds.Structures.Stops.{is_lldb}
use ds.Handlers.Calls.{
  ResumeAction, single_step, single_step_with_signal, single_step_cycle,
  single_step_cycle_with_signal, continue, continue_with_signal, backward_step, backward_continue,
  stop_action, ThreadResumeAction, on_resume, on_send_input,
}
use ds.Structures.CpuTypes.{Endian}
use ds.Handlers.World.{Delegate, Action, default_id, send, send_error, send_ok, chk_send, send_stop}
use ds.Handlers.Scan.{low32, c_string, strtol_int, parse_list, parse_address, is_set}
use ds.Handlers.Memory.{or_invalid, or_stop}
use ds.Handlers.Registers.{thread_of}

-- ThreadResumeAction() with its action set.
abbrev pub plain : ResumeAction → ThreadResumeAction
plain a = record { ptid = default_id; action = a; address = unset; signal = 0; ncycles = 0 }

-- `;addr` behind the signal of C and S: the address, and where the pointer is left.
unfoldable pub signal_address : ℕ → Endian → Bytes → Address × Bytes
unfolding parse_address
signal_address regsize endian [] = (unset, [])
signal_address regsize endian (c ∷ s) =
    let parsed = parse_address regsize endian s in
    if c == b';' then (if is_set parsed.0 then parsed else (unset, c ∷ s)) else (unset, c ∷ s)

-- `,nnn` behind the address of i and I.
unfoldable pub cycles : Bytes → ℕ
unfolding strtoul
cycles [] = 1
cycles (c ∷ s) = if c == b',' then low32 (strtoul s).number else 1

-- `;addr[,nnn]` behind the signal of I.
unfoldable pub signal_cycles : ℕ → Endian → Bytes → Address × ℕ
unfolding parse_address cycles
signal_cycles regsize endian [] = (unset, 1)
signal_cycles regsize endian (c ∷ s) =
    let (address, rest) = parse_address regsize endian s in
    if c == b';' then (address, cycles rest) else (unset, 1)

-- The action of vCont and the text behind it; `none` is a letter that is not supported.
unfoldable pub parse_letter : ℕ → Bytes → Option (ThreadResumeAction × Bytes)
unfolding strtoul
parse_letter letter s =
    let signal = strtoul s in
    if letter == b'c'
    then some (plain continue, s)
    else if letter == b'C'
    then some (record (plain continue_with_signal) { signal = low32 signal.number }, signal.rest)
    else if letter == b's'
    then some (plain single_step, s)
    else if letter == b'S'
    then some (record (plain single_step_with_signal) { signal = low32 signal.number }, signal.rest)
    else if letter == b't'
    then some (plain stop_action, s)
    else none

-- `:thread-id` behind the action.
unfoldable pub with_thread :
    CompatibilityMode → ThreadResumeAction → Bytes → Option ThreadResumeAction
unfolding parse_id
with_thread mode action [] = some action
with_thread mode action (c ∷ s) =
    let (ptid, parsed) = parse_id mode s in
    if not (c == b':')
    then some action
    else if parsed
    then some (record action { ptid = ptid })
    else none

-- What the callback of vCont makes of a piece that is not empty; `none` is an error reply.
unfoldable pub parse_action : CompatibilityMode → ℕ → Bytes → Option ThreadResumeAction
unfolding parse_letter with_thread
parse_action mode letter s = do parsed ← parse_letter letter s; with_thread mode parsed.0 parsed.1

module _ (d : Delegate) where
  open d use {Target, native, get_gpr_size}

  -- onResume with the actions, and the stop reply.
  unfoldable pub resume : List ThreadResumeAction → Action d
  resume actions = chk_send d (on_resume actions) λ stop. send_stop d stop

  unfoldable pub handle_bc : Action d
  handle_bc = resume (plain backward_continue ∷ [])

  unfoldable pub handle_bs : Action d
  handle_bs = resume (plain backward_step ∷ [])

  -- C and S.
  unfoldable pub resume_with_signal : ResumeAction → Bytes → Action d
  unfolding thread_of signal_address strtol_int strtoul
  resume_with_signal action args w =
      let (address, rest) = signal_address (get_gpr_size w.target) native (strtoul args).rest in
      or_invalid d (thread_of w.session b'c' rest)
        (λ ptid.
          resume (
            record (plain action) { ptid = ptid; address = address; signal = strtol_int args }
            ∷ []))
        w

  unfoldable pub handle_upper_c : Bytes → Action d
  handle_upper_c = resume_with_signal continue_with_signal

  unfoldable pub handle_upper_s : Bytes → Action d
  handle_upper_s = resume_with_signal single_step_with_signal

  -- c and s.
  unfoldable pub resume_at : ResumeAction → Bytes → Action d
  unfolding thread_of parse_address
  resume_at action args w =
      let (address, rest) = parse_address (get_gpr_size w.target) native args in
      or_invalid d (thread_of w.session b'c' rest)
        (λ ptid. resume (record (plain action) { ptid = ptid; address = address } ∷ [])) w

  unfoldable pub handle_c : Bytes → Action d
  handle_c = resume_at continue

  unfoldable pub handle_s : Bytes → Action d
  handle_s = resume_at single_step

  unfoldable pub handle_i : Bytes → Action d
  unfolding parse_address cycles
  handle_i args w =
      let (address, rest) = parse_address (get_gpr_size w.target) native args in
      resume (record (plain single_step_cycle) { address = address; ncycles = cycles rest } ∷ []) w

  -- Input for LLDB, a step with a signal for GDB.
  unfoldable pub handle_upper_i : Bytes → Action d
  unfolding signal_cycles strtol_int strtoul hex_to_bytes c_string
  handle_upper_i args w =
      let (address, count) = signal_cycles (get_gpr_size w.target) native (strtoul args).rest in
      if is_lldb w.session.mode
      then or_stop d (hex_to_bytes (c_string args))
          (λ bytes. chk_send d (on_send_input bytes) λ answer. send_ok d) w
      else resume
          (record (plain single_step_cycle_with_signal) {
            address = address;
            signal = strtol_int args;
            ncycles = count;
          }
            ∷ [])
          w

  -- An error of a piece is sent, and the next piece is looked at.
  unfoldable pub vcont_actions :
      CompatibilityMode
      → List Bytes
      → List ThreadResumeAction
      → (List ThreadResumeAction → Action d)
      → Action d
  unfolding parse_action
  vcont_actions mode [] actions next w = next actions w
  vcont_actions mode ([] ∷ args) actions next w = vcont_actions mode args actions next w
  vcont_actions mode ((letter ∷ s) ∷ args) actions next w = elim (parse_action mode letter s) [
    | none ↦ do w' ← send_error d invalid_argument w; vcont_actions mode args actions next w'
    | some action ↦ vcont_actions mode args (actions ++ action ∷ []) next w
  ]

  unfoldable pub handle_v_cont : Bytes → Action d
  unfolding parse_list
  handle_v_cont args w =
      or_invalid d (parse_list b';' args) (λ list. vcont_actions w.session.mode list [] resume) w

  unfoldable pub handle_v_cont_question_mark : Action d
  handle_v_cont_question_mark = send d (codes "vCont;t;s;S;c;C;")
