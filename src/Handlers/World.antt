-- ===== src/Handlers/World.antt =====
-- The session of Sources/GDBRemote/Session.cpp with its delegate, and what a handler does with them: it calls
-- the delegate, sends replies, and sets the fields of the session.
pub mod Replies
use ds.Base.{
  ℕ, Bool, true, false, Option, none, some, List, [], ◌∷◌, ◌++◌, Bytes, ◌==◌, if◌then◌else◌, ◌>>=◌,
}
use ds.Errors.{ErrorCode, success, not_found}
use ds.Session.{CompatibilityMode, error_reply}
use ds.Structures.CpuTypes.{Endian}
use ds.Structures.Ids.{ProcessThreadId, any_id}
use ds.Structures.Stops.{RemoteStopInfo, is_lldb, encode_stop_info}
use ds.Structures.Json.{ThreadJson}
use ds.Handlers.Calls.{Call, Answer}

-- What a handler sends: `send` of a payload, perhaps one that is escaped already, or `sendError` of a code,
-- whose text is Session.error_reply.
pub data Sent : Type 0 where
  payload : Bytes → Sent
  escaped_payload : Bytes → Sent
  failure : ErrorCode → Sent

-- The fields of SessionBase and of Session that the handlers use. std::map's operator[] gives
-- ProcessThreadId() for a key that is not there, so the map is a function.
pub record SessionState : Type 0 where
  pub mode : CompatibilityMode
  pub ackmode : Bool
  pub threads_in_stop_reply : Bool
  pub ptids : ℕ → ProcessThreadId

-- ProcessThreadId()
abbrev pub default_id : ProcessThreadId
default_id = record { pid = any_id; tid = any_id }

-- The delegate, whose classes stand behind this interface: the state of its target, getGPRSize, and every
-- other operation, with the error code and the values that it returns. kEndianNative is the build's, `reserves` says
-- for which sizes std::string::reserve returns and throws neither std::length_error nor std::bad_alloc, and
-- json_text is the JSON library's JSArray::toString.
pub record Delegate : Type 1 where
  pub Target : Type 0
  pub native : Endian
  pub reserves : ℕ → Bool
  pub get_gpr_size : Target → ℕ
  pub json_text : List ThreadJson → Bytes
  pub perform : Target → (c : Call) → Target × ErrorCode × Answer c

-- `error == kSuccess`
unfoldable pub is_success : ErrorCode → Bool
is_success success = true
is_success other = false

unfoldable pub is_not_found : ErrorCode → Bool
is_not_found not_found = true
is_not_found other = false

-- `_ptids[key] = ptid`
unfoldable pub assign : (ℕ → ProcessThreadId) → ℕ → ProcessThreadId → ℕ → ProcessThreadId
assign ptids key ptid k = if k == key then ptid else ptids k

module _ (d : Delegate) where
  open d use {Target, perform}

  -- The session, the delegate's target, and what has been sent.
  pub record World : Type 0 where
    pub session : SessionState
    pub target : Target
    pub sent : List Sent

  -- `none` is an assertion that fails, an exception, a read outside of the arguments, or DS2BUG.
  abbrev pub Action : Type 0
  Action = World → Option World

  unfoldable pub push : Sent → Action
  push reply w = some (record w { sent = w.sent ++ reply ∷ [] })

  -- send(text)
  abbrev pub send : Bytes → Action
  send text = push (payload text)

  -- sendError(code), which is DS2BUG where the mode has no separator to print.
  unfoldable pub send_error : ErrorCode → Action
  unfolding error_reply push
  send_error code w = elim (error_reply w.session.mode code) [
    | none ↦ none
    | some text ↦ push (failure code) w
  ]

  -- sendOK()
  abbrev pub send_ok : Action
  send_ok = push (payload (b'O' ∷ b'K' ∷ []))

  -- A call of the delegate, with its error code and its values.
  unfoldable pub ask : (c : Call) → (ErrorCode → Answer c → Action) → Action
  ask c next w =
      let (target, code, answer) = perform w.target c in
      next code answer (record w { target = target })

  -- CHK_SEND(call)
  unfoldable pub chk_send : (c : Call) → (Answer c → Action) → Action
  unfolding ask is_success send_error
  chk_send c next = ask c λ code answer. if is_success code then next answer else send_error code

  -- sendError(call)
  unfoldable pub report : Call → Action
  unfolding ask send_error
  report c = ask c λ code answer. send_error code

  -- send(text), where the text is computed by code that may not return.
  unfoldable pub send_computed : Option Bytes → Action
  unfolding push
  send_computed none w = none
  send_computed (some text) w = send text w

  -- _ptids['c'] = _ptids['g'] = ptid, but not for LLDB.
  unfoldable pub select : ProcessThreadId → Action
  unfolding assign
  select ptid w = some (
      if is_lldb w.session.mode then w else record w {
        session = record w.session { ptids = assign (assign w.session.ptids b'g' ptid) b'c' ptid };
      })

  -- The stop reply, and the selection of the thread that stopped.
  unfoldable pub send_stop : RemoteStopInfo → Action
  unfolding send_computed select push
  send_stop stop w = do
    w' ← send_computed (encode_stop_info stop w.session.mode w.session.threads_in_stop_reply) w
    select stop.ptid w'
