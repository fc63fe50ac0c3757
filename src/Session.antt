-- ===== src/Session.antt =====
-- Headers/DebugServer2/GDBRemote/SessionBase.h and Sources/GDBRemote/SessionBase.cpp, with the calls
-- that ProtocolInterpreter makes of the session. The operating system's channel is a parameter.
mod Examples
pub mod Framing
pub mod Replies
pub mod Commands
pub mod Threads
use ds.Base.{
  ℕ, ◌+◌, ◌/◌, ◌%◌, Bool, true, false, not, ◌&&◌, ◌||◌, Option, none, some, List, [], ◌∷◌, ◌++◌,
  Bytes, codes, ◌==◌, if◌then◌else◌, ◌>>=◌, length, drop, contains,
}
use ds.Hex.{nibble_to_hex}
use ds.Errors.{ErrorCode, success, unknown, unsupported, error_number}
use ds.Packet.Helpers.{checksum, has_special, escape, unescape}
use ds.Interpreter.{Handler, split_command, find_handler}

pub data CompatibilityMode : Type 0 where
  gdb gdb_multiprocess lldb lldb_thread : CompatibilityMode

-- Host::Channel, of which the operating system implements `connected` and `write`, the call of
-- send(void const *, size_t): the count of the bytes written, or `none` for a negative result.
pub record Channel : Type 1 where
  pub State : Type 0
  pub connected : State → Bool
  pub write : State → Bytes → State × Option ℕ

-- The text that `send` puts on the wire: a payload in a frame with its checksum, which the stream
-- prints with two lower-case digits.
unfoldable pub frame : Bytes → Bytes
frame encoded =
    b'$'
    ∷ (encoded
        ++ b'#'
          ∷ nibble_to_hex (checksum encoded / 16)
          ∷ nibble_to_hex (checksum encoded % 16)
          ∷ [])

unfoldable pub send_text : Bytes → Bool → Bytes
send_text bytes escaped =
    if not escaped && has_special bytes then frame (escape bytes) else frame bytes

unfoldable pub packet_separator : CompatibilityMode → Option Bytes
packet_separator gdb = some (codes " ")
packet_separator gdb_multiprocess = some (codes " ")
packet_separator lldb = some []
packet_separator lldb_thread = none

-- The reply that sendError sends; `none` is DS2BUG.
unfoldable pub error_reply : CompatibilityMode → ErrorCode → Option Bytes
unfolding packet_separator
error_reply mode success = some (codes "OK")
error_reply mode unsupported = some []
error_reply mode unknown = some []
error_reply mode code = do
  separator ← packet_separator mode
  some (
      b'E'
      ∷ (separator
          ++ nibble_to_hex (error_number code / 16) ∷ nibble_to_hex (error_number code % 16) ∷ []))

-- What onCommand does with a command.
pub data Dispatch : Type 0 where
  unknown_command : Dispatch
  handled : Handler → Bytes → Dispatch
  overrun : Dispatch

call : Handler → Option Bytes → Dispatch
call h none = overrun
call h (some arguments) = handled h arguments

-- The part of the command behind the handler's own, and the arguments, are one text, which is
-- unescaped if it holds '*' or '}'.
unfoldable pub on_command : List Handler → Bytes → Bytes → Dispatch
unfolding call
on_command handlers command arguments = elim (find_handler handlers command) [
  | none ↦ unknown_command
  | some h ↦
      let extra = drop (length h.command) command ++ arguments in
      call h (if contains b'*' extra || contains b'}' extra then unescape extra else some extra)
]

pub data Reaction : Type 0 where
  acknowledged refused_by_peer dropped : Reaction
  dispatched : Dispatch → Reaction

module _ (ch : Channel) where
  open ch use {State, connected, write}

  -- Channel::send(std::string const &).
  unfoldable pub send_string : State → Bytes → State × Bool
  send_string s buffer =
      let (s', sent) = write s buffer in
      if connected s
      then (s', elim sent [ none ↦ false | some n ↦ n == length buffer ])
      else (s, false)

  -- sendACK and sendNAK write one byte directly.
  send_byte : State → ℕ → State × Bool
  send_byte s c =
      let (s', sent) = write s (c ∷ []) in (s', elim sent [ none ↦ false | some n ↦ n == 1 ])

  -- A NAK, in any mode; ProtocolInterpreter::onInvalidData only passes the call on.
  on_invalid_data : State → Bytes → State × Bool
  unfolding send_byte
  on_invalid_data s bytes = send_byte s b'-'

  unfoldable pub on_command_received : State → Bool → Bool → State × Bool
  unfolding send_byte
  on_command_received s ackmode valid =
      if not ackmode then (s, true) else if valid then send_byte s b'+' else send_byte s b'-'

  unfoldable pub send_error_reply : State → CompatibilityMode → ErrorCode → Option (State × Bool)
  unfolding send_string
  send_error_reply s mode code = do
    reply ← error_reply mode code
    some (send_string s (send_text reply false))

  -- The dispatch, and the reply to an unknown command.
  dispatch : State → CompatibilityMode → Dispatch → Option (State × Reaction)
  dispatch s mode unknown_command = do
    (s', sent) ← send_error_reply s mode unsupported
    some (s', dispatched unknown_command)
  dispatch s mode d = some (s, dispatched d)

  -- ProtocolInterpreter::onPacketData, with a session. Only a text of one character can be an
  -- acknowledgement.
  unfoldable pub on_packet_data :
      State → CompatibilityMode → Bool → List Handler → Bytes → Bool → Option (State × Reaction)
  unfolding dispatch
  on_packet_data s mode ackmode handlers bytes valid =
      let (s', go_on) = on_command_received s ackmode valid in
      let (command, arguments) = split_command bytes in
      if length bytes == 1 && contains b'+' bytes
      then some (s, acknowledged)
      else if length bytes == 1 && contains b'-' bytes
      then some (s, refused_by_peer)
      else if not go_on || not valid
      then some (s', dropped)
      else dispatch s' mode (on_command handlers command arguments)
