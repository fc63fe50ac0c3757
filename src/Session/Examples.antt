-- ===== src/Session/Examples.antt =====
-- The session on a channel that keeps what is written to it.
use ds.Base.{
  ◌≡◌, ◌≢◌, ◌>>=◌, refl, inl, true, false, none, some, List, [], ◌∷◌, ◌++◌, Bytes, codes, arith,
  length,
}
use ds.Hex.{nibble_to_hex}
use ds.Packet.Helpers.{checksum, checksum_from, has_special, escape, is_special}
use ds.Packet.Processor.{Event, initial, set_delegate}
use ds.Packet.Chunks.{parse_all, packets, concat}
use ds.Interpreter.{equals, Handler, find_first_of, is_separator}
use ds.Interpreter.Table.{session_handlers, session_table}
use ds.Interpreter.Dispatch.{In, In-drop}
use ds.Session.{
  Channel, Reaction, Dispatch, lldb, dispatched, handled, frame, send_text, on_packet_data,
}
use ds.Session.Framing.{sent, decoded, decoded-sent}
use ds.Queue.{new_queue}
use ds.Session.Threads.{
  is_interrupt, on_thread_packet, receive_cooked, interpreted, on_thread_packet-invalid,
}
use ds.Session.Commands.{on_packet_data-query}

abbrev wire : Channel
wire = record { State = Bytes; connected = λ s. true; write = λ s b. (s ++ b, some (length b)) }

abbrev texts : List Bytes
texts = codes "OK" ∷ codes "a$" ∷ []

abbrev pieces : List Bytes
pieces = codes "$O" ∷ codes "K#9a$a}" ∷ (4 ∷ codes "#e2") ∷ []

pieces-concat : concat pieces ≡ sent texts
unfolding sent send_text frame has_special escape checksum checksum_from nibble_to_hex is_special
pieces-concat = refl

decoded-sent_example :
    (es : List Event) × (parse_all (set_delegate initial) pieces ≡ some (set_delegate initial, es))
    × (decoded (packets es) ≡ some texts)
decoded-sent_example =
    decoded-sent texts pieces
      ((omega arith, (omega arith, tt)), ((omega arith, (omega arith, tt)), tt)) pieces-concat

abbrev resume : Handler
resume = record { mode = equals; command = codes "vCont"; callback = some 107 }

resume-In : In resume session_handlers
unfolding session_handlers
resume-In = In-drop 107 session_handlers resume (inl refl)

no_separator : find_first_of is_separator (codes "vCont") ≡ none
unfolding find_first_of
no_separator = refl

on_packet_data-query_example :
    on_packet_data wire [] lldb false session_table (codes "vCont" ++ b';' ∷ codes "c:1f") true
    ≡ some ([], dispatched (handled resume (codes "c:1f")))
on_packet_data-query_example =
    on_packet_data-query wire [] lldb resume b'v' (codes "Cont") (codes "c:1f") b';' resume-In refl
      refl refl no_separator refl refl refl

-- A packet that could be a command, with a wrong checksum.
on_thread_packet-invalid_example :
    ((s' : Bytes) × (r : Reaction) × (on_thread_packet wire [] lldb true session_table new_queue
          (codes "vCont;c:1f")
          false
        ≡ some (s', new_queue, some r))
      × ((d : Dispatch) → r ≢ dispatched d))
    × ((on_thread_packet wire [] lldb false session_table
            (record { messages = []; terminated = false })
            (codes "vCont;c:1f")
            false
          >>= λ step. receive_cooked wire step.0 lldb false session_table step.1)
        ≡ interpreted wire [] lldb false session_table
            (record { messages = []; terminated = false })
            (codes "vCont;c:1f")
            true)
unfolding is_interrupt
on_thread_packet-invalid_example =
    on_thread_packet-invalid wire [] lldb session_table new_queue false b'v' (codes "Cont;c:1f")
      refl refl
