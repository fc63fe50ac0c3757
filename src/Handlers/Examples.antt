-- ===== src/Handlers/Examples.antt =====
-- The theorems on the handlers of Sources/GDBRemote/Session.cpp at concrete packets, and tests of the
-- definitions.
mod Target
mod Files
use ds.Base.{
  ℕ, ◌+◌, Option, ◌≡◌, refl, ap, arith, inr, Bool, true, false, none, some, [], ◌∷◌, ◌++◌, Bytes,
  codes, ◌>>=◌, length, take, drop, map,
}
use ds.Hex.{to_hex}
use ds.Errors.{unsupported, ErrorCode, success, invalid_argument}
use ds.Session.{gdb_multiprocess}
use ds.Breakpoint.Sites.{unset, at}
use ds.Breakpoint.Hits.{signal_stop}
use ds.Structures.CpuTypes.{x86_64, little}
use ds.Structures.Ids.{ProcessThreadId, encode_id}
use ds.Structures.Stops.{RemoteStopInfo, stop, encode_stop_info}
use ds.Structures.Registers.{no_encoding, no_format}
use ds.Structures.Processes.{ProcessInfo}
use ds.Handlers.Calls.{Call, continue, Answer}
use ds.Structures.Numbers.{hex, strtoul}
use ds.Structures.Ids.{valid_id}
use ds.Handlers.Scan.{expect, parse_address, format_address, parse_list}
use ds.Handlers.Scan.Addresses.{parse_address-format_address}
use ds.Handlers.Scan.Lists.{join, parse_list-join}
use ds.Handlers.Memory.{parse_range, or_invalid, handle_m, handle_upper_m, handle_upper_x}
use ds.Packet.Helpers.{escape}
use ds.Interpreter.{Handler, split_command}
use ds.Handlers.Serving.{serve_packet}
use ds.Handlers.Serving.Named.{name_of, serve_packet-run}
use ds.Handlers.Serving.Cycle.{serve_packet-memory}
use ds.Handlers.Registers.{format_registers, handle_g, handle_upper_g}
use ds.Handlers.Registers.Texts.{upper_g-format_registers}
use ds.Handlers.Resume.{plain, parse_action, resume, handle_v_cont}
use ds.Handlers.Resume.Selection.{g-upper_h, g-resume}
use ds.Handlers.Resume.Actions.{actions_of, errors_of, handle_v_cont-actions}
use ds.Handlers.Ending.{parse_run}
use ds.Handlers.Ending.Run.{parse_run-join}
use ds.Handlers.Threads.{handle_upper_h}
use ds.Handlers.Xfer.{speed_reply}
use ds.Handlers.Xfer.Speed.{length-speed_reply}
use ds.Handlers.Commands.{Command, run}
use ds.Handlers.Commands.Kinds.{is_irregular}
use ds.Handlers.Answers.{Answered}
use ds.Handlers.Answers.Once.{run-Answered}
use ds.Handlers.Xfer.Download.{slice, download, download-whole}
use ds.Handlers.World.{
  escaped_payload, Action, send_error, chk_send, ask, is_success, push, report, Delegate, World,
  payload, failure, default_id, assign,
}
use ds.Handlers.Examples.Target.{
  a_thread, a_stop, an_object, sliced, answered, memory, start, read_two,
}

-- Two bytes at address 1.
reads : run memory Command.letter_m (codes "1,2") start ≡ some read_two
unfolding run handle_m parse_range or_invalid chk_send ask is_success push strtoul to_hex expect
reads = refl

run-Answered_example : Answered memory start read_two
unfolding is_irregular
run-Answered_example = run-Answered memory Command.letter_m (codes "1,2") start read_two refl reads

parse_address-format_address_example :
    parse_address 64 little (format_address 64 little 0x1122334455667788)
    ≡ (at 0x1122334455667788, [])
parse_address-format_address_example =
    parse_address-format_address 64 little 0x1122334455667788 (inr (refl, omega arith))

serve_packet-memory_example :
    (serve_packet memory (codes "M1,2:0809") start >>= serve_packet memory (codes "m1,2"))
    ≡ some (record start {
      target = 1 ∷ 8 ∷ 9 ∷ 4 ∷ [];
      sent = failure success ∷ payload (to_hex (8 ∷ 9 ∷ [])) ∷ [];
    })
unfolding hex to_hex
serve_packet-memory_example =
    serve_packet-memory memory 1 (8 ∷ 9 ∷ []) start (1 ∷ 8 ∷ 9 ∷ 4 ∷ []) (1 ∷ 8 ∷ 9 ∷ 4 ∷ []) 2
      (omega arith) (omega arith) (omega arith) refl refl

-- A packet of a command whose name is the beginning of two others.
split_attach : split_command (codes "vAttach;1c") ≡ (name_of Command.v_attach, codes "1c")
unfolding split_command name_of
split_attach = refl

serve_packet-run_example :
    serve_packet memory (codes "vAttach;1c") start ≡ run memory Command.v_attach (codes "1c") start
serve_packet-run_example =
    serve_packet-run memory Command.v_attach (codes "vAttach;1c") (codes "1c") start split_attach
      refl refl

served :
    (t : Bytes) (offset : ℕ) (piece : Bytes) (last : Bool)
    → slice an_object offset 4 ≡ some (piece, last)
    → answered t (Call.on_xfer_read (codes "threads") [] offset 4) ≡ (t, success, (piece, last))
served t offset piece last h = ap (sliced t) h

download-whole_example : download memory (codes "threads") [] 4 11 0 start ≡ some an_object
download-whole_example =
    download-whole memory (codes "threads") [] 4 an_object (omega arith) tt (omega arith)
      (omega arith) (omega arith) served start

parse_list-join_example : parse_list b';' (codes "c;;t") ≡ some (codes "c" ∷ [] ∷ codes "t" ∷ [])
parse_list-join_example = parse_list-join b';' (codes "c" ∷ [] ∷ codes "t" ∷ []) (omega arith) refl

g-upper_h_example :
    (handle_upper_h memory (b'g' ∷ encode_id gdb_multiprocess a_thread) start
      >>= handle_g memory [])
    ≡ some (record start {
      session = record start.session { ptids = assign (λ k. default_id) b'g' a_thread };
      sent = payload (codes "OK") ∷ payload (format_registers 64 little (0x1122 ∷ 3 ∷ [])) ∷ [];
    })
unfolding valid_id
g-upper_h_example =
    g-upper_h memory a_thread start (1 ∷ 2 ∷ 3 ∷ 4 ∷ []) (1 ∷ 2 ∷ 3 ∷ 4 ∷ []) (0x1122 ∷ 3 ∷ [])
      (omega arith) (omega arith) refl (λ e. omega arith) refl refl refl

abbrev stop_text : Bytes
stop_text = codes "T05;thread:p5.7;reason:signal;signal:5;"

printed_stop : encode_stop_info a_stop gdb_multiprocess false ≡ some stop_text
unfolding encode_stop_info
printed_stop = refl

g-resume_example :
    (resume memory (plain continue ∷ []) start >>= handle_g memory [])
    ≡ some (record start {
      session = record start.session {
        ptids = assign (assign (λ k. default_id) b'g' a_thread) b'c' a_thread;
      };
      sent = payload stop_text ∷ payload (format_registers 64 little (0x1122 ∷ 3 ∷ [])) ∷ [];
    })
g-resume_example =
    g-resume memory (plain continue ∷ []) start (1 ∷ 2 ∷ 3 ∷ 4 ∷ []) (1 ∷ 2 ∷ 3 ∷ 4 ∷ []) a_stop
      stop_text (0x1122 ∷ 3 ∷ []) refl refl printed_stop refl

-- An action, one that is not known, and another action.
listed : parse_list b';' (codes "s;z;c") ≡ some (codes "s" ∷ codes "z" ∷ codes "c" ∷ [])
unfolding parse_list
listed = refl

handle_v_cont-actions_example :
    handle_v_cont memory (codes "s;z;c") start
    ≡ resume memory
        (actions_of gdb_multiprocess (codes "s" ∷ codes "z" ∷ codes "c" ∷ []))
        (record start {
          sent = errors_of gdb_multiprocess (codes "s" ∷ codes "z" ∷ codes "c" ∷ []);
        })
handle_v_cont-actions_example =
    handle_v_cont-actions memory (codes "s;z;c") (codes "s" ∷ codes "z" ∷ codes "c" ∷ []) start
      listed (λ e. cc)

one_error :
    errors_of gdb_multiprocess (codes "s" ∷ codes "z" ∷ codes "c" ∷ [])
    ≡ failure invalid_argument ∷ []
unfolding parse_action
one_error = refl

parse_run-join_example :
    parse_run (join b';' (map to_hex (codes "/bin/ls" ∷ codes "-l" ∷ []))) ≡ some (codes "-l", [])
parse_run-join_example = parse_run-join (codes "/bin/ls") (codes "-l" ∷ []) (omega arith) refl

length-speed_reply_example :
    (text : Bytes) × (speed_reply memory 40 start
      ≡ some (record start { sent = payload text ∷ [] }))
    × (length text ≡ 45)
length-speed_reply_example = length-speed_reply memory 40 start (omega arith) (omega arith)

upper_g-format_registers_example :
    handle_upper_g memory (format_registers 64 little (5 ∷ 6 ∷ [])) start
    ≡ report memory (Call.on_write_general_registers default_id (5 ∷ 6 ∷ [])) start
upper_g-format_registers_example =
    upper_g-format_registers memory (5 ∷ 6 ∷ []) start refl (inr refl)
      (inr (refl, omega arith), (inr (refl, omega arith), tt))
