-- ===== src/Handlers/Examples/Files.antt =====
-- The theorems on vFile, A and the profiles of Sources/GDBRemote/Session.cpp at concrete packets.
use ds.Base.{◌≡◌, refl, arith, Bool, true, false, some, [], ◌∷◌, ◌++◌, codes, ◌>>=◌}
use ds.Session.{gdb_multiprocess}
use ds.Handlers.Calls.{Call}
use ds.Structures.Numbers.{hex}
use ds.Packet.Helpers.{escape}
use ds.Handlers.Files.{handle_v_file, file_reply, print_int}
use ds.Handlers.Files.Cycle.{pread_text, pwrite_text, pread-pwrite}
use ds.Handlers.Files.Flags.{write_only, Opening, opened, open_text, handle_v_file-open}
use ds.Handlers.Profiling.{handle_q_set_enable_async_profiling, handle_q_get_profile_data}
use ds.Handlers.Profiling.Names.{profiling-zero}
use ds.Handlers.Arguments.{handle_upper_a, parse_arguments}
use ds.Handlers.Arguments.Numbered.{arguments_text}
use ds.Handlers.Arguments.Lists.{handle_upper_a-arguments_text}
use ds.Handlers.Arguments.Fuel.{Run, parse_arguments-Run}
use ds.Handlers.World.{ask, escaped_payload, chk_send, report, payload, default_id}
use ds.Handlers.Examples.Target.{memory, start}

pread-pwrite_example :
    (handle_v_file memory (pwrite_text 3 1 (8 ∷ 0x7d ∷ [])) start
      >>= handle_v_file memory (pread_text 3 2 1))
    ≡ some (record start {
      target = 1 ∷ 8 ∷ 0x7d ∷ 4 ∷ [];
      sent =
          payload (b'F' ∷ hex 2)
          ∷ escaped_payload (b'F' ∷ (hex 2 ++ (b';' ∷ escape (8 ∷ 0x7d ∷ []))))
          ∷ [];
    })
pread-pwrite_example =
    pread-pwrite memory 3 1 8 (0x7d ∷ []) start (1 ∷ 8 ∷ 0x7d ∷ 4 ∷ []) (1 ∷ 8 ∷ 0x7d ∷ 4 ∷ []) 2 2
      refl (omega arith) (omega arith) (omega arith) refl refl

-- O_WRONLY and O_CREAT, with the mode 0644.
abbrev created : Opening
created = record {
  access = write_only;
  append = false;
  create = true;
  truncate = false;
  exclusive = false;
}

handle_v_file-open_example :
    handle_v_file memory (codes "open:" ++ open_text (codes "/a") created 0x1a4) start
    ≡ ask memory
        (Call.on_file_open (codes "/a") (opened created) 0x1a4)
        (λ code fd. file_reply memory code (b'F' ∷ print_int gdb_multiprocess fd))
        start
handle_v_file-open_example =
    handle_v_file-open memory (codes "/a") created 0x1a4 start refl (omega arith) (omega arith)

profiling-zero_example :
    ((enabled : Bool) × (handle_q_set_enable_async_profiling memory
          (codes "enable:1;scan_type:5")
          start
        ≡ report memory (Call.on_enable_asynchronous_profiling default_id enabled 0 0) start))
    × (handle_q_get_profile_data memory (codes "enable:1;scan_type:5") start
        ≡ chk_send memory (Call.on_query_profile_data default_id 0) (λ answer w. some w) start)
profiling-zero_example = profiling-zero memory (codes "enable:1;scan_type:5") start

handle_upper_a-arguments_text_example :
    handle_upper_a memory (arguments_text (codes "/bin/ls" ∷ [] ∷ codes "-l" ∷ [])) start
    ≡ report memory (Call.on_set_program_arguments (codes "/bin/ls" ∷ [] ∷ codes "-l" ∷ [])) start
handle_upper_a-arguments_text_example =
    handle_upper_a-arguments_text memory (codes "/bin/ls" ∷ [] ∷ codes "-l" ∷ []) start
      (omega arith) (omega arith)

parse_arguments-Run_example : Run [] (codes "2,0,6") (parse_arguments 5 [] (codes "2,0,6"))
parse_arguments-Run_example = parse_arguments-Run 5 [] (codes "2,0,6") (omega arith)
