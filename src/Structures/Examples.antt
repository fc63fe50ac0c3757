-- ===== src/Structures/Examples.antt =====
-- Identifiers, a memory region and a stop reply.
use ds.Base.{◌≡◌, true, some, [], ◌∷◌, ◌++◌, codes, arith}
use ds.Session.{lldb}
use ds.Breakpoint.Sites.{at}
use ds.Breakpoint.Hits.{write_watchpoint}
use ds.Structures.Ids.{ProcessThreadId, parse_id, encode_id}
use ds.Structures.Ids.RoundTrip.{prefix_of, read_back, parse_id-encode_id}
use ds.Structures.Replies.{MemoryRegionInfo, encode_region}
use ds.Structures.Fields.{read_fields}
use ds.Structures.Regions.{region_of, region_of-encode_region}
use ds.Structures.Stops.{RemoteStopInfo, stop}
use ds.Structures.RegisterTexts.{register_text}
use ds.Structures.RegisterTexts.Memory.{value_of_bytes, register_text-bytes}
use ds.Hex.{to_hex}

abbrev a_thread : ProcessThreadId
a_thread = record { pid = 0x1a2b; tid = 0x1a2c }

parse_id-encode_id_example :
    parse_id lldb (prefix_of lldb ++ encode_id lldb a_thread) ≡ (read_back lldb a_thread, true)
parse_id-encode_id_example = parse_id-encode_id lldb a_thread (omega arith) (omega arith)

abbrev a_region : MemoryRegionInfo
a_region = record { start = 0x400000; length = 0x1000; protection = 5; name = codes "a;b" }

region_of-encode_region_example : region_of (read_fields (encode_region a_region)) ≡ a_region
region_of-encode_region_example =
    region_of-encode_region a_region (omega arith) (omega arith) (omega arith)
      (omega arith, (omega arith, (omega arith, tt)))

abbrev a_stop : RemoteStopInfo
a_stop = record {
  base = record {
    reason = write_watchpoint;
    watchpoint_address = at 0x1000;
    watchpoint_index = some 0;
  };
  event = stop;
  status = 0;
  signal = 5;
  core = some 1;
  ptid = a_thread;
  thread_name = codes "main";
  registers =
      (0, record { size = 8; value = 0x1122334455667788 })
      ∷ (7, record { size = 4; value = 1 })
      ∷ [];
  threads = [];
}

-- The low half of a value of eight bytes.
register_text-bytes_example :
    register_text (record {
      size = 4;
      value = value_of_bytes (0x88 ∷ 0x77 ∷ 0x66 ∷ 0x55 ∷ 0x44 ∷ 0x33 ∷ 0x22 ∷ 0x11 ∷ []);
    })
    ≡ some (to_hex (0x88 ∷ 0x77 ∷ 0x66 ∷ 0x55 ∷ []))
register_text-bytes_example =
    register_text-bytes 0x88 0x77 0x66 0x55 0x44 0x33 0x22 0x11 4 (omega arith) (omega arith) (
      omega arith,
      (
        omega arith,
        (
          omega arith,
          (omega arith, (omega arith, (omega arith, (omega arith, (omega arith, tt))))),
        ),
      ),
    )
