-- ===== src/Packet/Examples.antt =====
-- The packet layer on concrete streams.
use ds.Base.{◌≡◌, refl, some, List, [], ◌∷◌, ◌++◌, Bytes, codes, arith}
use ds.Packet.Processor.{Processor, Event, parse, initial, set_delegate}
use ds.Packet.Automaton.{idle, body, run, represent, complaint}
use ds.Packet.Refinement.{parse-run}
use ds.Packet.Chunks.{Delivers, packets, concat, parse_all, parse_all-run, parse_all-cut}

abbrev text : Bytes
text = codes "a}$"

-- The end of a frame, an acknowledgement, and noise.
abbrev chunk : Bytes
chunk = codes "K#9a+x"

-- A frame in three pieces, and in two.
abbrev pieces : List Bytes
pieces = codes "+$" ∷ codes "OK#" ∷ codes "9a" ∷ []

abbrev halves : List Bytes
halves = codes "+$OK" ∷ codes "#9a" ∷ []

parse-run_example :
    parse (represent (body (codes "O"))) chunk
    ≡ some (
      represent (run (body (codes "O")) chunk).0,
      (run (body (codes "O")) chunk).1 ++ complaint (body (codes "O")) chunk,
    )
parse-run_example = parse-run (body (codes "O")) chunk (omega arith, tt)

parse_all-run_example :
    Delivers
      (parse_all (represent idle) pieces)
      (run idle (concat pieces)).0
      (run idle (concat pieces)).1
parse_all-run_example = parse_all-run idle pieces tt

parse_all-cut_example :
    (p : Processor) × (es : List Event) × (fs : List Event) × (parse_all
        (set_delegate initial)
        pieces
      ≡ some (p, es))
    × (parse_all (set_delegate initial) halves ≡ some (p, fs))
    × (packets es ≡ packets fs)
parse_all-cut_example = parse_all-cut pieces halves refl
