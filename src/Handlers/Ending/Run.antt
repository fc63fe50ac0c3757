-- ===== src/Handlers/Ending/Run.antt =====
-- vRun of Sources/GDBRemote/Session.cpp: what becomes of the program and its arguments.
use ds.Base.{
  ℕ, ◌/◌, ◌%◌, ◌<◌, ◌≢◌, Bool, true, false, not, passes_under, passes_under-at, ==_iff, arith, ◌≡◌,
  refl, ◌∙◌, some, List, [], ◌∷◌, Bytes, ◌==◌, map, All, Lacks, AreBytes, is_empty,
}
use ds.Hex.{nibble_to_hex, to_hex}
use ds.Hex.RoundTrip.{hex_to_bytes-to_hex}
use ds.Handlers.Scan.{parse_list}
use ds.Handlers.Scan.Lists.{join, EndsFull, parse_list-join}
use ds.Handlers.Ending.{run_pieces, parse_run}

-- The last of a list, or a default.
abbrev pub last_or : Bytes → List Bytes → Bytes
last_or d [] = d
last_or d (x ∷ xs) = last_or x xs

run_pieces-hex :
    (ps : List Bytes) (name : Bytes)
    → All AreBytes ps
    → run_pieces 0 name [] (map to_hex ps) ≡ some (last_or name ps, [])
unfolding run_pieces
run_pieces-hex [] name h = refl
run_pieces-hex (p ∷ ps) name (are, h) = rw (hex_to_bytes-to_hex p are) (run_pieces-hex ps p h)

parse_run-pieces :
    (args : Bytes) (list : List Bytes)
    → parse_list b';' args ≡ some list
    → parse_run args ≡ run_pieces 0 [] [] list
unfolding parse_run
parse_run-pieces args list h = rw (h, parse_run) refl

-- Hexadecimal digits are no semicolons.
digit_table : passes_under (λ n. not (nibble_to_hex n == b';')) 256 ≡ true
unfolding passes_under nibble_to_hex
digit_table = refl

nibble-ne : (n : ℕ) → n < 256 → nibble_to_hex n ≢ b';'
nibble-ne n h e = absurd (differs _ (passes_under-at _ 256 n h digit_table) ((==_iff _ _).1 e))
  where
    differs : (b : Bool) → not b ≡ true → b ≡ true → ⊥
    differs true p q = cc
    differs false p q = cc

to_hex-Lacks : (s : Bytes) → AreBytes s → Lacks b';' (to_hex s)
unfolding to_hex
to_hex-Lacks [] h = tt
to_hex-Lacks (b ∷ s) (lt, h) =
    (nibble-ne (b / 16) (omega arith), (nibble-ne (b % 16) (omega arith), to_hex-Lacks s h))

map-Lacks : (ps : List Bytes) → All AreBytes ps → All (Lacks b';') (map to_hex ps)
map-Lacks [] h = tt
map-Lacks (p ∷ ps) (are, h) = (to_hex-Lacks p are, map-Lacks ps h)

is_empty-to_hex : (s : Bytes) → is_empty s ≡ false → is_empty (to_hex s) ≡ false
unfolding to_hex
is_empty-to_hex [] h = h
is_empty-to_hex (c ∷ s) h = refl

map-EndsFull : (ps : List Bytes) → EndsFull ps → EndsFull (map to_hex ps)
map-EndsFull [] h = h
map-EndsFull (p ∷ []) h = is_empty-to_hex p h
map-EndsFull (p ∷ q ∷ ps) h = map-EndsFull (q ∷ ps) h

-- Of a program and its arguments, each in hexadecimal with semicolons between them, vRun takes the last for
-- the program, and its list of arguments is empty, unless the last text is empty.
pub parse_run-join :
    (program : Bytes) (arguments : List Bytes)
    → All AreBytes (program ∷ arguments)
    → EndsFull (program ∷ arguments)
    → parse_run (join b';' (map to_hex (program ∷ arguments)))
      ≡ some (last_or program arguments, [])
parse_run-join program arguments are full =
    let texts = program ∷ arguments in
    parse_run-pieces _ (map to_hex texts)
      (parse_list-join b';' (map to_hex texts) (map-Lacks texts are) (map-EndsFull texts full))
    ∙ run_pieces-hex texts [] are
