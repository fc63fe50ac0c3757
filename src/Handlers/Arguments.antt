-- ===== src/Handlers/Arguments.antt =====
-- Sources/GDBRemote/Session.cpp: A, the program and its arguments.
pub mod Numbered
pub mod Lists
pub mod Fuel
use ds.Base.{
  ℕ, zero, suc, ◌+◌, ◌*◌, ◌/◌, Bool, Option, none, some, List, [], ◌∷◌, ◌++◌, Bytes, ◌==◌, ltb, leb,
  if◌then◌else◌, ◌>>=◌, length, take, drop, is_empty, map,
}
use ds.Hex.{hex_to_bytes}
use ds.Handlers.Calls.{on_set_program_arguments}
use ds.Handlers.World.{Delegate, Action, report}
use ds.Handlers.Scan.{expect, low32, strtoul_decimal}
use ds.Handlers.Memory.{or_invalid, or_stop}

-- std::map<size_t, std::string>, in the order of its keys.
abbrev pub ArgumentMap : Type 0
ArgumentMap = List (ℕ × Bytes)

-- `argmap[argno] += text`
unfoldable pub append_argument : ArgumentMap → ℕ → Bytes → ArgumentMap
append_argument [] argno text = (argno, text) ∷ []
append_argument ((key, value) ∷ rest) argno text =
    let later = append_argument rest argno text in
    if key == argno
    then (key, value ++ text) ∷ rest
    else if ltb argno key
    then (argno, text) ∷ (key, value) ∷ rest
    else (key, value) ∷ later

-- `argmap[key]`, of a key that may not be there.
unfoldable pub argument_at : ArgumentMap → ℕ → Bytes
argument_at [] k = []
argument_at ((key, value) ∷ rest) k = if key == k then value else argument_at rest k

-- One more than the last key.
unfoldable pub argument_count : ArgumentMap → ℕ
argument_count [] = 0
argument_count ((key, value) ∷ []) = key + 1
argument_count ((key, value) ∷ next ∷ rest) = argument_count (next ∷ rest)

unfoldable pub numbers_from : ℕ → ℕ → List ℕ
numbers_from zero first = []
numbers_from (suc n) first = first ∷ numbers_from n (first + 1)

-- `arguments`, which is resized to hold the last key.
unfoldable pub arguments_of : ArgumentMap → List Bytes
unfolding argument_count argument_at numbers_from
arguments_of argmap = map (argument_at argmap) (numbers_from (argument_count argmap) 0)

-- `length,number,` with the comma before it of all but the first.
unfoldable pub parse_lengths : Bool → Bytes → Option (ℕ × ℕ × Bytes)
unfolding expect strtoul_decimal
parse_lengths first args = do
  start ← if first then some args else expect b',' args
  let nchars = strtoul_decimal start
  rest ← expect b',' nchars.rest
  let argno = strtoul_decimal rest
  rest' ← expect b',' argno.rest
  some (low32 nchars.number, low32 argno.number, rest')

-- The pairs of digits from 0 to `nchars`; a pair that the arguments do not hold stops the program.
unfoldable pub argument_text : ℕ → Bytes → Option Bytes
unfolding hex_to_bytes
argument_text nchars s =
    let count = (nchars + 1) / 2 * 2 in
    if leb count (length s) then hex_to_bytes (take count s) else none

-- The loop, for so many rounds at most: `none` stops the program, `some none` is a malformed packet. Every
-- round passes two commas at least.
unfoldable pub parse_arguments : ℕ → ArgumentMap → Bytes → Option (Option ArgumentMap)
unfolding parse_lengths argument_text append_argument
parse_arguments fuel argmap [] = some (some argmap)
parse_arguments zero argmap (c ∷ s) = none
parse_arguments (suc fuel) argmap (c ∷ s) =
    if c == 0 then some (some argmap) else elim (parse_lengths (is_empty argmap) (c ∷ s)) [
      | none ↦ some none
      | some (nchars, argno, rest) ↦ argument_text nchars rest >>= λ text.
          parse_arguments fuel (append_argument argmap argno text) (drop nchars rest)
    ]

module _ (d : Delegate) where
  unfoldable pub handle_upper_a : Bytes → Action d
  unfolding parse_arguments arguments_of
  handle_upper_a args = or_stop d (parse_arguments (length args) [] args) λ parsed.
      or_invalid d parsed λ argmap. report d (on_set_program_arguments (arguments_of argmap))
