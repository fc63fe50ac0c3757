-- ===== src/Interpreter.antt =====
-- Sources/GDBRemote/ProtocolInterpreter.cpp: how a packet is split into a command and its arguments,
-- and the sorted table of handlers.
mod Examples
pub mod Order
pub mod Lookup
pub mod Table
pub mod Dispatch
pub mod Split
use Prim.Native.Nat.{compare, Ordering}
use ds.Base.{
  ℕ, suc, zero, ◌+◌, ◌<◌, Bool, true, false, not, ◌&&◌, ◌||◌, Option, none, some, List, [], ◌∷◌,
  ◌++◌, Bytes, ◌==◌, if◌then◌else◌, length, take, drop, is_empty, ltb,
}

pub data Mode : Type 0 where
  equals starts_with : Mode

-- `callback` stands for the pair of the fields `handler` and `callback`, and is `none` if either is
-- null.
pub record Handler : Type 0 where
  pub mode : Mode
  pub command : Bytes
  pub callback : Option ℕ

-- std::string::compare.
unfoldable pub compare_bytes : Bytes → Bytes → Ordering
compare_bytes [] [] = Ordering.eq
compare_bytes [] (b ∷ t) = Ordering.lt
compare_bytes (a ∷ s) [] = Ordering.gt
compare_bytes (a ∷ s) (b ∷ t) = elim (compare a b) [
  | Ordering.lt ↦ Ordering.lt
  | Ordering.eq ↦ compare_bytes s t
  | Ordering.gt ↦ Ordering.gt
]

compare_in : Mode → Bytes → Bytes → Ordering
compare_in equals command other = compare_bytes command other
compare_in starts_with command other = compare_bytes command (take (length command) other)

-- Handler::compare.
unfoldable pub handler_compare : Handler → Bytes → Ordering
unfolding compare_in
handler_compare h command = compare_in h.mode h.command command

abbrev is_lt : Ordering → Bool
is_lt o = elim o [ Ordering.lt ↦ true | _ ↦ false ]

abbrev is_eq : Ordering → Bool
is_eq o = elim o [ Ordering.eq ↦ true | _ ↦ false ]

-- std::lower_bound: the rest of the table from the first handler that does not compare less. On a
-- table that is partitioned by the comparison this is what the bisection finds.
unfoldable pub lower_bound : List Handler → Bytes → List Handler
lower_bound [] command = []
lower_bound (h ∷ hs) command =
    if is_lt (handler_compare h command) then lower_bound hs command else h ∷ hs

first_match : List Handler → Bytes → Option Handler
first_match [] command = none
first_match (h ∷ hs) command = if is_eq (handler_compare h command) then some h else none

-- The length of the handler's command is what findHandler returns beside it.
unfoldable pub find_handler : List Handler → Bytes → Option Handler
unfolding first_match lower_bound
find_handler handlers command = first_match (lower_bound handlers command) command

pub insert : Handler → List Handler → List Handler
insert h [] = h ∷ []
insert h (g ∷ hs) =
    if is_lt (compare_bytes g.command h.command) then g ∷ insert h hs else h ∷ g ∷ hs

-- std::sort by command.
unfoldable pub sort : List Handler → List Handler
unfolding insert
sort [] = []
sort (h ∷ hs) = insert h (sort hs)

is_some : Option ℕ → Bool
is_some none = false
is_some (some a) = true

-- The table, and whether the handler was taken up.
unfoldable pub register_handler : List Handler → Handler → List Handler × Bool
unfolding find_handler sort is_some
register_handler handlers h =
    if is_empty h.command || not (is_some h.callback)
    then (handlers, false)
    else (elim (find_handler handlers h.command) [
      | none ↦ (sort (handlers ++ h ∷ []), true)
      | some g ↦ (handlers, false)
    ])

-- std::string::find_first_of.
unfoldable pub find_first_of : (ℕ → Bool) → Bytes → Option ℕ
find_first_of p [] = none
find_first_of p (c ∷ s) =
    if p c then some 0 else (elim (find_first_of p s) [ none ↦ none | some i ↦ some (suc i) ])

abbrev pub is_separator : ℕ → Bool
is_separator c = c == b',' || c == b':' || c == b';'

abbrev pub is_colon : ℕ → Bool
is_colon c = c == b':'

-- Where the command ends and the arguments begin; `none` is npos.
unfoldable pub at_separator : Option ℕ → Option ℕ × Option ℕ
at_separator none = (none, none)
at_separator (some i) = (some i, some (i + 1))

-- Whether the second character is one of two.
second_is : ℕ → ℕ → Bytes → Bool
second_is a b (c ∷ d ∷ s) = d == a || d == b
second_is a b s = false

unfoldable pub command_bounds : Bytes → Option ℕ × Option ℕ
unfolding at_separator second_is find_first_of
command_bounds [] = (some 1, none)
command_bounds (c ∷ s) =
    if c == b'v' || c == b'q' || c == b'Q'
    then at_separator (find_first_of is_separator (c ∷ s))
    else if c == b'b'
    then (if length (c ∷ s) == 2 && second_is b'c' b's' (c ∷ s)
        then (some 2, none)
        else (some 1, none))
    else if c == b'_'
    then (if second_is b'M' b'm' (c ∷ s) then (some 2, none) else (some 1, none))
    else if c == b'j'
    then at_separator (find_first_of is_colon (c ∷ s))
    else (some 1, none)

-- The last part: arguments follow the command with no separator.
unfoldable pub substrings : Bytes → Option ℕ × Option ℕ → Bytes × Bytes
substrings bytes (none, none) = (bytes, [])
substrings bytes (none, some args_start) = (bytes, drop args_start bytes)
substrings bytes (some command_end, some args_start) =
    (take command_end bytes, drop args_start bytes)
substrings bytes (some command_end, none) =
    if ltb command_end (length bytes)
    then (take command_end bytes, drop command_end bytes)
    else (take command_end bytes, [])

-- The command and the arguments of a packet.
unfoldable pub split_command : Bytes → Bytes × Bytes
unfolding command_bounds substrings
split_command bytes = substrings bytes (command_bounds bytes)
