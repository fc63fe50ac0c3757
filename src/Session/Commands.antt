-- ===== src/Session/Commands.antt =====
-- From a packet to the handler of its command.
use ds.Base.{
  ℕ, suc, ◌≡◌, refl, sym, Bool, true, false, ◌||◌, none, some, [], ◌∷◌, ◌++◌, Bytes, arith, ◌==◌,
  length, drop, contains, take-append, drop-append_suc, length-append,
}
use native.Mathlib.Numerals.{add-one}
use ds.Interpreter.{
  equals, Handler, find_handler, is_separator, find_first_of, command_bounds, split_command,
}
use ds.Interpreter.Table.{session_handlers, session_table}
use ds.Interpreter.Dispatch.{In, session-find_handler}
use ds.Session.{
  Channel, CompatibilityMode, dispatched, handled, on_command, on_command_received, on_packet_data,
  dispatch, call,
}

drop_whole : (s : Bytes) → drop (length s) s ≡ []
drop_whole [] = refl
drop_whole (c ∷ s) = drop_whole s

find_first_of-append :
    (p : ℕ → Bool) (u : Bytes) (c : ℕ) (v : Bytes)
    → find_first_of p u ≡ none
    → p c ≡ true
    → find_first_of p (u ++ c ∷ v) ≡ some (length u)
unfolding find_first_of
find_first_of-append p [] c v h k = rw k refl
find_first_of-append p (d ∷ u) c v h k = ground (arith, find_first_of-append p u c v)

split_query :
    (c : ℕ) (name arguments : Bytes) (sep : ℕ)
    → (c == b'v' || c == b'q' || c == b'Q') ≡ true
    → find_first_of is_separator (c ∷ name) ≡ none
    → is_separator sep ≡ true
    → split_command ((c ∷ name) ++ sep ∷ arguments) ≡ (c ∷ name, arguments)
unfolding split_command command_bounds
split_query c name arguments sep q n k =
    rw
      (
        q,
        find_first_of-append is_separator (c ∷ name) sep arguments n k,
        add-one,
        take-append name (sep ∷ arguments),
        drop-append_suc name sep arguments,
      )
      refl

not_one : (name arguments : Bytes) (sep : ℕ) → (suc (length (name ++ sep ∷ arguments)) == 1) ≡ false
not_one name arguments sep = ground (arith, length-append name (sep ∷ arguments))

-- The handler has the whole command, so what it gets are the arguments.
pub on_command-found :
    (h : Handler) (arguments : Bytes)
    → find_handler session_table h.command ≡ some h
    → contains b'*' arguments ≡ false
    → contains b'}' arguments ≡ false
    → on_command session_table h.command arguments ≡ handled h arguments
unfolding on_command call
on_command-found h arguments found star brace =
    let rest : drop (length h.command) h.command ≡ [] = drop_whole h.command in
    rw (found, on_command) (rw (rest, star, brace) refl)

on_command-handled :
    (h : Handler) (arguments : Bytes)
    → h.mode ≡ equals
    → In h session_handlers
    → contains b'*' arguments ≡ false
    → contains b'}' arguments ≡ false
    → on_command session_table h.command arguments ≡ handled h arguments
on_command-handled h arguments m i star brace =
    on_command-found h arguments (session-find_handler h h.command i (rw m refl)) star brace

-- A query or setting whose handler the session registers reaches this handler with its arguments as
-- they were sent, if the packet is valid: the name (which begins with 'v', 'q' or 'Q' and holds no
-- separator), one separator, and arguments without '*' and '}'. (With no acknowledgements to send.)
pub on_packet_data-query :
    (ch : Channel) (s : ch.State) (mode : CompatibilityMode) (h : Handler) (c : ℕ)
    (name arguments : Bytes) (sep : ℕ)
    → In h session_handlers
    → h.mode ≡ equals
    → h.command ≡ c ∷ name
    → (c == b'v' || c == b'q' || c == b'Q') ≡ true
    → find_first_of is_separator (c ∷ name) ≡ none
    → is_separator sep ≡ true
    → contains b'*' arguments ≡ false
    → contains b'}' arguments ≡ false
    → on_packet_data ch s mode false session_table ((c ∷ name) ++ sep ∷ arguments) true
      ≡ some (s, dispatched (handled h arguments))
unfolding on_packet_data dispatch on_command_received
on_packet_data-query ch s mode h c name arguments sep i m e q n k star brace =
    rw
      (
        not_one name arguments sep,
        split_query c name arguments sep q n k,
        sym e,
        on_command-handled h arguments m i star brace,
      )
      refl
