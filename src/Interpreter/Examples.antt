-- ===== src/Interpreter/Examples.antt =====
-- Commands and tables at concrete texts.
use ds.Base.{◌≡◌, refl, inl, some, List, [], ◌∷◌, codes, true}
use ds.Interpreter.{
  equals, starts_with, Handler, compare_bytes, handler_compare, register_handler, find_handler,
  lower_bound, sort, insert,
}
use ds.Interpreter.Lookup.{IsOrdered}
use ds.Interpreter.Table.{session_handlers, session_table, register_all}
use ds.Interpreter.Dispatch.{In, In-drop, session-find_handler}

abbrev continue : Handler
continue = record { mode = equals; command = codes "c"; callback = some 1 }

abbrev query : Handler
query = record { mode = starts_with; command = codes "qXfer"; callback = some 2 }

abbrev table : List Handler
table = continue ∷ query ∷ []

abbrev stop_info : Handler
stop_info = record { mode = starts_with; command = codes "qThreadStopInfo"; callback = some 85 }

stop_info-In : In stop_info session_handlers
unfolding session_handlers
stop_info-In = In-drop 85 session_handlers stop_info (inl refl)

table-IsOrdered : IsOrdered table
unfolding handler_compare compare_bytes
table-IsOrdered = ((refl, tt), (tt, tt))

found_query : find_handler table (codes "qXfer:x") ≡ some query
unfolding find_handler lower_bound handler_compare compare_bytes
found_query = refl

registered_both : (register_all [] (query ∷ continue ∷ [])).1 ≡ true
unfolding register_all register_handler find_handler lower_bound handler_compare compare_bytes sort
    insert
registered_both = refl

session-find_handler_example :
    find_handler session_table (codes "qThreadStopInfo1f") ≡ some stop_info
session-find_handler_example =
    session-find_handler stop_info (codes "qThreadStopInfo1f") stop_info-In (codes "1f", refl)
