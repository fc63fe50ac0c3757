-- ===== src/Structures/Json.antt =====
-- StopInfo::encodeJson of Sources/GDBRemote/Structures.cpp. The values are those that the JSON library is given;
-- how it prints them is not modelled.
use ds.Base.{
  ℕ, ◌-◌, ◌^◌, false, not, ◌&&◌, Option, none, some, List, [], ◌∷◌, ◌++◌, Bytes, codes, ◌==◌,
  if◌then◌else◌, ◌>>=◌, is_empty,
}
use ds.Session.{lldb}
use ds.Breakpoint.Manager.{value}
use ds.Structures.RegisterTexts.{registers_into}
use ds.Structures.Stops.{RemoteStopInfo, reason_to_string, watchpoint_info, is_signal_stop}

-- JSInteger, of an int as its bit pattern, and JSString.
pub data JsonValue : Type 0 where
  integer : ℕ → JsonValue
  text : Bytes → JsonValue

-- The JSDictionary of a thread: what is set, in order, and its member `registers`, which is set last.
pub record ThreadJson : Type 0 where
  pub members : List (Bytes × JsonValue)
  pub registers : List (Bytes × Bytes)

unfoldable pub reason_member : Bytes × Bytes → List (Bytes × JsonValue)
reason_member (key, val) =
    if not (is_empty key) && not (is_empty val) then (key, text val) ∷ [] else []

-- `if (core)`: a core of 0 is left out, and one that is not known is -1.
unfoldable pub core_member : Option ℕ → List (Bytes × JsonValue)
core_member none = (codes "core", integer (2 ^ 32 - 1)) ∷ []
core_member (some core) = if core == 0 then [] else (codes "core", integer core) ∷ []

unfoldable pub watchpoint_member : RemoteStopInfo → Option (List (Bytes × JsonValue))
unfolding watchpoint_info value
watchpoint_member r =
    let found = (do (key, val) ← watchpoint_info r.base lldb false; some ((key, text val) ∷ [])) in
    if value r.base.watchpoint_address == 0 then some [] else found

unfoldable pub thread_json : RemoteStopInfo → Option ThreadJson
unfolding reason_to_string reason_member core_member watchpoint_member registers_into
thread_json r = do
  watchpoint ← watchpoint_member r
  registers ← registers_into false r.registers []
  some (record {
    members =
        (codes "tid", integer r.ptid.tid)
        ∷ (reason_member (reason_to_string r.base.reason lldb)
            ++ ((if is_empty r.thread_name then [] else (codes "name", text r.thread_name) ∷ [])
                ++ (core_member r.core
                    ++ (watchpoint
                        ++ (if is_signal_stop r.base.reason
                            then (codes "signal", integer r.signal) ∷ []
                            else [])))));
    registers = registers;
  })

-- The array of the threads.
unfoldable pub threads_json : List RemoteStopInfo → Option (List ThreadJson)
unfolding thread_json
threads_json [] = some []
threads_json (stop ∷ stops) = do
  thread ← thread_json stop
  threads ← threads_json stops
  some (thread ∷ threads)
