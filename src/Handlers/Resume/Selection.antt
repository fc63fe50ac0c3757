-- ===== src/Handlers/Resume/Selection.antt =====
-- Sources/GDBRemote/Session.cpp: the thread that a packet H or a stop selects, in the packets that follow it.
use ds.Base.{
  ℕ, ◌^◌, ◌<◌, ◌≡◌, ◌≢◌, refl, sym, ap, ◌∙◌, true, false, some, List, [], ◌∷◌, ◌++◌, Bytes, codes,
  ==_refl, ==_ne, ◌>>=◌, arith,
}
use ds.Errors.{success}
use ds.Session.{gdb_multiprocess}
use ds.Structures.Numbers.{hex}
use ds.Structures.Ids.{ProcessThreadId, parse_id, encode_id, valid_id, all_id}
use ds.Structures.Ids.RoundTrip.{read_back, parse_id-encode_id}
use ds.Structures.Stops.{RemoteStopInfo, is_lldb, encode_stop_info}
use ds.Handlers.Calls.{ThreadResumeAction, on_thread_is_alive, on_read_general_registers, on_resume}
use ds.Handlers.World.{
  Delegate, World, assign, payload, push, send, send_stop, select, send_computed,
}
use ds.Handlers.Memory.{or_invalid}
use ds.Handlers.Memory.Cycle.{chk_send-success}
use ds.Handlers.Registers.{thread_of, format_registers, handle_g}
use ds.Handlers.Threads.{parse_selection, parsed_id, select_for, handle_upper_h}
use ds.Handlers.Resume.{resume}

assign_self :
    (ptids : ℕ → ProcessThreadId) (k : ℕ) (id : ProcessThreadId) → assign ptids k id k ≡ id
unfolding assign
assign_self ptids k id = rw (==_refl k) refl

assign_other :
    (ptids : ℕ → ProcessThreadId) (k : ℕ) (id : ProcessThreadId) (j : ℕ)
    → j ≢ k
    → assign ptids k id j ≡ ptids j
unfolding assign
assign_other ptids k id j ne = rw (==_ne j k ne) refl

abbrev long_form : ProcessThreadId → Bytes
long_form id = hex id.pid ++ (codes "." ++ hex id.tid)

encode_id-long :
    (id : ProcessThreadId)
    → valid_id id.tid ≡ true
    → encode_id gdb_multiprocess id ≡ b'p' ∷ long_form id
unfolding encode_id
encode_id-long id valid = rw valid refl

read_back-valid :
    (id : ProcessThreadId) → valid_id id.tid ≡ true → read_back gdb_multiprocess id ≡ id
read_back-valid id valid = rw valid refl

parsed_id-long :
    (id : ProcessThreadId)
    → id.pid < 2 ^ 32
    → id.tid < 2 ^ 32
    → valid_id id.tid ≡ true
    → parsed_id gdb_multiprocess (b'p' ∷ long_form id) ≡ some id
unfolding parsed_id
parsed_id-long id p t valid =
    rw
      (ap (parse_id gdb_multiprocess) (sym (encode_id-long id valid))
        ∙ parse_id-encode_id gdb_multiprocess id p t)
      (ap some (read_back-valid id valid))

-- A thread-id of a definite process and thread, behind the letter of the command.
parse_selection-encode_id :
    (key : ℕ) (id : ProcessThreadId)
    → id.pid < 2 ^ 32
    → id.tid < 2 ^ 32
    → valid_id id.tid ≡ true
    → id.pid ≢ all_id
    → parse_selection gdb_multiprocess (key ∷ encode_id gdb_multiprocess id) ≡ some (key, id)
unfolding parse_selection
parse_selection-encode_id key id p t valid ne =
    ap (λ text. parse_selection gdb_multiprocess (key ∷ text)) (encode_id-long id valid)
    ∙ rw (parsed_id-long id p t valid, ==_ne id.pid all_id ne) refl

module _ (d : Delegate) where
  open d use {Target, native, get_gpr_size, perform}

  -- A g packet of a debugger that is not LLDB, by the thread that is selected.
  handle_g-selected :
      (w : World d) (id : ProcessThreadId) (t : Target) (regs : List ℕ)
      → is_lldb w.session.mode ≡ false
      → w.session.ptids b'g' ≡ id
      → perform w.target (on_read_general_registers id) ≡ (t, success, regs)
      → handle_g d [] w
        ≡ some (record w {
          target = t;
          sent = w.sent ++ payload (format_registers (get_gpr_size t) native regs) ∷ [];
        })
  unfolding handle_g or_invalid thread_of push
  handle_g-selected w id t regs other selected reads =
      rw (other, selected)
        (chk_send-success d (on_read_general_registers id)
          (λ regs' w'. send d (format_registers (get_gpr_size w'.target) native regs') w') w t regs
          reads)

  upper_h-selects :
      (id : ProcessThreadId) (w : World d) (t : Target)
      → id.pid < 2 ^ 32
      → id.tid < 2 ^ 32
      → valid_id id.tid ≡ true
      → id.pid ≢ all_id
      → w.session.mode ≡ gdb_multiprocess
      → perform w.target (on_thread_is_alive id) ≡ (t, success, tt)
      → handle_upper_h d (b'g' ∷ encode_id gdb_multiprocess id) w
        ≡ some (record w {
          session = record w.session { ptids = assign w.session.ptids b'g' id };
          target = t;
          sent = w.sent ++ payload (codes "OK") ∷ [];
        })
  unfolding handle_upper_h or_invalid select_for push
  upper_h-selects id w t p q valid ne mode alive =
      rw
        (ap (λ m. parse_selection m (b'g' ∷ encode_id gdb_multiprocess id)) mode
          ∙ parse_selection-encode_id b'g' id p q valid ne)
        (chk_send-success d (on_thread_is_alive id) (λ answer. select_for d b'g' id) w t tt alive)

  resume-selects :
      (actions : List ThreadResumeAction) (w : World d) (t : Target) (stop : RemoteStopInfo)
      (text : Bytes)
      → is_lldb w.session.mode ≡ false
      → perform w.target (on_resume actions) ≡ (t, success, stop)
      → encode_stop_info stop w.session.mode w.session.threads_in_stop_reply ≡ some text
      → resume d actions w
        ≡ some (record w {
          session = record w.session {
            ptids = assign (assign w.session.ptids b'g' stop.ptid) b'c' stop.ptid;
          };
          target = t;
          sent = w.sent ++ payload text ∷ [];
        })
  unfolding resume send_stop send_computed select push
  resume-selects actions w t stop text other resumed printed =
      chk_send-success d (on_resume actions) (λ s. send_stop d s) w t stop resumed
      ∙ rw (printed, other) refl

  -- After H with the letter g and the encoding of a definite thread of a definite process, of 32 bits each,
  -- in GDB's multiprocess mode, if the delegate says that the thread is alive, g reads the registers of that
  -- thread: OK is sent and then the registers' text, and the thread stays selected for g only.
  pub g-upper_h :
      (id : ProcessThreadId) (w : World d) (t t' : Target) (regs : List ℕ)
      → id.pid < 2 ^ 32
      → id.tid < 2 ^ 32
      → valid_id id.tid ≡ true
      → id.pid ≢ all_id
      → w.session.mode ≡ gdb_multiprocess
      → perform w.target (on_thread_is_alive id) ≡ (t, success, tt)
      → perform t (on_read_general_registers id) ≡ (t', success, regs)
      → (handle_upper_h d (b'g' ∷ encode_id gdb_multiprocess id) w >>= handle_g d [])
        ≡ some (record w {
          session = record w.session { ptids = assign w.session.ptids b'g' id };
          target = t';
          sent =
              (w.sent ++ payload (codes "OK") ∷ [])
              ++ payload (format_registers (get_gpr_size t') native regs) ∷ [];
        })
  g-upper_h id w t t' regs p q valid ne mode alive reads =
      let selected : World d = record w {
        session = record w.session { ptids = assign w.session.ptids b'g' id };
        target = t;
        sent = w.sent ++ payload (codes "OK") ∷ [];
      } in
      ap (λ o. o >>= handle_g d []) (upper_h-selects id w t p q valid ne mode alive)
      ∙ handle_g-selected selected id t' regs (ap is_lldb mode)
          (assign_self w.session.ptids b'g' id) reads

  -- A debugger that is not LLDB, after an action that ended with a stop whose reply can be printed: the stop
  -- reply is sent, and g without H reads the registers of the thread that stopped.
  pub g-resume :
      (actions : List ThreadResumeAction) (w : World d) (t t' : Target) (stop : RemoteStopInfo)
      (text : Bytes) (regs : List ℕ)
      → is_lldb w.session.mode ≡ false
      → perform w.target (on_resume actions) ≡ (t, success, stop)
      → encode_stop_info stop w.session.mode w.session.threads_in_stop_reply ≡ some text
      → perform t (on_read_general_registers stop.ptid) ≡ (t', success, regs)
      → (resume d actions w >>= handle_g d [])
        ≡ some (record w {
          session = record w.session {
            ptids = assign (assign w.session.ptids b'g' stop.ptid) b'c' stop.ptid;
          };
          target = t';
          sent =
              (w.sent ++ payload text ∷ [])
              ++ payload (format_registers (get_gpr_size t') native regs) ∷ [];
        })
  g-resume actions w t t' stop text regs other resumed printed reads =
      let stopped : World d = record w {
        session = record w.session {
          ptids = assign (assign w.session.ptids b'g' stop.ptid) b'c' stop.ptid;
        };
        target = t;
        sent = w.sent ++ payload text ∷ [];
      } in
      ap (λ o. o >>= handle_g d []) (resume-selects actions w t stop text other resumed printed)
      ∙ handle_g-selected stopped stop.ptid t' regs other
          (assign_other (assign w.session.ptids b'g' stop.ptid) b'c' stop.ptid b'g'
              (λ e. omega arith)
            ∙ assign_self w.session.ptids b'g' stop.ptid)
          reads
