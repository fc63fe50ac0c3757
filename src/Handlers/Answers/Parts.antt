-- ===== src/Handlers/Answers/Parts.antt =====
-- Sources/GDBRemote/Session.cpp: the parts that several handlers share, and the handlers that look at the
-- characters of their arguments, send one reply.
use ds.Base.{ℕ, ◌≡◌, refl, Bool, true, false, Option, none, some, List, [], ◌∷◌, Bytes}
use ds.Errors.{ErrorCode}
use ds.Breakpoint.Sites.{Address, unset, at}
use ds.Structures.Ids.{ProcessThreadId}
use ds.Structures.Stops.{RemoteStopInfo, is_lldb}
use ds.Handlers.Calls.{Call, ThreadResumeAction, ResumeAction, AttachTarget, AttachMode}
use ds.Handlers.World.{Delegate, World}
use ds.Handlers.Memory.{search_reply, search_behind, handle_q_memory_region_info}
use ds.Handlers.Breakpoints.{set_or_clear}
use ds.Handlers.Resume.{resume, resume_with_signal, resume_at}
use ds.Handlers.Ending.{terminate, attach, attach_named, stopped_reply}
use ds.Handlers.Threads.{select_for, thread_reply, found_reply, handle_q_l}
use ds.Handlers.Settings.{
  set_variable, set_size, set_std_file, handle_q_start_no_ack_mode,
  handle_q_list_threads_in_stop_reply, handle_q_thread_suffix_supported,
}
use ds.Handlers.Xfer.{
  Transfer, read_object, write_object, transfer, speed_reply, address_reply,
  handle_q_get_working_dir, handle_q_file_load_address,
}
use ds.Handlers.Answers.{Sends, answers, push_after-Sends, implies, implies_refl}

implies-true : (b : Bool) → implies b true ≡ true
implies-true true = refl
implies-true false = refl

module _ (d : Delegate) where
  pub search_reply-Sends :
      (a : ℕ) (e : ErrorCode) (l : ℕ) (w : World d) → Sends d w (search_reply d a e l w)
  unfolding search_reply
  search_reply-Sends a e l w = search answers

  pub search_behind-Sends : (o : Option Bytes) (w : World d) → Sends d w (search_behind d o w)
  unfolding search_behind
  search_behind-Sends none w = search answers
  search_behind-Sends (some rest) w = search (answers, search_reply-Sends)

  pub set_or_clear-Sends : (a : ℕ) (s : Bytes) (w : World d) → Sends d w (set_or_clear d a s w)
  unfolding set_or_clear
  set_or_clear-Sends a [] w = search answers
  set_or_clear-Sends a (c ∷ s) w = search answers

  pub resume-Sends : (l : List ThreadResumeAction) (w : World d) → Sends d w (resume d l w)
  unfolding resume
  resume-Sends l w = search answers

  pub resume_with_signal-Sends :
      (a : ResumeAction) (args : Bytes) (w : World d) → Sends d w (resume_with_signal d a args w)
  unfolding resume_with_signal
  resume_with_signal-Sends a args w = search (answers, resume-Sends)

  pub resume_at-Sends :
      (a : ResumeAction) (args : Bytes) (w : World d) → Sends d w (resume_at d a args w)
  unfolding resume_at
  resume_at-Sends a args w = search (answers, resume-Sends)

  pub terminate-Sends : (id : ProcessThreadId) (w : World d) → Sends d w (terminate d id w)
  unfolding terminate
  terminate-Sends id w = search answers

  pub attach-Sends : (t : AttachTarget) (m : AttachMode) (w : World d) → Sends d w (attach d t m w)
  unfolding attach
  attach-Sends t m w = search answers

  pub attach_named-Sends :
      (m : AttachMode) (args : Bytes) (w : World d) → Sends d w (attach_named d m args w)
  unfolding attach_named
  attach_named-Sends m args w = search (answers, attach-Sends)

  pub stopped_reply-Sends :
      (e : ErrorCode) (s : RemoteStopInfo) (w : World d) → Sends d w (stopped_reply d e s w)
  unfolding stopped_reply
  stopped_reply-Sends e s w = search answers

  pub select_for-Sends :
      (k : ℕ) (id : ProcessThreadId) (w : World d) → Sends d w (select_for d k id w)
  unfolding select_for
  select_for-Sends k id w = push_after-Sends d _ _ w (record {
    acks = implies_refl w.session.ackmode;
    stays = implies_refl (is_lldb w.session.mode);
    lists = implies_refl w.session.threads_in_stop_reply;
  })

  pub thread_reply-Sends : (e : ErrorCode) (t : ℕ) (w : World d) → Sends d w (thread_reply d e t w)
  unfolding thread_reply
  thread_reply-Sends e t w = search answers

  pub found_reply-Sends :
      (n : ℕ) (e : ErrorCode) (t : ℕ) (w : World d) → Sends d w (found_reply d n e t w)
  unfolding found_reply
  found_reply-Sends n e t w = search answers

  pub set_variable-Sends : (s : Bytes) (w : World d) → Sends d w (set_variable d s w)
  unfolding set_variable
  set_variable-Sends s w = search answers

  pub set_size-Sends : (c : ℕ → Call) (n : ℕ) (w : World d) → Sends d w (set_size d c n w)
  unfolding set_size
  set_size-Sends c n w = search answers

  pub set_std_file-Sends :
      (n : ℕ) (args : Bytes) (w : World d) → Sends d w (set_std_file d n args w)
  unfolding set_std_file
  set_std_file-Sends n args w = search answers

  pub transfer-Sends : (t : Transfer) (w : World d) → Sends d w (transfer d t w)
  unfolding transfer
  transfer-Sends (read_object o a n s) w = search answers
  transfer-Sends (write_object o a n s) w = search answers

  pub speed_reply-Sends : (n : ℕ) (w : World d) → Sends d w (speed_reply d n w)
  unfolding speed_reply
  speed_reply-Sends n w = search answers

  pub address_reply-Sends :
      (e : ErrorCode) (a : Address) (w : World d) → Sends d w (address_reply d e a w)
  unfolding address_reply
  address_reply-Sends e unset w = search answers
  address_reply-Sends e (at a) w = search answers

  pub q_memory_region_info-Sends :
      (args : Bytes) (w : World d) → Sends d w (handle_q_memory_region_info d args w)
  unfolding handle_q_memory_region_info
  q_memory_region_info-Sends [] w = search answers
  q_memory_region_info-Sends (c ∷ args) w = search answers

  pub q_l-Sends : (args : Bytes) (w : World d) → Sends d w (handle_q_l d args w)
  unfolding handle_q_l
  q_l-Sends (a ∷ b ∷ c ∷ s) w = search (answers, found_reply-Sends)
  q_l-Sends [] w = search answers
  q_l-Sends (a ∷ []) w = search answers
  q_l-Sends (a ∷ b ∷ []) w = search answers

  pub q_get_working_dir-Sends :
      (args : Bytes) (w : World d) → Sends d w (handle_q_get_working_dir d args w)
  unfolding handle_q_get_working_dir
  q_get_working_dir-Sends [] w = search answers
  q_get_working_dir-Sends (c ∷ args) w = search answers

  pub q_file_load_address-Sends :
      (args : Bytes) (w : World d) → Sends d w (handle_q_file_load_address d args w)
  unfolding handle_q_file_load_address
  q_file_load_address-Sends [] w = search answers
  q_file_load_address-Sends (c ∷ args) w = search answers

  pub q_start_no_ack_mode-Sends : (w : World d) → Sends d w (handle_q_start_no_ack_mode d w)
  unfolding handle_q_start_no_ack_mode
  q_start_no_ack_mode-Sends w = push_after-Sends d _ _ w (record {
    acks = refl;
    stays = implies_refl (is_lldb w.session.mode);
    lists = implies_refl w.session.threads_in_stop_reply;
  })

  pub q_list_threads_in_stop_reply-Sends :
      (w : World d) → Sends d w (handle_q_list_threads_in_stop_reply d w)
  unfolding handle_q_list_threads_in_stop_reply
  q_list_threads_in_stop_reply-Sends w = push_after-Sends d _ _ w (record {
    acks = implies_refl w.session.ackmode;
    stays = implies-true (is_lldb w.session.mode);
    lists = implies-true w.session.threads_in_stop_reply;
  })

  pub q_thread_suffix_supported-Sends :
      (w : World d) → Sends d w (handle_q_thread_suffix_supported d w)
  unfolding handle_q_thread_suffix_supported
  q_thread_suffix_supported-Sends w = push_after-Sends d _ _ w (record {
    acks = implies_refl w.session.ackmode;
    stays = implies-true (is_lldb w.session.mode);
    lists = implies_refl w.session.threads_in_stop_reply;
  })

pub ruleset parts = (
  search_reply-Sends, search_behind-Sends, set_or_clear-Sends, resume-Sends,
  resume_with_signal-Sends, resume_at-Sends, terminate-Sends, attach-Sends, attach_named-Sends,
  stopped_reply-Sends, select_for-Sends, thread_reply-Sends, found_reply-Sends, set_variable-Sends,
  set_size-Sends, set_std_file-Sends, transfer-Sends, speed_reply-Sends, address_reply-Sends,
  q_memory_region_info-Sends, q_l-Sends, q_get_working_dir-Sends, q_file_load_address-Sends,
  q_start_no_ack_mode-Sends, q_list_threads_in_stop_reply-Sends, q_thread_suffix_supported-Sends,
)
