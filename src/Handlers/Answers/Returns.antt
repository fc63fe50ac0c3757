-- ===== src/Handlers/Answers/Returns.antt =====
-- Sources/GDBRemote/Session.cpp: the calls of which the handlers are composed return, and the parts that several
-- handlers share.
use ds.Base.{
  ℕ, ◌≡◌, map, ◌≢◌, refl, inl, inr, Bool, true, false, Option, none, some, [], ◌∷◌, Bytes,
  if◌then◌else◌, Option-cases,
}
use ds.Session.{gdb_multiprocess, lldb_thread, error_reply}
use ds.Errors.{ErrorCode}
use ds.Breakpoint.Sites.{Address, unset, at}
use ds.Structures.Ids.{ProcessThreadId}
use ds.Structures.Processes.{ProcessInfo}
use ds.Handlers.Calls.{Call, Answer, on_query_supported}
use ds.Handlers.Scan.{parse_list}
use ds.Handlers.World.{
  Delegate, World, Action, Sent, is_success, push, send, send_error, ask, chk_send, report, failure,
}
use ds.Handlers.World.Replies.{mode-error_reply}
use ds.Handlers.Xfer.{Transfer, read_object, write_object, transfer, address_reply}
use ds.Handlers.Memory.{or_invalid}
use ds.Handlers.Breakpoints.{set_or_clear}
use ds.Handlers.Threads.{select_for, found_reply}
use ds.Handlers.Settings.{pieces_of, set_variable, set_size}
use ds.Handlers.Memory.{handle_q_memory_region_info}
use ds.Handlers.Threads.{handle_q_l}
use ds.Handlers.Xfer.{handle_q_get_working_dir}
use ds.Handlers.Queries.{
  handle_q_supported, new_feature, is_multiprocess, append_features, handle_q_thread_extra_info,
  server_reply,
}
use ds.Handlers.Processes.{process_reply}

module _ (d : Delegate) where
  open d use {perform}

  -- From a world on, a handler has returned, or the session is in the mode in which sendError is DS2BUG.
  abbrev pub Returned : World d → Option (World d) → Type 0
  Returned w none = w.session.mode ≡ lldb_thread
  Returned w (some w') = Unit {0}

  pub push-Returned : (r : Sent) (w w' : World d) → Returned w (push d r w')
  unfolding push
  push-Returned r w w' = tt

  pub send_error-Returned : (code : ErrorCode) (w : World d) → Returned w (send_error d code w)
  unfolding send_error
  send_error-Returned code w = elim (Option-cases (error_reply w.session.mode code)) [
    | inl e ↦ rw (e, send_error) (mode-error_reply code w.session.mode e)
    | inr (text, e) ↦ rw (e, send_error) (push-Returned (failure code) w w)
  ]

  pub ask-Returned :
      (c : Call) (next : ErrorCode → Answer c → Action d)
      → ((e : ErrorCode) (a : Answer c) (w : World d) → Returned w (next e a w))
      → (w : World d) → Returned w (ask d c next w)
  unfolding ask
  ask-Returned c next h w =
      let r = perform w.target c in
      kept w r.0 (next r.1 r.2 (record w { target = r.0 })) (h r.1 r.2 (record w { target = r.0 }))
    where
      kept :
          (w : World d) (t : d.Target) (o : Option (World d))
          → Returned (record w { target = t }) o
          → Returned w o
      kept w t none h = h
      kept w t (some w') h = tt

  pub if-Returned :
      (test : Bool) (f g : Action d)
      → ((w : World d) → Returned w (f w))
      → ((w : World d) → Returned w (g w))
      → (w : World d) → Returned w ((if test then f else g) w)
  if-Returned true f g hf hg w = hf w
  if-Returned false f g hf hg w = hg w

  pub if_at-Returned :
      (test : Bool) (w : World d) (a b : Option (World d))
      → Returned w a
      → Returned w b
      → Returned w (if test then a else b)
  if_at-Returned true w a b ha hb = ha
  if_at-Returned false w a b ha hb = hb

  pub chk_send-Returned :
      (c : Call) (next : Answer c → Action d)
      → ((a : Answer c) (w : World d) → Returned w (next a w))
      → (w : World d) → Returned w (chk_send d c next w)
  unfolding chk_send
  chk_send-Returned c next h =
      ask-Returned c (λ code a. if is_success code then next a else send_error d code)
        λ code a.
          if-Returned (is_success code) (next a) (send_error d code) (h a)
            (send_error-Returned code)

  pub report-Returned : (c : Call) (w : World d) → Returned w (report d c w)
  unfolding report
  report-Returned c =
      ask-Returned c (λ code a. send_error d code) λ code a. send_error-Returned code

  pub or_invalid-Returned {ℓ} :
      {A : Type ℓ} (o : Option A) (next : A → Action d)
      → ((a : A) (w : World d) → Returned w (next a w))
      → (w : World d) → Returned w (or_invalid d o next w)
  unfolding or_invalid
  or_invalid-Returned none next h w = send_error-Returned _ w
  or_invalid-Returned (some a) next h w = h a w

  pub returned_world :
      (w : World d) (o : Option (World d))
      → w.session.mode ≢ lldb_thread
      → Returned w o
      → (w' : World d) × (o ≡ some w')
  returned_world w none m h = absurd (m h)
  returned_world w (some w') m h = (w', refl)

pub ruleset returns = (
  push-Returned, send_error-Returned, ask-Returned, if-Returned, if_at-Returned, chk_send-Returned,
  report-Returned, or_invalid-Returned,
)

module _ (d : Delegate) where
  pub set_or_clear-Returned :
      (a : ℕ) (s : Bytes) (w : World d) → Returned d w (set_or_clear d a s w)
  unfolding set_or_clear
  set_or_clear-Returned a [] w = search returns
  set_or_clear-Returned a (c ∷ s) w = search returns

  pub select_for-Returned :
      (k : ℕ) (id : ProcessThreadId) (w : World d) → Returned d w (select_for d k id w)
  unfolding select_for
  select_for-Returned k id w = search returns

  pub found_reply-Returned :
      (n : ℕ) (e : ErrorCode) (t : ℕ) (w : World d) → Returned d w (found_reply d n e t w)
  unfolding found_reply
  found_reply-Returned n e t w = search returns

  pub set_variable-Returned : (s : Bytes) (w : World d) → Returned d w (set_variable d s w)
  unfolding set_variable
  set_variable-Returned s w = search returns

  pub set_size-Returned : (c : ℕ → Call) (n : ℕ) (w : World d) → Returned d w (set_size d c n w)
  unfolding set_size
  set_size-Returned c n w = search returns

  pub transfer-Returned : (t : Transfer) (w : World d) → Returned d w (transfer d t w)
  unfolding transfer
  transfer-Returned (read_object o a n s) w = search returns
  transfer-Returned (write_object o a n s) w = search returns

  pub address_reply-Returned :
      (e : ErrorCode) (a : Address) (w : World d) → Returned d w (address_reply d e a w)
  unfolding address_reply
  address_reply-Returned e unset w = search returns
  address_reply-Returned e (at a) w = search returns

  pub region-Returned :
      (args : Bytes) (w : World d) → Returned d w (handle_q_memory_region_info d args w)
  unfolding handle_q_memory_region_info
  region-Returned [] w = search returns
  region-Returned (c ∷ args) w = search returns

  pub q_l-Returned : (args : Bytes) (w : World d) → Returned d w (handle_q_l d args w)
  unfolding handle_q_l
  q_l-Returned (a ∷ b ∷ c ∷ s) w = search (returns, found_reply-Returned)
  q_l-Returned [] w = search returns
  q_l-Returned (a ∷ []) w = search returns
  q_l-Returned (a ∷ b ∷ []) w = search returns

  pub directory-Returned :
      (args : Bytes) (w : World d) → Returned d w (handle_q_get_working_dir d args w)
  unfolding handle_q_get_working_dir
  directory-Returned [] w = search returns
  directory-Returned (c ∷ args) w = search returns

  pub extra-Returned :
      (args : Bytes) (w : World d) → Returned d w (handle_q_thread_extra_info d args w)
  unfolding handle_q_thread_extra_info
  extra-Returned [] w = search returns
  extra-Returned (c ∷ args) w = search returns

  pub server_reply-Returned :
      (e : ErrorCode) (a : ℕ × ℕ) (w : World d) → Returned d w (server_reply d e a w)
  unfolding server_reply
  server_reply-Returned e a w = search returns

  -- Of the modes that qSupported may set none is the one for threads.
  kept_mode :
      (multi : Bool) (w : World d) (o : Option (World d))
      → Returned d
          (record w {
            session = record w.session {
              mode = if multi then gdb_multiprocess else w.session.mode;
            };
          })
          o
      → Returned d w o
  kept_mode multi w (some w') h = tt
  kept_mode true w none h = absurd (cc)
  kept_mode false w none h = h

  pub supported-Returned : (args : Bytes) (w : World d) → Returned d w (handle_q_supported d args w)
  unfolding handle_q_supported
  supported-Returned args w =
      let features = map new_feature (pieces_of (parse_list b';' args)) in
      kept_mode (is_multiprocess features) w _ (
        chk_send-Returned d (on_query_supported features)
          (λ local. send d (append_features [] local)) (λ local w'. push-Returned d _ w' w') _)

  pub process_reply-Returned : (i : ProcessInfo) (w : World d) → Returned d w (process_reply d i w)
  unfolding process_reply
  process_reply-Returned i w = search returns

pub ruleset returning_parts = (
  process_reply-Returned, supported-Returned, extra-Returned, server_reply-Returned,
  set_or_clear-Returned, select_for-Returned, found_reply-Returned, set_variable-Returned,
  set_size-Returned, transfer-Returned, address_reply-Returned, region-Returned, q_l-Returned,
  directory-Returned,
)
