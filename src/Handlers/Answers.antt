-- ===== src/Handlers/Answers.antt =====
-- Sources/GDBRemote/Session.cpp: what any handler may do to the session, for the calls of which the handlers
-- are composed.
pub mod Parts
pub mod FileParts
pub mod Once
pub mod Returns
pub mod Robust
use ds.Base.{
  ℕ, ◌≡◌, refl, inl, inr, Bool, true, false, not, ◌||◌, Option, none, some, List, [], ◌∷◌, ◌++◌,
  Bytes, if◌then◌else◌, ◌>>=◌, Option-cases,
}
use ds.Errors.{ErrorCode}
use ds.Session.{CompatibilityMode, error_reply}
use ds.Structures.Ids.{ProcessThreadId}
use ds.Structures.Stops.{RemoteStopInfo, is_lldb, encode_stop_info}
use ds.Handlers.Calls.{Call, Answer}
use ds.Handlers.World.{
  Delegate, World, Action, Sent, payload, failure, SessionState, is_success, push, send, send_error,
  ask, chk_send, report, send_computed, select, send_stop,
}
use ds.Handlers.Memory.{or_invalid, or_stop}

abbrev pub implies : Bool → Bool → Bool
implies a b = not a || b

pub implies_refl : (b : Bool) → implies b b ≡ true
implies_refl true = refl
implies_refl false = refl

-- The session has only gone on: acknowledgments are not turned on again, a session of LLDB stays one, and
-- the list of threads in stop replies is kept.
pub record Onward (s s' : SessionState) : Type 0 where
  pub acks : implies s'.ackmode s.ackmode ≡ true
  pub stays : implies (is_lldb s.mode) (is_lldb s'.mode) ≡ true
  pub lists : implies s.threads_in_stop_reply s'.threads_in_stop_reply ≡ true

pub Onward-refl : (s : SessionState) → Onward s s
Onward-refl s = record {
  acks = implies_refl s.ackmode;
  stays = implies_refl (is_lldb s.mode);
  lists = implies_refl s.threads_in_stop_reply;
}

module _ (d : Delegate) where
  open d use {Target, perform}

  -- One reply has been sent, behind those that were sent before.
  pub record Answered (w w' : World d) : Type 0 where
    pub reply : Sent
    pub one : w'.sent ≡ w.sent ++ reply ∷ []
    pub onward : Onward w.session w'.session

  -- Unless the program stops, the handler has sent one reply.
  abbrev pub Sends : World d → Option (World d) → Type 0
  Sends w none = Unit {0}
  Sends w (some w') = Answered w w'

  Sends-target :
      (w : World d) (t : Target) (o : Option (World d))
      → Sends (record w { target = t }) o
      → Sends w o
  Sends-target w t none h = tt
  Sends-target w t (some w') h = record { reply = h.reply; one = h.one; onward = h.onward }

  pub push-Sends : (r : Sent) (w : World d) → Sends w (push d r w)
  unfolding push
  push-Sends r w = record { reply = r; one = refl; onward = Onward-refl w.session }

  pub send_error-Sends : (code : ErrorCode) (w : World d) → Sends w (send_error d code w)
  unfolding send_error
  send_error-Sends code w = elim (Option-cases (error_reply w.session.mode code)) [
    | inl e ↦ rw (e, send_error) tt
    | inr (text, e) ↦ rw (e, send_error) (push-Sends (failure code) w)
  ]

  pub ask-Sends :
      (c : Call) (next : ErrorCode → Answer c → Action d)
      → ((e : ErrorCode) (a : Answer c) (w : World d) → Sends w (next e a w))
      → (w : World d) → Sends w (ask d c next w)
  unfolding ask
  ask-Sends c next h w =
      let r = perform w.target c in
      Sends-target w r.0 (next r.1 r.2 (record w { target = r.0 }))
        (h r.1 r.2 (record w { target = r.0 }))

  pub if-Sends :
      (test : Bool) (f g : Action d)
      → ((w : World d) → Sends w (f w))
      → ((w : World d) → Sends w (g w))
      → (w : World d) → Sends w ((if test then f else g) w)
  if-Sends true f g hf hg w = hf w
  if-Sends false f g hf hg w = hg w

  pub if_at-Sends :
      (test : Bool) (w : World d) (a b : Option (World d))
      → Sends w a
      → Sends w b
      → Sends w (if test then a else b)
  if_at-Sends true w a b ha hb = ha
  if_at-Sends false w a b ha hb = hb

  -- The session is changed, and then the reply sent.
  pub push_after-Sends :
      (r : Sent) (s : SessionState) (w : World d)
      → Onward w.session s
      → Sends w (push d r (record w { session = s }))
  unfolding push
  push_after-Sends r s w h = record { reply = r; one = refl; onward = h }

  pub chk_send-Sends :
      (c : Call) (next : Answer c → Action d)
      → ((a : Answer c) (w : World d) → Sends w (next a w))
      → (w : World d) → Sends w (chk_send d c next w)
  unfolding chk_send
  chk_send-Sends c next h =
      ask-Sends c (λ code a. if is_success code then next a else send_error d code)
        λ code a.
          if-Sends (is_success code) (next a) (send_error d code) (h a) (send_error-Sends code)

  pub report-Sends : (c : Call) (w : World d) → Sends w (report d c w)
  unfolding report
  report-Sends c = ask-Sends c (λ code a. send_error d code) λ code a. send_error-Sends code

  pub or_invalid-Sends {ℓ} :
      {A : Type ℓ} (o : Option A) (next : A → Action d)
      → ((a : A) (w : World d) → Sends w (next a w))
      → (w : World d) → Sends w (or_invalid d o next w)
  unfolding or_invalid
  or_invalid-Sends none next h w = send_error-Sends _ w
  or_invalid-Sends (some a) next h w = h a w

  pub or_stop-Sends {ℓ} :
      {A : Type ℓ} (o : Option A) (next : A → Action d)
      → ((a : A) (w : World d) → Sends w (next a w))
      → (w : World d) → Sends w (or_stop d o next w)
  unfolding or_stop
  or_stop-Sends none next h w = tt
  or_stop-Sends (some a) next h w = h a w

  pub send_computed-Sends : (o : Option Bytes) (w : World d) → Sends w (send_computed d o w)
  unfolding send_computed
  send_computed-Sends none w = tt
  send_computed-Sends (some text) w = push-Sends (payload text) w

  -- What is sent before the thread is selected stays the only reply.
  select_after :
      (lldb_mode : Bool) (w : World d) (r : Sent) (ptids : ℕ → ProcessThreadId)
      → Answered w (
          if lldb_mode
          then record w { sent = w.sent ++ r ∷ [] }
          else record w { sent = w.sent ++ r ∷ []; session = record w.session { ptids = ptids } })
  select_after true w r ptids = record { reply = r; one = refl; onward = Onward-refl w.session }
  select_after false w r ptids = record {
    reply = r;
    one = refl;
    onward = record {
      acks = implies_refl w.session.ackmode;
      stays = implies_refl (is_lldb w.session.mode);
      lists = implies_refl w.session.threads_in_stop_reply;
    };
  }

  computed_stop :
      (o : Option Bytes) (ptid : ProcessThreadId) (w : World d)
      → Sends w (send_computed d o w >>= select d ptid)
  unfolding send_computed select push
  computed_stop none ptid w = tt
  computed_stop (some text) ptid w = select_after (is_lldb w.session.mode) w (payload text) _

  pub send_stop-Sends : (stop : RemoteStopInfo) (w : World d) → Sends w (send_stop d stop w)
  unfolding send_stop
  send_stop-Sends stop w =
      computed_stop (encode_stop_info stop w.session.mode w.session.threads_in_stop_reply) stop.ptid
        w

pub ruleset answers = (
  push-Sends, send_error-Sends, ask-Sends, if-Sends, if_at-Sends, chk_send-Sends, report-Sends,
  or_invalid-Sends, or_stop-Sends, send_computed-Sends, send_stop-Sends,
)
