-- ===== src/Handlers/World/Replies.antt =====
-- sendError of Sources/GDBRemote/SessionBase.cpp, as the handlers of Sources/GDBRemote/Session.cpp call it:
-- when it returns.
use ds.Base.{◌≡◌, ◌≢◌, refl, inl, inr, none, some, [], ◌∷◌, ◌++◌, arith, Option-cases}
use ds.Errors.{ErrorCode, success}
use ds.Session.{CompatibilityMode, lldb_thread, error_reply}
use ds.Handlers.World.{Delegate, World, failure, push, send_error}

pub mode-error_reply :
    (code : ErrorCode) (mode : CompatibilityMode)
    → error_reply mode code ≡ none
    → mode ≡ lldb_thread
unfolding error_reply
mode-error_reply code mode h = ground arith

module _ (d : Delegate) where
  pub send_error_lem :
      (code : ErrorCode) (w : World d)
      → w.session.mode ≢ lldb_thread
      → send_error d code w ≡ some (record w { sent = w.sent ++ failure code ∷ [] })
  unfolding send_error push
  send_error_lem code w m = elim (Option-cases (error_reply w.session.mode code)) [
    | inl e ↦ absurd (m (mode-error_reply code w.session.mode e))
    | inr (text, e) ↦ rw (e, send_error) refl
  ]

  pub send_error-success :
      (w : World d)
      → send_error d success w ≡ some (record w { sent = w.sent ++ failure success ∷ [] })
  unfolding send_error push error_reply
  send_error-success w = refl
