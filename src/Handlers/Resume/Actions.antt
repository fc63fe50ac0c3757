-- ===== src/Handlers/Resume/Actions.antt =====
-- vCont of Sources/GDBRemote/Session.cpp: what becomes of its list of actions.
use ds.Base.{
  ℕ, ◌≡◌, ◌≢◌, refl, sym, ap, ◌∙◌, inl, inr, Option, none, some, List, [], ◌∷◌, ◌++◌, Bytes,
  append-nil, append_assoc, Option-cases,
}
use ds.Errors.{invalid_argument}
use ds.Session.{CompatibilityMode, lldb_thread}
use ds.Handlers.Calls.{ThreadResumeAction}
use ds.Handlers.World.{Delegate, World, Action, Sent, failure}
use ds.Handlers.World.Replies.{send_error_lem}
use ds.Handlers.Scan.{parse_list}
use ds.Handlers.Memory.{or_invalid}
use ds.Handlers.Resume.{parse_action, vcont_actions, resume, handle_v_cont}

-- The pieces that are actions, in order, and an error for each of the others that is not empty.
abbrev pub with_action :
    Option ThreadResumeAction → List ThreadResumeAction → List ThreadResumeAction
with_action none rest = rest
with_action (some action) rest = action ∷ rest

abbrev pub with_error : Option ThreadResumeAction → List Sent → List Sent
with_error none rest = failure invalid_argument ∷ rest
with_error (some action) rest = rest

abbrev pub actions_of : CompatibilityMode → List Bytes → List ThreadResumeAction
actions_of mode [] = []
actions_of mode ([] ∷ args) = actions_of mode args
actions_of mode ((c ∷ s) ∷ args) = with_action (parse_action mode c s) (actions_of mode args)

abbrev pub errors_of : CompatibilityMode → List Bytes → List Sent
errors_of mode [] = []
errors_of mode ([] ∷ args) = errors_of mode args
errors_of mode ((c ∷ s) ∷ args) = with_error (parse_action mode c s) (errors_of mode args)

one_more {ℓ} :
    {A : Type ℓ} (xs : List A) (x : A) (ys : List A) → (xs ++ x ∷ []) ++ ys ≡ xs ++ (x ∷ ys)
one_more xs x ys = append_assoc xs (x ∷ []) ys

module _ (d : Delegate) where
  open d use {Target}

  module _ (mode : CompatibilityMode) (c : ℕ) (s : Bytes) (args : List Bytes)
      (actions : List ThreadResumeAction) (next : List ThreadResumeAction → Action d)
      (w : World d) where
    vcont_bad :
        parse_action mode c s ≡ none
        → w.session.mode ≢ lldb_thread
        → vcont_actions d mode ((c ∷ s) ∷ args) actions next w
          ≡ vcont_actions d mode args actions next
              (record w { sent = w.sent ++ failure invalid_argument ∷ [] })
    unfolding vcont_actions
    vcont_bad h m = rw (h, vcont_actions) (rw (send_error_lem d invalid_argument w m) refl)

    vcont_good :
        (action : ThreadResumeAction)
        → parse_action mode c s ≡ some action
        → vcont_actions d mode ((c ∷ s) ∷ args) actions next w
          ≡ vcont_actions d mode args (actions ++ action ∷ []) next w
    unfolding vcont_actions
    vcont_good action h = rw (h, vcont_actions) refl

  vcont_actions_lem :
      (mode : CompatibilityMode) (args : List Bytes) (actions : List ThreadResumeAction)
      (next : List ThreadResumeAction → Action d) (w : World d)
      → w.session.mode ≢ lldb_thread
      → vcont_actions d mode args actions next w
        ≡ next (actions ++ actions_of mode args) (record w { sent = w.sent ++ errors_of mode args })
  unfolding vcont_actions
  vcont_actions_lem mode [] actions next w m =
      ap (λ l. next l w) (sym (append-nil actions))
      ∙ ap (λ l. next (actions ++ []) (record w { sent = l })) (sym (append-nil w.sent))
  vcont_actions_lem mode ([] ∷ args) actions next w m = vcont_actions_lem mode args actions next w m
  vcont_actions_lem mode ((c ∷ s) ∷ args) actions next w m =
      elim (Option-cases (parse_action mode c s)) [
        | inl bad ↦
            vcont_bad mode c s args actions next w bad m
            ∙ rw bad (
                vcont_actions_lem mode args actions next
                  (record w { sent = w.sent ++ failure invalid_argument ∷ [] }) m
                ∙ ap (λ l. next (actions ++ actions_of mode args) (record w { sent = l }))
                    (one_more w.sent (failure invalid_argument) (errors_of mode args)))
        | inr (action, good) ↦
            vcont_good mode c s args actions next w action good
            ∙ rw good (
                vcont_actions_lem mode args (actions ++ action ∷ []) next w m
                ∙ ap (λ l. next l (record w { sent = w.sent ++ errors_of mode args }))
                    (one_more actions action (actions_of mode args)))
      ]

  -- Unless the session is in the mode for threads, vCont resumes with the pieces that are actions, whatever the other pieces are: for each of these that is
  -- not empty an error is sent first, so that together with the stop reply there is more than one reply.
  pub handle_v_cont-actions :
      (args : Bytes) (list : List Bytes) (w : World d)
      → parse_list b';' args ≡ some list
      → w.session.mode ≢ lldb_thread
      → handle_v_cont d args w
        ≡ resume d
            (actions_of w.session.mode list)
            (record w { sent = w.sent ++ errors_of w.session.mode list })
  unfolding handle_v_cont or_invalid
  handle_v_cont-actions args list w h m =
      rw h (vcont_actions_lem w.session.mode list [] (resume d) w m)
