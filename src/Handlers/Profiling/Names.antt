-- ===== src/Handlers/Profiling/Names.antt =====
-- QSetEnableAsyncProfiling and qGetProfileData of Sources/GDBRemote/Session.cpp: the names that are looked for.
use ds.Base.{
  zero, suc, ◌&&◌, ℕ, ◌≡◌, refl, ◌∙◌, ap, Bool, true, false, some, List, [], ◌∷◌, Bytes, codes,
  ◌==◌, take, length, ◌<◌, arith, inl, inr, Bool-cases,
}
use ds.Handlers.Calls.{on_enable_asynchronous_profiling, on_query_profile_data}
use ds.Handlers.World.{Delegate, World, default_id, chk_send, report}
use ds.Handlers.Scan.{same_text, parse_list}
use ds.Handlers.Settings.{pieces_of}
use ds.Handlers.Profiling.{
  begins, profile_item, profile_of, scan_type_of, handle_q_set_enable_async_profiling,
  handle_q_get_profile_data,
}

both : (b : Bool) → (b && false) ≡ false
both true = refl
both false = refl

-- The first characters are fewer than the text that they are compared with.
too_short : (n : ℕ) (text arg : Bytes) → n < length text → same_text (take n arg) text ≡ false
unfolding same_text
too_short zero [] arg h = absurd (omega arith)
too_short zero (d ∷ text) arg h = refl
too_short (suc n) [] arg h = absurd (omega arith)
too_short (suc n) (d ∷ text) [] h = refl
too_short (suc n) (d ∷ text) (c ∷ arg) h = rw (too_short n text arg (omega arith)) (both (c == d))

begins-short : (n : ℕ) (text arg : Bytes) → n < length text → begins n text arg ≡ false
unfolding begins
begins-short = too_short

profile_item-zero :
    (enabled : Bool) (arg : Bytes)
    → (enabled' : Bool) × (profile_item
          (record { enabled = enabled; interval = 0; scan_type = 0 })
          arg
        ≡ record { enabled = enabled'; interval = 0; scan_type = 0 })
unfolding profile_item
profile_item-zero enabled arg =
    let scan = begins-short 9 (codes "scan_type:") arg (omega arith) in
    let interval = begins-short 13 (codes "interval_usec:") arg (omega arith) in
    elim (Bool-cases (begins 7 (codes "enable:") arg)) [
      | inl found ↦ rw found (_, refl)
      | inr other ↦ rw (other, scan, interval) (enabled, refl)
    ]

profile_of-zero :
    (enabled : Bool) (args : List Bytes)
    → (enabled' : Bool) × (profile_of
          (record { enabled = enabled; interval = 0; scan_type = 0 })
          args
        ≡ record { enabled = enabled'; interval = 0; scan_type = 0 })
unfolding profile_of
profile_of-zero enabled [] = (enabled, refl)
profile_of-zero enabled (arg ∷ args) =
    let (first, e) = profile_item-zero enabled arg in
    let (last, h) = profile_of-zero first args in
    (last, ap (λ profile. profile_of profile args) e ∙ h)

scan_type_of-zero : (args : List Bytes) → scan_type_of 0 args ≡ 0
unfolding scan_type_of
scan_type_of-zero [] = refl
scan_type_of-zero (arg ∷ args) =
    rw (begins-short 9 (codes "scan_type:") arg (omega arith)) (scan_type_of-zero args)

-- Whatever the arguments are, QSetEnableAsyncProfiling asks for an interval and a scan type of 0, and
-- qGetProfileData for a scan type of 0: the names of both have one character more than the part of the
-- argument that is compared with them.
pub profiling-zero :
    (d : Delegate) (args : Bytes) (w : World d)
    → ((enabled : Bool) × (handle_q_set_enable_async_profiling d args w
          ≡ report d (on_enable_asynchronous_profiling default_id enabled 0 0) w))
      × (handle_q_get_profile_data d args w
          ≡ chk_send d (on_query_profile_data default_id 0) (λ answer w'. some w') w)
unfolding handle_q_set_enable_async_profiling handle_q_get_profile_data
profiling-zero d args w =
    let (enabled, e) = profile_of-zero false (pieces_of (parse_list b';' args)) in
    (
      (
        enabled,
        ap
            (λ profile.
              report d
                (on_enable_asynchronous_profiling default_id profile.enabled profile.interval
                  profile.scan_type)
                w)
            e,
      ),
      ap
          (λ scan_type.
            chk_send d (on_query_profile_data default_id scan_type) (λ answer w'. some w') w)
          (scan_type_of-zero (pieces_of (parse_list b';' args))),
    )
