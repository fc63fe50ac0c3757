-- ===== src/Handlers/Profiling.antt =====
-- Sources/GDBRemote/Session.cpp: the baud rate, the log, and the profiles. std::string::compare(0, n, text)
-- compares the first n characters of an argument with the whole text.
pub mod Names
use ds.Base.{
  ℕ, Bool, false, not, some, List, [], ◌∷◌, ◌++◌, Bytes, codes, ◌==◌, if◌then◌else◌, take, drop,
}
use ds.Handlers.Calls.{
  on_set_baud_rate, on_set_logging, on_enable_asynchronous_profiling, on_query_profile_data,
}
use ds.Handlers.World.{Delegate, Action, default_id, ask, chk_send, report}
use ds.Handlers.Scan.{low32, same_text, parse_list}
use ds.Handlers.Scan.AnyBase.{strtoul_any}
use ds.Handlers.Settings.{pieces_of}

-- `arg.compare(0, n, text) == 0`
unfoldable pub begins : ℕ → Bytes → Bytes → Bool
unfolding same_text
begins n text arg = same_text (take n arg) text

pub record Profile : Type 0 where
  pub enabled : Bool
  pub interval : ℕ
  pub scan_type : ℕ

-- One piece of QSetEnableAsyncProfiling.
unfoldable pub profile_item : Profile → Bytes → Profile
unfolding begins strtoul_any
profile_item profile arg =
    if begins 7 (codes "enable:") arg
    then record profile { enabled = not (strtoul_any (drop 7 arg) == 0) }
    else if begins 9 (codes "scan_type:") arg
    then record profile { scan_type = low32 (strtoul_any (drop 9 arg)) }
    else if begins 13 (codes "interval_usec:") arg
    then record profile { interval = low32 (strtoul_any (drop 13 arg)) }
    else profile

unfoldable pub profile_of : Profile → List Bytes → Profile
unfolding profile_item
profile_of profile [] = profile
profile_of profile (arg ∷ args) = profile_of (profile_item profile arg) args

-- The scan type of qGetProfileData.
unfoldable pub scan_type_of : ℕ → List Bytes → ℕ
unfolding begins strtoul_any
scan_type_of scan_type [] = scan_type
scan_type_of scan_type (arg ∷ args) =
    scan_type_of
      (if begins 9 (codes "scan_type:") arg then low32 (strtoul_any (drop 9 arg)) else scan_type)
      args

pub record Logging : Type 0 where
  pub mode : Bytes
  pub filename : Bytes
  pub flags : List Bytes

unfoldable pub logging_item : Logging → Bytes → Logging
unfolding begins parse_list
logging_item logging arg =
    if begins 8 (codes "bitmask=") arg
    then record logging { flags = logging.flags ++ pieces_of (parse_list b'|' (drop 8 arg)) }
    else if begins 5 (codes "mode=") arg
    then record logging { mode = drop 5 arg }
    else if begins 9 (codes "filename=") arg
    then record logging { filename = drop 9 arg }
    else logging

unfoldable pub logging_of : Logging → List Bytes → Logging
unfolding logging_item
logging_of logging [] = logging
logging_of logging (arg ∷ args) = logging_of (logging_item logging arg) args

module _ (d : Delegate) where
  unfoldable pub handle_b : Bytes → Action d
  unfolding strtoul_any
  handle_b args = report d (on_set_baud_rate (low32 (strtoul_any args)))

  unfoldable pub handle_q_set_enable_async_profiling : Bytes → Action d
  unfolding profile_of parse_list
  handle_q_set_enable_async_profiling args =
      let profile =
        profile_of (record { enabled = false; interval = 0; scan_type = 0 })
          (pieces_of (parse_list b';' args)) in
      report d (
        on_enable_asynchronous_profiling default_id profile.enabled profile.interval
          profile.scan_type)

  -- No reply is sent when the delegate succeeds.
  unfoldable pub handle_q_get_profile_data : Bytes → Action d
  unfolding scan_type_of parse_list
  handle_q_get_profile_data args =
      chk_send d
        (on_query_profile_data default_id (scan_type_of 0 (pieces_of (parse_list b';' args))))
        λ answer w. some w

  -- The result of the delegate is dropped, and no reply is sent.
  unfoldable pub handle_q_set_logging : Bytes → Action d
  unfolding logging_of parse_list
  handle_q_set_logging args =
      let logging =
        logging_of (record { mode = []; filename = []; flags = [] })
          (pieces_of (parse_list b';' args)) in
      ask d (on_set_logging logging.mode logging.filename logging.flags) λ code answer w. some w
