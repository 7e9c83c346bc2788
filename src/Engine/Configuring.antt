-- ===== src/Engine/Configuring.antt =====
-- What the modem is handed after the message of a new mode.
use android_device_samsung_d.Common.{
  ◌≡◌, Bool, true, false, some, List, [], ◌∷◌, ◌++◌, arith, if◌then◌else◌,
}
use android_device_samsung_d.Engine.Messages.{
  proc, proc_all, GnssType, is_standalone_only, loc_position_mode_standalone, allowed_mode,
}
use android_device_samsung_d.Engine.Session.{
  set_session, set_mode, loc_inform_gps_status, is_started, loc_eng_start_handler,
}
use android_device_samsung_d.Engine.Types.{
  session_begin, PosMode, start_fix_msg, position_mode_msg, EngineCall, status_cb, start_fix,
  set_in_session, set_position_mode, Engine, Conf, Modem,
}

-- The calls of a start with a mode, after others.
abbrev pub started_calls : Modem → List EngineCall → PosMode → Bool → List EngineCall
started_calls modem before p has_status_cb =
    let asked = before ++ start_fix p ∷ [] in
    if is_started modem (modem.start_fix_result asked)
    then (if has_status_cb
        then (asked ++ set_in_session true ∷ []) ++ status_cb session_begin ∷ []
        else asked ++ set_in_session true ∷ [])
    else asked

start-started_calls :
    (modem : Modem) (e : Engine)
    → e.adapter.navigating ≡ false
    → (loc_eng_start_handler modem e).1.calls
      ≡ started_calls modem e.calls e.adapter.fix_criteria e.has_status_cb
unfolding loc_eng_start_handler set_session loc_inform_gps_status
start-started_calls modem e idle = ground arith

module _ (modem : Modem) (c : Conf) (gnss : GnssType) (p : PosMode) (e : Engine) where
  -- On a target that has no other mode, the mode is standalone.
  abbrev forced_mode : PosMode
  forced_mode =
      if is_standalone_only gnss then record p { mode = loc_position_mode_standalone } else p

  allowed_mode-forced_mode : allowed_mode gnss p ≡ forced_mode
  unfolding allowed_mode
  allowed_mode-forced_mode = ground arith

  -- Outside a session, the message of `loc_eng_set_position_mode` and that of `loc_eng_start` after it
  -- hand the modem the mode and start the fix with it: the mode that was asked for, or the standalone one
  -- with the other members as they were asked for on a target that has no other. If the fix is started,
  -- the session begins, and the status callback is told so.
  pub set_mode-start :
      e.adapter.navigating ≡ false
      → (proc_all modem c (position_mode_msg (allowed_mode gnss p) ∷ start_fix_msg ∷ []) e).calls
        ≡ started_calls modem
            (e.calls ++ set_position_mode forced_mode ∷ [])
            forced_mode
            e.has_status_cb
  unfolding proc set_mode
  set_mode-start idle =
      rw allowed_mode-forced_mode (start-started_calls modem (set_mode (some forced_mode) e) idle)
