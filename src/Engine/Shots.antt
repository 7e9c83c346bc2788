-- ===== src/Engine/Shots.antt =====
-- The session of the adapter: when a report of a position ends it, and what a restart of the modem
-- starts again.
use android_device_samsung_d.Common.{
  ℕ, ◌≡◌, refl, ap, ◌∙◌, inl, inr, Bool, true, false, not, ◌&&◌, Option, none, some, List, [], ◌∷◌,
  ◌++◌, arith, ◌==◌, if◌then◌else◌, Bool-cases, is_some,
}
use android_device_samsung_d.Engine.Reports.{
  end_single_shot, position_nmea, free_raw_data, tell, told_position, report_position_proc,
}
use android_device_samsung_d.Engine.Session.{
  loc_position_mode_invalid, gps_position_recurrence_single, set_session, set_mode,
  loc_inform_gps_status, is_muted, is_started, loc_eng_start_handler, resume_session,
}
use android_device_samsung_d.Engine.Types.{
  session_begin, SessStatus, PosMode, Location, EngineCall, status_cb, start_fix, set_in_session,
  set_position_mode, Adapter, Engine, Modem,
}

-- The adapter after `setInSession(false)`.
abbrev pub ended_adapter : Adapter → Adapter
ended_adapter a = record a {
  navigating = false;
  fix_criteria = record a.fix_criteria { mode = loc_position_mode_invalid };
}

tell-adapter : (t : Option (Option Location)) (e : Engine) → (tell t e).adapter ≡ e.adapter
unfolding tell
tell-adapter none e = refl
tell-adapter (some l) e = refl

end_single_shot-adapter :
    (reported : Bool) (st : SessStatus) (e : Engine)
    → (end_single_shot reported st e).adapter ≡ (
        if reported && e.adapter.fix_criteria.recurrence == gps_position_recurrence_single
        then ended_adapter e.adapter
        else e.adapter)
unfolding end_single_shot set_session
end_single_shot-adapter reported st e = ground arith

tail-adapter :
    (reported : Bool) (loc : Location) (st : SessStatus) (tech : ℕ) (e : Engine)
    → (free_raw_data loc (position_nmea reported loc st tech e)).adapter ≡ e.adapter
unfolding free_raw_data position_nmea
tail-adapter reported loc st tech e = ground arith

module _ (modem : Modem) (thres : ℕ) where
  -- A position changes the session in one case alone: a single shot that is not muted and of which the
  -- location callback is told, be it a position or a failure, ends the session and forgets the mode.
  pub report_position-adapter :
      (loc : Location) (st : SessStatus) (tech : ℕ) (e : Engine)
      → (report_position_proc modem thres loc st tech e).adapter ≡ (
          if not (is_muted e.mute_session_state)
            && is_some (told_position modem thres loc st tech e)
            && e.adapter.fix_criteria.recurrence == gps_position_recurrence_single
          then ended_adapter e.adapter
          else e.adapter)
  unfolding report_position_proc
  report_position-adapter loc st tech e = elim (Bool-cases (is_muted e.mute_session_state)) [
    | inl muted ↦ rw muted
    | inr loud ↦
        let t = told_position modem thres loc st tech e in
        rw (loud, tail-adapter (is_some t) loc st tech (end_single_shot (is_some t) st (tell t e)))
          (end_single_shot-adapter (is_some t) st (tell t e)
            ∙ ap
                (λ a.
                  if is_some t && a.fix_criteria.recurrence == gps_position_recurrence_single
                  then ended_adapter a
                  else a)
                (tell-adapter t e))
  ]

abbrev pub invalid_mode : PosMode → PosMode
invalid_mode p = record p { mode = loc_position_mode_invalid }

-- The calls up to the new `startFix`.
abbrev pub resuming : Engine → List EngineCall
resuming e =
    ((e.calls ++ set_position_mode e.adapter.fix_criteria ∷ []) ++ set_in_session false ∷ [])
    ++ start_fix (invalid_mode e.adapter.fix_criteria) ∷ []

-- A session that is resumed hands the modem its mode, and then starts the fix with the invalid mode: the
-- session is ended first, and that overwrites the mode that the fix is started with.
pub resume_session-mode_lost :
    (modem : Modem) (e : Engine)
    → e.adapter.navigating ≡ true
    → e.has_status_cb ≡ true
    → ((resume_session modem e).adapter.fix_criteria ≡ invalid_mode e.adapter.fix_criteria)
      × ((resume_session modem e).calls ≡ (
          if is_started modem (modem.start_fix_result (resuming e))
          then (resuming e ++ set_in_session true ∷ []) ++ status_cb session_begin ∷ []
          else resuming e))
unfolding resume_session loc_eng_start_handler set_session set_mode loc_inform_gps_status
resume_session-mode_lost modem e on has = ground arith
