-- ===== src/Engine/Session.antt =====
-- The fix session, the status reports and the reports of positions and satellites
-- (gps/loc_api/libloc_api_50001/loc_eng.cpp, LocEngAdapter.{h,cpp}).
use android_device_samsung_d.Common.{
  ℕ, Bool, true, false, not, ◌&&◌, ◌||◌, Option, none, some, ◌==◌, if◌then◌else◌,
}
use android_device_samsung_d.Engine.Types.{
  GpsStatus, status_none, session_begin, session_end, engine_on, engine_off, MuteSession,
  mute_sess_none, mute_sess_wait, mute_sess_in_session, PosMode, status_cb, start_fix, stop_fix,
  set_in_session, set_position_mode, delete_aiding_data, Engine, Modem, did,
}

abbrev pub loc_position_mode_invalid : ℕ
loc_position_mode_invalid = 0xffff_ffff

abbrev pub gps_position_recurrence_single : ℕ
gps_position_recurrence_single = 1

-- `LocEngAdapter::setInSession`.
unfoldable pub set_session : Bool → Engine → Engine
set_session on e =
    let a = e.adapter in
    let criteria =
      if on then a.fix_criteria else record a.fix_criteria { mode = loc_position_mode_invalid } in
    did (set_in_session on)
      (record e { adapter = record a { navigating = on; fix_criteria = criteria } })

-- `LocEngAdapter::setPositionMode`; `none` is NULL.
unfoldable pub set_mode : Option PosMode → Engine → Engine
set_mode none e = did (set_position_mode e.adapter.fix_criteria) e
set_mode (some p) e =
    did (set_position_mode p) (record e { adapter = record e.adapter { fix_criteria = p } })

-- `loc_inform_gps_status`.
unfoldable pub loc_inform_gps_status : GpsStatus → Engine → Engine
loc_inform_gps_status status e = if e.has_status_cb then did (status_cb status) e else e

-- `loc_eng_mute_one_session`.
unfoldable pub loc_eng_mute_one_session : Engine → Engine
loc_eng_mute_one_session e = record e { mute_session_state = mute_sess_wait }

-- The two steps of muting in `loc_eng_report_status`.
begin_mute : GpsStatus → MuteSession → MuteSession
begin_mute session_begin mute_sess_wait = mute_sess_in_session
begin_mute engine_on mute_sess_wait = mute_sess_in_session
begin_mute _ m = m

end_mute : GpsStatus → MuteSession → MuteSession
end_mute session_end mute_sess_in_session = mute_sess_none
end_mute engine_off mute_sess_in_session = mute_sess_none
end_mute _ m = m

unfoldable pub mute_after : GpsStatus → MuteSession → MuteSession
unfolding begin_mute end_mute
mute_after status m = end_mute status (begin_mute status m)

-- Whether a status is passed on, given whether a session runs.
unfoldable pub is_reported : GpsStatus → Bool → Bool
is_reported status_none navigating = false
is_reported session_begin navigating = navigating
is_reported session_end navigating = not navigating
is_reported engine_on navigating = true
is_reported engine_off navigating = true

unfoldable pub is_muted : MuteSession → Bool
is_muted mute_sess_none = false
is_muted mute_sess_wait = false
is_muted mute_sess_in_session = true

keep_engine_status : GpsStatus → GpsStatus → GpsStatus
keep_engine_status engine_on old = engine_on
keep_engine_status engine_off old = engine_off
keep_engine_status _ old = old

keep_session_status : GpsStatus → GpsStatus → GpsStatus
keep_session_status session_begin old = session_begin
keep_session_status session_end old = session_end
keep_session_status _ old = old

-- `loc_eng_report_status`.
unfoldable pub loc_eng_report_status : GpsStatus → Engine → Engine
unfolding mute_after is_reported is_muted keep_engine_status keep_session_status
loc_eng_report_status status e =
    let muted = record e { mute_session_state = mute_after status e.mute_session_state } in
    let told =
      if is_reported status e.adapter.navigating && not (is_muted muted.mute_session_state)
      then loc_inform_gps_status status muted
      else muted in
    record told {
      engine_status = keep_engine_status status e.engine_status;
      fix_session_status = keep_session_status status e.fix_session_status;
    }

unfoldable pub is_engine_on : GpsStatus → Bool
is_engine_on engine_on = true
is_engine_on _ = false

-- `update_aiding_data_for_deletion`, and `deleteAidingData` with the same body.
unfoldable pub update_aiding_data_for_deletion : Engine → Engine
unfolding is_engine_on
update_aiding_data_for_deletion e =
    if not (is_engine_on e.engine_status) && not (e.aiding_data_for_deletion == 0)
    then record (did (delete_aiding_data e.aiding_data_for_deletion) e) {
      aiding_data_for_deletion = 0;
    }
    else e

-- `LocEngReportStatus::proc` and `LocEngDelAidData::proc`.
unfoldable pub report_status_proc : GpsStatus → Engine → Engine
report_status_proc status e = update_aiding_data_for_deletion (loc_eng_report_status status e)

unfoldable pub del_aid_data_proc : ℕ → Engine → Engine
del_aid_data_proc type e =
    update_aiding_data_for_deletion (record e { aiding_data_for_deletion = type })

module _ (modem : Modem) where
  -- The results of `startFix` that begin a session: success, engine down or offline, internal.
  unfoldable pub is_started : ℕ → Bool
  is_started err = err == 0 || err == 7 || err == 10

  -- `loc_eng_start_handler`.
  unfoldable pub loc_eng_start_handler : Engine → ℕ × Engine
  unfolding is_started
  loc_eng_start_handler e =
      if e.adapter.navigating
      then (0, e)
      else (let asked = did (start_fix e.adapter.fix_criteria) e in
          let err = modem.start_fix_result asked.calls in
          if is_started err
          then (err, loc_inform_gps_status session_begin (set_session true asked))
          else (err, asked))

  -- `loc_eng_stop_handler`.
  unfoldable pub loc_eng_stop_handler : Engine → ℕ × Engine
  loc_eng_stop_handler e =
      if e.adapter.navigating
      then (let asked = did stop_fix e in
          let err = modem.stop_fix_result asked.calls in
          let told = if err == 0 then loc_inform_gps_status session_end asked else asked in
          (err, set_session false told))
      else (0, e)

-- `loc_eng_handle_engine_up`: a session that the modem was in is started again.
unfoldable pub resume_session : Modem → Engine → Engine
resume_session modem e =
    if e.adapter.navigating
    then (loc_eng_start_handler modem (set_session false (set_mode none e))).1
    else e
