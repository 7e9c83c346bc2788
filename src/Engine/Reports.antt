-- ===== src/Engine/Reports.antt =====
-- The reports of positions and satellites, and the messages of a session
-- (gps/loc_api/libloc_api_50001/loc_eng.cpp).
use android_device_samsung_d.Common.{
  ℕ, bit_and, Bool, true, false, not, ◌&&◌, ◌||◌, Option, none, some, List, [], ◌∷◌, ◌++◌, ◌==◌,
  if◌then◌else◌, is_some,
}
use android_device_samsung_d.Engine.Session.{
  gps_position_recurrence_single, set_session, set_mode, loc_eng_mute_one_session, is_muted,
  loc_eng_report_status, report_status_proc, del_aid_data_proc, loc_eng_start_handler,
  loc_eng_stop_handler, resume_session,
}
use android_device_samsung_d.Engine.Types.{
  GpsStatus, engine_on, engine_off, SessStatus, sess_success, sess_intermediate, sess_failure,
  PosMode, Location, LocMsg, location_cb, sv_status_cb, generate_pos, generate_sv, delete_raw_data,
  stop_fix, nmea_cb, Engine, Modem, did,
}

-- `LOC_POS_TECH_MASK_SATELLITE | LOC_POS_TECH_MASK_SENSORS | LOC_POS_TECH_MASK_HYBRID`.
abbrev pub final_tech_mask : ℕ
final_tech_mask = 0x89

abbrev pub gps_location_has_accuracy : ℕ
gps_location_has_accuracy = 0x10

abbrev pub ulp_location_is_from_gnss : ℕ
ulp_location_is_from_gnss = 2

abbrev pub has_bits : ℕ → ℕ → Bool
has_bits mask x = not (bit_and mask x == 0)

unfoldable pub is_success : SessStatus → Bool
is_success sess_success = true
is_success _ = false

unfoldable pub is_failure : SessStatus → Bool
is_failure sess_failure = true
is_failure _ = false

unfoldable pub is_intermediate : SessStatus → Bool
is_intermediate sess_intermediate = true
is_intermediate _ = false

-- The end of a single shot after a report.
unfoldable pub end_single_shot : Bool → SessStatus → Engine → Engine
unfolding is_intermediate
end_single_shot reported st e =
    if reported && e.adapter.fix_criteria.recurrence == gps_position_recurrence_single
    then set_session false (if is_intermediate st then did stop_fix e else e)
    else e

unfoldable pub position_nmea : Bool → Location → SessStatus → ℕ → Engine → Engine
unfolding is_failure
position_nmea reported loc st tech e =
    if e.generate_nmea
      && loc.position_source == ulp_location_is_from_gnss
      && has_bits final_tech_mask tech
    then did (generate_pos loc (reported && not (is_failure st))) e
    else e

unfoldable pub free_raw_data : Location → Engine → Engine
free_raw_data loc e = if loc.raw_data == 0 then e else did (delete_raw_data loc.raw_data) e

-- `LocEngReportSv::proc`.
unfoldable pub report_sv_proc : ℕ → Engine → Engine
report_sv_proc sv e =
    if is_muted e.mute_session_state
    then e
    else (let told = if e.has_sv_status_cb then did (sv_status_cb sv) e else e in
        if e.generate_nmea then did (generate_sv sv) told else told)

-- `LocEngReportNmea::proc`, which does not test whether the session is muted.
unfoldable pub report_nmea_proc : List ℕ → Engine → Engine
report_nmea_proc nmea e = if e.has_nmea_cb then did (nmea_cb nmea) e else e

-- What reaches the engine's thread and touches the session, the aiding data or the callbacks of reports.
pub data Event : Type 0 where
  started stopped muted_once : Event
  mode_set : PosMode → Event
  status_reported : GpsStatus → Event
  position_reported : Location → SessStatus → ℕ → Event
  sv_reported : ℕ → Event
  aiding_deleted : ℕ → Event
  nmea_reported : List ℕ → Event
  engine_went_down : Event
  -- the messages that the settings and the servers send
  engine_came_up : List LocMsg → Event

-- The call of `location_cb`, if there is one.
unfoldable pub tell : Option (Option Location) → Engine → Engine
tell none e = e
tell (some l) e = did (location_cb l) e

module _ (modem : Modem) (accuracy_thres : ℕ) where
  -- Whether a position that is no failure is passed on: `intermediateFix` equals
  -- `LOC_SESS_INTERMEDIATE`, which is 1, if intermediate positions are accepted.
  unfoldable pub is_accepted : Location → SessStatus → ℕ → ℕ → Bool
  unfolding is_success
  is_accepted loc st tech intermediate_fix =
      (is_success st && has_bits final_tech_mask tech)
      || (intermediate_fix == 1
          && not (
              has_bits gps_location_has_accuracy loc.flags
              && not (accuracy_thres == 0)
              && modem.exceeds loc.accuracy accuracy_thres))

  -- What `location_cb` is called with, if it is called.
  unfoldable pub told_position : Location → SessStatus → ℕ → Engine → Option (Option Location)
  unfolding is_accepted is_failure
  told_position loc st tech e =
      if not e.has_location_cb
      then none
      else if is_failure st
      then some none
      else if is_accepted loc st tech e.intermediate_fix
      then some (some loc)
      else none

  -- `LocEngReportPosition::proc`.
  unfoldable pub report_position_proc : Location → SessStatus → ℕ → Engine → Engine
  unfolding told_position tell
  report_position_proc loc st tech e =
      if is_muted e.mute_session_state
      then e
      else (let told = told_position loc st tech e in
          let reported = is_some told in
          let ended = end_single_shot reported st (tell told e) in
          free_raw_data loc (position_nmea reported loc st tech ended))

  unfoldable pub step : Event → Engine → Engine
  step started e = (loc_eng_start_handler modem e).1
  step stopped e = (loc_eng_stop_handler modem e).1
  step muted_once e = loc_eng_mute_one_session e
  step (mode_set p) e = set_mode (some p) e
  step (status_reported status) e = report_status_proc status e
  step (position_reported loc st tech) e = report_position_proc loc st tech e
  step (sv_reported sv) e = report_sv_proc sv e
  step (aiding_deleted type) e = del_aid_data_proc type e
  step (nmea_reported nmea) e = report_nmea_proc nmea e
  step engine_went_down e = loc_eng_report_status engine_off e
  step (engine_came_up msgs) e =
      resume_session modem (loc_eng_report_status engine_on (record e { queue = e.queue ++ msgs }))

  abbrev pub run : List Event → Engine → Engine
  run [] e = e
  run (v ∷ vs) e = run vs (step v e)
