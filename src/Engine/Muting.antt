-- ===== src/Engine/Muting.antt =====
-- A muted session is silent: the reports of the modem reach no callback.
use android_device_samsung_d.Common.{
  ℕ, ◌≡◌, refl, ◌∙◌, Bool, true, false, ◌&&◌, List, [], ◌∷◌, ◌++◌, append-nil, arith, filter,
}
use android_device_samsung_d.Engine.Reports.{
  report_sv_proc, Event, started, stopped, muted_once, mode_set, status_reported, position_reported,
  sv_reported, aiding_deleted, nmea_reported, engine_went_down, engine_came_up,
  report_position_proc, step, run,
}
use android_device_samsung_d.Engine.Session.{
  set_mode, is_muted, loc_eng_report_status, update_aiding_data_for_deletion, report_status_proc,
  del_aid_data_proc,
}
use android_device_samsung_d.Engine.Types.{
  GpsStatus, status_none, session_begin, session_end, engine_on, engine_off, SessStatus,
  mute_sess_in_session, Location, EngineCall, location_cb, sv_status_cb, status_cb, generate_pos,
  generate_sv, set_position_mode, delete_aiding_data, nmea_cb, Engine, Modem,
}

-- The calls of the callbacks and of the NMEA generator.
abbrev pub is_told : EngineCall → Bool
is_told (location_cb l) = true
is_told (sv_status_cb sv) = true
is_told (status_cb status) = true
is_told (generate_pos loc on) = true
is_told (generate_sv sv) = true
is_told (nmea_cb nmea) = true
is_told _ = false

-- The reports that leave a muted session muted.
abbrev pub is_silent_report : Event → Bool
is_silent_report (position_reported loc st tech) = true
is_silent_report (sv_reported sv) = true
is_silent_report (status_reported status_none) = true
is_silent_report (status_reported session_begin) = true
is_silent_report (status_reported engine_on) = true
is_silent_report (aiding_deleted type) = true
is_silent_report (mode_set p) = true
is_silent_report _ = false

abbrev pub all_silent : List Event → Bool
all_silent [] = true
all_silent (v ∷ vs) = is_silent_report v && all_silent vs

abbrev pub told_calls : Engine → List EngineCall
told_calls e = filter is_told e.calls

-- Two lists of calls tell the same.
filter-append :
    (cs ds : List EngineCall) → filter is_told (cs ++ ds) ≡ filter is_told cs ++ filter is_told ds
filter-append [] ds = refl
filter-append (c ∷ cs) ds = ground (arith, filter-append cs ds)

-- A step in a muted session keeps it muted and tells nothing.
abbrev pub IsQuiet : Engine → Engine → Type 0
IsQuiet e e' = (e'.mute_session_state ≡ mute_sess_in_session) × (told_calls e' ≡ told_calls e)

aiding-IsQuiet :
    (e : Engine)
    → e.mute_session_state ≡ mute_sess_in_session
    → IsQuiet e (update_aiding_data_for_deletion e)
unfolding update_aiding_data_for_deletion
aiding-IsQuiet e muted = ground (
  arith,
  filter-append e.calls (delete_aiding_data e.aiding_data_for_deletion ∷ []),
  append-nil (told_calls e),
)

report_status-IsQuiet :
    (status : GpsStatus) (e : Engine)
    → is_silent_report (status_reported status) ≡ true
    → e.mute_session_state ≡ mute_sess_in_session
    → IsQuiet e (loc_eng_report_status status e)
unfolding loc_eng_report_status
report_status-IsQuiet status_none e silent muted = ground arith
report_status-IsQuiet session_begin e silent muted = ground arith
report_status-IsQuiet session_end e silent muted = cc
report_status-IsQuiet engine_on e silent muted = ground arith
report_status-IsQuiet engine_off e silent muted = cc

IsQuiet-trans : (e f g : Engine) → IsQuiet e f → IsQuiet f g → IsQuiet e g
IsQuiet-trans e f g p q = (q.0, q.1 ∙ p.1)

muted-is_muted :
    (e : Engine)
    → e.mute_session_state ≡ mute_sess_in_session
    → is_muted e.mute_session_state ≡ true
unfolding is_muted
muted-is_muted e muted = rw muted

module _ (modem : Modem) (thres : ℕ) where
  -- A position in a muted session does nothing; the buffer of its raw data is not freed either.
  pub muted_position :
      (loc : Location) (st : SessStatus) (tech : ℕ) (e : Engine)
      → e.mute_session_state ≡ mute_sess_in_session
      → report_position_proc modem thres loc st tech e ≡ e
  unfolding report_position_proc
  muted_position loc st tech e muted = ground (arith, muted-is_muted e)

  step-IsQuiet :
      (v : Event) (e : Engine)
      → is_silent_report v ≡ true
      → e.mute_session_state ≡ mute_sess_in_session
      → IsQuiet e (step modem thres v e)
  unfolding step report_status_proc del_aid_data_proc set_mode report_sv_proc
  step-IsQuiet started e silent muted = cc
  step-IsQuiet stopped e silent muted = cc
  step-IsQuiet muted_once e silent muted = cc
  step-IsQuiet (nmea_reported nmea) e silent muted = cc
  step-IsQuiet engine_went_down e silent muted = cc
  step-IsQuiet (engine_came_up msgs) e silent muted = cc
  step-IsQuiet (mode_set p) e silent muted =
      (muted, filter-append e.calls (set_position_mode p ∷ []) ∙ append-nil (told_calls e))
  step-IsQuiet (status_reported status) e silent muted =
      let once = report_status-IsQuiet status e silent muted in
      IsQuiet-trans e (loc_eng_report_status status e) (step modem thres (status_reported status) e)
        once (aiding-IsQuiet (loc_eng_report_status status e) once.0)
  step-IsQuiet (position_reported loc st tech) e silent muted =
      rw (muted_position loc st tech e muted) (muted, refl)
  step-IsQuiet (sv_reported sv) e silent muted = ground (arith, muted-is_muted e)
  step-IsQuiet (aiding_deleted type) e silent muted =
      aiding-IsQuiet (record e { aiding_data_for_deletion = type }) muted

  -- In a muted session, reports of positions, of satellites and of a status other than the end of the
  -- session and the engine going off reach no callback and not the NMEA generator, whatever their number
  -- and order, and the session stays muted; changes of the mode and deletions of aiding data in between
  -- keep that. Starts and stops, a call to mute one session, NMEA sentences of the modem and the messages
  -- that the modem went down or came up are not among these events.
  pub run-IsQuiet :
      (vs : List Event) (e : Engine)
      → all_silent vs ≡ true
      → e.mute_session_state ≡ mute_sess_in_session
      → ((run modem thres vs e).mute_session_state ≡ mute_sess_in_session)
        × (filter is_told (run modem thres vs e).calls ≡ filter is_told e.calls)
  run-IsQuiet [] e silent muted = (muted, refl)
  run-IsQuiet (v ∷ vs) e silent muted =
      let first : is_silent_report v ≡ true = ground arith in
      let rest : all_silent vs ≡ true = ground arith in
      let once = step-IsQuiet v e first muted in
      let more = run-IsQuiet vs (step modem thres v e) rest once.0 in (more.0, more.1 ∙ once.1)
