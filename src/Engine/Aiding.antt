-- ===== src/Engine/Aiding.antt =====
-- Aiding data waits for the engine to go off, and for nothing else.
use android_device_samsung_d.Common.{
  ℕ, ◌≡◌, refl, sym, ap, ◌∙◌, ◌≢◌, Bool, true, false, List, [], ◌∷◌, ◌++◌, arith, any,
}
use android_device_samsung_d.Engine.Reports.{
  end_single_shot, position_nmea, free_raw_data, report_sv_proc, report_nmea_proc, Event, started,
  stopped, muted_once, mode_set, status_reported, position_reported, sv_reported, aiding_deleted,
  nmea_reported, engine_went_down, engine_came_up, report_position_proc, step, run,
}
use android_device_samsung_d.Engine.Session.{
  set_session, set_mode, loc_inform_gps_status, loc_eng_mute_one_session, loc_eng_report_status,
  is_engine_on, update_aiding_data_for_deletion, report_status_proc, del_aid_data_proc,
  loc_eng_start_handler, loc_eng_stop_handler, resume_session,
}
use android_device_samsung_d.Engine.Types.{
  GpsStatus, engine_on, engine_off, SessStatus, Location, delete_aiding_data, Engine, Modem,
}

-- What the session code leaves alone.
abbrev Keeps : Engine → Engine → Type 0
Keeps e e' =
    (e'.engine_status ≡ e.engine_status)
    × (e'.aiding_data_for_deletion ≡ e.aiding_data_for_deletion)

set_session-Keeps : (on : Bool) (e : Engine) → Keeps e (set_session on e)
unfolding set_session
set_session-Keeps on e = (refl, refl)

loc_inform_gps_status-Keeps :
    (status : GpsStatus) (e : Engine) → Keeps e (loc_inform_gps_status status e)
unfolding loc_inform_gps_status
loc_inform_gps_status-Keeps status e = ground arith

start-Keeps : (modem : Modem) (e : Engine) → Keeps e (loc_eng_start_handler modem e).1
unfolding loc_eng_start_handler set_session loc_inform_gps_status
start-Keeps modem e = ground arith

stop-Keeps : (modem : Modem) (e : Engine) → Keeps e (loc_eng_stop_handler modem e).1
unfolding loc_eng_stop_handler set_session loc_inform_gps_status
stop-Keeps modem e = ground arith

report_position-Keeps :
    (modem : Modem) (thres : ℕ) (loc : Location) (st : SessStatus) (tech : ℕ) (e : Engine)
    → Keeps e (report_position_proc modem thres loc st tech e)
unfolding report_position_proc free_raw_data position_nmea end_single_shot set_session
report_position-Keeps modem thres loc st tech e = ground arith

report_sv-Keeps : (sv : ℕ) (e : Engine) → Keeps e (report_sv_proc sv e)
unfolding report_sv_proc
report_sv-Keeps sv e = ground arith

-- No aiding data waits unless the engine is on.
abbrev pub IsFlushed : Engine → Type 0
IsFlushed e = is_engine_on e.engine_status ≡ false → e.aiding_data_for_deletion ≡ 0

update-IsFlushed : (e : Engine) → IsFlushed (update_aiding_data_for_deletion e)
unfolding update_aiding_data_for_deletion
update-IsFlushed e off = ground arith

Keeps-IsFlushed : (e e' : Engine) → Keeps e e' → IsFlushed e → IsFlushed e'
Keeps-IsFlushed e e' same flushed off = same.1 ∙ flushed (ap is_engine_on (sym same.0) ∙ off)

report_nmea-Keeps : (nmea : List ℕ) (e : Engine) → Keeps e (report_nmea_proc nmea e)
unfolding report_nmea_proc
report_nmea-Keeps nmea e = ground arith

resume-Keeps : (modem : Modem) (e : Engine) → Keeps e (resume_session modem e)
unfolding resume_session loc_eng_start_handler set_session set_mode loc_inform_gps_status
resume-Keeps modem e = ground arith

on-status : (e : Engine) → is_engine_on (loc_eng_report_status engine_on e).engine_status ≡ true
unfolding loc_eng_report_status is_engine_on
on-status e = refl

is_on_off : {b : Bool} → b ≡ true → b ≡ false → ⊥
is_on_off on off = cc

-- The message that the modem went down.
abbrev pub is_down : Event → Bool
is_down engine_went_down = true
is_down _ = false

module _ (modem : Modem) (thres : ℕ) where
  step-IsFlushed :
      (v : Event) (e : Engine) → is_down v ≡ false → IsFlushed e → IsFlushed (step modem thres v e)
  unfolding step report_status_proc del_aid_data_proc loc_eng_mute_one_session set_mode
  step-IsFlushed started e up flushed =
      Keeps-IsFlushed e (step modem thres started e) (start-Keeps modem e) flushed
  step-IsFlushed stopped e up flushed =
      Keeps-IsFlushed e (step modem thres stopped e) (stop-Keeps modem e) flushed
  step-IsFlushed muted_once e up flushed = flushed
  step-IsFlushed (mode_set p) e up flushed = flushed
  step-IsFlushed (status_reported status) e up flushed =
      update-IsFlushed (loc_eng_report_status status e)
  step-IsFlushed (position_reported loc st tech) e up flushed =
      Keeps-IsFlushed e (step modem thres (position_reported loc st tech) e)
        (report_position-Keeps modem thres loc st tech e) flushed
  step-IsFlushed (sv_reported sv) e up flushed =
      Keeps-IsFlushed e (step modem thres (sv_reported sv) e) (report_sv-Keeps sv e) flushed
  step-IsFlushed (aiding_deleted type) e up flushed =
      update-IsFlushed (record e { aiding_data_for_deletion = type })
  step-IsFlushed (nmea_reported nmea) e up flushed =
      Keeps-IsFlushed e (step modem thres (nmea_reported nmea) e) (report_nmea-Keeps nmea e) flushed
  step-IsFlushed engine_went_down e up flushed = absurd (cc)
  step-IsFlushed (engine_came_up msgs) e up flushed =
      let on = loc_eng_report_status engine_on (record e { queue = e.queue ++ msgs }) in
      Keeps-IsFlushed on (step modem thres (engine_came_up msgs) e) (resume-Keeps modem on)
        λ off. absurd (is_on_off (on-status (record e { queue = e.queue ++ msgs })) off)

  run-IsFlushed-from :
      (vs : List Event) (e : Engine)
      → any is_down vs ≡ false
      → IsFlushed e
      → IsFlushed (run modem thres vs e)
  run-IsFlushed-from [] e up flushed = flushed
  run-IsFlushed-from (v ∷ vs) e up flushed =
      let first : is_down v ≡ false = ground arith in
      let rest : any is_down vs ≡ false = ground arith in
      run-IsFlushed-from vs (step modem thres v e) rest (step-IsFlushed v e first flushed)

  down-waits :
      (e : Engine)
      → ((step modem thres engine_went_down e).engine_status ≡ engine_off)
        × ((step modem thres engine_went_down e).aiding_data_for_deletion
            ≡ e.aiding_data_for_deletion)
  unfolding step loc_eng_report_status loc_inform_gps_status
  down-waits e = ground arith

  -- Whatever reaches the engine but the message that the modem went down, aiding data that is to be
  -- deleted waits only while the engine is on. The message that the modem went down turns the engine off
  -- and leaves the data waiting.
  pub run-IsFlushed :
      (vs : List Event) (e : Engine)
      → any is_down vs ≡ false
      → IsFlushed e
      → IsFlushed (run modem thres vs e)
        × ((step modem thres engine_went_down (run modem thres vs e)).engine_status ≡ engine_off)
        × ((step modem thres engine_went_down (run modem thres vs e)).aiding_data_for_deletion
            ≡ (run modem thres vs e).aiding_data_for_deletion)
  run-IsFlushed vs e up flushed =
      let waits = down-waits (run modem thres vs e) in
      (run-IsFlushed-from vs e up flushed, waits.0, waits.1)

-- When the engine goes off, the aiding data that waits is deleted by one call, the last of the report,
-- and nothing waits after it.
pub engine_off-deletes :
    (e : Engine) (type : ℕ)
    → e.aiding_data_for_deletion ≡ type
    → type ≢ 0
    → ((report_status_proc engine_off e).aiding_data_for_deletion ≡ 0)
      × ((report_status_proc engine_off e).calls
          ≡ (loc_eng_report_status engine_off e).calls ++ delete_aiding_data type ∷ [])
unfolding report_status_proc loc_eng_report_status update_aiding_data_for_deletion
    loc_inform_gps_status
engine_off-deletes e type waits some_type = ground arith
