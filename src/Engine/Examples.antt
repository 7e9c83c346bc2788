-- ===== src/Engine/Examples.antt =====
-- Runs of gps/loc_api/libloc_api_50001/loc_eng.cpp.
use android_device_samsung_d.Common.{◌≡◌, refl, true, false, some, List, [], ◌∷◌, ◌++◌, ltb, filter}
use android_device_samsung_d.Engine.Aiding.{IsFlushed, run-IsFlushed}
use android_device_samsung_d.Engine.Configuring.{set_mode-start}
use android_device_samsung_d.Engine.Messages.{
  reinit_msgs, enable_data_proc, config_proc, proc, proc_all, gnss_gss, is_standalone_only,
  allowed_mode,
}
use android_device_samsung_d.Engine.Muting.{is_told, run-IsQuiet}
use android_device_samsung_d.Engine.Reports.{
  end_single_shot, position_nmea, free_raw_data, report_nmea_proc, Event, started, status_reported,
  position_reported, sv_reported, aiding_deleted, nmea_reported, engine_went_down, tell,
  told_position, report_position_proc, step, run,
}
use android_device_samsung_d.Engine.Session.{
  set_session, loc_inform_gps_status, is_muted, loc_eng_report_status,
  update_aiding_data_for_deletion, report_status_proc, is_started, loc_eng_start_handler,
  resume_session,
}
use android_device_samsung_d.Engine.Shots.{
  ended_adapter, report_position-adapter, invalid_mode, resuming, resume_session-mode_lost,
}
use android_device_samsung_d.Engine.Types.{
  status_none, session_begin, engine_on, engine_off, sess_success, mute_sess_none,
  mute_sess_in_session, PosMode, Location, start_fix_msg, position_mode_msg,
  adapter_set_aglonass_protocol, adapter_set_supl_version, adapter_set_lpp_config,
  adapter_set_sensor_control_config, adapter_set_sensor_properties,
  adapter_set_sensor_perf_control_config, location_cb, status_cb, generate_pos, delete_raw_data,
  start_fix, set_in_session, set_position_mode, enable_data, nmea_cb, adapter_call, Engine, Conf,
  Modem,
}

abbrev calm_modem : Modem
calm_modem = record {
  start_fix_result = λ _. 0;
  stop_fix_result = λ _. 0;
  exceeds = λ a b. ltb b a;
}

abbrev once_mode : PosMode
once_mode = record {
  mode = 1;
  recurrence = 1;
  min_interval = 1000;
  preferred_accuracy = 50;
  preferred_time = 0;
  credentials = [];
  provider = [];
}

abbrev idle : Engine
idle = record {
  adapter = record {
    fix_criteria = once_mode;
    navigating = false;
    supports_agps_requests = false;
    supports_position_injection = false;
  };
  has_location_cb = true;
  has_sv_status_cb = true;
  has_status_cb = true;
  has_nmea_cb = true;
  intermediate_fix = 0;
  generate_nmea = true;
  engine_status = status_none;
  fix_session_status = status_none;
  aiding_data_for_deletion = 0;
  mute_session_state = mute_sess_none;
  calls = [];
  queue = [];
}

abbrev fix : Location
fix = record { flags = 0x11; accuracy = 5; position_source = 2; raw_data = 9000 }

abbrev busy : Engine
busy = run calm_modem 0 (started ∷ status_reported engine_on ∷ []) idle

busy_calls :
    busy.calls
    ≡ start_fix once_mode ∷ set_in_session true ∷ status_cb session_begin ∷ status_cb engine_on ∷ []
unfolding step loc_eng_start_handler set_session loc_inform_gps_status report_status_proc
    loc_eng_report_status update_aiding_data_for_deletion
busy_calls = refl

-- A fix ends the single shot.
busy_ends :
    (report_position_proc calm_modem 0 fix sess_success 1 busy).calls
    ≡ busy.calls
      ++ location_cb (some fix)
        ∷ set_in_session false
        ∷ generate_pos fix true
        ∷ delete_raw_data 9000
        ∷ []
unfolding step loc_eng_start_handler set_session loc_inform_gps_status report_status_proc
    loc_eng_report_status update_aiding_data_for_deletion report_position_proc free_raw_data
    position_nmea end_single_shot tell told_position
busy_ends = refl

report_position-adapter_example :
    (report_position_proc calm_modem 0 fix sess_success 1 busy).adapter ≡ ended_adapter busy.adapter
unfolding step loc_eng_start_handler set_session loc_inform_gps_status report_status_proc
    loc_eng_report_status update_aiding_data_for_deletion told_position is_muted
report_position-adapter_example = report_position-adapter calm_modem 0 fix sess_success 1 busy

abbrev deleted_and_off : List Event
deleted_and_off = aiding_deleted 7 ∷ status_reported engine_off ∷ nmea_reported [] ∷ []

run-IsFlushed_example :
    IsFlushed (run calm_modem 0 deleted_and_off busy)
    × ((step calm_modem 0 engine_went_down (run calm_modem 0 deleted_and_off busy)).engine_status
        ≡ engine_off)
    × ((step calm_modem 0 engine_went_down
          (run calm_modem 0 deleted_and_off busy)).aiding_data_for_deletion
        ≡ (run calm_modem 0 deleted_and_off busy).aiding_data_for_deletion)
unfolding step loc_eng_start_handler set_session loc_inform_gps_status report_status_proc
    loc_eng_report_status update_aiding_data_for_deletion
run-IsFlushed_example = run-IsFlushed calm_modem 0 deleted_and_off busy refl (λ _. refl)

abbrev waiting_engine : Engine
waiting_engine = record idle { engine_status = engine_on; aiding_data_for_deletion = 7 }

abbrev muted_engine : Engine
muted_engine = record idle { mute_session_state = mute_sess_in_session }

-- Aiding data that waits when the modem goes down still waits after it.
down_waits : (step calm_modem 0 engine_went_down waiting_engine).aiding_data_for_deletion ≡ 7
unfolding step loc_eng_report_status loc_inform_gps_status
down_waits = refl

-- The modem's NMEA sentences are told in a muted session, too.
nmea_unmuted :
    (step calm_modem 0 (nmea_reported (36 ∷ [])) muted_engine).calls ≡ nmea_cb (36 ∷ []) ∷ []
unfolding step report_nmea_proc
nmea_unmuted = refl

abbrev reports : List Event
reports = position_reported fix sess_success 1 ∷ sv_reported 3 ∷ status_reported engine_on ∷ []

run-IsQuiet_example :
    ((run calm_modem 0 reports muted_engine).mute_session_state ≡ mute_sess_in_session)
    × (filter is_told (run calm_modem 0 reports muted_engine).calls ≡ [])
run-IsQuiet_example = run-IsQuiet calm_modem 0 reports muted_engine refl refl

abbrev navigating_engine : Engine
navigating_engine = record idle { adapter = record idle.adapter { navigating = true } }

resume_session-mode_lost_example :
    ((resume_session calm_modem navigating_engine).adapter.fix_criteria ≡ invalid_mode once_mode)
    × ((resume_session calm_modem navigating_engine).calls
        ≡ (resuming navigating_engine ++ set_in_session true ∷ []) ++ status_cb session_begin ∷ [])
unfolding is_started
resume_session-mode_lost_example = resume_session-mode_lost calm_modem navigating_engine refl refl

abbrev sample_conf : Conf
sample_conf = record {
  supl_version = 0x10000;
  lpp_profile = 0;
  sensor_usage = 0;
  sensor_provider = 1;
  a_glonass_pos_protocol_select = 0;
  random_walks = (false, 0) ∷ (true, 7) ∷ [];
  perf_control = 0 ∷ 2 ∷ 5 ∷ [];
  agps_status = 1;
}

-- A start of the engine hands the modem its settings, each with its own method.
reinit_calls :
    (proc_all calm_modem sample_conf (reinit_msgs sample_conf) idle).calls
    ≡ adapter_call (adapter_set_supl_version 0x10000)
      ∷ adapter_call (adapter_set_lpp_config 0)
      ∷ adapter_call (adapter_set_sensor_control_config 0 1)
      ∷ adapter_call (adapter_set_aglonass_protocol 0)
      ∷ adapter_call (adapter_set_sensor_properties ((false, 0) ∷ (true, 7) ∷ []))
      ∷ adapter_call (adapter_set_sensor_perf_control_config (0 ∷ 2 ∷ 5 ∷ []))
      ∷ enable_data 1
      ∷ []
unfolding proc reinit_msgs enable_data_proc config_proc
reinit_calls = refl

set_mode-start_example :
    (proc_all calm_modem sample_conf
      (position_mode_msg (allowed_mode gnss_gss once_mode) ∷ start_fix_msg ∷ [])
      idle).calls
    ≡ set_position_mode (record once_mode { mode = 0 })
      ∷ start_fix (record once_mode { mode = 0 })
      ∷ set_in_session true
      ∷ status_cb session_begin
      ∷ []
unfolding is_standalone_only is_started
set_mode-start_example = set_mode-start calm_modem sample_conf gnss_gss once_mode idle refl
