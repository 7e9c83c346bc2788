-- ===== src/Engine/Types.antt =====
-- The data of the location engine (gps/loc_api/libloc_api_50001/loc_eng.h, LocEngAdapter.h,
-- gps/core/gps_extended.h): the engine, its messages, and the calls that leave it.
use android_device_samsung_d.Common.{ℕ, Bool, Option, List, [], ◌∷◌, ◌++◌}

pub data GpsStatus : Type 0 where
  status_none session_begin session_end engine_on engine_off : GpsStatus

pub data SessStatus : Type 0 where
  sess_success sess_intermediate sess_failure : SessStatus

pub data MuteSession : Type 0 where
  mute_sess_none mute_sess_wait mute_sess_in_session : MuteSession

-- `LocPosMode`. `mode` is the 32-bit pattern of the enumeration; a text is its bytes.
pub record PosMode : Type 0 where
  pub mode : ℕ
  pub recurrence : ℕ
  pub min_interval : ℕ
  pub preferred_accuracy : ℕ
  pub preferred_time : ℕ
  pub credentials : List ℕ
  pub provider : List ℕ

-- The part of `UlpLocation` that the engine reads: a float is its 32-bit pattern, and `raw_data` is
-- the address of the buffer, or 0.
pub record Location : Type 0 where
  pub flags : ℕ
  pub accuracy : ℕ
  pub position_source : ℕ
  pub raw_data : ℕ

-- `LocServerType`.
pub data ServerType : Type 0 where
  cdma_pde_server custom_pde_server mpc_server supl_server : ServerType

-- What the members of `LocMsg` hold that only hand their values to the adapter.
pub data ConfigMsg : Type 0 where
  set_time : ℕ → ℕ → ℕ → ConfigMsg
  inject_location : ℕ → ℕ → ℕ → ConfigMsg
  set_server_ipv4 : ℕ → ℕ → ServerType → ConfigMsg
  set_server_url : List ℕ → ConfigMsg
  a_glonass_protocol : ℕ → ConfigMsg
  privacy_lock : ℕ → ConfigMsg
  supl_ver : ℕ → ConfigMsg
  lpp_config : ℕ → ConfigMsg
  sensor_control_config : ℕ → ℕ → ConfigMsg
  -- the five pairs of a validity and a value
  sensor_properties : List (Bool × ℕ) → ConfigMsg
  -- the control mode, the eight counts and the algorithm mask
  sensor_perf_control_config : List ℕ → ConfigMsg
  ext_power_config : ℕ → ConfigMsg

-- The messages that the engine sends itself.
pub data LocMsg : Type 0 where
  start_fix_msg stop_fix_msg init_msg : LocMsg
  position_mode_msg : PosMode → LocMsg
  config_msg : ConfigMsg → LocMsg
  del_aid_data_msg : ℕ → LocMsg
  -- the APN, if there is one, and whether data is enabled
  enable_data_msg : Option (List ℕ) → ℕ → LocMsg

-- The methods of the adapter that only pass their arguments on to the modem.
pub data AdapterCall : Type 0 where
  adapter_set_time : ℕ → ℕ → ℕ → AdapterCall
  adapter_inject_position : ℕ → ℕ → ℕ → AdapterCall
  -- the address, the port and the type
  adapter_set_server_ipv4 : ℕ → ℕ → ServerType → AdapterCall
  -- the URL and its length
  adapter_set_server_url : List ℕ → ℕ → AdapterCall
  adapter_set_aglonass_protocol : ℕ → AdapterCall
  adapter_set_gps_lock : ℕ → AdapterCall
  adapter_set_supl_version : ℕ → AdapterCall
  adapter_set_lpp_config : ℕ → AdapterCall
  -- whether the sensors are disabled, and their provider
  adapter_set_sensor_control_config : ℕ → ℕ → AdapterCall
  adapter_set_sensor_properties : List (Bool × ℕ) → AdapterCall
  adapter_set_sensor_perf_control_config : List ℕ → AdapterCall
  adapter_set_ext_power_config : ℕ → AdapterCall

-- The calls of the callbacks, the adapter and the NMEA generator.
pub data EngineCall : Type 0 where
  location_cb : Option Location → EngineCall
  sv_status_cb : ℕ → EngineCall
  status_cb : GpsStatus → EngineCall
  generate_pos : Location → Bool → EngineCall
  generate_sv : ℕ → EngineCall
  delete_raw_data : ℕ → EngineCall
  start_fix : PosMode → EngineCall
  stop_fix : EngineCall
  set_in_session : Bool → EngineCall
  set_position_mode : PosMode → EngineCall
  delete_aiding_data : ℕ → EngineCall
  enable_data : ℕ → EngineCall
  set_data_apn : List ℕ → EngineCall
  nmea_cb : List ℕ → EngineCall
  adapter_call : AdapterCall → EngineCall

-- `LocEngAdapter`: `mFixCriteria`, `mNavigating` and the two capabilities.
pub record Adapter : Type 0 where
  pub fix_criteria : PosMode
  pub navigating : Bool
  pub supports_agps_requests : Bool
  pub supports_position_injection : Bool

-- The members of `loc_eng_data` that the session code uses: whether a callback is set, and the state.
-- `calls` and `queue` are the calls and the messages so far.
pub record Engine : Type 0 where
  pub adapter : Adapter
  pub has_location_cb : Bool
  pub has_sv_status_cb : Bool
  pub has_status_cb : Bool
  pub has_nmea_cb : Bool
  pub intermediate_fix : ℕ
  pub generate_nmea : Bool
  pub engine_status : GpsStatus
  pub fix_session_status : GpsStatus
  pub aiding_data_for_deletion : ℕ
  pub mute_session_state : MuteSession
  pub calls : List EngineCall
  pub queue : List LocMsg

-- The members of `gps_conf` and `sap_conf`, and `agpsStatus`, that a start of the engine sends.
pub record Conf : Type 0 where
  pub supl_version : ℕ
  pub lpp_profile : ℕ
  pub sensor_usage : ℕ
  pub sensor_provider : ℕ
  pub a_glonass_pos_protocol_select : ℕ
  -- the validity and the value of the five random walks
  pub random_walks : List (Bool × ℕ)
  -- the control mode, the eight counts and the algorithm mask
  pub perf_control : List ℕ
  pub agps_status : ℕ

-- The code that is not in the repository: the results of `startFix` and `stopFix` of the modem after
-- the calls so far, and the comparison of a float with an integer.
pub record Modem : Type 0 where
  pub start_fix_result : List EngineCall → ℕ
  pub stop_fix_result : List EngineCall → ℕ
  pub exceeds : ℕ → ℕ → Bool

abbrev pub did : EngineCall → Engine → Engine
did c e = record e { calls = e.calls ++ c ∷ [] }

abbrev pub send : LocMsg → Engine → Engine
send m e = record e { queue = e.queue ++ m ∷ [] }
