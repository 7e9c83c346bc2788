-- ===== src/Engine/Messages.antt =====
-- The messages of the engine: what sends them, and what each does when it is processed
-- (gps/loc_api/libloc_api_50001/loc_eng.cpp).
use android_device_samsung_d.Common.{
  ℕ, Bool, true, false, not, ◌&&◌, Option, none, some, List, [], ◌∷◌, ◌++◌, ◌==◌, if◌then◌else◌,
  length, take, any, ℤ, pos, negsuc,
}
use android_device_samsung_d.Engine.Session.{
  set_mode, del_aid_data_proc, loc_eng_start_handler, loc_eng_stop_handler,
}
use android_device_samsung_d.Engine.Types.{
  PosMode, ConfigMsg, set_time, inject_location, set_server_ipv4, set_server_url,
  a_glonass_protocol, privacy_lock, supl_ver, lpp_config, sensor_control_config, sensor_properties,
  sensor_perf_control_config, ext_power_config, LocMsg, start_fix_msg, stop_fix_msg, init_msg,
  position_mode_msg, config_msg, del_aid_data_msg, enable_data_msg, AdapterCall, adapter_set_time,
  adapter_inject_position, adapter_set_server_ipv4, adapter_set_server_url,
  adapter_set_aglonass_protocol, adapter_set_gps_lock, adapter_set_supl_version,
  adapter_set_lpp_config, adapter_set_sensor_control_config, adapter_set_sensor_properties,
  adapter_set_sensor_perf_control_config, adapter_set_ext_power_config, enable_data, set_data_apn,
  adapter_call, Engine, Conf, Modem, did, send,
}

-- `loc_eng_reinit`: the messages that it sends, in order.
unfoldable pub reinit_msgs : Conf → List LocMsg
reinit_msgs c =
    config_msg (supl_ver c.supl_version)
    ∷ config_msg (lpp_config c.lpp_profile)
    ∷ config_msg (sensor_control_config c.sensor_usage c.sensor_provider)
    ∷ config_msg (a_glonass_protocol c.a_glonass_pos_protocol_select)
    ∷ ((if any (λ w. w.0) c.random_walks
          then config_msg (sensor_properties c.random_walks) ∷ []
          else [])
        ++ config_msg (sensor_perf_control_config c.perf_control)
          ∷ enable_data_msg none (if c.agps_status == 0 then 0 else 1)
          ∷ [])

unfoldable pub loc_eng_reinit : Conf → Engine → Engine
unfolding reinit_msgs
loc_eng_reinit c e = record e { queue = e.queue ++ reinit_msgs c }

-- `LocEngEnableData::proc`.
unfoldable pub enable_data_proc : Option (List ℕ) → ℕ → Engine → Engine
enable_data_proc none enable e = did (enable_data enable) e
enable_data_proc (some apn) enable e = did (set_data_apn apn) (did (enable_data enable) e)

-- `proc` of the messages that hand their values to the adapter, each with its own method.
unfoldable pub config_proc : ConfigMsg → AdapterCall
config_proc (set_time time reference uncertainty) = adapter_set_time time reference uncertainty
config_proc (inject_location latitude longitude accuracy) =
    adapter_inject_position latitude longitude accuracy
config_proc (set_server_ipv4 address port type) = adapter_set_server_ipv4 address port type
config_proc (set_server_url url) = adapter_set_server_url url (length url)
config_proc (a_glonass_protocol protocol) = adapter_set_aglonass_protocol protocol
config_proc (privacy_lock setting) = adapter_set_gps_lock setting
config_proc (supl_ver version) = adapter_set_supl_version version
config_proc (lpp_config profile) = adapter_set_lpp_config profile
config_proc (sensor_control_config disabled provider) =
    adapter_set_sensor_control_config disabled provider
config_proc (sensor_properties walks) = adapter_set_sensor_properties walks
config_proc (sensor_perf_control_config values) = adapter_set_sensor_perf_control_config values
config_proc (ext_power_config charging) = adapter_set_ext_power_config charging

-- `proc` of a message.
unfoldable pub proc : Modem → Conf → LocMsg → Engine → Engine
unfolding enable_data_proc config_proc
proc modem c start_fix_msg e = (loc_eng_start_handler modem e).1
proc modem c stop_fix_msg e = (loc_eng_stop_handler modem e).1
proc modem c init_msg e = loc_eng_reinit c e
proc modem c (position_mode_msg p) e = set_mode (some p) e
proc modem c (config_msg m) e = did (adapter_call (config_proc m)) e
proc modem c (del_aid_data_msg type) e = del_aid_data_proc type e
proc modem c (enable_data_msg apn enable) e = enable_data_proc apn enable e

abbrev pub proc_all : Modem → Conf → List LocMsg → Engine → Engine
proc_all modem c [] e = e
proc_all modem c (m ∷ ms) e = proc_all modem c ms (proc modem c m e)

-- The functions of the HAL, on an engine that may not be initialised: `none` is a NULL adapter.
abbrev pub checked : (Engine → Engine) → Option Engine → ℤ × Option Engine
checked f none = (negsuc 0, none)
checked f (some e) = (pos 0, some (f e))

-- `loc_eng_start` and `loc_eng_stop`: whether the ULP proxy takes the request.
unfoldable pub loc_eng_start : Bool → Option Engine → ℤ × Option Engine
loc_eng_start taken = checked λ e. if taken then e else send start_fix_msg e

unfoldable pub loc_eng_stop : Bool → Option Engine → ℤ × Option Engine
loc_eng_stop taken = checked λ e. if taken then e else send stop_fix_msg e

-- The targets on which the position mode can be standalone only.
pub data GnssType : Type 0 where
  gnss_none gnss_msm gnss_gss gnss_mdm gnss_qca1530 gnss_unknown : GnssType

unfoldable pub is_standalone_only : GnssType → Bool
is_standalone_only gnss_gss = true
is_standalone_only gnss_qca1530 = true
is_standalone_only _ = false

abbrev pub loc_position_mode_standalone : ℕ
loc_position_mode_standalone = 0

-- The mode that `loc_eng_set_position_mode` asks for; the caller's copy is changed too.
unfoldable pub allowed_mode : GnssType → PosMode → PosMode
unfolding is_standalone_only
allowed_mode gnss p =
    if is_standalone_only gnss && not (p.mode == loc_position_mode_standalone)
    then record p { mode = loc_position_mode_standalone }
    else p

unfoldable pub loc_eng_set_position_mode :
    Bool → GnssType → PosMode → Option Engine → ℤ × Option Engine
loc_eng_set_position_mode taken gnss p =
    checked λ e. if taken then e else send (position_mode_msg (allowed_mode gnss p)) e

unfoldable pub loc_eng_inject_time : ℕ → ℕ → ℕ → Option Engine → ℤ × Option Engine
loc_eng_inject_time time reference uncertainty =
    checked (send (config_msg (set_time time reference uncertainty)))

unfoldable pub loc_eng_inject_location : ℕ → ℕ → ℕ → Option Engine → ℤ × Option Engine
loc_eng_inject_location latitude longitude accuracy = checked λ e.
    if e.adapter.supports_position_injection
    then send (config_msg (inject_location latitude longitude accuracy)) e
    else e

-- `loc_eng_delete_aiding_data` returns nothing.
unfoldable pub loc_eng_delete_aiding_data : ℕ → Option Engine → Option Engine
loc_eng_delete_aiding_data type e = (checked (send (del_aid_data_msg type)) e).1

unfoldable pub loc_eng_set_privacy : ℕ → Option Engine → ℤ × Option Engine
loc_eng_set_privacy setting = checked (send (config_msg (privacy_lock setting)))

abbrev pub max_apn_len : ℕ
max_apn_len = 100

-- `loc_eng_agps_ril_update_network_availability`: the new `agpsStatus`, which is kept without an
-- engine too, and the message if there is an APN.
unfoldable pub loc_eng_agps_ril_update_network_availability :
    ℕ → Option (List ℕ) → Conf → Option Engine → Conf × Option Engine
loc_eng_agps_ril_update_network_availability available none c e =
    (record c { agps_status = available }, e)
loc_eng_agps_ril_update_network_availability available (some apn) c e = (
  record c { agps_status = available },
  (checked (send (enable_data_msg (some (take max_apn_len apn)) available)) e).1,
)

-- `loc_eng_cleanup`: a session is asked to stop, and the engine is locked.
unfoldable pub loc_eng_cleanup : Bool → Option Engine → Option Engine
unfolding loc_eng_stop loc_eng_set_privacy
loc_eng_cleanup taken none = none
loc_eng_cleanup taken (some e) =
    let stopped = if e.adapter.navigating then (loc_eng_stop taken (some e)).1 else some e in
    (loc_eng_set_privacy 4 stopped).1
