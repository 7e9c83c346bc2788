-- ===== src/Daemon/Examples.antt =====
-- A connection of the daemon on new machines, and what is refused.
use android_device_samsung_d.Common.{◌≡◌, refl, true, false, none, some, [], ◌∷◌, pos, negsuc}
use android_device_samsung_d.Agps.Request.{quiet_env}
use android_device_samsung_d.Agps.Subscribers.{c_string}
use android_device_samsung_d.Agps.Types.{
  servicer_type_agps, gps_request_agps_data_conn, gps_release_agps_data_conn, released,
  server_data_conn,
}
use android_device_samsung_d.Daemon.Served.{
  sent_before, served, daemon_node, in_state, daemon_round,
}
use android_device_samsung_d.Daemon.Server.{
  IfRequest, returned, null_handle, if_request_handler, if_release_handler,
  gpsone_loc_api_if_request, gpsone_loc_api_if_release, loc_api_resp_queue,
  loc_api_server_data_conn,
}
use android_device_samsung_d.Routing.Messages.{atl_open_success, nif_procs}
use android_device_samsung_d.Routing.Nifs.{internet_nif, done, new_nifs}
use android_device_samsung_d.Routing.Steps.{asked}

abbrev any_interface : IfRequest
any_interface = record {
  type = 2;
  sender_id = 3;
  ipv4_addr = 0x0100007f;
  ipv6_addr = [];
  ssid = [];
  password = [];
}

daemon_round_example :
    nif_procs quiet_env
      (sent_before (served gpsone_loc_api_if_request any_interface) (
        atl_open_success internet_nif (b'n' ∷ []) (pos 0)
        ∷ sent_before (served gpsone_loc_api_if_release any_interface) []))
      (in_state (new_nifs false) servicer_type_agps (pos 3) 0 released [] none (negsuc 0) 0 [])
    ≡ done tt (
        in_state
          (new_nifs false)
          servicer_type_agps
          (pos 3)
          0
          released
          []
          (some (c_string (b'n' ∷ [])))
          (pos 0)
          1
          (asked servicer_type_agps
              (pos 3)
              gps_request_agps_data_conn
              (some (daemon_node 0 any_interface))
            ∷ server_data_conn 3 0xf0
            ∷ server_data_conn 3 0xf1
            ∷ asked servicer_type_agps (pos 3) gps_release_agps_data_conn none
            ∷ []))
daemon_round_example =
    daemon_round (new_nifs false) servicer_type_agps (pos 3) 0 quiet_env 0 none (negsuc 0) []
      any_interface (b'n' ∷ []) (pos 0) refl refl

-- The answers of the state machine go to the daemon's queue.
answer_queue :
    loc_api_server_data_conn (λ q. true) 3 0xf0 ≡ (pos 0, some (loc_api_resp_queue, 0xf0))
unfolding loc_api_server_data_conn
answer_queue = refl

-- The modem is no sender that is served.
modem_refused :
    if_release_handler true (record any_interface { sender_id = 4 }) ≡ returned (negsuc 0) none
unfolding if_release_handler
modem_refused = refl

-- A release without a handle, where a request is refused.
release_unchecked :
    (if_request_handler false any_interface ≡ returned (pos 1) none)
    × (if_release_handler false any_interface ≡ null_handle)
unfolding if_request_handler if_release_handler
release_unchecked = (refl, refl)
