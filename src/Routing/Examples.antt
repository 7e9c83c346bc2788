-- ===== src/Routing/Examples.antt =====
-- A connection of the modem on new machines.
use android_device_samsung_d.Common.{◌≡◌, refl, false, none, some, [], ◌∷◌, pos, negsuc}
use android_device_samsung_d.Agps.Replies.{reply}
use android_device_samsung_d.Agps.Request.{quiet_env}
use android_device_samsung_d.Agps.Subscribers.{c_string}
use android_device_samsung_d.Agps.Types.{
  servicer_type_agps, gps_request_agps_data_conn, gps_release_agps_data_conn, atl_subscriber,
  released, atl_open_status, atl_close_status,
}
use android_device_samsung_d.Routing.Messages.{
  release_atl_msg, request_atl_msg, atl_open_success, nif_procs,
}
use android_device_samsung_d.Routing.Nifs.{agnss_nif, done, get_agps_state_machine, new_nifs}
use android_device_samsung_d.Routing.Rounds.{with_agnss, atl_round}
use android_device_samsung_d.Routing.Steps.{shared_machine, asked}

atl_round_example :
    nif_procs quiet_env
      (request_atl_msg 5 (pos 1)
        ∷ atl_open_success agnss_nif (b'n' ∷ b'e' ∷ b't' ∷ []) (pos 0)
        ∷ release_atl_msg 5
        ∷ [])
      (with_agnss
        (shared_machine servicer_type_agps (pos 1) 0 released [] none (negsuc 0) 0 [])
        (new_nifs false))
    ≡ done tt (
        with_agnss
          (shared_machine servicer_type_agps
            (pos 1)
            0
            released
            []
            (some (c_string (b'n' ∷ b'e' ∷ b't' ∷ [])))
            (pos 0)
            1
            (asked servicer_type_agps
                (pos 1)
                gps_request_agps_data_conn
                (some (record { addr = 0; sub = atl_subscriber 5 false }))
              ∷ atl_open_status 5 1 (some (c_string (b'n' ∷ b'e' ∷ b't' ∷ []))) (pos 0) (pos 1)
              ∷ atl_close_status 5 1
              ∷ asked servicer_type_agps (pos 1) gps_release_agps_data_conn none
              ∷ []))
          (new_nifs false))
unfolding get_agps_state_machine reply
atl_round_example =
    atl_round quiet_env (new_nifs false) servicer_type_agps (pos 1) (pos 1) 0 0 5 none (negsuc 0) []
      (b'n' ∷ b'e' ∷ b't' ∷ []) (pos 0) refl
