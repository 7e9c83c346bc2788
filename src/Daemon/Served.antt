-- ===== src/Daemon/Served.antt =====
-- A connection of the daemon, from its request to its release, through the messages of
-- gps/loc_api/libloc_api_50001/loc_eng_dmn_conn_handler.cpp, loc_eng.cpp and loc_eng_agps.cpp.
use android_device_samsung_d.Common.{
  ℕ, ◌+◌, ◌%◌, ◌^◌, ◌≡◌, refl, true, false, Option, none, some, List, [], ◌∷◌, ◌++◌, take, any, ℤ,
  pos,
}
use android_device_samsung_d.Agps.Request.{Env}
use android_device_samsung_d.Agps.Subscribers.{c_string}
use android_device_samsung_d.Agps.Types.{
  ServicerType, gps_request_agps_data_conn, gps_release_agps_data_conn, CString, bit_subscriber,
  Node, AgpsState, released, acquired, pending, Action, server_data_conn, Machine,
}
use android_device_samsung_d.Daemon.Server.{
  IfRequest, Handled, returned, gpsone_loc_api_if_request, gpsone_loc_api_if_release,
  loc_api_server_proc,
}
use android_device_samsung_d.Daemon.Steps.{bit_request_step, bit_grant_step, bit_release_step}
use android_device_samsung_d.Routing.Messages.{
  NifMsg, req_rel_bit, atl_open_success, req_rel_bit_proc, atl_open_success_proc, nif_proc,
  nif_procs,
}
use android_device_samsung_d.Routing.Nifs.{internet_nif, Nifs, done, on_nif}
use android_device_samsung_d.Routing.Steps.{shared_machine, asked, open_step}

abbrev pub with_internet : Machine → Nifs → Nifs
with_internet m d = record d { internet = some m }

abbrev pub sent_before : Handled → List NifMsg → List NifMsg
sent_before (returned result (some m)) ms = m ∷ ms
sent_before _ ms = ms

-- What the daemon's thread does with a message with this type of control.
abbrev pub served : ℕ → IfRequest → Handled
served ctrl_type r =
    loc_api_server_proc true true (some (record { ctrl_type = ctrl_type; if_request = r }))

abbrev pub daemon_node : ℕ → IfRequest → Node
daemon_node addr r = record {
  addr = addr;
  sub = bit_subscriber (r.ipv4_addr % 2 ^ 32) (take 16 r.ipv6_addr);
}

module _ (d : Nifs) (servicer : ServicerType) (type : ℤ) (retries : ℕ) where
  abbrev pub in_state : AgpsState → List Node → Option CString → ℤ → ℕ → List Action → Nifs
  in_state state ns apn bearer addr cs =
      with_internet (shared_machine servicer type retries state ns apn bearer addr cs) d

  module _ (env : Env) (next : ℕ) (old_apn : Option CString) (old_bearer : ℤ)
      (calls : List Action) where
    request_run :
        (r : IfRequest)
        → nif_proc env
            (req_rel_bit (pos 0) (r.ipv4_addr % 2 ^ 32) (take 16 r.ipv6_addr) true)
            (in_state released [] old_apn old_bearer next calls)
          ≡ done tt (
              in_state pending (daemon_node next r ∷ []) old_apn old_bearer (next + 1) (
                calls
                ++ asked servicer type gps_request_agps_data_conn (some (daemon_node next r)) ∷ []))
    unfolding nif_proc req_rel_bit_proc on_nif
    request_run r =
        rw
          (bit_request_step env servicer type retries next (r.ipv4_addr % 2 ^ 32)
            (take 16 r.ipv6_addr) old_apn old_bearer calls)
          refl

    grant_run :
        (r : IfRequest) (bytes : CString) (bearer : ℤ) (cs : List Action)
        → nif_proc env
            (atl_open_success internet_nif bytes bearer)
            (in_state pending (daemon_node next r ∷ []) old_apn old_bearer (next + 1) cs)
          ≡ done tt (
              in_state acquired
                (daemon_node next r ∷ [])
                (some (c_string bytes))
                bearer
                (next + 1)
                (cs ++ server_data_conn 3 0xf0 ∷ []))
    unfolding nif_proc atl_open_success_proc
    grant_run r bytes bearer cs =
        rw
          (open_step bytes bearer (
            shared_machine servicer type retries pending (daemon_node next r ∷ []) old_apn
              old_bearer (next + 1) cs))
          (rw
            (bit_grant_step env servicer type retries next (r.ipv4_addr % 2 ^ 32)
              (take 16 r.ipv6_addr) (some (c_string bytes)) bearer cs)
            refl)

    release_run :
        (r : IfRequest) (apn : Option CString) (bearer : ℤ) (cs : List Action)
        → nif_proc env
            (req_rel_bit (pos 0) (r.ipv4_addr % 2 ^ 32) (take 16 r.ipv6_addr) false)
            (in_state acquired (daemon_node next r ∷ []) apn bearer (next + 1) cs)
          ≡ done tt (
              in_state released [] apn bearer (next + 1) (
                (cs ++ server_data_conn 3 0xf1 ∷ [])
                ++ asked servicer type gps_release_agps_data_conn none ∷ []))
    unfolding nif_proc req_rel_bit_proc on_nif
    release_run r apn bearer cs =
        rw
          (bit_release_step env servicer type retries next (r.ipv4_addr % 2 ^ 32)
            (take 16 r.ipv6_addr) apn bearer cs)
          refl

    -- With the internet machine released, whatever the other machines do: a request of the daemon for any
    -- interface, the report that the connection is open and the daemon's release ask the service for the
    -- connection, answer the daemon that the request succeeded and then that the release did, ask the
    -- service to release the connection, and leave the machine released with no subscriber.
    pub daemon_round :
        (r : IfRequest) (bytes : CString) (bearer : ℤ)
        → r.type ≡ 2
        → r.sender_id ≡ 3
        → nif_procs env
            (sent_before (served gpsone_loc_api_if_request r) (
              atl_open_success internet_nif bytes bearer
              ∷ sent_before (served gpsone_loc_api_if_release r) []))
            (in_state released [] old_apn old_bearer next calls)
          ≡ done tt (
              in_state released [] (some (c_string bytes)) bearer (next + 1) (
                (((calls
                      ++ asked servicer type gps_request_agps_data_conn (some (daemon_node next r))
                        ∷ [])
                    ++ server_data_conn 3 0xf0 ∷ [])
                  ++ server_data_conn 3 0xf1 ∷ [])
                ++ asked servicer type gps_release_agps_data_conn none ∷ []))
    unfolding loc_api_server_proc
    daemon_round r bytes bearer any daemon =
        let calls1 =
          calls
          ++ asked servicer type gps_request_agps_data_conn (some (daemon_node next r)) ∷ [] in
        let calls2 = calls1 ++ server_data_conn 3 0xf0 ∷ [] in
        rw (any, daemon)
          (rw (request_run r) (
            rw (grant_run r bytes bearer calls1)
              (rw (release_run r (some (c_string bytes)) bearer calls2) refl)))
