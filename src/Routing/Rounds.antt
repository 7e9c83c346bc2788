-- ===== src/Routing/Rounds.antt =====
-- A data connection for the modem, from its request to its release, through the messages of
-- gps/loc_api/libloc_api_50001/loc_eng.cpp and the state machine of loc_eng_agps.cpp.
use android_device_samsung_d.Common.{
  ℕ, ◌+◌, ◌≡◌, refl, Bool, Option, none, some, List, [], ◌∷◌, ◌++◌, ℤ,
}
use android_device_samsung_d.Agps.Replies.{reply}
use android_device_samsung_d.Agps.Request.{Env}
use android_device_samsung_d.Agps.Subscribers.{c_string}
use android_device_samsung_d.Agps.Types.{
  rsrc_granted, ServicerType, gps_request_agps_data_conn, gps_release_agps_data_conn, CString,
  atl_subscriber, Node, AgpsState, released, acquired, pending, Action, atl_close_status, Machine,
}
use android_device_samsung_d.Routing.Messages.{
  release_atl_msg, request_atl_msg, atl_open_success, is_invalid_type, request_atl_proc,
  release_atl_proc, atl_open_success_proc, nif_proc, nif_procs,
}
use android_device_samsung_d.Routing.Nifs.{agnss_nif, Nifs, done, get_agps_state_machine}
use android_device_samsung_d.Routing.Steps.{
  shared_machine, asked, request_step, grant_step, release_step, open_step,
}

-- The machines with another one for SUPL.
abbrev pub with_agnss : Machine → Nifs → Nifs
with_agnss m d = record d { agnss = some m }

module _ (env : Env) (d : Nifs) (servicer : ServicerType) (type : ℤ) (retries next id : ℕ)
    (compatible : Bool) where
  abbrev machine : AgpsState → List Node → Option CString → ℤ → ℕ → List Action → Machine
  machine = shared_machine servicer type retries

  abbrev node_of : Node
  node_of = record { addr = next; sub = atl_subscriber id compatible }

  grant_run :
      (old_apn : Option CString) (old_bearer : ℤ) (bytes : CString) (bearer : ℤ)
      (calls : List Action)
      → atl_open_success_proc env agnss_nif bytes bearer
          (with_agnss (machine pending (node_of ∷ []) old_apn old_bearer (next + 1) calls) d)
        ≡ done tt (
            with_agnss
              (machine acquired
                (node_of ∷ [])
                (some (c_string bytes))
                bearer
                (next + 1)
                (calls ++ reply (some (c_string bytes)) bearer type rsrc_granted node_of.sub))
              d)
  unfolding atl_open_success_proc
  grant_run old_apn old_bearer bytes bearer calls =
      rw
        (open_step bytes bearer
          (machine pending (node_of ∷ []) old_apn old_bearer (next + 1) calls))
        (rw
          (grant_step env servicer type retries next id compatible (some (c_string bytes)) bearer
            calls)
          refl)

  release_run :
      (apn : Option CString) (bearer : ℤ) (calls : List Action)
      → release_atl_proc env id
          (with_agnss (machine acquired (node_of ∷ []) apn bearer (next + 1) calls) d)
        ≡ done tt (
            with_agnss
              (machine released [] apn bearer (next + 1) (
                (calls ++ atl_close_status id 1 ∷ [])
                ++ asked servicer type gps_release_agps_data_conn none ∷ []))
              d)
  unfolding release_atl_proc
  release_run apn bearer calls =
      rw (release_step env servicer type retries next id compatible apn bearer calls) refl

module _ (env : Env) (d : Nifs) (servicer : ServicerType) (type asked_type : ℤ)
    (retries next id : ℕ) (old_apn : Option CString) (old_bearer : ℤ) (calls : List Action) where
  abbrev who : Node
  who = record { addr = next; sub = atl_subscriber id (is_invalid_type asked_type) }

  request_run :
      get_agps_state_machine asked_type ≡ agnss_nif
      → request_atl_proc env id asked_type (
          with_agnss
            (shared_machine servicer type retries released [] old_apn old_bearer next calls)
            d)
        ≡ done tt (
            with_agnss
              (shared_machine servicer type retries pending
                (who ∷ [])
                old_apn
                old_bearer
                (next + 1)
                (calls ++ asked servicer type gps_request_agps_data_conn (some who) ∷ []))
              d)
  unfolding request_atl_proc
  request_run routed = rw routed (
      rw
        (request_step env servicer type retries next id (is_invalid_type asked_type) old_apn
          old_bearer calls)
        refl)

  -- With the machine for SUPL released, whatever the other machines do: a request of the modem for a
  -- connection, the report that it is open and the release of the modem ask the service for the
  -- connection, tell the modem that it is open, with the APN and the bearer of the report, tell the modem
  -- that it is closed, ask the service to release it, and leave the machine released with no subscriber.
  pub atl_round :
      (bytes : CString) (bearer : ℤ)
      → get_agps_state_machine asked_type ≡ agnss_nif
      → nif_procs env
          (request_atl_msg id asked_type
            ∷ atl_open_success agnss_nif bytes bearer
            ∷ release_atl_msg id
            ∷ [])
          (with_agnss
            (shared_machine servicer type retries released [] old_apn old_bearer next calls)
            d)
        ≡ done tt (
            with_agnss
              (shared_machine servicer type retries released []
                (some (c_string bytes))
                bearer
                (next + 1)
                ((((calls ++ asked servicer type gps_request_agps_data_conn (some who) ∷ [])
                      ++ reply (some (c_string bytes)) bearer type rsrc_granted who.sub)
                    ++ atl_close_status id 1 ∷ [])
                  ++ asked servicer type gps_release_agps_data_conn none ∷ []))
              d)
  unfolding nif_proc
  atl_round bytes bearer routed =
      let compatible = is_invalid_type asked_type in
      let calls1 = calls ++ asked servicer type gps_request_agps_data_conn (some who) ∷ [] in
      let calls2 = calls1 ++ reply (some (c_string bytes)) bearer type rsrc_granted who.sub in
      rw (request_run routed) (
        rw
          (grant_run env d servicer type retries next id compatible old_apn old_bearer bytes bearer
            calls1)
          (rw
            (release_run env d servicer type retries next id compatible (some (c_string bytes))
              bearer calls2)
            refl))
