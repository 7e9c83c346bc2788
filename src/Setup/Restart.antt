-- ===== src/Setup/Restart.antt =====
-- `loc_eng_handle_engine_down` and `loc_eng_handle_engine_up`
-- (gps/loc_api/libloc_api_50001/loc_eng.cpp): the engine, the state machines and the NI sessions when
-- the modem restarts.
use android_device_samsung_d.Common.{
  ℕ, ◌+◌, ◌≡◌, refl, Bool, true, false, Option, none, some, List, [], ◌∷◌, ◌++◌, if◌then◌else◌,
  ==_refl, ℤ,
}
use android_device_samsung_d.Agps.Construction.{drop_all_subscribers}
use android_device_samsung_d.Agps.Notify.{notify_rsrc_status}
use android_device_samsung_d.Agps.Replies.{reply, told}
use android_device_samsung_d.Agps.Request.{Env}
use android_device_samsung_d.Agps.StateMachine.{
  transition, subscribe_rsrc, unsubscribe_found, unsubscribe_rsrc,
}
use android_device_samsung_d.Agps.SubscriberList.{
  find, search_list, find_subscriber, add_subscriber,
}
use android_device_samsung_d.Agps.Subscribers.{deref}
use android_device_samsung_d.Agps.Types.{
  rsrc_granted, ServicerType, CString, atl_subscriber, Node, acquired, Action, atl_close_status,
  Machine, ok,
}
use android_device_samsung_d.Engine.Messages.{loc_eng_reinit}
use android_device_samsung_d.Engine.Session.{loc_eng_report_status, resume_session}
use android_device_samsung_d.Engine.Types.{engine_on, engine_off, Engine, Conf, Modem}
use android_device_samsung_d.Ni.Handlers.{loc_eng_ni_reset_on_engine_restart}
use android_device_samsung_d.Ni.Types.{Ni}
use android_device_samsung_d.Routing.Messages.{
  release_atl_msg, request_atl_msg, is_invalid_type, then_nifs, request_atl_proc, release_atl_proc,
  nif_proc,
}
use android_device_samsung_d.Routing.Nifs.{
  Nif, agnss_nif, internet_nif, Nifs, NifRun, done, after_run, get_agps_state_machine,
}
use android_device_samsung_d.Routing.Steps.{shared_machine}
use android_device_samsung_d.Setup.Servers.{Setup, Resolver, loc_eng_agps_reinit}

abbrev pub drop_if : Nif → Option Machine → Nifs → NifRun (Unit {0})
drop_if w none d = done tt d
drop_if w (some m) d = after_run w (drop_all_subscribers m) d

-- The machines that exist lose their subscribers.
unfoldable pub drop_nifs : Nifs → NifRun (Unit {0})
unfolding drop_all_subscribers
drop_nifs d = then_nifs (drop_if agnss_nif d.agnss d) (λ d1. drop_if internet_nif d1.internet d1)

-- `loc_eng_handle_engine_down`.
unfoldable pub loc_eng_handle_engine_down : Ni → Engine → Ni × Engine
loc_eng_handle_engine_down ni e =
    (loc_eng_ni_reset_on_engine_restart ni, loc_eng_report_status engine_off e)

-- `loc_eng_handle_engine_up`: the engine, and the run of the machines.
unfoldable pub loc_eng_handle_engine_up :
    Modem → Conf → Resolver → Setup → Engine → Nifs → Engine × NifRun (Unit {0})
unfolding drop_nifs
loc_eng_handle_engine_up modem c resolve s e d =
    let sent = loc_eng_reinit c e in
    let ready = if s.has_agps_status_cb then loc_eng_agps_reinit resolve s sent else sent in
    (
      resume_session modem (loc_eng_report_status engine_on ready),
      if s.has_agps_status_cb then drop_nifs d else done tt d,
    )

abbrev pub without_subscribers : Machine → Machine
without_subscribers m = record m { subscribers = [] }

abbrev pub dropped : Option Machine → Option Machine
dropped none = none
dropped (some m) = some (without_subscribers m)

-- The machines without one for data calls.
abbrev pub machines : Machine → Option Machine → Option Machine → List Action → Nifs
machines agnss internet wifi told = record {
  agnss = some agnss;
  internet = internet;
  wifi = wifi;
  ds = none;
  adapter_calls = told;
}

-- A connection that is open, for any subscribers.
module _ (servicer : ServicerType) (type : ℤ) (retries next : ℕ) (apn : Option CString) (bearer : ℤ)
    (calls : List Action) where
  abbrev pub open_machine : List Node → Machine
  open_machine ns = shared_machine servicer type retries acquired ns apn bearer next calls

  abbrev pub granted_machine : ℕ → Bool → Machine
  granted_machine id compatible =
      shared_machine servicer type retries acquired
        (record { addr = next; sub = atl_subscriber id compatible } ∷ []) apn bearer (next + 1)
        (calls ++ reply apn bearer type rsrc_granted (atl_subscriber id compatible))

  -- The machines after the restart.
  abbrev pub left_over : Option Machine → Option Machine → List Action → Nifs
  left_over internet wifi told = machines (open_machine []) (dropped internet) wifi told

  module _ (env : Env) where
    grant_at_once :
        (id : ℕ) (compatible : Bool)
        → subscribe_rsrc env (atl_subscriber id compatible) (open_machine [])
          ≡ ok tt (granted_machine id compatible)
    unfolding subscribe_rsrc transition deref notify_rsrc_status reply add_subscriber
        find_subscriber search_list find
    grant_at_once id true = rw (==_refl id) refl
    grant_at_once id false = rw (==_refl id) refl

    not_found :
        (id : ℕ) (m : Machine)
        → unsubscribe_rsrc env (atl_subscriber id false) (without_subscribers m)
          ≡ ok false (without_subscribers m)
    unfolding unsubscribe_rsrc find_subscriber search_list find unsubscribe_found
    not_found id m = refl

    up_run :
        (modem : Modem) (c : Conf) (resolve : Resolver) (s : Setup) (e : Engine) (ns : List Node)
        (internet wifi : Option Machine) (told : List Action)
        → s.has_agps_status_cb ≡ true
        → (loc_eng_handle_engine_up modem c resolve s e
            (machines (open_machine ns) internet wifi told)).1
          ≡ done tt (machines (open_machine []) (dropped internet) wifi told)
    unfolding loc_eng_handle_engine_up drop_nifs drop_all_subscribers
    up_run modem c resolve s e ns none wifi told ready = rw ready refl
    up_run modem c resolve s e ns (some m) wifi told ready = rw ready refl

    release_run :
        (old : ℕ) (internet wifi : Option Machine) (told : List Action)
        → nif_proc env
            (release_atl_msg old)
            (machines (open_machine []) (dropped internet) wifi told)
          ≡ done tt (
              machines
                (open_machine [])
                (dropped internet)
                wifi
                (told ++ atl_close_status old 0 ∷ []))
    unfolding nif_proc release_atl_proc
    release_run old none wifi told = rw (not_found old (open_machine [])) refl
    release_run old (some m) wifi told =
        rw (not_found old (open_machine [])) (rw (not_found old m) refl)

    request_run :
        (id : ℕ) (asked_type : ℤ) (internet wifi : Option Machine) (told : List Action)
        → get_agps_state_machine asked_type ≡ agnss_nif
        → nif_proc env
            (request_atl_msg id asked_type)
            (machines (open_machine []) (dropped internet) wifi told)
          ≡ done tt (
              machines
                (granted_machine id (is_invalid_type asked_type))
                (dropped internet)
                wifi
                told)
    unfolding nif_proc request_atl_proc
    request_run id asked_type internet wifi told routed =
        rw routed (rw (grant_at_once id (is_invalid_type asked_type)) refl)

    -- If the connection for SUPL is open when the modem restarts, then `loc_eng_handle_engine_up` leaves its
    -- machine acquired without a subscriber, and asks for no release of the connection. Where there is no
    -- machine for data calls, a release of the modem is then answered as not known, and also asks for no
    -- release; and a request of the modem is granted at once, with the APN and the bearer from before.
    pub engine_up-stale :
        (modem : Modem) (c : Conf) (resolve : Resolver) (s : Setup) (e : Engine) (ns : List Node)
        (internet wifi : Option Machine) (told : List Action) (old id : ℕ) (asked_type : ℤ)
        → s.has_agps_status_cb ≡ true
        → get_agps_state_machine asked_type ≡ agnss_nif
        → ((loc_eng_handle_engine_up modem c resolve s e
              (machines (open_machine ns) internet wifi told)).1
            ≡ done tt (left_over internet wifi told))
          × (nif_proc env (release_atl_msg old) (left_over internet wifi told)
              ≡ done tt (
                  machines
                    (open_machine [])
                    (dropped internet)
                    wifi
                    (told ++ atl_close_status old 0 ∷ [])))
          × (nif_proc env (request_atl_msg id asked_type) (left_over internet wifi told)
              ≡ done tt (
                  machines
                    (granted_machine id (is_invalid_type asked_type))
                    (dropped internet)
                    wifi
                    told))
    engine_up-stale modem c resolve s e ns internet wifi told old id asked_type ready routed = (
      up_run modem c resolve s e ns internet wifi told ready,
      release_run old internet wifi told,
      request_run id asked_type internet wifi told routed,
    )
