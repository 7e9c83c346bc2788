-- ===== src/Setup/Examples.antt =====
-- A server that is set before the engine is initialised.
use android_device_samsung_d.Common.{◌≡◌, refl, true, false, none, some, List, [], ◌∷◌, arith, pos}
use android_device_samsung_d.Agps.Request.{quiet_env}
use android_device_samsung_d.Agps.Types.{
  servicer_type_agps, atl_subscriber, Node, atl_close_status, Machine,
}
use android_device_samsung_d.Engine.Messages.{gnss_msm, loc_eng_set_privacy}
use android_device_samsung_d.Engine.Types.{
  supl_server, set_server_url, privacy_lock, init_msg, config_msg, Conf, Modem, send,
}
use android_device_samsung_d.Routing.Messages.{release_atl_msg, request_atl_msg, nif_proc}
use android_device_samsung_d.Routing.Nifs.{done, get_agps_state_machine}
use android_device_samsung_d.Setup.Buffered.{set_servers, inited, loc_eng_init-forgets}
use android_device_samsung_d.Setup.Restart.{
  loc_eng_handle_engine_up, machines, open_machine, granted_machine, engine_up-stale,
}
use android_device_samsung_d.Setup.Servers.{
  Setup, Callbacks, InitConf, Resolver, loc_eng_set_server, set_server_of, loc_eng_set_server_proxy,
  cleared_setup, new_engine, loc_eng_init, loc_eng_agps_init,
}

abbrev no_resolver : Resolver
no_resolver = record { gethostbyname = λ host. none; inet_aton = λ host. none }

abbrev all_callbacks : Callbacks
all_callbacks = record {
  gives_location = true;
  gives_sv_status = true;
  gives_status = true;
  gives_nmea = true;
}

abbrev init_conf : InitConf
init_conf = record { intermediate_pos = 0; nmea_provider = 0 }

loc_eng_init-forgets_example :
    (loc_eng_init
        (some all_callbacks)
        7
        init_conf
        (set_servers no_resolver ((supl_server, b'h' ∷ [], 7275) ∷ []) cleared_setup)
      ≡ (pos 0, inited all_callbacks 7 init_conf))
    × ((loc_eng_agps_init no_resolver gnss_msm true
          (loc_eng_init
            (some all_callbacks)
            7
            init_conf
            (set_servers no_resolver ((supl_server, b'h' ∷ [], 7275) ∷ []) cleared_setup)).1).engine
        ≡ (inited all_callbacks 7 init_conf).engine)
loc_eng_init-forgets_example =
    loc_eng_init-forgets no_resolver ((supl_server, b'h' ∷ [], 7275) ∷ []) all_callbacks 7 init_conf
      gnss_msm cleared_setup refl (omega arith)

-- After it, the server is sent.
sent_after :
    (loc_eng_set_server_proxy no_resolver supl_server
      (b'h' ∷ [])
      7275
      (inited all_callbacks 7 init_conf)).1.engine
    ≡ some (
        send (config_msg (set_server_url (b'h' ∷ b':' ∷ b'7' ∷ b'2' ∷ b'7' ∷ b'5' ∷ []))) (
          send
            (config_msg (privacy_lock 1))
            (send init_msg (new_engine all_callbacks 7 init_conf))))
unfolding loc_eng_set_server_proxy set_server_of loc_eng_set_server loc_eng_set_privacy
sent_after = refl

abbrev idle_modem : Modem
idle_modem = record {
  start_fix_result = λ calls. 0;
  stop_fix_result = λ calls. 0;
  exceeds = λ a b. false;
}

abbrev plain_conf : Conf
plain_conf = record {
  supl_version = 0x10000;
  lpp_profile = 0;
  sensor_usage = 0;
  sensor_provider = 1;
  a_glonass_pos_protocol_select = 0;
  random_walks = [];
  perf_control = 0 ∷ 2 ∷ 5 ∷ [];
  agps_status = 1;
}

abbrev with_agps : Setup
with_agps = record cleared_setup { has_agps_status_cb = true }

-- The modem with handle 5 holds the connection for SUPL.
abbrev modem_node : Node
modem_node = record { addr = 0; sub = atl_subscriber 5 false }

abbrev open_supl : List Node → Machine
open_supl = open_machine servicer_type_agps (pos 1) 0 1 (some (b'n' ∷ [])) (pos 0) []

engine_up-stale_example :
    ((loc_eng_handle_engine_up idle_modem plain_conf no_resolver with_agps
        (new_engine all_callbacks 7 init_conf)
        (machines (open_supl (modem_node ∷ [])) none none [])).1
      ≡ done tt (machines (open_supl []) none none []))
    × (nif_proc quiet_env (release_atl_msg 5) (machines (open_supl []) none none [])
        ≡ done tt (machines (open_supl []) none none (atl_close_status 5 0 ∷ [])))
    × (nif_proc quiet_env (request_atl_msg 6 (pos 1)) (machines (open_supl []) none none [])
        ≡ done tt (
            machines
              (granted_machine servicer_type_agps (pos 1) 0 1 (some (b'n' ∷ [])) (pos 0) [] 6 false)
              none
              none
              []))
unfolding get_agps_state_machine
engine_up-stale_example =
    engine_up-stale servicer_type_agps (pos 1) 0 1 (some (b'n' ∷ [])) (pos 0) [] quiet_env
      idle_modem plain_conf no_resolver with_agps (new_engine all_callbacks 7 init_conf)
      (modem_node ∷ []) none none [] 5 6 (pos 1) refl refl
