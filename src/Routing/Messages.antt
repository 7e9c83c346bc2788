-- ===== src/Routing/Messages.antt =====
-- `proc` of the messages that subscribe to the state machines, and the functions of the HAL that send the
-- last three (gps/loc_api/libloc_api_50001/loc_eng.cpp).
use android_device_samsung_d.Common.{
  ℕ, zero, Bool, true, false, Option, none, some, List, [], ◌∷◌, ◌++◌, if◌then◌else◌, length, take,
  is_some, ℤ, pos, negsuc,
}
use android_device_samsung_d.Agps.Construction.{new_ds_state_machine, set_apn, set_bearer}
use android_device_samsung_d.Agps.Request.{Env}
use android_device_samsung_d.Agps.StateMachine.{
  agps_on_rsrc_event, ds_on_rsrc_event, subscribe_rsrc, unsubscribe_rsrc,
}
use android_device_samsung_d.Agps.Types.{
  AgpsRsrcStatus, rsrc_granted, rsrc_released, rsrc_denied, servicer_type_ext, AgpsStatusValue,
  gps_request_agps_data_conn, gps_release_agps_data_conn, CString, Subscriber, bit_subscriber,
  atl_subscriber, wifi_subscriber, ds_subscriber, Action, atl_open_status, atl_close_status,
  MachineKind, agps_state_machine, ds_state_machine, Machine, Cmd, ◌>>◌,
}
use android_device_samsung_d.Routing.Nifs.{
  Nif, agnss_nif, internet_nif, wifi_nif, ds_nif, Nifs, nif_of, with_nif, NifRun, done,
  null_machine, broken, no_fuel, after_run, on_nif, get_agps_state_machine,
}

pub data NifMsg : Type 0 where
  -- the type, the addresses and whether it is a request
  req_rel_bit : ℤ → ℕ → List ℕ → Bool → NifMsg
  -- the type, the sender, the SSID, the password and whether it is a request
  req_rel_wifi : ℤ → ℕ → Option CString → Option CString → Bool → NifMsg
  request_supl_es_msg release_atl_msg : ℕ → NifMsg
  request_atl_msg : ℕ → ℤ → NifMsg
  supl_es_opened supl_es_closed : NifMsg
  -- the machine, the APN and the bearer
  atl_open_success : Nif → CString → ℤ → NifMsg
  atl_closed atl_open_failed : Nif → NifMsg
  -- whether `initDataServiceClient` returns 0
  data_client_init : Bool → NifMsg

abbrev pub is_invalid_type : ℤ → Bool
is_invalid_type (negsuc zero) = true
is_invalid_type _ = false

abbrev pub tell_adapter : Action → Nifs → Nifs
tell_adapter c d = record d { adapter_calls = d.adapter_calls ++ c ∷ [] }

-- The refusal of a request without a machine.
abbrev pub refuse_open : ℕ → ℤ → Nifs → NifRun (Unit {0})
refuse_open handle type d = done tt (tell_adapter (atl_open_status handle 0 none (negsuc 0) type) d)

-- `dataCallCb`: the call to the adapter, given what `openAndStartDataCall` returns.
unfoldable pub data_call_cb : Option AgpsStatusValue → ℤ → ℤ
data_call_cb none open_result = negsuc 0
data_call_cb (some gps_request_agps_data_conn) open_result = open_result
data_call_cb (some gps_release_agps_data_conn) open_result = pos 0

abbrev pub discard : NifRun Bool → NifRun (Unit {0})
discard (done b d) = done tt d
discard null_machine = null_machine
discard broken = broken
discard no_fuel = no_fuel

abbrev pub then_nifs : NifRun (Unit {0}) → (Nifs → NifRun (Unit {0})) → NifRun (Unit {0})
then_nifs (done a d) next = next d
then_nifs null_machine next = null_machine
then_nifs broken next = broken
then_nifs no_fuel next = no_fuel

module _ (env : Env) where
  on_rsrc_event_of : MachineKind → AgpsRsrcStatus → Cmd (Unit {0})
  on_rsrc_event_of agps_state_machine event = agps_on_rsrc_event env event
  on_rsrc_event_of ds_state_machine event = ds_on_rsrc_event env event

  -- The virtual `onRsrcEvent`.
  unfoldable pub on_rsrc_event : AgpsRsrcStatus → Cmd (Unit {0})
  unfolding on_rsrc_event_of
  on_rsrc_event event m = on_rsrc_event_of m.kind event m

  abbrev pub subscribe_or_refuse :
      Nif → Subscriber → ℕ → ℤ → Option Machine → Nifs → NifRun (Unit {0})
  subscribe_or_refuse w s handle type none d = refuse_open handle type d
  subscribe_or_refuse w s handle type (some m) d = after_run w (subscribe_rsrc env s m) d

  -- `LocEngRequestATL::proc`.
  unfoldable pub request_atl_proc : ℕ → ℤ → Nifs → NifRun (Unit {0})
  unfolding get_agps_state_machine
  request_atl_proc id type d =
      let w = get_agps_state_machine type in
      subscribe_or_refuse w (atl_subscriber id (is_invalid_type type)) id type (nif_of w d) d

  -- `LocEngRequestSuplEs::proc`.
  unfoldable pub request_supl_es_proc : ℕ → Nifs → NifRun (Unit {0})
  request_supl_es_proc id d =
      subscribe_or_refuse ds_nif (ds_subscriber id false) id (negsuc 0) d.ds d

  -- An attempt of `LocEngReleaseATL::proc` to unsubscribe, where there is a machine, and what follows if
  -- it finds no subscriber.
  abbrev pub or_next : NifRun Bool → (Nifs → NifRun (Unit {0})) → NifRun (Unit {0})
  or_next (done true d) next = done tt d
  or_next (done false d) next = next d
  or_next null_machine next = null_machine
  or_next broken next = broken
  or_next no_fuel next = no_fuel

  abbrev pub try_release :
      Nif → Subscriber → Option Machine → Nifs → (Nifs → NifRun (Unit {0})) → NifRun (Unit {0})
  try_release w s none d next = next d
  try_release w s (some m) d next = or_next (after_run w (unsubscribe_rsrc env s m) d) next

  -- `LocEngReleaseATL::proc`.
  unfoldable pub release_atl_proc : ℕ → Nifs → NifRun (Unit {0})
  release_atl_proc id d = try_release agnss_nif (atl_subscriber id false) d.agnss d λ d1.
      try_release internet_nif (atl_subscriber id false) d1.internet d1 λ d2.
        try_release ds_nif (ds_subscriber id false) d2.ds d2
          λ d3. done tt (tell_adapter (atl_close_status id 0) d3)

  req_rel : Nif → Subscriber → Bool → Nifs → NifRun (Unit {0})
  req_rel w s true d = on_nif w (subscribe_rsrc env s) d
  req_rel w s false d = discard (on_nif w (unsubscribe_rsrc env s) d)

  -- `LocEngReqRelBIT::proc`.
  unfoldable pub req_rel_bit_proc : ℤ → ℕ → List ℕ → Bool → Nifs → NifRun (Unit {0})
  unfolding req_rel on_nif get_agps_state_machine
  req_rel_bit_proc type ipv4 ipv6 is_req d =
      req_rel (get_agps_state_machine type) (bit_subscriber ipv4 ipv6) is_req d

  -- `LocEngReqRelWifi::proc`.
  unfoldable pub req_rel_wifi_proc :
      ℤ → ℕ → Option CString → Option CString → Bool → Nifs → NifRun (Unit {0})
  unfolding req_rel on_nif
  req_rel_wifi_proc type sender ssid password is_req d =
      if is_some d.wifi
      then req_rel wifi_nif (wifi_subscriber sender ssid password false) is_req d
      else refuse_open sender type d

  -- The events of `LocEngSuplEsOpened::proc` and `LocEngSuplEsClosed::proc`.
  unfoldable pub supl_es_proc : AgpsRsrcStatus → Nifs → NifRun (Unit {0})
  unfolding on_nif
  supl_es_proc event d = if is_some d.ds then on_nif ds_nif (on_rsrc_event event) d else done tt d

  -- `LocEngAtlOpenSuccess::proc`; the copy of the APN ends with a NUL.
  unfoldable pub atl_open_success_proc : Nif → CString → ℤ → Nifs → NifRun (Unit {0})
  unfolding on_nif on_rsrc_event
  atl_open_success_proc w apn bearer = on_nif w (
      set_bearer bearer
      >> set_apn (some (apn ++ 0 ∷ [])) (length apn)
      >> on_rsrc_event rsrc_granted)

  -- `proc`.
  unfoldable pub nif_proc : NifMsg → Nifs → NifRun (Unit {0})
  unfolding on_nif
  nif_proc (req_rel_bit type ipv4 ipv6 is_req) d = req_rel_bit_proc type ipv4 ipv6 is_req d
  nif_proc (req_rel_wifi type sender ssid password is_req) d =
      req_rel_wifi_proc type sender ssid password is_req d
  nif_proc (request_supl_es_msg id) d = request_supl_es_proc id d
  nif_proc (release_atl_msg id) d = release_atl_proc id d
  nif_proc (request_atl_msg id type) d = request_atl_proc id type d
  nif_proc supl_es_opened d = supl_es_proc rsrc_granted d
  nif_proc supl_es_closed d = supl_es_proc rsrc_released d
  nif_proc (atl_open_success w apn bearer) d = atl_open_success_proc w apn bearer d
  nif_proc (atl_closed w) d = on_nif w (on_rsrc_event rsrc_released) d
  nif_proc (atl_open_failed w) d = on_nif w (on_rsrc_event rsrc_denied) d
  nif_proc (data_client_init inited) d =
      done tt (if inited then with_nif ds_nif (new_ds_state_machine servicer_type_ext) d else d)

  abbrev pub nif_procs : List NifMsg → Nifs → NifRun (Unit {0})
  nif_procs [] d = done tt d
  nif_procs (m ∷ ms) d = then_nifs (nif_proc m d) (nif_procs ms)

-- What the functions of the HAL return and send; `ready` is the test of the adapter and the callback.
unfoldable pub loc_eng_agps_open : Bool → ℤ → Option CString → ℤ → ℤ × List NifMsg
unfolding get_agps_state_machine
loc_eng_agps_open false type apn bearer = (negsuc 0, [])
loc_eng_agps_open true type none bearer = (pos 0, [])
loc_eng_agps_open true type (some apn) bearer =
    (pos 0, atl_open_success (get_agps_state_machine type) (take 100 apn) bearer ∷ [])

unfoldable pub loc_eng_agps_closed : Bool → ℤ → ℤ × List NifMsg
unfolding get_agps_state_machine
loc_eng_agps_closed ready type =
    if ready then (pos 0, atl_closed (get_agps_state_machine type) ∷ []) else (negsuc 0, [])

unfoldable pub loc_eng_agps_open_failed : Bool → ℤ → ℤ × List NifMsg
unfolding get_agps_state_machine
loc_eng_agps_open_failed ready type =
    if ready then (pos 0, atl_open_failed (get_agps_state_machine type) ∷ []) else (negsuc 0, [])
