-- ===== src/Agps/Request.antt =====
-- `sendRsrcRequest` of the two machines and the `requestRsrc` of the servicers
-- (gps/loc_api/libloc_api_50001/loc_eng_agps.cpp).
-- What the code calls and cannot see: the result of the callback of an `ExtServicer`, and whether
-- `loc_timer_start` fails, after the calls made so far.
use android_device_samsung_d.Common.{
  ℕ, zero, suc, ◌+◌, ◌%◌, Bool, true, false, not, Option, none, some, List, [], ◌∷◌, ◌++◌, ltb,
  ◌==◌, if◌then◌else◌, is_some, ℤ, pos, negsuc,
}
use android_device_samsung_d.Agps.Notify.{inform_status}
use android_device_samsung_d.Agps.SubscriberList.{to_group, find_subscriber}
use android_device_samsung_d.Agps.Subscribers.{inaddr_none, id_of}
use android_device_samsung_d.Agps.Types.{
  rsrc_denied, rsrc_status_max, ServicerType, servicer_type_ext, AgpsStatusValue,
  gps_request_agps_data_conn, gps_release_agps_data_conn, CString, Subscriber, bit_subscriber,
  atl_subscriber, wifi_subscriber, ds_subscriber, Node, broadcast_active, NifRequest, CbData,
  nif_request, ds_cb_data, Action, request_rsrc, loc_timer_start, MachineKind, agps_state_machine,
  ds_state_machine, ok, Cmd, pure, ◌>>=◌, ◌>>◌, get, modify, call,
}

pub record Env : Type 0 where
  pub callback_ext : List Action → ℤ
  pub timer_fails : List Action → Bool

abbrev pub max_start_data_call_retries : ℕ
max_start_data_call_retries = 4

abbrev pub data_call_retry_delay_msec : ℕ
data_call_retry_delay_msec = 500

-- The two parameters above at their simplest: every request succeeds.
abbrev pub quiet_env : Env
quiet_env = record { callback_ext = λ _. pos 0; timer_fails = λ _. false }

-- `setIPAddresses`: the classes that leave the fields alone give `none`.
ip_addresses : Subscriber → Option ℕ × Option (List ℕ)
ip_addresses (bit_subscriber id v6) = (some id, some v6)
ip_addresses (atl_subscriber id compatible) = (some inaddr_none, some (0 ∷ []))
ip_addresses (wifi_subscriber id ssid password inactive) = (none, none)
ip_addresses (ds_subscriber id inactive) = (none, none)

or_empty : Option CString → CString
or_empty none = []
or_empty (some s) = s

-- `setWifiInfo`.
wifi_info : Subscriber → CString × CString
unfolding or_empty
wifi_info (bit_subscriber id v6) = ([], [])
wifi_info (atl_subscriber id compatible) = ([], [])
wifi_info (wifi_subscriber id ssid password inactive) = (or_empty ssid, or_empty password)
wifi_info (ds_subscriber id inactive) = ([], [])

-- The request that is filled for the subscriber that the search found.
unfoldable pub fill_request : ℤ → AgpsStatusValue → Option Node → NifRequest
unfolding ip_addresses wifi_info
fill_request type action none = record {
  type = type;
  status = action;
  ipv4_addr = some inaddr_none;
  ipv6_addr = some (0 ∷ []);
  ssid = [];
  password = [];
}
fill_request type action (some n) = record {
  type = type;
  status = action;
  ipv4_addr = (ip_addresses n.sub).0;
  ipv6_addr = (ip_addresses n.sub).1;
  ssid = (wifi_info n.sub).0;
  password = (wifi_info n.sub).1;
}

-- The searches for an active subscriber.
unfoldable pub find_active : Cmd (Option Node)
find_active = find_subscriber (to_group broadcast_active rsrc_status_max false)

is_release : AgpsStatusValue → Bool
is_release gps_release_agps_data_conn = true
is_release gps_request_agps_data_conn = false

same_bool : Bool → Bool → Bool
same_bool true b = b
same_bool false b = not b

unfoldable pub conn_handle : Option Node → ℕ
unfolding id_of
conn_handle none = 0xffff_ffff
conn_handle (some n) = id_of n.sub

module _ (env : Env) where
  -- What `requestRsrc` returns, given the class of the servicer and the calls before it.
  unfoldable pub request_result : ServicerType → List Action → ℤ
  request_result servicer_type_ext calls = env.callback_ext calls
  request_result servicer calls = pos 0

  -- `mServicer->requestRsrc(data)`.
  unfoldable pub request_rsrc_of : CbData → Cmd ℤ
  unfolding request_result
  request_rsrc_of d m =
      let calls = m.calls ++ request_rsrc m.servicer d ∷ [] in
      ok (request_result m.servicer calls) (record m { calls = calls })

  send_if : Bool → AgpsStatusValue → Option Node → Cmd (Unit {0})
  unfolding request_rsrc_of fill_request
  send_if false action s = pure tt
  send_if true action s = do
    m ← get
    request_rsrc_of (nif_request (fill_request m.type action s))
    pure tt

  -- `AgpsStateMachine::sendRsrcRequest`. It always returns 0.
  unfoldable pub send_agps : AgpsStatusValue → Cmd ℤ
  unfolding send_if is_release same_bool find_active
  send_agps action = do
    s ← find_active
    send_if (same_bool (not (is_some s)) (is_release action)) action s
    pure (pos 0)

  -- The retry of `DSStateMachine::sendRsrcRequest`: another attempt in half a second, or, after
  -- the last one, a denial.
  unfoldable pub retry_data_call : ℕ → ℤ → Cmd ℤ
  unfolding inform_status
  retry_data_call handle ret = do
    modify (λ m. record m { retries = (m.retries + 1) % 256 })
    m ← get
    if ltb max_start_data_call_retries m.retries
        then inform_status rsrc_denied handle >> pure ret
        else do
          call (loc_timer_start data_call_retry_delay_msec)
          after ← get
          pure (if env.timer_fails after.calls then negsuc 0 else ret)

  -- The `switch (ret)`: 6 is `LOC_API_ADAPTER_ERR_ENGINE_BUSY`, 2 is `..._UNSUPPORTED`.
  unfoldable pub on_result : ℕ → ℤ → Cmd ℤ
  unfolding retry_data_call inform_status
  on_result handle (pos n) =
      if n == 6
      then retry_data_call handle (pos n)
      else if n == 2
      then inform_status rsrc_denied handle >> pure (pos n)
      else pure (pos n)
  on_result handle (negsuc zero) = inform_status rsrc_denied handle >> pure (negsuc zero)
  on_result handle (negsuc (suc n)) = pure (negsuc (suc n))

  -- `DSStateMachine::sendRsrcRequest`.
  unfoldable pub send_ds : AgpsStatusValue → Cmd ℤ
  unfolding request_rsrc_of on_result find_active conn_handle
  send_ds action = do
    s ← find_active
    ret ← request_rsrc_of (ds_cb_data action)
    on_result (conn_handle s) ret

  send_of : MachineKind → AgpsStatusValue → Cmd ℤ
  unfolding send_agps send_ds
  send_of agps_state_machine action = send_agps action
  send_of ds_state_machine action = send_ds action

  -- The virtual `sendRsrcRequest`.
  unfoldable pub send_rsrc_request : AgpsStatusValue → Cmd ℤ
  unfolding send_of
  send_rsrc_request action = do m ← get; send_of m.kind action
