-- ===== src/Agps/Notify.antt =====
-- What each subscriber class does with a notification (`notifyRsrcStatus`, `informStatus` and the
-- callbacks of `linked_list_search` in loc_eng_agps.cpp).
use android_device_samsung_d.Common.{ℕ, Bool, true, false, ◌&&◌, none, if◌then◌else◌}
use android_device_samsung_d.Agps.Subscribers.{
  agps_type_invalid, agps_type_supl, agps_apn_bearer_invalid, sender_id_gpsone_daemon,
  gpsone_loc_api_if_request_success, gpsone_loc_api_if_release_success, gpsone_loc_api_if_failure,
  for_me,
}
use android_device_samsung_d.Agps.Types.{
  AgpsRsrcStatus, rsrc_unsubscribe, rsrc_granted, rsrc_released, rsrc_denied, Subscriber,
  bit_subscriber, atl_subscriber, wifi_subscriber, ds_subscriber, Node, Notification,
  server_data_conn, atl_open_status, atl_close_status, close_data_call, request_atl, Cmd, pure,
  ◌>>=◌, ◌>>◌, get, modify, call,
}

-- `DSStateMachine::informStatus`.
unfoldable pub inform_status : AgpsRsrcStatus → ℕ → Cmd (Unit {0})
inform_status rsrc_unsubscribe id = call (atl_close_status id 1)
inform_status rsrc_released id = call close_data_call
inform_status rsrc_denied id = do
  modify (λ m. record m { retries = 0 })
  call (request_atl id agps_type_supl)
inform_status rsrc_granted id =
    call (atl_open_status id 1 none agps_apn_bearer_invalid agps_type_invalid)
inform_status _ id = pure tt

-- `atlOpenStatus` of `ATLSubscriber`, with the machine's APN, bearer and type.
atl_open : ℕ → Bool → ℕ → Cmd (Unit {0})
atl_open id compatible is_succ = do
  m ← get
  call
      (atl_open_status id is_succ m.apn m.bearer (if compatible then agps_type_invalid else m.type))

-- The `switch` of each `notifyRsrcStatus`, on a notification that is for the subscriber.
unfoldable pub on_notify : Subscriber → AgpsRsrcStatus → Cmd Bool
unfolding inform_status atl_open
on_notify (bit_subscriber id v6) rsrc_unsubscribe = do
  call (server_data_conn sender_id_gpsone_daemon gpsone_loc_api_if_release_success)
  pure true
on_notify (bit_subscriber id v6) rsrc_released = do
  call (server_data_conn sender_id_gpsone_daemon gpsone_loc_api_if_release_success)
  pure true
on_notify (bit_subscriber id v6) rsrc_denied = do
  call (server_data_conn sender_id_gpsone_daemon gpsone_loc_api_if_failure)
  pure true
on_notify (bit_subscriber id v6) rsrc_granted = do
  call (server_data_conn sender_id_gpsone_daemon gpsone_loc_api_if_request_success)
  pure true
on_notify (atl_subscriber id compatible) rsrc_unsubscribe =
    call (atl_close_status id 1) >> pure true
on_notify (atl_subscriber id compatible) rsrc_released = call (atl_close_status id 1) >> pure true
on_notify (atl_subscriber id compatible) rsrc_denied = atl_open id compatible 0 >> pure true
on_notify (atl_subscriber id compatible) rsrc_granted = atl_open id compatible 1 >> pure true
on_notify (wifi_subscriber id ssid password inactive) rsrc_unsubscribe = pure true
on_notify (wifi_subscriber id ssid password inactive) rsrc_released = do
  call (server_data_conn id gpsone_loc_api_if_release_success)
  pure true
on_notify (wifi_subscriber id ssid password inactive) rsrc_denied = do
  call (server_data_conn id gpsone_loc_api_if_failure)
  pure true
on_notify (wifi_subscriber id ssid password inactive) rsrc_granted = do
  call (server_data_conn id gpsone_loc_api_if_request_success)
  pure true
on_notify (ds_subscriber id inactive) rsrc_unsubscribe =
    inform_status rsrc_unsubscribe id >> pure true
on_notify (ds_subscriber id inactive) rsrc_released = inform_status rsrc_released id >> pure true
on_notify (ds_subscriber id inactive) rsrc_denied = inform_status rsrc_denied id >> pure true
on_notify (ds_subscriber id inactive) rsrc_granted = inform_status rsrc_granted id >> pure true
on_notify _ _ = pure false

-- `notifyRsrcStatus`.
unfoldable pub notify_rsrc_status : Notification → Subscriber → Cmd Bool
unfolding for_me on_notify
notify_rsrc_status n s = do
  notify ← for_me n s
  if notify then on_notify s n.rsrc_status else pure false

-- The callbacks handed to `linked_list_search`.
unfoldable pub has_subscriber : Notification → Node → Cmd Bool
unfolding for_me
has_subscriber n node = for_me n node.sub

unfoldable pub notify_subscriber : Notification → Node → Cmd Bool
unfolding notify_rsrc_status
notify_subscriber n node = do
  notified ← notify_rsrc_status n node.sub
  pure (notified && n.post_notify_delete)
