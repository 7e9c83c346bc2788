-- ===== src/Agps/Replies.antt =====
-- What a subscriber is told, written as a table: the calls that a notification leads to, for each
-- class of subscriber and each final status of the resource. The machine gives an ATL subscriber
-- its APN, bearer and type.
use android_device_samsung_d.Common.{
  ℕ, true, false, Option, none, List, [], ◌∷◌, ◌++◌, ℤ, pos, negsuc,
}
use android_device_samsung_d.Agps.Types.{
  AgpsRsrcStatus, rsrc_granted, rsrc_released, rsrc_denied, CString, Subscriber, bit_subscriber,
  atl_subscriber, wifi_subscriber, ds_subscriber, Node, Action, server_data_conn, atl_open_status,
  atl_close_status, close_data_call, request_atl, Machine,
}

module _ (apn : Option CString) (bearer type : ℤ) where
  unfoldable pub reply : AgpsRsrcStatus → Subscriber → List Action
  reply rsrc_granted (bit_subscriber id v6) = server_data_conn 3 0xf0 ∷ []
  reply rsrc_released (bit_subscriber id v6) = server_data_conn 3 0xf1 ∷ []
  reply rsrc_denied (bit_subscriber id v6) = server_data_conn 3 0xf2 ∷ []
  reply rsrc_granted (atl_subscriber id true) = atl_open_status id 1 apn bearer (negsuc 0) ∷ []
  reply rsrc_granted (atl_subscriber id false) = atl_open_status id 1 apn bearer type ∷ []
  reply rsrc_released (atl_subscriber id compatible) = atl_close_status id 1 ∷ []
  reply rsrc_denied (atl_subscriber id true) = atl_open_status id 0 apn bearer (negsuc 0) ∷ []
  reply rsrc_denied (atl_subscriber id false) = atl_open_status id 0 apn bearer type ∷ []
  reply rsrc_granted (wifi_subscriber id ssid password inactive) = server_data_conn id 0xf0 ∷ []
  reply rsrc_released (wifi_subscriber id ssid password inactive) = server_data_conn id 0xf1 ∷ []
  reply rsrc_denied (wifi_subscriber id ssid password inactive) = server_data_conn id 0xf2 ∷ []
  reply rsrc_granted (ds_subscriber id inactive) =
      atl_open_status id 1 none (negsuc 0) (negsuc 0) ∷ []
  reply rsrc_released (ds_subscriber id inactive) = close_data_call ∷ []
  reply rsrc_denied (ds_subscriber id inactive) = request_atl id (pos 1) ∷ []
  reply _ s = []

  -- The replies to a list of subscribers, in its order.
  unfoldable pub replies : AgpsRsrcStatus → List Node → List Action
  replies status [] = []
  replies status (n ∷ ns) = reply status n.sub ++ replies status ns

reset : AgpsRsrcStatus → Subscriber → ℕ → ℕ
reset rsrc_denied (ds_subscriber id inactive) r = 0
reset _ _ r = r

-- The retry count afterwards: a denial of a DS subscriber resets it.
unfoldable pub retries_after : AgpsRsrcStatus → List Node → ℕ → ℕ
unfolding reset
retries_after status [] r = r
retries_after status (n ∷ ns) r = retries_after status ns (reset status n.sub r)

-- The machine after the subscribers of a list were told.
unfoldable pub told : AgpsRsrcStatus → List Node → Machine → Machine
unfolding replies retries_after
told status ns m = record m {
  calls = m.calls ++ replies m.apn m.bearer m.type status ns;
  retries = retries_after status ns m.retries;
}

-- The statuses that end a request: every class answers them.
pub data IsFinal : AgpsRsrcStatus → Type 0 where
  granted_final : IsFinal rsrc_granted
  released_final : IsFinal rsrc_released
  denied_final : IsFinal rsrc_denied
