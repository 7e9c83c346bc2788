-- ===== src/Agps/Unsubscribing.antt =====
-- `unsubscribeRsrc` against a specification, the read of a deleted subscriber included.
use android_device_samsung_d.Common.{
  Bool, true, false, not, ◌&&◌, Option, none, some, List, [], ◌∷◌, ◌++◌, if◌then◌else◌, any, is_nil,
}
use android_device_samsung_d.Agps.Equality.{matches}
use android_device_samsung_d.Agps.Searches.{split_first, is_active, request_for}
use android_device_samsung_d.Agps.Subscribers.{wait_for_close_complete, mark_inactive_at}
use android_device_samsung_d.Agps.Types.{
  gps_release_agps_data_conn, Subscriber, bit_subscriber, atl_subscriber, wifi_subscriber,
  ds_subscriber, Node, AgpsState, released, releasing, Action, server_data_conn, atl_close_status,
  Machine, Run, ok, fault,
}
use android_device_samsung_d.Agps.WellFormed.{wants_resource}

-- What a subscriber is told as it leaves at once, or as its close begins.
unfoldable pub closing_call : Subscriber → List Action
closing_call (bit_subscriber id v6) = server_data_conn 3 0xf1 ∷ []
closing_call (atl_subscriber id compatible) = atl_close_status id 1 ∷ []
closing_call (wifi_subscriber id ssid password inactive) = []
closing_call (ds_subscriber id inactive) = atl_close_status id 1 ∷ []

-- The release of the resource, where the state wants it and no active subscriber is left.
unfoldable pub released_if_idle : (idle state : AgpsState) → Machine → Machine
released_if_idle idle state m =
    if wants_resource state && not (any is_active m.subscribers)
    then record m { state = idle; calls = m.calls ++ request_for gps_release_agps_data_conn m ∷ [] }
    else record m { state = state }

-- A subscriber whose close is awaited is told as much, and stays in the list, inactive.
abbrev pub marked : Node → Machine → Machine
marked n m = record m {
  subscribers = mark_inactive_at n.addr m.subscribers;
  calls = m.calls ++ closing_call n.sub;
}

-- The last subscriber is told, and the list is empty.
abbrev pub emptied : Node → Machine → Machine
emptied n m = record m { subscribers = []; calls = m.calls ++ closing_call n.sub }

-- With no subscriber left, the machine is released from every state.
unfoldable pub after_last : AgpsState → Node → Machine → Machine
unfolding released_if_idle
after_last state n m = record (released_if_idle released state (emptied n m)) { state = released }

-- What `unsubscribeRsrc` does with the subscriber that it found and the list without it: wait for
-- the close, or tell and delete it at once. One that is deleted while others stay is deleted
-- before the loop compares them with it.
unfoldable pub leave : AgpsState → Option (Node × List Node) → Machine → Run Bool
unfolding released_if_idle after_last
leave state none m = ok false m
leave state (some (n, rest)) m =
    if wait_for_close_complete n.sub
    then ok true (released_if_idle releasing state (marked n m))
    else if is_nil rest
    then ok true (after_last state n m)
    else fault

unfoldable pub unsubscribe_outcome : Subscriber → Machine → Run Bool
unfolding leave split_first
unsubscribe_outcome s m = leave m.state (split_first (λ n. matches n.sub s) m.subscribers) m
