-- ===== src/Agps/Examples.antt =====
-- The theorems on the AGPS state machine at concrete machines.
use android_device_samsung_d.Common.{◌≡◌, refl, ◌⊎◌, true, false, none, [], ◌∷◌, arith, pos, negsuc}
use android_device_samsung_d.Agps.Broadcast.{told_and_removed, notify_subscribers-removed}
use android_device_samsung_d.Agps.Construction.{new_agps_state_machine, drop_all_subscribers}
use android_device_samsung_d.Agps.DataCall.{
  handle_of, requested, data_call_outcome, ReturnsFewRetries, send_ds-outcome, send_ds-retries,
}
use android_device_samsung_d.Agps.Defects.{unsubscribe-fault, incomparable-fault}
use android_device_samsung_d.Agps.Dropped.{IsDropped}
use android_device_samsung_d.Agps.Equality.{matches, comparable}
use android_device_samsung_d.Agps.Events.{after_event, agps_on_rsrc_event-after_event}
use android_device_samsung_d.Agps.Notify.{notify_subscriber}
use android_device_samsung_d.Agps.Replies.{granted_final, denied_final}
use android_device_samsung_d.Agps.Request.{quiet_env, send_ds}
use android_device_samsung_d.Agps.Searches.{split_first}
use android_device_samsung_d.Agps.StateMachine.{
  state_on_rsrc_event, transition, agps_on_rsrc_event, subscribe_rsrc, unsubscribe_rsrc,
}
use android_device_samsung_d.Agps.SubscriberList.{to_group, find, search_remove, notify_subscribers}
use android_device_samsung_d.Agps.Subscribers.{
  inaddr_none, id_of, is_inactive, wait_for_close_complete, in_group,
}
use android_device_samsung_d.Agps.Subscribing.{after_subscribe, subscribe_rsrc-after_subscribe}
use android_device_samsung_d.Agps.Trace.{
  Step, subscribe_step, dropped_step, no_step, one_more, Reach-IsLeft,
}
use android_device_samsung_d.Agps.Types.{
  rsrc_granted, rsrc_denied, servicer_type_agps, servicer_type_ext, gps_request_agps_data_conn,
  bit_subscriber, atl_subscriber, wifi_subscriber, ds_subscriber, Node, broadcast_all, released,
  pending, releasing, atl_open_status, agps_state_machine, ds_state_machine, Machine, ok, fault,
}
use android_device_samsung_d.Agps.Unsubscribe.{unsubscribe_rsrc-outcome}
use android_device_samsung_d.Agps.Unsubscribing.{unsubscribe_outcome}
use android_device_samsung_d.Agps.WellFormed.{has_addr, IsWellFormed}

-- An AGNSS machine with two ATL clients that wait for the resource.
abbrev first_client : Node
first_client = record { addr = 0; sub = atl_subscriber 7 false }

abbrev second_client : Node
second_client = record { addr = 1; sub = atl_subscriber 8 true }

abbrev two_clients : Machine
two_clients = record {
  kind = agps_state_machine;
  state = pending;
  subscribers = second_client ∷ first_client ∷ [];
  servicer = servicer_type_agps;
  type = pos 1;
  apn = none;
  bearer = negsuc 0;
  enforce_single_subscriber = false;
  retries = 0;
  next_addr = 2;
  calls = [];
}

-- A Wi-Fi machine whose only client waits for the close.
abbrev closing_client : Machine
closing_client = record two_clients {
  state = releasing;
  subscribers = record { addr = 0; sub = wifi_subscriber 1 none none true } ∷ [];
}

-- A data call machine with one client.
abbrev data_call : Machine
data_call = record two_clients {
  kind = ds_state_machine;
  servicer = servicer_type_ext;
  subscribers = record { addr = 0; sub = ds_subscriber 5 false } ∷ [];
  retries = 3;
}

two_clients-IsWellFormed : IsWellFormed two_clients
unfolding has_addr is_inactive
two_clients-IsWellFormed = record {
  agps = refl;
  empty = refl;
  active = λ _. refl;
  distinct = (omega arith, refl, (omega arith, refl, tt));
}

closing_client-IsWellFormed : IsWellFormed closing_client
unfolding has_addr is_inactive
closing_client-IsWellFormed = record {
  agps = refl;
  empty = refl;
  active = λ h. cc h;
  distinct = (omega arith, refl, tt);
}

agps_on_rsrc_event-after_event_example :
    agps_on_rsrc_event quiet_env rsrc_granted two_clients
    ≡ ok tt (after_event pending rsrc_granted two_clients)
agps_on_rsrc_event-after_event_example =
    agps_on_rsrc_event-after_event quiet_env two_clients granted_final refl

subscribe_rsrc-after_subscribe_example :
    subscribe_rsrc quiet_env (atl_subscriber 9 false) two_clients
    ≡ ok tt (after_subscribe (atl_subscriber 9 false) two_clients)
unfolding comparable
subscribe_rsrc-after_subscribe_example =
    subscribe_rsrc-after_subscribe quiet_env (atl_subscriber 9 false) two_clients (refl, (refl, tt))
      two_clients-IsWellFormed

unsubscribe_rsrc-outcome_example :
    unsubscribe_rsrc quiet_env (wifi_subscriber 1 none none false) closing_client
    ≡ unsubscribe_outcome (wifi_subscriber 1 none none false) closing_client
unfolding comparable
unsubscribe_rsrc-outcome_example =
    unsubscribe_rsrc-outcome quiet_env (wifi_subscriber 1 none none false) closing_client
      closing_client-IsWellFormed (refl, tt) ((refl, tt), tt)

unsubscribe-fault_example : unsubscribe_rsrc quiet_env (atl_subscriber 7 false) two_clients ≡ fault
unfolding comparable split_first matches wait_for_close_complete id_of
unsubscribe-fault_example =
    unsubscribe-fault quiet_env (atl_subscriber 7 false) two_clients first_client second_client []
      two_clients-IsWellFormed (refl, (refl, tt)) ((refl, (refl, tt)), ((refl, (refl, tt)), tt))
      refl refl

-- A machine whose newest client is a BIT one without an IPv4 address.
abbrev bit_client : Node
bit_client = record { addr = 2; sub = bit_subscriber inaddr_none [] }

incomparable-fault_example :
    (subscribe_rsrc quiet_env
        (atl_subscriber inaddr_none false)
        (record two_clients { subscribers = bit_client ∷ first_client ∷ [] })
      ≡ fault)
    × (unsubscribe_rsrc quiet_env
          (atl_subscriber inaddr_none false)
          (record two_clients { subscribers = bit_client ∷ first_client ∷ [] })
        ≡ fault)
unfolding comparable id_of
incomparable-fault_example =
    incomparable-fault quiet_env (atl_subscriber inaddr_none false) bit_client (first_client ∷ [])
      refl (record two_clients { subscribers = bit_client ∷ first_client ∷ [] }) refl refl

notify_subscribers-removed_example :
    notify_subscribers (to_group broadcast_all rsrc_denied true) two_clients
    ≡ ok tt (told_and_removed broadcast_all rsrc_denied two_clients)
notify_subscribers-removed_example =
    notify_subscribers-removed broadcast_all denied_final two_clients

send_ds-outcome_example :
    send_ds quiet_env gps_request_agps_data_conn data_call
    ≡ data_call_outcome quiet_env
        (handle_of data_call)
        (pos 0)
        (requested gps_request_agps_data_conn data_call)
send_ds-outcome_example =
    send_ds-outcome quiet_env gps_request_agps_data_conn data_call refl (omega arith)

send_ds-retries_example : ReturnsFewRetries (send_ds quiet_env gps_request_agps_data_conn data_call)
send_ds-retries_example =
    send_ds-retries quiet_env gps_request_agps_data_conn data_call refl (omega arith)

-- A new machine, one client, and the grant.
abbrev new_machine : Machine
new_machine = new_agps_state_machine servicer_type_agps (pos 1) false

new_machine-IsWellFormed : IsWellFormed new_machine
unfolding new_agps_state_machine
new_machine-IsWellFormed = record { agps = refl; empty = refl; active = λ h. cc h; distinct = tt }

abbrev joined_machine : Machine
joined_machine = after_subscribe (atl_subscriber 7 false) new_machine

joined_machine-Step : Step quiet_env new_machine joined_machine
unfolding new_agps_state_machine
joined_machine-Step = subscribe_step (atl_subscriber 7 false) tt (
    subscribe_rsrc-after_subscribe quiet_env (atl_subscriber 7 false) new_machine tt
      new_machine-IsWellFormed)

-- The machine after the drop of its client: still pending, as the request is not taken back.
abbrev dropped_machine : Machine
dropped_machine = record joined_machine { subscribers = [] }

dropped_machine-Step : Step quiet_env joined_machine dropped_machine
unfolding drop_all_subscribers
dropped_machine-Step = dropped_step refl

Reach-IsLeft_example : IsWellFormed dropped_machine ⊎ IsDropped dropped_machine
unfolding joined_machine-Step dropped_machine-Step
Reach-IsLeft_example =
    Reach-IsLeft quiet_env servicer_type_agps (pos 1) false
      (one_more (one_more no_step joined_machine-Step) dropped_machine-Step)

-- The denial reaches both clients, newest first, and empties the list.
denied_run :
    agps_on_rsrc_event quiet_env rsrc_denied two_clients
    ≡ ok tt (record two_clients {
      state = released;
      subscribers = [];
      calls =
          atl_open_status 8 0 none (negsuc 0) (negsuc 0)
          ∷ atl_open_status 7 0 none (negsuc 0) (pos 1)
          ∷ [];
    })
unfolding agps_on_rsrc_event transition state_on_rsrc_event notify_subscribers search_remove find
    notify_subscriber in_group
denied_run = refl
