-- ===== src/Agps/Defects.antt =====
-- The reads of the state machine that go wrong: the deleted receiver of a notification, and the cast
-- in `BITSubscriber::equals`.
use android_device_samsung_d.Common.{
  ◌≡◌, ap, ◌∙◌, true, false, not, ◌&&◌, some, List, ◌∷◌, arith, if◌then◌else◌, is_nil,
}
use android_device_samsung_d.Agps.Equality.{matches, comparable, AllComparable}
use android_device_samsung_d.Agps.Notify.{notify_rsrc_status, has_subscriber}
use android_device_samsung_d.Agps.Replies.{told, granted_final}
use android_device_samsung_d.Agps.Request.{Env}
use android_device_samsung_d.Agps.Searches.{split_first}
use android_device_samsung_d.Agps.StateMachine.{
  state_on_rsrc_event, transition, subscribe_rsrc, unsubscribe_rsrc,
}
use android_device_samsung_d.Agps.SubscriberList.{
  to_group, to_subscriber, find, found_node, search_list, find_subscriber, add_subscriber,
}
use android_device_samsung_d.Agps.Subscribers.{wait_for_close_complete, equals, deref}
use android_device_samsung_d.Agps.Subscribing.{told_caller, notify_caller}
use android_device_samsung_d.Agps.Types.{
  rsrc_subscribe, rsrc_granted, rsrc_denied, rsrc_status_max, Subscriber, bit_subscriber,
  atl_subscriber, wifi_subscriber, ds_subscriber, Node, caller, broadcast_all, AgpsState, released,
  acquired, pending, releasing, Machine, fault, pure, and_then, ◌>>◌,
}
use android_device_samsung_d.Agps.Unsubscribe.{MutuallyComparable, unsubscribe_rsrc-outcome}
use android_device_samsung_d.Agps.Unsubscribing.{leave, unsubscribe_outcome}
use android_device_samsung_d.Agps.WellFormed.{IsWellFormed}

-- An ATL or BIT subscriber that unsubscribes while another subscriber is in the list is deleted, and
-- then read: `notifySubscribers` goes round its loop again and compares the next subscriber with the
-- deleted receiver of the notification. The machine is well formed and all its subscribers can be
-- compared; `n` is the subscriber that the search finds, and `other ∷ rest` the list without it.
pub unsubscribe-fault :
    (env : Env) (s : Subscriber) (m : Machine) (n other : Node) (rest : List Node)
    → IsWellFormed m
    → AllComparable s m.subscribers
    → MutuallyComparable m.subscribers m.subscribers
    → split_first (λ x. matches x.sub s) m.subscribers ≡ some (n, other ∷ rest)
    → wait_for_close_complete n.sub ≡ false
    → unsubscribe_rsrc env s m ≡ fault
unfolding unsubscribe_outcome leave
unsubscribe-fault env s m n other rest w c cs e now =
    unsubscribe_rsrc-outcome env s m w c cs ∙ rw e (rw now)

equals-fault : (s t : Subscriber) (m : Machine) → comparable s t ≡ false → equals s t m ≡ fault
unfolding equals comparable
equals-fault (bit_subscriber id v6) (bit_subscriber other v6') m h = cc h
equals-fault (bit_subscriber id v6) (atl_subscriber other compatible) m h = ground arith
equals-fault (bit_subscriber id v6) (wifi_subscriber other ssid password inactive) m h =
    ground arith
equals-fault (bit_subscriber id v6) (ds_subscriber other inactive) m h = ground arith
equals-fault (atl_subscriber id compatible) t m h = cc h
equals-fault (wifi_subscriber id ssid password inactive) t m h = cc h
equals-fault (ds_subscriber id inactive) t m h = cc h

module _ (env : Env) (s : Subscriber) (n : Node) (rest : List Node)
    (alien : comparable n.sub s ≡ false) where
  find-fault :
      (m : Machine)
      → find (has_subscriber (to_subscriber (caller s) rsrc_status_max false)) (n ∷ rest) m ≡ fault
  unfolding find has_subscriber
  find-fault m = rw (equals-fault n.sub s m alien)

  find_subscriber-fault :
      (m : Machine)
      → m.subscribers ≡ n ∷ rest
      → find_subscriber (to_subscriber (caller s) rsrc_status_max false) m ≡ fault
  unfolding find_subscriber search_list
  find_subscriber-fault m e =
      ap
        (λ ns.
          and_then (find (has_subscriber (to_subscriber (caller s) rsrc_status_max false)) ns m)
            (λ found. pure (found_node found)))
        e
      ∙ rw (find-fault m)

  add_subscriber-fault :
      (m : Machine) → m.subscribers ≡ n ∷ rest → add_subscriber (caller s) m ≡ fault
  unfolding add_subscriber
  add_subscriber-fault m e = rw (find_subscriber-fault m e)

  subscribed-fault :
      (state : AgpsState) (m : Machine)
      → m.subscribers ≡ n ∷ rest
      → state_on_rsrc_event env state rsrc_subscribe (caller s) m ≡ fault
  unfolding state_on_rsrc_event deref told
  subscribed-fault released m e = rw (add_subscriber-fault m e)
  subscribed-fault pending m e = rw (add_subscriber-fault m e)
  subscribed-fault releasing m e = rw (add_subscriber-fault m e)
  subscribed-fault acquired m e =
      rw (notify_caller s m granted_final)
        (rw (add_subscriber-fault (told_caller rsrc_granted s m) e))

  subscribe_rsrc-transition :
      (m : Machine)
      → m.enforce_single_subscriber ≡ false
      → subscribe_rsrc env s m ≡ transition env rsrc_subscribe (caller s) m
  unfolding subscribe_rsrc
  subscribe_rsrc-transition m single =
      ap
        (λ b.
          (if b && not (is_nil m.subscribers)
              then notify_rsrc_status (to_group broadcast_all rsrc_denied true) s >> pure tt
              else transition env rsrc_subscribe (caller s))
            m)
        single

  -- Where the newest subscriber is a BIT one with the address INADDR_NONE, and a client of another
  -- class has the same number, subscribing and unsubscribing that client read an object as one of a
  -- class that it is not of: `BITSubscriber::equals` casts its argument. The machine is one without
  -- the limit of a single subscriber, in any state.
  pub incomparable-fault :
      (m : Machine)
      → m.subscribers ≡ n ∷ rest
      → m.enforce_single_subscriber ≡ false
      → (subscribe_rsrc env s m ≡ fault) × (unsubscribe_rsrc env s m ≡ fault)
  unfolding unsubscribe_rsrc transition
  incomparable-fault m e single = (
    subscribe_rsrc-transition m single ∙ rw (subscribed-fault m.state m e),
    rw (find_subscriber-fault m e),
  )
