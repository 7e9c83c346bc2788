-- ===== src/Agps/Subscribing.antt =====
-- `addSubscriber` and `subscribeRsrc` against a specification.
use android_device_samsung_d.Common.{
  ◌+◌, ◌≡◌, refl, ap, ◌∙◌, inl, inr, true, false, not, ◌&&◌, Option, none, some, List, [], ◌∷◌,
  ◌++◌, arith, if◌then◌else◌, Bool-cases, any, is_nil, is_some,
}
use android_device_samsung_d.Agps.Broadcast.{on_notify-told}
use android_device_samsung_d.Agps.Equality.{
  matches, comparable, AllComparable, equals-matches, matches_self, comparable_self,
  find_subscriber-matches,
}
use android_device_samsung_d.Agps.Events.{send_rsrc_request-agps}
use android_device_samsung_d.Agps.Notify.{notify_rsrc_status}
use android_device_samsung_d.Agps.Replies.{told, IsFinal, granted_final, denied_final}
use android_device_samsung_d.Agps.Request.{Env}
use android_device_samsung_d.Agps.Searches.{
  split_first, is_active, is_some-split_first, request_for, send_agps-request,
}
use android_device_samsung_d.Agps.StateMachine.{state_on_rsrc_event, transition, subscribe_rsrc}
use android_device_samsung_d.Agps.SubscriberList.{
  to_group, to_subscriber, found_node, add_clone, add_subscriber,
}
use android_device_samsung_d.Agps.Subscribers.{is_inactive, clone, deref, in_group}
use android_device_samsung_d.Agps.Types.{
  AgpsRsrcStatus, rsrc_subscribe, rsrc_granted, rsrc_denied, gps_request_agps_data_conn, Subscriber,
  bit_subscriber, atl_subscriber, wifi_subscriber, ds_subscriber, Node, caller, broadcast_all,
  AgpsState, released, acquired, pending, releasing, agps_state_machine, Machine, ok, ◌>>=◌, modify,
}
use android_device_samsung_d.Agps.WellFormed.{is_released, IsWellFormed}

-- The caller's object is cloned into the list unless a subscriber there matches it.
unfoldable pub added : Subscriber → Machine → Machine
added s m = if any (λ n. matches n.sub s) m.subscribers then m else record m {
  subscribers = record { addr = m.next_addr; sub = clone s } ∷ m.subscribers;
  next_addr = m.next_addr + 1;
}

-- A notification to the caller's own object, which stands in no list.
abbrev pub told_caller : AgpsRsrcStatus → Subscriber → Machine → Machine
told_caller status s m = told status (record { addr = 0; sub = s } ∷ []) m

-- The effect of a subscription that is not refused, by the state that it meets.
unfoldable pub after_join : AgpsState → Subscriber → Machine → Machine
after_join released s m =
    let joined = added s m in
    record joined {
      state = pending;
      calls = joined.calls ++ request_for gps_request_agps_data_conn joined ∷ [];
    }
after_join acquired s m = record (added s (told_caller rsrc_granted s m)) { state = acquired }
after_join state s m = record (added s m) { state = state }

-- The effect of `subscribeRsrc`: where one subscriber is the limit, another is denied.
unfoldable pub after_subscribe : Subscriber → Machine → Machine
unfolding after_join
after_subscribe s m =
    if m.enforce_single_subscriber && not (is_nil m.subscribers)
    then told_caller rsrc_denied s m
    else after_join m.state s m

pub add_subscriber-added :
    (s : Subscriber) (m : Machine)
    → AllComparable s m.subscribers
    → add_subscriber (caller s) m ≡ ok tt (added s m)
unfolding add_subscriber added deref add_clone
add_subscriber-added s m h =
    rw (find_subscriber-matches s m h, ← is_some-split_first (λ n. matches n.sub s) m.subscribers)
      (go (found_node (split_first (λ n. matches n.sub s) m.subscribers)))
  where
    go :
        (found : Option Node)
        → add_clone (caller s) found m
          ≡ ok tt (
              if is_some found then m else record m {
                subscribers = record { addr = m.next_addr; sub = clone s } ∷ m.subscribers;
                next_addr = m.next_addr + 1;
              })
    go none = refl
    go (some n) = refl

-- The clone that a subscription adds is active.
clone_active : (s : Subscriber) → is_inactive (clone s) ≡ false
unfolding is_inactive clone
clone_active (bit_subscriber id v6) = refl
clone_active (atl_subscriber id compatible) = refl
clone_active (wifi_subscriber id ssid password inactive) = refl
clone_active (ds_subscriber id inactive) = refl

pub notify_caller :
    {status : AgpsRsrcStatus} (s : Subscriber) (m : Machine)
    → IsFinal status
    → notify_rsrc_status (to_subscriber (caller s) status false) s m
      ≡ ok true (told_caller status s m)
unfolding notify_rsrc_status
notify_caller s m final =
    rw (equals-matches s s m (comparable_self s), matches_self s)
      (on_notify-told (record { addr = 0; sub = s }) m final)

notify_refused :
    (s : Subscriber) (m : Machine)
    → notify_rsrc_status (to_group broadcast_all rsrc_denied true) s m
      ≡ ok true (told_caller rsrc_denied s m)
unfolding notify_rsrc_status in_group
notify_refused s m = on_notify-told (record { addr = 0; sub = s }) m denied_final

-- In the released state a well-formed list is empty, so the new subscriber is alone and active.
pub any-active-added :
    (s : Subscriber) (m : Machine)
    → is_nil m.subscribers ≡ true
    → any is_active (added s m).subscribers ≡ true
unfolding added
any-active-added s m e = go m.subscribers e
  where
    go :
        (ns : List Node)
        → is_nil ns ≡ true
        → any is_active
            (if any (λ n. matches n.sub s) ns then m else record m {
              subscribers = record { addr = m.next_addr; sub = clone s } ∷ ns;
              next_addr = m.next_addr + 1;
            }).subscribers
          ≡ true
    go [] h = rw (clone_active s)
    go (n ∷ ns) h = cc h

pub added-kind : (s : Subscriber) (m : Machine) → (added s m).kind ≡ m.kind
unfolding added
added-kind s m = ground arith

module _ (env : Env) (s : Subscriber) (m : Machine) (comparable : AllComparable s m.subscribers)
    (agps : m.kind ≡ agps_state_machine)
    (empty : is_released m.state ≡ true → is_nil m.subscribers ≡ true) where
  join-after_join :
      (state : AgpsState)
      → m.state ≡ state
      → (state_on_rsrc_event env state rsrc_subscribe (caller s) >>= λ next.
            modify λ after. record after { state = next })
          m
        ≡ ok tt (after_join state s m)
  unfolding state_on_rsrc_event after_join told deref added
  join-after_join released e = rw (add_subscriber-added s m comparable) (
      rw (send_rsrc_request-agps env gps_request_agps_data_conn (added s m) (added-kind s m ∙ agps))
        (rw (send_agps-request env (added s m) (any-active-added s m (empty (ap is_released e))))))
  join-after_join acquired e =
      rw (notify_caller s m granted_final)
        (rw (add_subscriber-added s (told_caller rsrc_granted s m) comparable))
  join-after_join pending e = rw (add_subscriber-added s m comparable)
  join-after_join releasing e = rw (add_subscriber-added s m comparable)

  pub subscribe_rsrc-joined : subscribe_rsrc env s m ≡ ok tt (after_subscribe s m)
  unfolding subscribe_rsrc after_subscribe transition
  subscribe_rsrc-joined =
      elim (Bool-cases (m.enforce_single_subscriber && not (is_nil m.subscribers))) [
        | inl e ↦ rw e (rw (notify_refused s m))
        | inr e ↦ rw e (join-after_join m.state refl)
      ]

-- On a well-formed machine, none of whose subscribers is a BIT one with the address INADDR_NONE that
-- has the number of `s` while `s` is of another class (`AllComparable`), a subscription has exactly the
-- specified effect: a second subscriber
-- is denied where one is the limit, else the caller joins the list (once), is granted the resource at
-- once if it is there, and the resource is requested if it was not.
pub subscribe_rsrc-after_subscribe :
    (env : Env) (s : Subscriber) (m : Machine)
    → AllComparable s m.subscribers
    → IsWellFormed m
    → subscribe_rsrc env s m ≡ ok tt (after_subscribe s m)
subscribe_rsrc-after_subscribe env s m comparable w =
    subscribe_rsrc-joined env s m comparable w.agps (λ e. w.empty ∙ e)
