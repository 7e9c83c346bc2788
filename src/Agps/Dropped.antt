-- ===== src/Agps/Dropped.antt =====
-- The machine after `dropAllSubscribers`, which leaves its state as it is, and the calls made on it.
use android_device_samsung_d.Common.{
  ◌≡◌, refl, sym, ap, ◌∙◌, subst, ◌⊎◌, inl, inr, true, false, not, ◌&&◌, [], arith, if◌then◌else◌,
  is_nil,
}
use android_device_samsung_d.Agps.Equality.{matches, AllComparable, find_subscriber-matches}
use android_device_samsung_d.Agps.Events.{after_event}
use android_device_samsung_d.Agps.Joined.{added-Distinct, added-nonempty}
use android_device_samsung_d.Agps.Replies.{told}
use android_device_samsung_d.Agps.Request.{Env}
use android_device_samsung_d.Agps.Searches.{split_first}
use android_device_samsung_d.Agps.StateMachine.{unsubscribe_found, unsubscribe_rsrc}
use android_device_samsung_d.Agps.SubscriberList.{found_node}
use android_device_samsung_d.Agps.Subscribing.{
  told_caller, after_join, after_subscribe, any-active-added, added-kind,
}
use android_device_samsung_d.Agps.Types.{
  AgpsRsrcStatus, rsrc_granted, rsrc_released, rsrc_denied, Subscriber, AgpsState, released,
  acquired, pending, releasing, agps_state_machine, Machine, ok, and_then,
}
use android_device_samsung_d.Agps.WellFormed.{Distinct, IsWellFormed, after_close-IsWellFormed}

-- An AGNSS machine without subscribers, in any state.
pub record IsDropped (m : Machine) : Type 0 where
  pub agps : m.kind ≡ agps_state_machine
  pub none_left : m.subscribers ≡ []

IsDropped-nil : {m : Machine} → IsDropped m → is_nil m.subscribers ≡ true
IsDropped-nil d = ap is_nil d.none_left

IsDropped-Distinct : {m : Machine} → IsDropped m → Distinct m.next_addr m.subscribers
IsDropped-Distinct {m} d = subst (Distinct m.next_addr) (sym d.none_left) tt

IsDropped-after_event_at :
    (m : Machine) (state : AgpsState) (event : AgpsRsrcStatus)
    → IsDropped m
    → IsWellFormed (after_event state event m) ⊎ IsDropped (after_event state event m)
unfolding after_event told
IsDropped-after_event_at m pending rsrc_granted d =
    inr (record { agps = d.agps; none_left = d.none_left })
IsDropped-after_event_at m pending rsrc_denied d = inr (record { agps = d.agps; none_left = refl })
IsDropped-after_event_at m acquired rsrc_released d =
    inr (record { agps = d.agps; none_left = refl })
IsDropped-after_event_at m releasing rsrc_released d =
    inl (after_close-IsWellFormed rsrc_released m d.agps (IsDropped-Distinct d))
IsDropped-after_event_at m releasing rsrc_denied d =
    inl (after_close-IsWellFormed rsrc_denied m d.agps (IsDropped-Distinct d))
IsDropped-after_event_at m state event d = inr (record { agps = d.agps; none_left = d.none_left })

pub IsDropped-after_event :
    (event : AgpsRsrcStatus) (m : Machine)
    → IsDropped m
    → IsWellFormed (after_event m.state event m) ⊎ IsDropped (after_event m.state event m)
IsDropped-after_event event m d = IsDropped-after_event_at m m.state event d

dropped_join_at :
    (m : Machine) (s : Subscriber) (state : AgpsState)
    → IsDropped m
    → IsWellFormed (after_join state s m)
unfolding after_join told
dropped_join_at m s released d = record {
  agps = added-kind s m ∙ d.agps;
  empty = added-nonempty s m;
  active = λ _. any-active-added s m (IsDropped-nil d);
  distinct = added-Distinct s m (IsDropped-Distinct d);
}
dropped_join_at m s acquired d = record {
  agps = added-kind s (told_caller rsrc_granted s m) ∙ d.agps;
  empty = added-nonempty s (told_caller rsrc_granted s m);
  active = λ _. any-active-added s (told_caller rsrc_granted s m) (IsDropped-nil d);
  distinct = added-Distinct s (told_caller rsrc_granted s m) (IsDropped-Distinct d);
}
dropped_join_at m s pending d = record {
  agps = added-kind s m ∙ d.agps;
  empty = added-nonempty s m;
  active = λ _. any-active-added s m (IsDropped-nil d);
  distinct = added-Distinct s m (IsDropped-Distinct d);
}
dropped_join_at m s releasing d = record {
  agps = added-kind s m ∙ d.agps;
  empty = added-nonempty s m;
  active = λ _. any-active-added s m (IsDropped-nil d);
  distinct = added-Distinct s m (IsDropped-Distinct d);
}

-- The next subscription makes the machine well formed again.
pub dropped_after_subscribe :
    (s : Subscriber) (m : Machine) → IsDropped m → IsWellFormed (after_subscribe s m)
unfolding after_subscribe
dropped_after_subscribe s m d =
    subst IsWellFormed
      (sym
        (ap (λ b. if b then told_caller rsrc_denied s m else after_join m.state s m) (no_limit d)))
      (dropped_join_at m s m.state d)
  where
    no_limit : IsDropped m → (m.enforce_single_subscriber && not (is_nil m.subscribers)) ≡ false
    no_limit d = rw (IsDropped-nil d) (ground arith)

-- An unsubscription finds nothing.
pub dropped_unsubscribe_rsrc :
    (env : Env) (s : Subscriber) (m : Machine)
    → IsDropped m
    → AllComparable s m.subscribers
    → unsubscribe_rsrc env s m ≡ ok false m
unfolding unsubscribe_rsrc split_first
dropped_unsubscribe_rsrc env s m d c = rw (find_subscriber-matches s m c) (
    ap
      (λ ns.
        and_then (ok (found_node (split_first (λ n. matches n.sub s) ns)) m)
          (unsubscribe_found env))
      d.none_left)
