-- ===== src/Agps/Events.antt =====
-- What an event from the connectivity service does to an `AgpsStateMachine`: the specification of
-- `onRsrcEvent` and the proof that the four states implement it.
use android_device_samsung_d.Common.{
  ◌≡◌, refl, ap, ◌∙◌, inl, inr, true, List, [], ◌∷◌, ◌++◌, if◌then◌else◌, Bool-cases, any,
}
use android_device_samsung_d.Agps.Broadcast.{
  members, others, told_and_removed, notify_subscribers-removed, notify_subscribers-kept,
}
use android_device_samsung_d.Agps.Replies.{
  told, IsFinal, granted_final, released_final, denied_final,
}
use android_device_samsung_d.Agps.Request.{Env, send_agps, send_rsrc_request}
use android_device_samsung_d.Agps.Searches.{
  is_active, has_active_subscribers-any, request_for, send_agps-request,
}
use android_device_samsung_d.Agps.StateMachine.{
  after_release, state_on_rsrc_event, transition, agps_on_rsrc_event,
}
use android_device_samsung_d.Agps.SubscriberList.{to_group, notify_subscribers}
use android_device_samsung_d.Agps.Subscribers.{is_inactive, in_group}
use android_device_samsung_d.Agps.Types.{
  AgpsRsrcStatus, rsrc_granted, rsrc_released, rsrc_denied, AgpsStatusValue,
  gps_request_agps_data_conn, Node, null, broadcast_all, broadcast_active, broadcast_inactive,
  AgpsState, released, acquired, pending, releasing, agps_state_machine, Machine, ok, ◌>>=◌, modify,
}

-- After a release in the releasing state: the inactive subscribers are told and dropped, and the
-- resource is requested again for those that subscribed meanwhile.
unfoldable pub after_close : AgpsRsrcStatus → Machine → Machine
after_close status m =
    let left = told_and_removed broadcast_inactive status m in
    if any is_active m.subscribers
    then record left {
      state = pending;
      calls = left.calls ++ request_for gps_request_agps_data_conn left ∷ [];
    }
    else record left { state = released }

-- After an event in a state. An event that the state does not expect changes nothing.
unfoldable pub after_event : AgpsState → AgpsRsrcStatus → Machine → Machine
unfolding after_close
after_event pending rsrc_granted m =
    record (told rsrc_granted (members broadcast_active m.subscribers) m) { state = acquired }
after_event pending rsrc_denied m = record (told rsrc_denied m.subscribers m) {
  state = released;
  subscribers = [];
}
after_event acquired rsrc_released m = record (told rsrc_released m.subscribers m) {
  state = released;
  subscribers = [];
}
after_event releasing rsrc_released m = after_close rsrc_released m
after_event releasing rsrc_denied m = after_close rsrc_denied m
after_event state _ m = record m { state = state }

pub members-all : (ns : List Node) → members broadcast_all ns ≡ ns
unfolding members in_group
members-all [] = refl
members-all (n ∷ ns) = ap (λ t. n ∷ t) (members-all ns)

pub others-all : (ns : List Node) → others broadcast_all ns ≡ []
unfolding others in_group
others-all [] = refl
others-all (n ∷ ns) = others-all ns

pub any-active-others :
    (ns : List Node) → any is_active (others broadcast_inactive ns) ≡ any is_active ns
unfolding others in_group
any-active-others [] = refl
any-active-others (n ∷ ns) = elim (Bool-cases (is_inactive n.sub)) [
  | inl e ↦ rw e (any-active-others ns)
  | inr e ↦ rw e (rw e)
]

pub send_rsrc_request-agps :
    (env : Env) (action : AgpsStatusValue) (m : Machine)
    → m.kind ≡ agps_state_machine
    → send_rsrc_request env action m ≡ send_agps env action m
unfolding send_rsrc_request
send_rsrc_request-agps env action m e = rw e

-- A broadcast to all that deletes.
pub notify_all :
    {status : AgpsRsrcStatus} (m : Machine)
    → IsFinal status
    → notify_subscribers (to_group broadcast_all status true) m
      ≡ ok tt (record (told status m.subscribers m) { subscribers = [] })
notify_all {status} m final = rw (
  notify_subscribers-removed broadcast_all final m,
  members-all m.subscribers,
  others-all m.subscribers,
)

module _ (env : Env) where
  after_release-close :
      {status : AgpsRsrcStatus} (m : Machine)
      → IsFinal status
      → m.kind ≡ agps_state_machine
      → (after_release env status >>= λ next. modify λ after. record after { state = next }) m
        ≡ ok tt (after_close status m)
  unfolding after_release after_close told
  after_release-close {status} m final agps =
      let left = told_and_removed broadcast_inactive status m in
      rw (notify_subscribers-removed broadcast_inactive final m) (
        rw (has_active_subscribers-any left) (
          rw (any-active-others m.subscribers) (elim (Bool-cases (any is_active m.subscribers)) [
            | inl e ↦ rw e (
                rw (send_rsrc_request-agps env gps_request_agps_data_conn left agps)
                  (rw (send_agps-request env left (any-active-others m.subscribers ∙ e))))
            | inr e ↦ rw e
          ])))

  transition-after_event :
      {event : AgpsRsrcStatus} (state : AgpsState) (m : Machine)
      → IsFinal event
      → m.kind ≡ agps_state_machine
      → (state_on_rsrc_event env state event null >>= λ next.
            modify λ after. record after { state = next })
          m
        ≡ ok tt (after_event state event m)
  unfolding state_on_rsrc_event after_event
  transition-after_event pending m granted_final agps =
      rw (notify_subscribers-kept broadcast_active granted_final m)
  transition-after_event pending m released_final agps = refl
  transition-after_event pending m denied_final agps = rw (notify_all m denied_final)
  transition-after_event acquired m granted_final agps = refl
  transition-after_event acquired m released_final agps = rw (notify_all m released_final)
  transition-after_event acquired m denied_final agps = refl
  transition-after_event releasing m granted_final agps = refl
  transition-after_event releasing m released_final agps = after_release-close m released_final agps
  transition-after_event releasing m denied_final agps = after_release-close m denied_final agps
  transition-after_event released m granted_final agps = refl
  transition-after_event released m released_final agps = refl
  transition-after_event released m denied_final agps = refl

  -- On an `AgpsStateMachine`, each final status from the connectivity service has exactly the
  -- specified effect, in every state: it ends, without a fault, in the specified machine.
  pub agps_on_rsrc_event-after_event :
      {event : AgpsRsrcStatus} (m : Machine)
      → IsFinal event
      → m.kind ≡ agps_state_machine
      → agps_on_rsrc_event env event m ≡ ok tt (after_event m.state event m)
  unfolding agps_on_rsrc_event transition
  agps_on_rsrc_event-after_event m granted_final agps =
      transition-after_event m.state m granted_final agps
  agps_on_rsrc_event-after_event m released_final agps =
      transition-after_event m.state m released_final agps
  agps_on_rsrc_event-after_event m denied_final agps =
      transition-after_event m.state m denied_final agps
