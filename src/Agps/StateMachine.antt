-- ===== src/Agps/StateMachine.antt =====
-- The transitions of the four states and the entry points of `AgpsStateMachine` and
-- `DSStateMachine` (gps/loc_api/libloc_api_50001/loc_eng_agps.cpp).
use android_device_samsung_d.Common.{
  zero, Bool, true, false, not, ◌&&◌, Option, none, some, if◌then◌else◌, is_nil, ℤ, pos,
}
use android_device_samsung_d.Agps.Notify.{inform_status, notify_rsrc_status}
use android_device_samsung_d.Agps.Request.{Env, send_rsrc_request}
use android_device_samsung_d.Agps.SubscriberList.{
  to_group, to_subscriber, notify_subscribers, find_subscriber, add_subscriber, has_subscribers,
  has_active_subscribers,
}
use android_device_samsung_d.Agps.Subscribers.{wait_for_close_complete, deref, mark_inactive_at}
use android_device_samsung_d.Agps.Types.{
  AgpsRsrcStatus, rsrc_subscribe, rsrc_unsubscribe, rsrc_granted, rsrc_released, rsrc_denied,
  rsrc_status_max, gps_request_agps_data_conn, gps_release_agps_data_conn, Subscriber,
  wifi_subscriber, ds_subscriber, Node, Ref, null, caller, listed, broadcast_all, broadcast_active,
  broadcast_inactive, AgpsState, released, acquired, pending, releasing, Cmd, pure, ◌>>=◌, ◌>>◌,
  get, modify,
}

is_zero : ℤ → Bool
is_zero (pos zero) = true
is_zero _ = false

same_state : AgpsState → AgpsState → Bool
same_state released released = true
same_state acquired acquired = true
same_state pending pending = true
same_state releasing releasing = true
same_state _ _ = false

mark_ref : Ref → Cmd (Unit {0})
mark_ref (listed a) = modify λ m. record m { subscribers = mark_inactive_at a m.subscribers }
mark_ref _ = pure tt

-- `subscriber->setInactive()`, on the object `s` that the pointer leads to.
unfoldable pub set_inactive : Ref → Subscriber → Cmd (Unit {0})
unfolding mark_ref
set_inactive r (wifi_subscriber id ssid password inactive) = mark_ref r
set_inactive r (ds_subscriber id inactive) = mark_ref r >> inform_status rsrc_unsubscribe id
set_inactive r _ = pure tt

-- The common start of RSRC_UNSUBSCRIBE: wait for the close, or notify and delete at once.
unfoldable pub detach : Ref → Cmd (Unit {0})
detach r = do
  s ← deref r
  if wait_for_close_complete s
      then set_inactive r s
      else notify_subscribers (to_subscriber r rsrc_unsubscribe true)

module _ (env : Env) where
  -- `AgpsReleasedState::onRsrcEvent`.
  unfoldable pub released_on_rsrc_event : AgpsRsrcStatus → Ref → Cmd AgpsState
  unfolding is_zero
  released_on_rsrc_event rsrc_subscribe r = do
    add_subscriber r
    ret ← send_rsrc_request env gps_request_agps_data_conn
    pure (if is_zero ret then pending else released)
  released_on_rsrc_event rsrc_unsubscribe r = do
    s ← deref r
    notify_rsrc_status (to_subscriber r rsrc_unsubscribe false) s
    pure released
  released_on_rsrc_event _ r = pure released

  -- The common end of RSRC_UNSUBSCRIBE in the pending and the acquired state.
  unfoldable pub release_if_idle : AgpsState → Cmd AgpsState
  release_if_idle stay = do
    some_left ← has_subscribers
    if not some_left then send_rsrc_request env gps_release_agps_data_conn >> pure released else do
      active_left ← has_active_subscribers
      if not active_left
          then send_rsrc_request env gps_release_agps_data_conn >> pure releasing
          else pure stay

  -- `AgpsPendingState::onRsrcEvent`.
  unfoldable pub pending_on_rsrc_event : AgpsRsrcStatus → Ref → Cmd AgpsState
  unfolding release_if_idle
  pending_on_rsrc_event rsrc_subscribe r = add_subscriber r >> pure pending
  pending_on_rsrc_event rsrc_unsubscribe r = detach r >> release_if_idle pending
  pending_on_rsrc_event rsrc_granted r = do
    notify_subscribers (to_group broadcast_active rsrc_granted false)
    pure acquired
  pending_on_rsrc_event rsrc_released r = pure pending
  pending_on_rsrc_event rsrc_denied r = do
    notify_subscribers (to_group broadcast_all rsrc_denied true)
    pure released
  pending_on_rsrc_event rsrc_status_max r = pure pending

  -- `AgpsAcquiredState::onRsrcEvent`.
  unfoldable pub acquired_on_rsrc_event : AgpsRsrcStatus → Ref → Cmd AgpsState
  unfolding release_if_idle
  acquired_on_rsrc_event rsrc_subscribe r = do
    s ← deref r
    notify_rsrc_status (to_subscriber r rsrc_granted false) s
    add_subscriber r
    pure acquired
  acquired_on_rsrc_event rsrc_unsubscribe r = detach r >> release_if_idle acquired
  acquired_on_rsrc_event rsrc_released r = do
    notify_subscribers (to_group broadcast_all rsrc_released true)
    pure released
  acquired_on_rsrc_event _ r = pure acquired

  unfoldable pub after_release : AgpsRsrcStatus → Cmd AgpsState
  after_release event = do
    notify_subscribers (to_group broadcast_inactive event true)
    active_left ← has_active_subscribers
    if active_left
        then send_rsrc_request env gps_request_agps_data_conn >> pure pending
        else pure released

  -- `AgpsReleasingState::onRsrcEvent`.
  unfoldable pub releasing_on_rsrc_event : AgpsRsrcStatus → Ref → Cmd AgpsState
  unfolding after_release
  releasing_on_rsrc_event rsrc_subscribe r = add_subscriber r >> pure releasing
  releasing_on_rsrc_event rsrc_unsubscribe r = do
    detach r
    some_left ← has_subscribers
    pure (if some_left then releasing else released)
  releasing_on_rsrc_event rsrc_denied r = after_release rsrc_denied
  releasing_on_rsrc_event rsrc_released r = after_release rsrc_released
  releasing_on_rsrc_event _ r = pure releasing

  -- The virtual call `mStatePtr->onRsrcEvent(event, data)`.
  unfoldable pub state_on_rsrc_event : AgpsState → AgpsRsrcStatus → Ref → Cmd AgpsState
  unfolding released_on_rsrc_event pending_on_rsrc_event acquired_on_rsrc_event
      releasing_on_rsrc_event
  state_on_rsrc_event released = released_on_rsrc_event
  state_on_rsrc_event pending = pending_on_rsrc_event
  state_on_rsrc_event acquired = acquired_on_rsrc_event
  state_on_rsrc_event releasing = releasing_on_rsrc_event

  -- `mStatePtr = mStatePtr->onRsrcEvent(event, data)`.
  unfoldable pub transition : AgpsRsrcStatus → Ref → Cmd (Unit {0})
  unfolding state_on_rsrc_event
  transition event r = do
    m ← get
    next ← state_on_rsrc_event m.state event r
    modify (λ after. record after { state = next })

  -- `AgpsStateMachine::onRsrcEvent`.
  unfoldable pub agps_on_rsrc_event : AgpsRsrcStatus → Cmd (Unit {0})
  agps_on_rsrc_event rsrc_granted = transition rsrc_granted null
  agps_on_rsrc_event rsrc_released = transition rsrc_released null
  agps_on_rsrc_event rsrc_denied = transition rsrc_denied null
  agps_on_rsrc_event _ = pure tt

  -- `DSStateMachine::onRsrcEvent`: a release that changes no state is taken for a denial.
  unfoldable pub ds_on_rsrc_event : AgpsRsrcStatus → Cmd (Unit {0})
  unfolding same_state
  ds_on_rsrc_event rsrc_granted = transition rsrc_granted null
  ds_on_rsrc_event rsrc_released = do
    before ← get
    transition rsrc_released null
    after ← get
    if same_state after.state before.state then transition rsrc_denied null else pure tt
  ds_on_rsrc_event rsrc_denied = transition rsrc_denied null
  ds_on_rsrc_event _ = pure tt

  -- `subscribeRsrc`.
  unfoldable pub subscribe_rsrc : Subscriber → Cmd (Unit {0})
  subscribe_rsrc s = do
    m ← get
    if m.enforce_single_subscriber && not (is_nil m.subscribers)
        then notify_rsrc_status (to_group broadcast_all rsrc_denied true) s >> pure tt
        else transition rsrc_subscribe (caller s)

  unfoldable pub unsubscribe_found : Option Node → Cmd Bool
  unsubscribe_found none = pure false
  unsubscribe_found (some n) = transition rsrc_unsubscribe (listed n.addr) >> pure true

  -- `unsubscribeRsrc`.
  unfoldable pub unsubscribe_rsrc : Subscriber → Cmd Bool
  unfolding unsubscribe_found
  unsubscribe_rsrc s = do
    found ← find_subscriber (to_subscriber (caller s) rsrc_status_max false)
    unsubscribe_found found
