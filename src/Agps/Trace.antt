-- ===== src/Agps/Trace.antt =====
-- The machines that are reached from a new `AgpsStateMachine`.
use android_device_samsung_d.Common.{
  ◌≡◌, refl, sym, ap, ◌∙◌, subst, ◌⊎◌, inl, inr, Bool, true, false, not, ◌&&◌, is_nil, ℤ,
}
use android_device_samsung_d.Agps.Construction.{new_agps_state_machine, drop_all_subscribers}
use android_device_samsung_d.Agps.Departed.{Leaves, LeavesWell, Leaves-ok, leave-LeavesWell}
use android_device_samsung_d.Agps.Dropped.{
  IsDropped, IsDropped-after_event, dropped_after_subscribe, dropped_unsubscribe_rsrc,
}
use android_device_samsung_d.Agps.Equality.{matches, AllComparable}
use android_device_samsung_d.Agps.Events.{agps_on_rsrc_event-after_event}
use android_device_samsung_d.Agps.Found.{split_first-FoundBy}
use android_device_samsung_d.Agps.Joined.{after_subscribe-IsWellFormed}
use android_device_samsung_d.Agps.Replies.{IsFinal, granted_final, released_final, denied_final}
use android_device_samsung_d.Agps.Request.{Env}
use android_device_samsung_d.Agps.Searches.{split_first}
use android_device_samsung_d.Agps.StateMachine.{
  agps_on_rsrc_event, subscribe_rsrc, unsubscribe_rsrc,
}
use android_device_samsung_d.Agps.Subscribing.{
  after_subscribe, subscribe_rsrc-joined, subscribe_rsrc-after_subscribe,
}
use android_device_samsung_d.Agps.Types.{
  AgpsRsrcStatus, rsrc_subscribe, rsrc_unsubscribe, rsrc_granted, rsrc_released, rsrc_denied,
  rsrc_status_max, ServicerType, Subscriber, agps_state_machine, Machine, ok,
}
use android_device_samsung_d.Agps.Unsubscribe.{MutuallyComparable, unsubscribe_rsrc-outcome}
use android_device_samsung_d.Agps.Unsubscribing.{unsubscribe_outcome}
use android_device_samsung_d.Agps.WellFormed.{IsWellFormed, after_event-IsWellFormed}

-- The calls that the location engine makes on a machine, with what they are given: the events, the
-- subscriptions, and the drop of all subscribers when the modem restarts. A call that faults is no
-- step, and a client is given whose comparison with the subscribers of the list reads no object of
-- another class.
pub data Step (env : Env) (m n : Machine) : Type 0 where
  event_step : (e : AgpsRsrcStatus) → agps_on_rsrc_event env e m ≡ ok tt n → Step env m n
  subscribe_step :
      (s : Subscriber)
      → AllComparable s m.subscribers
      → subscribe_rsrc env s m ≡ ok tt n
      → Step env m n
  unsubscribe_step :
      (s : Subscriber) (found : Bool)
      → AllComparable s m.subscribers
      → MutuallyComparable m.subscribers m.subscribers
      → unsubscribe_rsrc env s m ≡ ok found n
      → Step env m n
  dropped_step : drop_all_subscribers m ≡ ok tt n → Step env m n

abbrev pub is_drop : {env : Env} {m n : Machine} → Step env m n → Bool
is_drop (dropped_step h) = true
is_drop _ = false

-- Sequences of calls: whether no subscribers were dropped, and the machine that is left.
pub data Reach (env : Env) (m : Machine) : Bool → Machine → Type 0 where
  no_step : Reach env m true m
  one_more :
      {kept : Bool} {n k : Machine}
      → Reach env m kept n
      → (st : Step env n k) → Reach env m (kept && not (is_drop st)) k

-- What the calls leave: a well-formed machine, or, if subscribers were dropped, possibly one without
-- subscribers in a state that has some otherwise.
abbrev pub IsLeft : Bool → Machine → Type 0
IsLeft true m = IsWellFormed m
IsLeft false m = IsWellFormed m ⊎ IsDropped m

module _ (env : Env) where
  expected-LeavesWell :
      {e : AgpsRsrcStatus} (m : Machine)
      → IsFinal e
      → IsWellFormed m
      → LeavesWell (agps_on_rsrc_event env e m)
  expected-LeavesWell {e} m final w =
      subst LeavesWell (sym (agps_on_rsrc_event-after_event env m final w.agps))
        (after_event-IsWellFormed e m w)

  outcome-LeavesWell :
      (s : Subscriber) (m : Machine) → IsWellFormed m → LeavesWell (unsubscribe_outcome s m)
  unfolding unsubscribe_outcome
  outcome-LeavesWell s m w =
      leave-LeavesWell s m (split_first (λ n. matches n.sub s) m.subscribers) w
        (split_first-FoundBy (λ n. matches n.sub s) m.next_addr m.subscribers w.distinct)

  event-LeavesWell :
      (e : AgpsRsrcStatus) (m : Machine) → IsWellFormed m → LeavesWell (agps_on_rsrc_event env e m)
  event-LeavesWell rsrc_granted m w = expected-LeavesWell m granted_final w
  event-LeavesWell rsrc_released m w = expected-LeavesWell m released_final w
  event-LeavesWell rsrc_denied m w = expected-LeavesWell m denied_final w
  event-LeavesWell rsrc_subscribe m w = unfold agps_on_rsrc_event in w
  event-LeavesWell rsrc_unsubscribe m w = unfold agps_on_rsrc_event in w
  event-LeavesWell rsrc_status_max m w = unfold agps_on_rsrc_event in w

  drop_all_subscribers-IsDropped :
      {n : Machine} (m : Machine)
      → m.kind ≡ agps_state_machine
      → drop_all_subscribers m ≡ ok tt n
      → IsDropped n
  unfolding drop_all_subscribers
  drop_all_subscribers-IsDropped m agps h =
      Leaves-ok IsDropped {r = drop_all_subscribers m} (record { agps = agps; none_left = refl }) h

  -- Each call but a drop keeps the invariant.
  Step-IsWellFormed :
      {m n : Machine} → IsWellFormed m → (st : Step env m n) → IsLeft (not (is_drop st)) n
  Step-IsWellFormed {m} w (event_step e h) = Leaves-ok IsWellFormed (event-LeavesWell e m w) h
  Step-IsWellFormed {m} w (subscribe_step s c h) =
      Leaves-ok IsWellFormed {r = ok tt (after_subscribe s m)} (after_subscribe-IsWellFormed s m w)
        (sym (subscribe_rsrc-after_subscribe env s m c w) ∙ h)
  Step-IsWellFormed {m} w (unsubscribe_step s found c cs h) =
      Leaves-ok IsWellFormed {r = unsubscribe_outcome s m} (outcome-LeavesWell s m w)
        (sym (unsubscribe_rsrc-outcome env s m w c cs) ∙ h)
  Step-IsWellFormed {m} w (dropped_step h) = inr (drop_all_subscribers-IsDropped m w.agps h)

  dropped_final :
      {e : AgpsRsrcStatus} (m : Machine)
      → IsFinal e
      → IsDropped m
      → Leaves (IsLeft false) (agps_on_rsrc_event env e m)
  dropped_final {e} m final d =
      subst (Leaves (IsLeft false)) (sym (agps_on_rsrc_event-after_event env m final d.agps))
        (IsDropped-after_event e m d)

  dropped_event :
      (e : AgpsRsrcStatus) (m : Machine)
      → IsDropped m
      → Leaves (IsLeft false) (agps_on_rsrc_event env e m)
  dropped_event rsrc_granted m d = dropped_final m granted_final d
  dropped_event rsrc_released m d = dropped_final m released_final d
  dropped_event rsrc_denied m d = dropped_final m denied_final d
  dropped_event rsrc_subscribe m d = unfold agps_on_rsrc_event in inr d
  dropped_event rsrc_unsubscribe m d = unfold agps_on_rsrc_event in inr d
  dropped_event rsrc_status_max m d = unfold agps_on_rsrc_event in inr d

  -- Each call on a machine whose subscribers were dropped leaves it so or makes it well formed.
  Step-IsDropped : {m n : Machine} → IsDropped m → Step env m n → IsLeft false n
  Step-IsDropped {m} d (event_step e h) = Leaves-ok (IsLeft false) (dropped_event e m d) h
  Step-IsDropped {m} d (subscribe_step s c h) = inl (
      Leaves-ok IsWellFormed {r = ok tt (after_subscribe s m)} (dropped_after_subscribe s m d)
        (sym (subscribe_rsrc-joined env s m c d.agps (λ e. ap is_nil d.none_left)) ∙ h))
  Step-IsDropped {m} d (unsubscribe_step s found c cs h) =
      inr (Leaves-ok IsDropped {r = ok false m} d (sym (dropped_unsubscribe_rsrc env s m d c) ∙ h))
  Step-IsDropped {m} d (dropped_step h) = inr (drop_all_subscribers-IsDropped m d.agps h)

  weaken : (b : Bool) {m : Machine} → IsLeft b m → IsLeft false m
  weaken true w = inl w
  weaken false w = w

  Step-IsLeft :
      (kept : Bool) {m n : Machine}
      → IsLeft kept m
      → (st : Step env m n) → IsLeft (kept && not (is_drop st)) n
  Step-IsLeft true w st = Step-IsWellFormed w st
  Step-IsLeft false (inl w) st = weaken (not (is_drop st)) (Step-IsWellFormed w st)
  Step-IsLeft false (inr d) st = Step-IsDropped d st

  new_agps_state_machine-IsWellFormed :
      (servicer : ServicerType) (type : ℤ) (single : Bool)
      → IsWellFormed (new_agps_state_machine servicer type single)
  unfolding new_agps_state_machine
  new_agps_state_machine-IsWellFormed servicer type single = record {
    agps = refl;
    empty = refl;
    active = λ h. cc h;
    distinct = tt;
  }

  Reach-IsLeft-from :
      {m : Machine} {kept : Bool} {n : Machine}
      → IsWellFormed m
      → Reach env m kept n
      → IsLeft kept n
  Reach-IsLeft-from w no_step = w
  Reach-IsLeft-from w (one_more {kept = kept} r st) = Step-IsLeft kept (Reach-IsLeft-from w r) st

  -- The machine that events, subscriptions and unsubscriptions leave of a new machine, in whatever
  -- order, is well formed. If all subscribers are dropped in between, as the engine does when the modem
  -- restarts, it is well formed or has no subscribers, whatever its state is then. The calls do not fault,
  -- and the clients given can be compared with the subscribers of the list (`AllComparable`), as these can
  -- with each other where one unsubscribes.
  pub Reach-IsLeft :
      (servicer : ServicerType) (type : ℤ) (single : Bool) {kept : Bool} {m : Machine}
      → Reach env (new_agps_state_machine servicer type single) kept m
      → IsLeft kept m
  Reach-IsLeft servicer type single r =
      Reach-IsLeft-from (new_agps_state_machine-IsWellFormed servicer type single) r
