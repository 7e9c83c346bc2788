-- ===== src/Agps/Unsubscribe.antt =====
-- `unsubscribeRsrc` implements its specification.
use android_device_samsung_d.Common.{
  ℕ, suc, ◌≡◌, refl, sym, ◌∙◌, inl, inr, Bool, true, false, Option, none, some, List, [], ◌∷◌, ◌++◌,
  arith, if◌then◌else◌, Bool-cases, length, any, is_nil,
}
use android_device_samsung_d.Agps.Equality.{
  matches, AllComparable, matches_self, find_subscriber-matches,
}
use android_device_samsung_d.Agps.Events.{send_rsrc_request-agps}
use android_device_samsung_d.Agps.Found.{FoundBy, split_first-FoundBy, matches-found}
use android_device_samsung_d.Agps.Leaving.{
  set_inactive-at, leaving, leave_result, notify_subscribers-leaving,
}
use android_device_samsung_d.Agps.Request.{Env}
use android_device_samsung_d.Agps.Searches.{
  split_first, is_active, has_active_subscribers-any, request_for, send_agps-release,
}
use android_device_samsung_d.Agps.StateMachine.{
  detach, release_if_idle, state_on_rsrc_event, transition, unsubscribe_found, unsubscribe_rsrc,
}
use android_device_samsung_d.Agps.SubscriberList.{
  behind, found_node, notify_subscribers, has_subscribers,
}
use android_device_samsung_d.Agps.Subscribers.{
  wait_for_close_complete, lookup_addr, deref, mark_inactive_at,
}
use android_device_samsung_d.Agps.Types.{
  rsrc_unsubscribe, gps_release_agps_data_conn, Subscriber, Node, listed, AgpsState, released,
  acquired, pending, releasing, agps_state_machine, Machine, Run, ok, fault, pure, and_then, ◌>>=◌,
  modify,
}
use android_device_samsung_d.Agps.Unsubscribing.{
  released_if_idle, marked, emptied, after_last, leave, unsubscribe_outcome,
}
use android_device_samsung_d.Agps.WellFormed.{is_released, IsWellFormed}

-- Every two subscribers of a list can be compared.
abbrev pub MutuallyComparable : (ns all : List Node) → Type 0
MutuallyComparable [] all = Unit
MutuallyComparable (n ∷ ns) all = AllComparable n.sub all × MutuallyComparable ns all

abbrev ComparableBy : List Node → Option (Node × List Node) → Type 0
ComparableBy all none = Unit
ComparableBy all (some (n, rest)) = AllComparable n.sub all

ComparableBy-behind :
    (all : List Node) (x : Node) (found : Option (Node × List Node))
    → ComparableBy all found
    → ComparableBy all (behind x found)
ComparableBy-behind all x none c = c
ComparableBy-behind all x (some (n, rest)) c = c

ComparableBy-split_first :
    (p : Node → Bool) (ns all : List Node)
    → MutuallyComparable ns all
    → ComparableBy all (split_first p ns)
unfolding split_first
ComparableBy-split_first p [] all c = tt
ComparableBy-split_first p (n ∷ ns) all (c, cs) = elim (Bool-cases (p n)) [
  | inl e ↦ rw e c
  | inr e ↦
      rw e (ComparableBy-behind all n (split_first p ns) (ComparableBy-split_first p ns all cs))
]

-- The loop stops at the subscriber that the search found.
split_first-found :
    (n s : Subscriber) (ns : List Node)
    → matches n s ≡ true
    → AllComparable s ns
    → AllComparable n ns
    → split_first (λ x. matches x.sub n) ns ≡ split_first (λ x. matches x.sub s) ns
unfolding split_first
split_first-found n s [] h c d = refl
split_first-found n s (x ∷ ns) h c d =
    rw (matches-found x.sub n s h c.0 d.0, split_first-found n s ns h c.1 d.1)

pub not-nil : (ns : List Node) {k : ℕ} → length ns ≡ suc k → is_nil ns ≡ false
not-nil [] h = absurd (omega arith)
not-nil (n ∷ ns) h = refl

pub is_nil-mark_inactive_at : (a : ℕ) (ns : List Node) → is_nil (mark_inactive_at a ns) ≡ is_nil ns
unfolding mark_inactive_at
is_nil-mark_inactive_at a [] = refl
is_nil-mark_inactive_at a (n ∷ ns) = ground arith

module _ (env : Env) where
  run_unsubscribe : Machine → ℕ → AgpsState → Run (Unit {0})
  run_unsubscribe m a state =
      (state_on_rsrc_event env state rsrc_unsubscribe (listed a) >>= λ next.
      modify λ after. record after { state = next })
        m

  -- The end of RSRC_UNSUBSCRIBE with a subscriber left.
  release_if_idle-some :
      (stay : AgpsState) (m : Machine)
      → m.kind ≡ agps_state_machine
      → is_nil m.subscribers ≡ false
      → release_if_idle env stay m ≡ (
          if any is_active m.subscribers
          then ok stay m
          else ok releasing
              (record m { calls = m.calls ++ request_for gps_release_agps_data_conn m ∷ [] }))
  unfolding release_if_idle has_subscribers
  release_if_idle-some stay m agps some_left = rw some_left (
      rw (has_active_subscribers-any m) (elim (Bool-cases (any is_active m.subscribers)) [
        | inl e ↦ rw e
        | inr e ↦ rw e (
            rw (send_rsrc_request-agps env gps_release_agps_data_conn m agps)
              (rw (send_agps-release env m e)))
      ]))

  -- The end of RSRC_UNSUBSCRIBE with none left.
  release_if_idle-none :
      (stay : AgpsState) (m : Machine)
      → m.kind ≡ agps_state_machine
      → is_nil m.subscribers ≡ true
      → any is_active m.subscribers ≡ false
      → release_if_idle env stay m
        ≡ ok released
            (record m { calls = m.calls ++ request_for gps_release_agps_data_conn m ∷ [] })
  unfolding release_if_idle has_subscribers
  release_if_idle-none stay m agps none_left none_active = rw none_left (
      rw (send_rsrc_request-agps env gps_release_agps_data_conn m agps)
        (rw (send_agps-release env m none_active)))

  module _ (m : Machine) (agps : m.kind ≡ agps_state_machine) (n : Node)
      (here : lookup_addr n.addr m.subscribers ≡ some n.sub) where
    detach-wait :
        wait_for_close_complete n.sub ≡ true → detach (listed n.addr) m ≡ ok tt (marked n m)
    unfolding detach deref
    detach-wait waits = rw (here, waits) (set_inactive-at n.addr n.sub m waits)

    detach-now :
        wait_for_close_complete n.sub ≡ false
        → detach (listed n.addr) m ≡ notify_subscribers (leaving n) m
    unfolding detach deref
    detach-now now = rw (here, now)

    keeps_some : is_nil m.subscribers ≡ false → is_nil (marked n m).subscribers ≡ false
    keeps_some some_left = is_nil-mark_inactive_at n.addr m.subscribers ∙ some_left

    waiting :
        (state : AgpsState)
        → is_released state ≡ false
        → is_nil m.subscribers ≡ false
        → wait_for_close_complete n.sub ≡ true
        → run_unsubscribe m n.addr state ≡ ok tt (released_if_idle releasing state (marked n m))
    unfolding run_unsubscribe state_on_rsrc_event released_if_idle has_subscribers
    waiting released live some_left waits = cc live
    waiting pending live some_left waits = rw (detach-wait waits) (
        rw (release_if_idle-some pending (marked n m) agps (keeps_some some_left))
          (elim (Bool-cases (any is_active (marked n m).subscribers)) [
            | inl e ↦ rw e
            | inr e ↦ rw e
          ]))
    waiting acquired live some_left waits = rw (detach-wait waits) (
        rw (release_if_idle-some acquired (marked n m) agps (keeps_some some_left))
          (elim (Bool-cases (any is_active (marked n m).subscribers)) [
            | inl e ↦ rw e
            | inr e ↦ rw e
          ]))
    waiting releasing live some_left waits = rw (detach-wait waits) (rw (keeps_some some_left))

    -- A subscriber that leaves at once, where `left` says what the loop does.
    leaving_last :
        (state : AgpsState)
        → is_released state ≡ false
        → wait_for_close_complete n.sub ≡ false
        → notify_subscribers (leaving n) m ≡ ok tt (emptied n m)
        → run_unsubscribe m n.addr state ≡ ok tt (after_last state n m)
    unfolding run_unsubscribe state_on_rsrc_event released_if_idle has_subscribers after_last
    leaving_last released live now left = cc live
    leaving_last pending live now left =
        rw (detach-now now, left) (rw (release_if_idle-none pending (emptied n m) agps refl refl))
    leaving_last acquired live now left =
        rw (detach-now now, left) (rw (release_if_idle-none acquired (emptied n m) agps refl refl))
    leaving_last releasing live now left = rw (detach-now now, left)

    leaving_others :
        (state : AgpsState)
        → is_released state ≡ false
        → wait_for_close_complete n.sub ≡ false
        → notify_subscribers (leaving n) m ≡ fault
        → run_unsubscribe m n.addr state ≡ fault
    unfolding run_unsubscribe state_on_rsrc_event
    leaving_others released live now left = cc live
    leaving_others pending live now left = rw (detach-now now, left)
    leaving_others acquired live now left = rw (detach-now now, left)
    leaving_others releasing live now left = rw (detach-now now, left)

  module _ (m : Machine) (w : IsWellFormed m) where
    leave_now :
        (state : AgpsState) (n : Node) (rest : List Node)
        → is_released state ≡ false
        → wait_for_close_complete n.sub ≡ false
        → lookup_addr n.addr m.subscribers ≡ some n.sub
        → notify_subscribers (leaving n) m ≡ leave_result n rest m
        → and_then (run_unsubscribe m n.addr state) (λ _. pure true)
          ≡ leave state (some (n, rest)) m
    unfolding leave leave_result
    leave_now state n [] live now here left =
        rw (leaving_last m w.agps n here state live now left, now)
    leave_now state n (r ∷ rest) live now here left =
        rw (leaving_others m w.agps n here state live now left, now)

    leave_any :
        (s : Subscriber) (found : Option (Node × List Node))
        → AllComparable s m.subscribers
        → split_first (λ n. matches n.sub s) m.subscribers ≡ found
        → FoundBy (λ n. matches n.sub s) m.subscribers found
        → ComparableBy m.subscribers found
        → unsubscribe_found env (found_node found) m ≡ leave m.state found m
    unfolding unsubscribe_found transition leave run_unsubscribe
    leave_any s none c e f d = refl
    leave_any s (some (n, rest)) c e f d =
        let some_left = not-nil m.subscribers f.shorter in
        let live = sym w.empty ∙ some_left in
        elim (Bool-cases (wait_for_close_complete n.sub)) [
          | inl waits ↦ rw (waiting m w.agps n f.resolves m.state live some_left waits, waits)
          | inr now ↦ leave_now m.state n rest live now f.resolves (
              notify_subscribers-leaving n rest m
                (record {
                  passes = matches_self n.sub;
                  resolves = f.resolves;
                  gone = f.gone;
                  held = f.held;
                  shorter = f.shorter;
                })
                (split_first-found n.sub s m.subscribers f.passes c d ∙ e) d)
        ]

  -- On a well-formed machine whose subscribers can be compared, `unsubscribeRsrc` has exactly the
  -- specified outcome.
  pub unsubscribe_rsrc-outcome :
      (s : Subscriber) (m : Machine)
      → IsWellFormed m
      → AllComparable s m.subscribers
      → MutuallyComparable m.subscribers m.subscribers
      → unsubscribe_rsrc env s m ≡ unsubscribe_outcome s m
  unfolding unsubscribe_rsrc unsubscribe_outcome
  unsubscribe_rsrc-outcome s m w c cs =
      let p = λ (n : Node). matches n.sub s in
      rw (find_subscriber-matches s m c) (
        leave_any m w s (split_first p m.subscribers) c refl
          (split_first-FoundBy p m.next_addr m.subscribers w.distinct)
          (ComparableBy-split_first p m.subscribers m.subscribers cs))
