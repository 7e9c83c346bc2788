-- ===== src/Agps/Leaving.antt =====
-- The steps of an unsubscription: marking the subscriber, or the loop that tells and deletes it.
use android_device_samsung_d.Common.{
  ℕ, suc, ◌≡◌, refl, sym, ap, ◌∙◌, inl, inr, true, false, Option, none, some, List, [], ◌∷◌, ◌++◌,
  append-nil, arith, if◌then◌else◌, Bool-cases, length,
}
use android_device_samsung_d.Agps.Equality.{matches, comparable, AllComparable, equals-matches}
use android_device_samsung_d.Agps.Found.{IsFound}
use android_device_samsung_d.Agps.Notify.{inform_status, on_notify, notify_subscriber}
use android_device_samsung_d.Agps.Searches.{split_first}
use android_device_samsung_d.Agps.StateMachine.{set_inactive}
use android_device_samsung_d.Agps.SubscriberList.{
  to_subscriber, behind, find, search_remove, notify_loop, notify_subscribers,
}
use android_device_samsung_d.Agps.Subscribers.{
  wait_for_close_complete, lookup_addr, deref, mark_inactive_at,
}
use android_device_samsung_d.Agps.Types.{
  rsrc_unsubscribe, Subscriber, bit_subscriber, atl_subscriber, wifi_subscriber, ds_subscriber,
  Node, listed, Notification, Machine, Run, ok, fault,
}
use android_device_samsung_d.Agps.Unsubscribing.{closing_call}
use android_device_samsung_d.Agps.WellFormed.{has_addr}

-- A notification of RSRC_UNSUBSCRIBE that is for the subscriber.
on_notify-closing :
    (s : Subscriber) (m : Machine)
    → on_notify s rsrc_unsubscribe m ≡ ok true (record m { calls = m.calls ++ closing_call s })
unfolding on_notify closing_call
on_notify-closing (wifi_subscriber id ssid password inactive) m =
    λ i. ok true (record m { calls = sym (append-nil m.calls) i })
on_notify-closing (bit_subscriber id v6) m = refl
on_notify-closing _ m = refl

pub set_inactive-at :
    (a : ℕ) (s : Subscriber) (m : Machine)
    → wait_for_close_complete s ≡ true
    → set_inactive (listed a) s m
      ≡ ok tt (record m {
        subscribers = mark_inactive_at a m.subscribers;
        calls = m.calls ++ closing_call s;
      })
unfolding set_inactive closing_call inform_status wait_for_close_complete
set_inactive-at a (wifi_subscriber id ssid password inactive) m h = λ i. ok tt (record m {
  subscribers = mark_inactive_at a m.subscribers;
  calls = sym (append-nil m.calls) i;
})
set_inactive-at a (ds_subscriber id inactive) m h = refl
set_inactive-at a (bit_subscriber id v6) m h = cc h
set_inactive-at a (atl_subscriber id compatible) m h = cc h

closing_first : Option (Node × List Node) → Machine → Machine
closing_first none m = m
closing_first (some (n, rest)) m = record m { calls = m.calls ++ closing_call n.sub }

closing_first-behind :
    (n : Node) (found : Option (Node × List Node)) (m : Machine)
    → closing_first found m ≡ closing_first (behind n found) m
unfolding closing_first
closing_first-behind n none m = refl
closing_first-behind n (some (f, rest)) m = refl

lookup_addr-gone : (a : ℕ) (ns : List Node) → has_addr a ns ≡ false → lookup_addr a ns ≡ none
unfolding lookup_addr has_addr
lookup_addr-gone a [] h = refl
lookup_addr-gone a (n ∷ ns) h = ground (arith, lookup_addr-gone a ns)

-- The notification of a subscriber that leaves at once.
abbrev pub leaving : Node → Notification
leaving n = to_subscriber (listed n.addr) rsrc_unsubscribe true

module _ (m : Machine) (n : Node) where
  -- While the object is in the list, the others are compared with it.
  notify_leaving :
      (x : Node)
      → lookup_addr n.addr m.subscribers ≡ some n.sub
      → comparable x.sub n.sub ≡ true
      → notify_subscriber (leaving n) x m ≡ (
          if matches x.sub n.sub
          then ok true (record m { calls = m.calls ++ closing_call x.sub })
          else ok false m)
  unfolding notify_subscriber deref
  notify_leaving x here c =
      rw (here, equals-matches x.sub n.sub m c)
        (elim (Bool-cases (matches x.sub n.sub)) [
          | inl e ↦ rw e (rw (on_notify-closing x.sub m))
          | inr e ↦ rw e
        ])

  find-leaving :
      (ns : List Node)
      → lookup_addr n.addr m.subscribers ≡ some n.sub
      → AllComparable n.sub ns
      → find (notify_subscriber (leaving n)) ns m
        ≡ ok
            (split_first (λ x. matches x.sub n.sub) ns)
            (closing_first (split_first (λ x. matches x.sub n.sub) ns) m)
  unfolding find split_first closing_first
  find-leaving [] here c = refl
  find-leaving (x ∷ ns) here c = elim (Bool-cases (matches x.sub n.sub)) [
    | inl e ↦ rw (notify_leaving x here c.0, e)
    | inr e ↦
        rw (notify_leaving x here c.0, e)
          (rw (find-leaving ns here c.1) (
            ap (ok (behind x (split_first (λ x. matches x.sub n.sub) ns)))
              (closing_first-behind x (split_first (λ x. matches x.sub n.sub) ns) m)))
  ]

  -- Once the object is deleted, the next comparison reads freed memory.
  notify_gone :
      (x : Node)
      → lookup_addr n.addr m.subscribers ≡ none
      → notify_subscriber (leaving n) x m ≡ fault
  unfolding notify_subscriber deref
  notify_gone x gone = rw gone

-- The whole loop for a subscriber that leaves at once.
unfoldable pub leave_result : Node → List Node → Machine → Run (Unit {0})
leave_result n [] m = ok tt (record m { subscribers = []; calls = m.calls ++ closing_call n.sub })
leave_result n (r ∷ rest) m = fault

second_round :
    (k : ℕ) (n : Node) (rest : List Node) (m : Machine)
    → has_addr n.addr rest ≡ false
    → notify_loop
        (suc k)
        (leaving n)
        (record m { subscribers = rest; calls = m.calls ++ closing_call n.sub })
      ≡ leave_result n rest m
unfolding notify_loop search_remove find leave_result
second_round k n [] m gone = refl
second_round k n (r ∷ rest) m gone = rw (
    notify_gone (record m { subscribers = r ∷ rest; calls = m.calls ++ closing_call n.sub }) n r
      (lookup_addr-gone n.addr (r ∷ rest) gone))

first_round :
    (k : ℕ) (n : Node) (rest : List Node) (m : Machine)
    → IsFound (λ x. matches x.sub n.sub) m.subscribers n rest
    → split_first (λ x. matches x.sub n.sub) m.subscribers ≡ some (n, rest)
    → AllComparable n.sub m.subscribers
    → notify_loop (suc (suc k)) (leaving n) m ≡ leave_result n rest m
unfolding notify_loop search_remove closing_first
first_round k n rest m f e c =
    rw (find-leaving m n m.subscribers f.resolves c) (rw e (second_round k n rest m f.gone))

pub notify_subscribers-leaving :
    (n : Node) (rest : List Node) (m : Machine)
    → IsFound (λ x. matches x.sub n.sub) m.subscribers n rest
    → split_first (λ x. matches x.sub n.sub) m.subscribers ≡ some (n, rest)
    → AllComparable n.sub m.subscribers
    → notify_subscribers (leaving n) m ≡ leave_result n rest m
unfolding notify_subscribers
notify_subscribers-leaving n rest m f e c =
    ap (λ k. notify_loop (suc k) (leaving n) m) f.shorter ∙ first_round (length rest) n rest m f e c
