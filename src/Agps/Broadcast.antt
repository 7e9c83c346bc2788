-- ===== src/Agps/Broadcast.antt =====
-- A broadcast through `notifySubscribers`: who is told, who is deleted, and that the loop ends.
use android_device_samsung_d.Common.{
  ℕ, zero, suc, ◌<◌, ◌≡◌, refl, sym, ap, inl, inr, Bool, true, false, not, Option, none, some, List,
  [], ◌∷◌, ◌++◌, append-nil, append_assoc, arith, if◌then◌else◌, Bool-cases, length, filter,
}
use android_device_samsung_d.Agps.Notify.{on_notify, notify_subscriber}
use android_device_samsung_d.Agps.Replies.{
  reply, replies, retries_after, told, IsFinal, granted_final, released_final, denied_final,
}
use android_device_samsung_d.Agps.Searches.{split_first}
use android_device_samsung_d.Agps.SubscriberList.{
  to_group, behind, find, search_list, keep_rest, search_remove, notify_loop, notify_subscribers,
}
use android_device_samsung_d.Agps.Subscribers.{in_group}
use android_device_samsung_d.Agps.Types.{
  AgpsRsrcStatus, Subscriber, bit_subscriber, atl_subscriber, Node, GroupId, Machine, ok, pure,
  and_then, ◌>>=◌,
}

-- The subscribers that a broadcast is for, and the others.
unfoldable pub members : GroupId → List Node → List Node
members g = filter (λ n. in_group g n.sub)

unfoldable pub others : GroupId → List Node → List Node
others g = filter (λ n. not (in_group g n.sub))

first_in : GroupId → List Node → Option (Node × List Node)
unfolding split_first
first_in g = split_first (λ n. in_group g n.sub)

told_first : AgpsRsrcStatus → Option (Node × List Node) → Machine → Machine
told_first status none m = m
told_first status (some (n, rest)) m = told status (n ∷ []) m

on_notify_at :
    {status : AgpsRsrcStatus} (addr : ℕ) (s : Subscriber) (m : Machine)
    → IsFinal status
    → on_notify s status m ≡ ok true (told status (record { addr = addr; sub = s } ∷ []) m)
unfolding on_notify told reply
on_notify_at addr (bit_subscriber id v6) m granted_final = refl
on_notify_at addr (atl_subscriber id true) m granted_final = refl
on_notify_at addr (atl_subscriber id false) m granted_final = refl
on_notify_at addr _ m granted_final = refl
on_notify_at addr (bit_subscriber id v6) m released_final = refl
on_notify_at addr _ m released_final = refl
on_notify_at addr (bit_subscriber id v6) m denied_final = refl
on_notify_at addr (atl_subscriber id true) m denied_final = refl
on_notify_at addr (atl_subscriber id false) m denied_final = refl
on_notify_at addr _ m denied_final = refl

-- A subscriber that a final status is for answers it as the table says.
pub on_notify-told :
    {status : AgpsRsrcStatus} (n : Node) (m : Machine)
    → IsFinal status
    → on_notify n.sub status m ≡ ok true (told status (n ∷ []) m)
on_notify-told n m final = on_notify_at n.addr n.sub m final

pub told-cons :
    (status : AgpsRsrcStatus) (n : Node) (ns : List Node) (m : Machine)
    → told status ns (told status (n ∷ []) m) ≡ told status (n ∷ ns) m
unfolding told
told-cons status n ns m =
    let r = reply m.apn m.bearer m.type status n.sub in
    let later = replies m.apn m.bearer m.type status ns in
    let same : (m.calls ++ (r ++ [])) ++ later ≡ m.calls ++ (r ++ later) =
      simp (append-nil, append_assoc) in
    λ i. record m { calls = same i; retries = retries_after status (n ∷ ns) m.retries }

pub told-nil : (status : AgpsRsrcStatus) (m : Machine) → told status [] m ≡ m
unfolding told
told-nil status m = λ i. record m { calls = append-nil m.calls i }

notify_group :
    {status : AgpsRsrcStatus} (g : GroupId) (delete : Bool) (n : Node) (m : Machine)
    → IsFinal status
    → notify_subscriber (to_group g status delete) n m
      ≡ (if in_group g n.sub then ok delete (told status (n ∷ []) m) else ok false m)
unfolding notify_subscriber
notify_group g delete n m final = elim (Bool-cases (in_group g n.sub)) [
  | inl e ↦ rw e (rw (on_notify-told n m final))
  | inr e ↦ rw e
]

find-keep :
    {status : AgpsRsrcStatus} (g : GroupId) (ns : List Node) (m : Machine)
    → IsFinal status
    → find (notify_subscriber (to_group g status false)) ns m
      ≡ ok none (told status (members g ns) m)
unfolding find members
find-keep {status} g [] m final = rw (told-nil status m)
find-keep {status} g (n ∷ ns) m final = elim (Bool-cases (in_group g n.sub)) [
  | inl e ↦
      rw (notify_group g false n m final, e)
        (rw (find-keep g ns (told status (n ∷ []) m) final, told-cons status n (members g ns) m))
  | inr e ↦ rw (notify_group g false n m final, e) (rw (find-keep g ns m final))
]

told_first-behind :
    (status : AgpsRsrcStatus) (n : Node) (found : Option (Node × List Node)) (m : Machine)
    → told_first status found m ≡ told_first status (behind n found) m
unfolding told_first
told_first-behind status n none m = refl
told_first-behind status n (some (f, rest)) m = refl

find-remove :
    {status : AgpsRsrcStatus} (g : GroupId) (ns : List Node) (m : Machine)
    → IsFinal status
    → find (notify_subscriber (to_group g status true)) ns m
      ≡ ok (first_in g ns) (told_first status (first_in g ns) m)
unfolding find first_in told_first
find-remove g [] m final = refl
find-remove {status} g (n ∷ ns) m final = elim (Bool-cases (in_group g n.sub)) [
  | inl e ↦ rw (notify_group g true n m final, e)
  | inr e ↦
      rw (notify_group g true n m final, e)
        (rw (find-remove g ns m final)
          (ap (ok (behind n (first_in g ns))) (told_first-behind status n (first_in g ns) m)))
]

-- With no member left the list is its own remainder, and with one it is one longer.
data Split (g : GroupId) (ns : List Node) : Option (Node × List Node) → Type 0 where
  no_member : members g ns ≡ [] → others g ns ≡ ns → Split g ns none
  one_member :
      (n : Node) (rest : List Node)
      → members g ns ≡ n ∷ members g rest
      → others g ns ≡ others g rest
      → length ns ≡ suc (length rest)
      → Split g ns (some (n, rest))

Split-behind :
    (g : GroupId) (n : Node) (ns : List Node) {found : Option (Node × List Node)}
    → in_group g n.sub ≡ false
    → Split g ns found
    → Split g (n ∷ ns) (behind n found)
unfolding members others
Split-behind g n ns out (no_member p q) = no_member (rw out p) (rw out (ap (λ t. n ∷ t) q))
Split-behind g n ns out (one_member f rest p q l) =
    one_member f (n ∷ rest) (rw out p) (rw out (ap (λ t. n ∷ t) q)) (ap suc l)

first_in-Split : (g : GroupId) (ns : List Node) → Split g ns (first_in g ns)
unfolding first_in members others
first_in-Split g [] = no_member refl refl
first_in-Split g (n ∷ ns) = elim (Bool-cases (in_group g n.sub)) [
  | inl e ↦ rw e (one_member n ns (rw e) (rw e) refl)
  | inr e ↦ rw e (Split-behind g n ns e (first_in-Split g ns))
]

-- The members have been told, in the order of the list, and only the others are left.
abbrev pub told_and_removed : GroupId → AgpsRsrcStatus → Machine → Machine
told_and_removed g status m = record (told status (members g m.subscribers) m) {
  subscribers = others g m.subscribers;
}

module _ {status : AgpsRsrcStatus} (g : GroupId) (final : IsFinal status) where
  notify_loop-step :
      (k : ℕ) (m : Machine) (found : Option (Node × List Node))
      → Split g m.subscribers found
      → length m.subscribers < suc k
      → ((n : Machine)
          → length n.subscribers < k
          → notify_loop k (to_group g status true) n ≡ ok tt (told_and_removed g status n))
      → and_then (ok found (told_first status found m)) (λ f. keep_rest f >>= λ s. elim s [
        | none ↦ pure tt
        | some _ ↦ notify_loop k (to_group g status true)
      ])
        ≡ ok tt (told_and_removed g status m)
  unfolding told_first told
  notify_loop-step k m none (no_member p q) enough ih =
      ap (ok tt) (rw (p, q) (sym (told-nil status m)))
  notify_loop-step k m (some (f, rest)) (one_member _ _ p q l) enough ih =
      rw (ih (record (told status (f ∷ []) m) { subscribers = rest }) (omega arith), p, q)
        (ap (λ (t : Machine). ok tt (record t { subscribers = others g rest }))
          (told-cons status f (members g rest) m))

  notify_loop-told :
      (k : ℕ) (m : Machine)
      → length m.subscribers < k
      → notify_loop k (to_group g status true) m ≡ ok tt (told_and_removed g status m)
  unfolding notify_loop search_remove
  notify_loop-told zero m enough = elim enough [ ]
  notify_loop-told (suc k) m enough = rw (find-remove g m.subscribers m final) (
      notify_loop-step k m (first_in g m.subscribers) (first_in-Split g m.subscribers) enough
        (notify_loop-told k))

  -- A broadcast that deletes reaches every member once, keeps the others in order, and ends.
  pub notify_subscribers-removed :
      (m : Machine)
      → notify_subscribers (to_group g status true) m ≡ ok tt (told_and_removed g status m)
  unfolding notify_subscribers
  notify_subscribers-removed m = notify_loop-told (suc (length m.subscribers)) m (omega arith)

  -- A broadcast that keeps its subscribers reaches every member once.
  pub notify_subscribers-kept :
      (m : Machine)
      → notify_subscribers (to_group g status false) m
        ≡ ok tt (told status (members g m.subscribers) m)
  unfolding notify_subscribers search_list
  notify_subscribers-kept m = rw (find-keep g m.subscribers m final)
