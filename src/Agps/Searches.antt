-- ===== src/Agps/Searches.antt =====
-- Searches of the subscriber list with a callback that only looks.
use android_device_samsung_d.Common.{
  ◌≡◌, refl, ◌∙◌, inl, inr, Bool, true, false, not, Option, none, some, List, [], ◌∷◌, ◌++◌,
  if◌then◌else◌, Bool-cases, any, is_some, pos,
}
use android_device_samsung_d.Agps.Notify.{has_subscriber}
use android_device_samsung_d.Agps.Request.{Env, fill_request, request_rsrc_of, send_agps}
use android_device_samsung_d.Agps.SubscriberList.{
  to_group, behind, find, found_node, search_list, find_subscriber, has_active_subscribers,
}
use android_device_samsung_d.Agps.Subscribers.{is_inactive, in_group}
use android_device_samsung_d.Agps.Types.{
  rsrc_status_max, AgpsStatusValue, gps_request_agps_data_conn, gps_release_agps_data_conn, Node,
  GroupId, broadcast_active, nif_request, Action, request_rsrc, Machine, ok, Cmd,
}

-- The first element that passes a test, and the list without it.
unfoldable pub split_first : (Node → Bool) → List Node → Option (Node × List Node)
split_first p [] = none
split_first p (n ∷ ns) = if p n then some (n, ns) else behind n (split_first p ns)

-- A callback answers by a test on every element of a list, and changes nothing.
abbrev pub AnswersBy : (Node → Cmd Bool) → (Node → Bool) → List Node → Type 0
AnswersBy equal p [] = Unit
AnswersBy equal p (n ∷ ns) = ((m : Machine) → equal n m ≡ ok (p n) m) × AnswersBy equal p ns

pub find-split_first :
    (equal : Node → Cmd Bool) (p : Node → Bool) (ns : List Node) (m : Machine)
    → AnswersBy equal p ns
    → find equal ns m ≡ ok (split_first p ns) m
unfolding find split_first
find-split_first equal p [] m h = refl
find-split_first equal p (n ∷ ns) m h = elim (Bool-cases (p n)) [
  | inl e ↦ rw (h.0 m, e)
  | inr e ↦ rw (h.0 m, e) (rw (find-split_first equal p ns m h.1))
]

pub AnswersBy-all :
    (equal : Node → Cmd Bool) (p : Node → Bool) (ns : List Node)
    → ((n : Node) (m : Machine) → equal n m ≡ ok (p n) m)
    → AnswersBy equal p ns
AnswersBy-all equal p [] h = tt
AnswersBy-all equal p (n ∷ ns) h = (h n, AnswersBy-all equal p ns h)

-- A search for a member of a group.
pub find_subscriber-group :
    (g : GroupId) (m : Machine)
    → find_subscriber (to_group g rsrc_status_max false) m
      ≡ ok (found_node (split_first (λ n. in_group g n.sub) m.subscribers)) m
unfolding find_subscriber search_list has_subscriber
find_subscriber-group g m =
    let looks = has_subscriber (to_group g rsrc_status_max false) in
    let test = λ (n : Node). in_group g n.sub in
    rw (
      find-split_first looks test m.subscribers m
        (AnswersBy-all looks test m.subscribers λ n m. refl))

abbrev pub is_active : Node → Bool
is_active n = not (is_inactive n.sub)

pub is_some-split_first :
    (p : Node → Bool) (ns : List Node) → is_some (found_node (split_first p ns)) ≡ any p ns
unfolding split_first
is_some-split_first p [] = refl
is_some-split_first p (n ∷ ns) = elim (Bool-cases (p n)) [
  | inl e ↦ rw e
  | inr e ↦ rw e (is_some-behind n (split_first p ns) ∙ is_some-split_first p ns)
]
  where
    is_some-behind :
        (n : Node) (o : Option (Node × List Node))
        → is_some (found_node (behind n o)) ≡ is_some (found_node o)
    is_some-behind n none = refl
    is_some-behind n (some (f, rest)) = refl

-- `hasActiveSubscribers` says whether some subscriber of the list is active.
pub has_active_subscribers-any :
    (m : Machine) → has_active_subscribers m ≡ ok (any is_active m.subscribers) m
unfolding has_active_subscribers in_group
has_active_subscribers-any m =
    rw (find_subscriber-group broadcast_active m, is_some-split_first is_active m.subscribers)

-- The request that `sendRsrcRequest` makes: for the first active subscriber, or for none.
unfoldable pub request_for : AgpsStatusValue → Machine → Action
request_for action m =
    request_rsrc m.servicer
      (nif_request (fill_request m.type action (found_node (split_first is_active m.subscribers))))

module _ (env : Env) (m : Machine) where
  -- The request is made while there is an active subscriber.
  pub send_agps-request :
      any is_active m.subscribers ≡ true
      → send_agps env gps_request_agps_data_conn m
        ≡ ok (pos 0) (record m { calls = m.calls ++ request_for gps_request_agps_data_conn m ∷ [] })
  unfolding send_agps request_for in_group request_rsrc_of
  send_agps-request some_active =
      rw (find_subscriber-group broadcast_active m)
        (rw (is_some-split_first is_active m.subscribers) (rw some_active))

  -- The release is made when there is none.
  pub send_agps-release :
      any is_active m.subscribers ≡ false
      → send_agps env gps_release_agps_data_conn m
        ≡ ok (pos 0) (record m { calls = m.calls ++ request_for gps_release_agps_data_conn m ∷ [] })
  unfolding send_agps request_for in_group request_rsrc_of
  send_agps-release none_active =
      rw (find_subscriber-group broadcast_active m)
        (rw (is_some-split_first is_active m.subscribers) (rw none_active))
