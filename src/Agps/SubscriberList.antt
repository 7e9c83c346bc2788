-- ===== src/Agps/SubscriberList.antt =====
-- The list of subscribers of an `AgpsStateMachine`, through `linked_list_search` and
-- `linked_list_add` (`notifySubscribers`, `addSubscriber` and `hasActiveSubscribers` of
-- gps/loc_api/libloc_api_50001/loc_eng_agps.cpp).
use android_device_samsung_d.Common.{
  ℕ, zero, suc, ◌+◌, Bool, false, not, Option, none, some, List, [], ◌∷◌, if◌then◌else◌, length,
  is_nil, is_some,
}
use android_device_samsung_d.Agps.Notify.{has_subscriber, notify_subscriber}
use android_device_samsung_d.Agps.Subscribers.{clone, deref}
use android_device_samsung_d.Agps.Types.{
  AgpsRsrcStatus, rsrc_status_max, Node, Ref, null, GroupId, broadcast_active, no_group,
  Notification, out_of_fuel, Cmd, pure, ◌>>=◌, ◌>>◌, get, modify,
}

-- The constructors of `Notification`.
abbrev pub to_group : GroupId → AgpsRsrcStatus → Bool → Notification
to_group group status delete_afterwards = record {
  rcver = null;
  group_id = group;
  rsrc_status = status;
  post_notify_delete = delete_afterwards;
}

abbrev pub to_subscriber : Ref → AgpsRsrcStatus → Bool → Notification
to_subscriber r status delete_afterwards = record {
  rcver = r;
  group_id = no_group;
  rsrc_status = status;
  post_notify_delete = delete_afterwards;
}

abbrev pub behind : Node → Option (Node × List Node) → Option (Node × List Node)
behind n none = none
behind n (some (found, rest)) = some (found, n ∷ rest)

-- The walk of `linked_list_search`: the first element that the callback accepts, and the list
-- without that element.
unfoldable pub find : (Node → Cmd Bool) → List Node → Cmd (Option (Node × List Node))
find equal [] = pure none
find equal (n ∷ ns) = do
  found ← equal n
  if found then pure (some (n, ns)) else do later ← find equal ns; pure (behind n later)

abbrev pub found_node : Option (Node × List Node) → Option Node
found_node none = none
found_node (some (n, rest)) = some n

-- `linked_list_search(mSubscribers, &s, equal, &n, false)`.
unfoldable pub search_list : (Node → Cmd Bool) → Cmd (Option Node)
search_list equal = do m ← get; found ← find equal m.subscribers; pure (found_node found)

abbrev pub keep_rest : Option (Node × List Node) → Cmd (Option Node)
keep_rest none = pure none
keep_rest (some (n, rest)) = modify (λ m. record m { subscribers = rest }) >> pure (some n)

-- `linked_list_search(mSubscribers, &s, equal, &n, true)`, and the `delete s` that follows it.
unfoldable pub search_remove : (Node → Cmd Bool) → Cmd (Option Node)
search_remove equal = do m ← get; found ← find equal m.subscribers; keep_rest found

-- The loop of `notifySubscribers`: a round for each removal, and one that finds none.
unfoldable pub notify_loop : ℕ → Notification → Cmd (Unit {0})
notify_loop zero n = λ _. out_of_fuel
notify_loop (suc k) n = do
  s ← search_remove (notify_subscriber n)
  elim s [ none ↦ pure tt | some _ ↦ notify_loop k n ]

-- `notifySubscribers`.
unfoldable pub notify_subscribers : Notification → Cmd (Unit {0})
unfolding notify_loop
notify_subscribers n =
    if n.post_notify_delete
    then (do m ← get; notify_loop (suc (length m.subscribers)) n)
    else search_list (notify_subscriber n) >> pure tt

-- The subscriber that a search finds.
unfoldable pub find_subscriber : Notification → Cmd (Option Node)
find_subscriber n = search_list (has_subscriber n)

unfoldable pub add_clone : Ref → Option Node → Cmd (Unit {0})
unfolding clone
add_clone r (some found) = pure tt
add_clone r none = do
  s ← deref r
  modify λ m. record m {
    subscribers = record { addr = m.next_addr; sub = clone s } ∷ m.subscribers;
    next_addr = m.next_addr + 1;
  }

-- `addSubscriber`.
unfoldable pub add_subscriber : Ref → Cmd (Unit {0})
unfolding add_clone
add_subscriber r = do
  found ← find_subscriber (to_subscriber r rsrc_status_max false)
  add_clone r found

-- `hasSubscribers`.
unfoldable pub has_subscribers : Cmd Bool
has_subscribers = do m ← get; pure (not (is_nil m.subscribers))

-- `hasActiveSubscribers`.
unfoldable pub has_active_subscribers : Cmd Bool
has_active_subscribers = do
  s ← find_subscriber (to_group broadcast_active rsrc_status_max false)
  pure (is_some s)
