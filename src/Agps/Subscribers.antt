-- ===== src/Agps/Subscribers.antt =====
-- The subscriber classes: who a notification is for, and what each class does with it
-- (loc_eng_agps.cpp 52-238, the class bodies of loc_eng_agps.h).
use mathlib.Core.Option
use android_device_samsung_d.Common.{
  ℕ, ◌-◌, Bool, true, false, not, ◌&&◌, ◌||◌, Option, none, some, List, [], ◌∷◌, ◌==◌,
  if◌then◌else◌, take, eq_bytes, ℤ, pos, negsuc,
}
use android_device_samsung_d.Agps.Types.{
  CString, Subscriber, bit_subscriber, atl_subscriber, wifi_subscriber, ds_subscriber, Node, Ref,
  null, caller, listed, GroupId, broadcast_all, broadcast_active, broadcast_inactive, no_group,
  Notification, ok, fault, Cmd, pure, ◌>>=◌,
}

abbrev pub inaddr_none : ℕ
inaddr_none = 0xffff_ffff

abbrev pub agps_type_invalid : ℤ
agps_type_invalid = negsuc 0

abbrev pub agps_type_supl : ℤ
agps_type_supl = pos 1

abbrev pub agps_apn_bearer_invalid : ℤ
agps_apn_bearer_invalid = negsuc 0

abbrev pub ssid_buf_size : ℕ
ssid_buf_size = 33

abbrev pub sender_id_gpsone_daemon : ℕ
sender_id_gpsone_daemon = 3

abbrev pub gpsone_loc_api_if_request_success : ℕ
gpsone_loc_api_if_request_success = 0xf0

abbrev pub gpsone_loc_api_if_release_success : ℕ
gpsone_loc_api_if_release_success = 0xf1

abbrev pub gpsone_loc_api_if_failure : ℕ
gpsone_loc_api_if_failure = 0xf2

-- `Subscriber::ID`.
unfoldable pub id_of : Subscriber → ℕ
id_of (bit_subscriber id v6) = id
id_of (atl_subscriber id compatible) = id
id_of (wifi_subscriber id ssid password inactive) = id
id_of (ds_subscriber id inactive) = id

unfoldable pub is_inactive : Subscriber → Bool
is_inactive (bit_subscriber id v6) = false
is_inactive (atl_subscriber id compatible) = false
is_inactive (wifi_subscriber id ssid password inactive) = inactive
is_inactive (ds_subscriber id inactive) = inactive

unfoldable pub wait_for_close_complete : Subscriber → Bool
wait_for_close_complete (bit_subscriber id v6) = false
wait_for_close_complete (atl_subscriber id compatible) = false
wait_for_close_complete (wifi_subscriber id ssid password inactive) = true
wait_for_close_complete (ds_subscriber id inactive) = true

-- `strlcpy` into a buffer of `SSID_BUF_SIZE` bytes.
strlcpy_ssid : CString → CString
strlcpy_ssid s = take (ssid_buf_size - 1) s

-- `clone`: the constructors copy the strings and start active.
unfoldable pub clone : Subscriber → Subscriber
unfolding strlcpy_ssid
clone (bit_subscriber id v6) = bit_subscriber id v6
clone (atl_subscriber id compatible) = atl_subscriber id compatible
clone (wifi_subscriber id ssid password inactive) =
    wifi_subscriber id (Option.map strlcpy_ssid ssid) (Option.map strlcpy_ssid password) false
clone (ds_subscriber id inactive) = ds_subscriber id false

-- The bytes that `strncmp` reads: up to the NUL.
unfoldable pub c_string : List ℕ → CString
c_string [] = []
c_string (b ∷ bs) = if b == 0 then [] else b ∷ c_string bs

-- `0 == strncmp(a, b, 16)`.
unfoldable pub same_ipv6 : List ℕ → List ℕ → Bool
unfolding c_string
same_ipv6 a b = eq_bytes (c_string (take 16 a)) (c_string (take 16 b))

-- `this->equals(s)`. `BITSubscriber::equals` casts its argument, so it reads the address of an
-- object that may have none.
unfoldable pub equals : Subscriber → Subscriber → Cmd Bool
unfolding id_of same_ipv6
equals (bit_subscriber id v6) (bit_subscriber other v6') =
    pure (id == other && (not (id == inaddr_none) || same_ipv6 v6 v6'))
equals (bit_subscriber id v6) s =
    if id == id_of s then (if id == inaddr_none then (λ _. fault) else pure true) else pure false
equals s t = pure (id_of s == id_of t)

unfoldable pub lookup_addr : ℕ → List Node → Option Subscriber
lookup_addr a [] = none
lookup_addr a (n ∷ ns) = if n.addr == a then some n.sub else lookup_addr a ns

abbrev or_fault : Option Subscriber → Cmd Subscriber
or_fault none m = fault
or_fault (some s) m = ok s m

-- A read through a `Subscriber*`. The list owns its objects: an object that left the list is freed.
unfoldable pub deref : Ref → Cmd Subscriber
unfolding lookup_addr
deref null m = fault
deref (caller s) m = ok s m
deref (listed a) m = or_fault (lookup_addr a m.subscribers) m

-- The receivers of a broadcast.
unfoldable pub in_group : GroupId → Subscriber → Bool
unfolding is_inactive
in_group broadcast_all s = true
in_group broadcast_active s = not (is_inactive s)
in_group broadcast_inactive s = is_inactive s
in_group no_group s = false

for_me_rcver : Ref → GroupId → Subscriber → Cmd Bool
unfolding deref equals in_group
for_me_rcver null group s = pure (in_group group s)
for_me_rcver (caller r) group s = equals s r
for_me_rcver (listed a) group s = deref (listed a) >>= equals s

-- `Subscriber::forMe`.
unfoldable pub for_me : Notification → Subscriber → Cmd Bool
unfolding for_me_rcver
for_me n s = for_me_rcver n.rcver n.group_id s

-- `setInactive` of the two classes that have the flag.
mark_inactive : Subscriber → Subscriber
mark_inactive (bit_subscriber id v6) = bit_subscriber id v6
mark_inactive (atl_subscriber id compatible) = atl_subscriber id compatible
mark_inactive (wifi_subscriber id ssid password inactive) = wifi_subscriber id ssid password true
mark_inactive (ds_subscriber id inactive) = ds_subscriber id true

-- Marks the object at an address of the list.
unfoldable pub mark_inactive_at : ℕ → List Node → List Node
unfolding mark_inactive
mark_inactive_at a [] = []
mark_inactive_at a (n ∷ ns) =
    if n.addr == a then record n { sub = mark_inactive n.sub } ∷ ns else n ∷ mark_inactive_at a ns
