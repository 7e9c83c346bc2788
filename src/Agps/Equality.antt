-- ===== src/Agps/Equality.antt =====
-- Which subscriber of the list stands for an object of the caller: `equals` where it reads no
-- foreign object.
use android_device_samsung_d.Common.{
  ℕ, ◌≡◌, refl, Bool, true, false, not, ◌&&◌, ◌||◌, List, [], ◌∷◌, arith, ◌==◌, ==_refl, take,
  eq_bytes,
}
use android_device_samsung_d.Agps.Notify.{has_subscriber}
use android_device_samsung_d.Agps.Searches.{split_first, AnswersBy, find-split_first}
use android_device_samsung_d.Agps.SubscriberList.{
  to_subscriber, found_node, search_list, find_subscriber,
}
use android_device_samsung_d.Agps.Subscribers.{inaddr_none, id_of, c_string, same_ipv6, equals}
use android_device_samsung_d.Agps.Types.{
  rsrc_status_max, Subscriber, bit_subscriber, atl_subscriber, wifi_subscriber, ds_subscriber, Node,
  caller, Machine, ok,
}

-- `equals` as a test.
unfoldable pub matches : Subscriber → Subscriber → Bool
matches (bit_subscriber id v6) (bit_subscriber other v6') =
    id == other && (not (id == inaddr_none) || same_ipv6 v6 v6')
matches s t = id_of s == id_of t

-- The cast in `BITSubscriber::equals` reads past an object of another class when both have the
-- ID INADDR_NONE; elsewhere the two can be compared.
unfoldable pub comparable : Subscriber → Subscriber → Bool
comparable (bit_subscriber id v6) (bit_subscriber other v6') = true
comparable (bit_subscriber id v6) s = not (id == id_of s && id == inaddr_none)
comparable s t = true

-- Every element of a list can be compared with an object.
abbrev pub AllComparable : Subscriber → List Node → Type 0
AllComparable s [] = Unit
AllComparable s (n ∷ ns) = (comparable n.sub s ≡ true) × AllComparable s ns

pub equals-matches :
    (s t : Subscriber) (m : Machine) → comparable s t ≡ true → equals s t m ≡ ok (matches s t) m
unfolding equals matches comparable
equals-matches (bit_subscriber id v6) (bit_subscriber other v6') m h = refl
equals-matches (bit_subscriber id v6) s m h = ground arith
equals-matches _ t m h = refl

-- The address of an IPv6 interface equals itself.
eq_bytes_refl : (bs : List ℕ) → eq_bytes bs bs ≡ true
eq_bytes_refl [] = refl
eq_bytes_refl (b ∷ bs) = rw (==_refl b, eq_bytes_refl bs)

same_ipv6_refl : (v6 : List ℕ) → same_ipv6 v6 v6 ≡ true
unfolding same_ipv6
same_ipv6_refl v6 = eq_bytes_refl (c_string (take 16 v6))

or_true : (b : Bool) → (b || true) ≡ true
or_true true = refl
or_true false = refl

pub matches_self : (s : Subscriber) → matches s s ≡ true
unfolding matches
matches_self (bit_subscriber id v6) =
    rw (==_refl id, same_ipv6_refl v6) (or_true (not (id == inaddr_none)))
matches_self (atl_subscriber id compatible) = ==_refl _
matches_self (wifi_subscriber id ssid password inactive) = ==_refl _
matches_self (ds_subscriber id inactive) = ==_refl _

pub comparable_self : (s : Subscriber) → comparable s s ≡ true
unfolding comparable
comparable_self (bit_subscriber id v6) = refl
comparable_self _ = refl

pub AnswersBy-matches :
    (s : Subscriber) (ns : List Node)
    → AllComparable s ns
    → AnswersBy
        (has_subscriber (to_subscriber (caller s) rsrc_status_max false))
        (λ n. matches n.sub s)
        ns
unfolding has_subscriber
AnswersBy-matches s [] h = tt
AnswersBy-matches s (n ∷ ns) h = (λ m. equals-matches n.sub s m h.0, AnswersBy-matches s ns h.1)

-- The search for the object of the caller finds the first subscriber that matches it.
pub find_subscriber-matches :
    (s : Subscriber) (m : Machine)
    → AllComparable s m.subscribers
    → find_subscriber (to_subscriber (caller s) rsrc_status_max false) m
      ≡ ok (found_node (split_first (λ n. matches n.sub s) m.subscribers)) m
unfolding find_subscriber search_list
find_subscriber-matches s m h = rw (
    find-split_first (has_subscriber (to_subscriber (caller s) rsrc_status_max false))
      (λ n. matches n.sub s) m.subscribers m (AnswersBy-matches s m.subscribers h))
