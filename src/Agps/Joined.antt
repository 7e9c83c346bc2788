-- ===== src/Agps/Joined.antt =====
-- A subscription keeps the invariant.
use android_device_samsung_d.Common.{
  ℕ, ◌+◌, ◌≤◌, ◌≡◌, refl, ap, ◌∙◌, inl, inr, Bool, true, false, not, ◌&&◌, ◌||◌, List, [], ◌∷◌,
  arith, ==_ne, Bool-cases, any, is_nil,
}
use android_device_samsung_d.Agps.Equality.{matches}
use android_device_samsung_d.Agps.Replies.{told}
use android_device_samsung_d.Agps.Searches.{is_active}
use android_device_samsung_d.Agps.Subscribing.{
  added, told_caller, after_join, after_subscribe, any-active-added, added-kind,
}
use android_device_samsung_d.Agps.Types.{
  rsrc_granted, Subscriber, Node, AgpsState, released, acquired, pending, releasing, Machine,
}
use android_device_samsung_d.Agps.WellFormed.{
  is_released, wants_resource, has_addr, Distinct, IsWellFormed, is_nil_of_any,
}

-- A list below a bound does not hold the bound, and is below the next one.
has_addr-bound : (c b : ℕ) (ns : List Node) → b ≤ c → Distinct b ns → has_addr c ns ≡ false
unfolding has_addr
has_addr-bound c b [] le d = refl
has_addr-bound c b (n ∷ ns) le (low, out, d) =
    rw (==_ne n.addr c (λ e. omega arith)) (has_addr-bound c b ns le d)

pub Distinct-mono : (b c : ℕ) (ns : List Node) → b ≤ c → Distinct b ns → Distinct c ns
Distinct-mono b c [] le d = tt
Distinct-mono b c (n ∷ ns) le (low, out, d) = (omega arith, out, Distinct-mono b c ns le d)

pub added-Distinct :
    (s : Subscriber) (m : Machine)
    → Distinct m.next_addr m.subscribers
    → Distinct (added s m).next_addr (added s m).subscribers
unfolding added
added-Distinct s m d = elim (Bool-cases (any (λ n. matches n.sub s) m.subscribers)) [
  | inl e ↦ rw e d
  | inr e ↦ rw e (
    omega arith,
    has_addr-bound m.next_addr m.next_addr m.subscribers (omega arith) d,
    Distinct-mono m.next_addr (m.next_addr + 1) m.subscribers (omega arith) d,
  )
]

-- After a subscription the list is not empty, and an active subscriber stays.
pub added-nonempty : (s : Subscriber) (m : Machine) → is_nil (added s m).subscribers ≡ false
unfolding added
added-nonempty s m = elim (Bool-cases (any (λ n. matches n.sub s) m.subscribers)) [
  | inl e ↦ rw e (is_nil_of_any _ m.subscribers e)
  | inr e ↦ rw e
]

or_true : (b : Bool) → (b || true) ≡ true
or_true true = refl
or_true false = refl

added-active :
    (s : Subscriber) (m : Machine)
    → any is_active m.subscribers ≡ true
    → any is_active (added s m).subscribers ≡ true
unfolding added
added-active s m h = elim (Bool-cases (any (λ n. matches n.sub s) m.subscribers)) [
  | inl e ↦ rw e h
  | inr e ↦ rw e (rw h (or_true _))
]

join-at :
    (m : Machine) (s : Subscriber) (state : AgpsState)
    → m.state ≡ state
    → IsWellFormed m
    → IsWellFormed (after_join state s m)
unfolding after_join told
join-at m s released e w = record {
  agps = added-kind s m ∙ w.agps;
  empty = added-nonempty s m;
  active = λ _. any-active-added s m (w.empty ∙ ap is_released e);
  distinct = added-Distinct s m w.distinct;
}
join-at m s acquired e w = record {
  agps = added-kind s (told_caller rsrc_granted s m) ∙ w.agps;
  empty = added-nonempty s (told_caller rsrc_granted s m);
  active = λ _. added-active s (told_caller rsrc_granted s m) (w.active (ap wants_resource e));
  distinct = added-Distinct s (told_caller rsrc_granted s m) w.distinct;
}
join-at m s pending e w = record {
  agps = added-kind s m ∙ w.agps;
  empty = added-nonempty s m;
  active = λ _. added-active s m (w.active (ap wants_resource e));
  distinct = added-Distinct s m w.distinct;
}
join-at m s releasing e w = record {
  agps = added-kind s m ∙ w.agps;
  empty = added-nonempty s m;
  active = λ h. cc h;
  distinct = added-Distinct s m w.distinct;
}

-- A subscription keeps the invariant.
pub after_subscribe-IsWellFormed :
    (s : Subscriber) (m : Machine) → IsWellFormed m → IsWellFormed (after_subscribe s m)
unfolding after_subscribe told
after_subscribe-IsWellFormed s m w =
    elim (Bool-cases (m.enforce_single_subscriber && not (is_nil m.subscribers))) [
      | inl e ↦
          rw e (record { agps = w.agps; empty = w.empty; active = w.active; distinct = w.distinct })
      | inr e ↦ rw e (join-at m s m.state refl w)
    ]
