-- ===== src/Agps/WellFormed.antt =====
-- The invariant of an `AgpsStateMachine` between two calls.
use android_device_samsung_d.Common.{
  ℕ, ◌<◌, ◌≡◌, refl, ap, ◌∙◌, inl, inr, Bool, true, false, ◌||◌, List, [], ◌∷◌, arith, ◌==◌,
  Bool-cases, filter, any, is_nil,
}
use android_device_samsung_d.Agps.Broadcast.{others}
use android_device_samsung_d.Agps.Events.{after_close, after_event, any-active-others}
use android_device_samsung_d.Agps.Replies.{told}
use android_device_samsung_d.Agps.Searches.{is_active}
use android_device_samsung_d.Agps.Subscribers.{is_inactive, in_group}
use android_device_samsung_d.Agps.Types.{
  AgpsRsrcStatus, rsrc_granted, rsrc_released, rsrc_denied, Node, broadcast_inactive, AgpsState,
  released, acquired, pending, releasing, agps_state_machine, Machine,
}

abbrev pub is_released : AgpsState → Bool
is_released released = true
is_released _ = false

-- The states that hold or await the resource.
abbrev pub wants_resource : AgpsState → Bool
wants_resource pending = true
wants_resource acquired = true
wants_resource _ = false

unfoldable pub has_addr : ℕ → List Node → Bool
has_addr a [] = false
has_addr a (n ∷ ns) = n.addr == a || has_addr a ns

-- No two objects of the list stand at one address, and all addresses were given out before `b`.
abbrev pub Distinct : ℕ → List Node → Type 0
Distinct b [] = Unit
Distinct b (n ∷ ns) = (n.addr < b) × (has_addr n.addr ns ≡ false) × Distinct b ns

-- The list is empty exactly in the released state, the pending and the acquired state have an
-- active subscriber, and the objects of the list are distinct.
pub record IsWellFormed (m : Machine) : Type 0 where
  pub agps : m.kind ≡ agps_state_machine
  pub empty : is_nil m.subscribers ≡ is_released m.state
  pub active : wants_resource m.state ≡ true → any is_active m.subscribers ≡ true
  pub distinct : Distinct m.next_addr m.subscribers

has_addr-filter :
    (p : Node → Bool) (a : ℕ) (ns : List Node)
    → has_addr a ns ≡ false
    → has_addr a (filter p ns) ≡ false
unfolding has_addr
has_addr-filter p a [] h = refl
has_addr-filter p a (n ∷ ns) h = ground (arith, has_addr-filter p a ns)

pub Distinct-filter :
    (p : Node → Bool) (b : ℕ) (ns : List Node) → Distinct b ns → Distinct b (filter p ns)
Distinct-filter p b [] d = tt
Distinct-filter p b (n ∷ ns) (low, out, d) = elim (Bool-cases (p n)) [
  | inl e ↦ rw e (low, has_addr-filter p n.addr ns out, Distinct-filter p b ns d)
  | inr e ↦ rw e (Distinct-filter p b ns d)
]

pub is_nil_of_any : (p : Node → Bool) (ns : List Node) → any p ns ≡ true → is_nil ns ≡ false
is_nil_of_any p [] h = cc
is_nil_of_any p (n ∷ ns) h = refl

-- Without an active subscriber, dropping the inactive ones empties the list.
pub is_nil-others :
    (ns : List Node) → any is_active ns ≡ false → is_nil (others broadcast_inactive ns) ≡ true
unfolding others in_group
is_nil-others [] h = refl
is_nil-others (n ∷ ns) h = elim (Bool-cases (is_inactive n.sub)) [
  | inl e ↦ rw e (is_nil-others ns (rw e at h))
  | inr e ↦ cc (rw e at h)
]

pub after_close-IsWellFormed :
    (status : AgpsRsrcStatus) (m : Machine)
    → m.kind ≡ agps_state_machine
    → Distinct m.next_addr m.subscribers
    → IsWellFormed (after_close status m)
unfolding after_close told
after_close-IsWellFormed status m agps d = elim (Bool-cases (any is_active m.subscribers)) [
  | inl e ↦ rw e (record {
    agps = agps;
    empty = is_nil_of_any is_active _ (any-active-others m.subscribers ∙ e);
    active = λ _. any-active-others m.subscribers ∙ e;
    distinct = unfold others in Distinct-filter _ m.next_addr m.subscribers d;
  })
  | inr e ↦ rw e (record {
    agps = agps;
    empty = is_nil-others m.subscribers e;
    active = λ h. cc h;
    distinct = unfold others in Distinct-filter _ m.next_addr m.subscribers d;
  })
]

pub keep-IsWellFormed :
    (m : Machine) (state : AgpsState)
    → m.state ≡ state
    → IsWellFormed m
    → IsWellFormed (record m { state = state })
keep-IsWellFormed m state e w = record {
  agps = w.agps;
  empty = w.empty ∙ ap is_released e;
  active = λ h. w.active (ap wants_resource e ∙ h);
  distinct = w.distinct;
}

emptied-IsWellFormed :
    (status : AgpsRsrcStatus) (m : Machine)
    → IsWellFormed m
    → IsWellFormed (record (told status m.subscribers m) { state = released; subscribers = [] })
unfolding told
emptied-IsWellFormed status m w = record {
  agps = w.agps;
  empty = refl;
  active = λ h. cc h;
  distinct = tt;
}

after_event-at :
    (m : Machine) (state : AgpsState) (event : AgpsRsrcStatus)
    → m.state ≡ state
    → IsWellFormed m
    → IsWellFormed (after_event state event m)
unfolding after_event told
after_event-at m pending rsrc_granted e w = record {
  agps = w.agps;
  empty = w.empty ∙ ap is_released e;
  active = λ _. w.active (ap wants_resource e);
  distinct = w.distinct;
}
after_event-at m pending rsrc_denied e w = emptied-IsWellFormed rsrc_denied m w
after_event-at m acquired rsrc_released e w = emptied-IsWellFormed rsrc_released m w
after_event-at m releasing rsrc_released e w =
    after_close-IsWellFormed rsrc_released m w.agps w.distinct
after_event-at m releasing rsrc_denied e w =
    after_close-IsWellFormed rsrc_denied m w.agps w.distinct
after_event-at m state event e w = keep-IsWellFormed m state e w

-- Every event from the connectivity service keeps the invariant.
pub after_event-IsWellFormed :
    (event : AgpsRsrcStatus) (m : Machine)
    → IsWellFormed m
    → IsWellFormed (after_event m.state event m)
after_event-IsWellFormed event m w = after_event-at m m.state event refl w
