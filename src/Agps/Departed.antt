-- ===== src/Agps/Departed.antt =====
-- The machine that an unsubscription leaves is well formed.
use android_device_samsung_d.Common.{
  ℕ, ◌≡◌, refl, sym, ◌∙◌, subst, inl, inr, false, not, ◌&&◌, Option, none, some, List, [], ◌∷◌,
  arith, ◌==◌, Bool-cases, any, is_nil,
}
use android_device_samsung_d.Agps.Equality.{matches}
use android_device_samsung_d.Agps.Found.{FoundBy}
use android_device_samsung_d.Agps.Searches.{is_active}
use android_device_samsung_d.Agps.Subscribers.{wait_for_close_complete, mark_inactive_at}
use android_device_samsung_d.Agps.Types.{
  Subscriber, Node, AgpsState, pending, releasing, agps_state_machine, Machine, Run, ok, fault,
  out_of_fuel,
}
use android_device_samsung_d.Agps.Unsubscribe.{not-nil, is_nil-mark_inactive_at}
use android_device_samsung_d.Agps.Unsubscribing.{released_if_idle, marked, after_last, leave}
use android_device_samsung_d.Agps.WellFormed.{
  is_released, wants_resource, has_addr, Distinct, IsWellFormed,
}

-- The machine after a run has the property, if the run ends.
abbrev pub Leaves : {A : Type 0} → (Machine → Type 0) → Run A → Type 0
Leaves P (ok a m) = P m
Leaves P fault = Unit
Leaves P out_of_fuel = Unit

-- The machine after a run is well formed, if the run ends.
abbrev pub LeavesWell : {A : Type 0} → Run A → Type 0
LeavesWell r = Leaves IsWellFormed r

pub Leaves-ok :
    {A : Type 0} (P : Machine → Type 0) {r : Run A} {a : A} {m : Machine}
    → Leaves P r
    → r ≡ ok a m
    → P m
Leaves-ok P w e = subst (Leaves P) e w

has_addr-mark_inactive_at :
    (a b : ℕ) (ns : List Node) → has_addr b (mark_inactive_at a ns) ≡ has_addr b ns
unfolding has_addr mark_inactive_at
has_addr-mark_inactive_at a b [] = refl
has_addr-mark_inactive_at a b (n ∷ ns) = elim (Bool-cases (n.addr == a)) [
  | inl e ↦ rw e
  | inr e ↦ rw e (rw (has_addr-mark_inactive_at a b ns))
]

Distinct-mark_inactive_at :
    (a b : ℕ) (ns : List Node) → Distinct b ns → Distinct b (mark_inactive_at a ns)
unfolding mark_inactive_at
Distinct-mark_inactive_at a b [] d = tt
Distinct-mark_inactive_at a b (n ∷ ns) (low, out, d) = elim (Bool-cases (n.addr == a)) [
  | inl e ↦ rw e (low, out, d)
  | inr e ↦
      rw e (low, has_addr-mark_inactive_at a n.addr ns ∙ out, Distinct-mark_inactive_at a b ns d)
]

released_if_idle-IsWellFormed :
    (state : AgpsState) (m : Machine)
    → m.kind ≡ agps_state_machine
    → is_nil m.subscribers ≡ is_released state
    → Distinct m.next_addr m.subscribers
    → is_released state ≡ false
    → IsWellFormed (released_if_idle releasing state m)
unfolding released_if_idle
released_if_idle-IsWellFormed state m agps empty d live =
    elim (Bool-cases (wants_resource state && not (any is_active m.subscribers))) [
      | inl e ↦
          rw e (record { agps = agps; empty = empty ∙ live; active = λ h. cc h; distinct = d })
      | inr e ↦ rw e (record { agps = agps; empty = empty; active = ground arith; distinct = d })
    ]

after_last-IsWellFormed :
    (state : AgpsState) (n : Node) (m : Machine)
    → m.kind ≡ agps_state_machine
    → IsWellFormed (after_last state n m)
unfolding after_last released_if_idle
after_last-IsWellFormed pending n m agps = record {
  agps = agps;
  empty = refl;
  active = λ h. cc h;
  distinct = tt;
}
after_last-IsWellFormed _ n m agps = record {
  agps = agps;
  empty = refl;
  active = λ h. cc h;
  distinct = tt;
}

pub leave-LeavesWell :
    (s : Subscriber) (m : Machine) (found : Option (Node × List Node))
    → IsWellFormed m
    → FoundBy (λ n. matches n.sub s) m.subscribers found
    → LeavesWell (leave m.state found m)
unfolding leave after_last released_if_idle
leave-LeavesWell s m none w f = w
leave-LeavesWell s m (some (n, rest)) w f = elim (Bool-cases (wait_for_close_complete n.sub)) [
  | inl waits ↦ rw waits (
      released_if_idle-IsWellFormed m.state (marked n m) w.agps
        (is_nil-mark_inactive_at n.addr m.subscribers ∙ w.empty)
        (Distinct-mark_inactive_at n.addr m.next_addr m.subscribers w.distinct)
        (sym w.empty ∙ not-nil m.subscribers f.shorter))
  | inr now ↦ rw now (elim (Bool-cases (is_nil rest)) [
    | inl e ↦ rw e (after_last-IsWellFormed m.state n m w.agps)
    | inr e ↦ rw e tt
  ])
]
