-- ===== src/MsgQ/Flushing.antt =====
-- `msg_q_init` makes an empty queue, `msg_q_flush` empties one, and `msg_q_unblock` keeps the messages.
use android_device_samsung_d.Common.{
  ℕ, ◌≡◌, refl, sym, subst, inl, inr, Bool, true, none, some, List, [], Bool-cases,
}
use android_device_samsung_d.LinkedList.Chain.{Cell, Holds}
use android_device_samsung_d.LinkedList.Memory.{
  null_ptr, ListState, Heap, Memory, Run, ok, fault, out_of_fuel, Cmd, pure, and_then,
}
use android_device_samsung_d.LinkedList.Operations.{
  ListErr, success, Handle, list_state, linked_list_init, flush_loop, linked_list_flush,
}
use android_device_samsung_d.MsgQ.Operations.{
  MsgQErr, q_success, MsgQ, QHandle, init_sync, msg_q_init, msg_q_flush, msg_q_unblock,
}
use android_device_samsung_d.MsgQ.Queued.{queued, Queues}

-- If a run returns, then with a postcondition.
abbrev pub Whenever : {A : Type 0} → (A → Memory → Type 0) → Run A → Type 0
Whenever P (ok a m) = P a m
Whenever P fault = Unit
Whenever P out_of_fuel = Unit

Whenever-then :
    {A B : Type 0} (P : A → Memory → Type 0) (Q : B → Memory → Type 0) (r : Run A) (k : A → Cmd B)
    → Whenever P r
    → ((a : A) (n : Memory) → P a n → Whenever Q (k a n))
    → Whenever Q (and_then r k)
Whenever-then P Q (ok a m) k p f = f a m p
Whenever-then P Q fault k p f = tt
Whenever-then P Q out_of_fuel k p f = tt

Whenever-any : {A : Type 0} (r : Run A) → Whenever (λ _ _. Unit {0}) r
Whenever-any (ok a m) = tt
Whenever-any fault = tt
Whenever-any out_of_fuel = tt

pub nothing-Queues : (h : Heap) → Queues h (list_state null_ptr null_ptr) []
unfolding queued
nothing-Queues h = record {
  cells = [];
  holds = (record { head = refl; tail = refl; chain = tt });
  order = refl;
}

abbrev IsEmptied : MsgQErr × QHandle → Memory → Type 0
IsEmptied (err, none) n = ⊥
IsEmptied (err, some q) n = Queues n.heap q.msg_list []

pub msg_q_init-Queues :
    (fuel : ℕ) (m n : Memory) (q : MsgQ)
    → msg_q_init fuel true true true true true m ≡ ok (q_success, some q) n
    → Queues n.heap q.msg_list []
unfolding msg_q_init init_sync linked_list_init
msg_q_init-Queues fuel m n q e = subst (λ r. Whenever IsEmptied r) e (nothing-Queues m.heap)

abbrev IsReset : ListErr × Handle → Memory → Type 0
IsReset (err, l) n = l ≡ list_state null_ptr null_ptr

linked_list_flush-IsEmptied :
    (fuel : ℕ) (l : ListState) (u : Bool) (m : Memory)
    → Whenever IsEmptied (msg_q_flush fuel (some (record { msg_list = some l; unblocked = u })) m)
unfolding msg_q_flush linked_list_flush
linked_list_flush-IsEmptied fuel l u m =
    let run = flush_loop fuel l.p_head m in
    let reset =
      Whenever-then (λ _ _. Unit {0}) IsReset run
        (λ _. pure (success, list_state null_ptr null_ptr)) (Whenever-any run) (λ _ _ _. refl) in
    Whenever-then IsReset IsEmptied (linked_list_flush fuel (some l) m) _ reset
      λ a n e. subst (λ h. Queues n.heap h []) (sym e) (nothing-Queues n.heap)

pub msg_q_flush-Queues :
    (fuel : ℕ) (m n : Memory) (q q' : MsgQ) (err : MsgQErr) (ms : List ℕ)
    → Queues m.heap q.msg_list ms
    → msg_q_flush fuel (some q) m ≡ ok (err, some q') n
    → Queues n.heap q'.msg_list []
msg_q_flush-Queues fuel m n q q' err ms is e =
    subst (λ r. Whenever IsEmptied r) e (by_list q.msg_list is.cells is.holds)
  where
    by_list :
        (l : Handle) (cs : List Cell)
        → Holds m.heap l cs
        → Whenever IsEmptied
            (msg_q_flush fuel (some (record { msg_list = l; unblocked = q.unblocked })) m)
    by_list none cs holds = absurd holds
    by_list (some l) cs holds = linked_list_flush-IsEmptied fuel l q.unblocked m

abbrev Keeps : MsgQ → MsgQErr × QHandle → Type 0
Keeps q (err, none) = ⊥
Keeps q (err, some q') = q'.msg_list ≡ q.msg_list

pub msg_q_unblock-keeps :
    (q q' : MsgQ) (err : MsgQErr)
    → msg_q_unblock (some q) ≡ (err, some q')
    → q'.msg_list ≡ q.msg_list
unfolding msg_q_unblock
msg_q_unblock-keeps q q' err e =
    subst (λ r. Keeps q r) e
      (elim (Bool-cases q.unblocked) as (λ _. Keeps q (msg_q_unblock (some q))) [
        | inl u ↦ rw u refl
        | inr u ↦ rw u refl
      ])
