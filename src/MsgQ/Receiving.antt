-- ===== src/MsgQ/Receiving.antt =====
-- `msg_q_rcv` takes the oldest message of a queue.
use android_device_samsung_d.Common.{
  ℕ, ◌≡◌, refl, Bool, true, false, Option, none, some, List, [], ◌∷◌, ◌++◌, if◌then◌else◌,
}
use android_device_samsung_d.LinkedList.Chain.{Cell, IsList, Holds, Returns}
use android_device_samsung_d.LinkedList.Memory.{null_ptr, ListState, Memory}
use android_device_samsung_d.LinkedList.Operations.{
  ListErr, success, Handle, linked_list_remove, linked_list_empty,
}
use android_device_samsung_d.LinkedList.Removing.{
  Ending, nothing, ends, ending, linked_list_remove-last, p_head_live,
}
use android_device_samsung_d.MsgQ.Operations.{
  q_success, q_unavailable_resource, QHandle, convert_linked_list_err_type, Receipt, waiting,
  returned, rcv_loop, msg_q_rcv,
}
use android_device_samsung_d.MsgQ.Queued.{queued, queued-last, Queues, QueueHolds, Returns-then}

-- What `msg_q_rcv` and its loop return on a queue with messages: a receiver waits on a blocked queue
-- without messages, and otherwise gets the oldest message, or no resource.
abbrev pub receipt : List ℕ → Bool → Receipt
receipt [] false = waiting
receipt [] true = returned q_unavailable_resource none
receipt (d ∷ ms) u = returned q_success (some d)

abbrev pub after_rcv : List ℕ → List ℕ
after_rcv [] = []
after_rcv (d ∷ ms) = ms

module _ (m : Memory) where
  abbrev Received : List ℕ → Bool → Receipt × QHandle → Memory → Type 0
  Received ms u (r, q) n = (r ≡ receipt ms u) × QueueHolds n.heap q u (after_rcv ms)

  rcv_loop-nothing :
      (l : ListState) (u : Bool)
      → IsList m.heap l []
      → Returns (Received [] u) (rcv_loop (record { msg_list = some l; unblocked = u }) m)
  unfolding rcv_loop linked_list_empty linked_list_remove convert_linked_list_err_type queued
  rcv_loop-nothing l false is =
      let kept : IsList m.heap (record { p_head = null_ptr; p_tail = l.p_tail }) [] = record {
        head = refl;
        tail = is.tail;
        chain = tt;
      } in
      rw is.head (refl, (record { cells = []; holds = kept; order = refl }, refl))
  rcv_loop-nothing l true is =
      let kept : IsList m.heap (record { p_head = null_ptr; p_tail = null_ptr }) [] = record {
        head = refl;
        tail = refl;
        chain = tt;
      } in
      rw (is.head, is.tail) (refl, (record { cells = []; holds = kept; order = refl }, refl))

  taken-Received :
      (cs : List Cell) (c : Cell) (u : Bool) (err : ListErr) (l : Handle) (d : Option ℕ)
      (n : Memory)
      → err ≡ success
      → d ≡ some c.data_ptr
      → Holds n.heap l cs
      → Received
          (c.data_ptr ∷ queued cs)
          u
          (
            returned (convert_linked_list_err_type err) d,
            some (record { msg_list = l; unblocked = u }),
          )
          n
  unfolding convert_linked_list_err_type
  taken-Received cs c u err l d n e given holds =
      rw (e, given) (refl, (record { cells = cs; holds = holds; order = refl }, refl))

  rcv_loop-oldest :
      (l : ListState) (u : Bool) (cs : List Cell) (c : Cell)
      → IsList m.heap l (cs ++ c ∷ [])
      → Returns
          (Received (c.data_ptr ∷ queued cs) u)
          (rcv_loop (record { msg_list = some l; unblocked = u }) m)
  unfolding rcv_loop linked_list_empty
  rcv_loop-oldest l u cs c is = rw (p_head_live m l cs c is) (
      Returns-then (Received (c.data_ptr ∷ queued cs) u) (linked_list_remove (some l) true m) _
        (linked_list_remove-last m l c cs is)
        (λ a n p. taken-Received cs c u a.0 a.1 a.2 n p.0 p.1 p.2))

  rcv_loop-cells :
      (l : ListState) (u : Bool) (cs : List Cell)
      → IsList m.heap l cs
      → Ending cs
      → Returns (Received (queued cs) u) (rcv_loop (record { msg_list = some l; unblocked = u }) m)
  unfolding queued
  rcv_loop-cells l u cs list nothing = rcv_loop-nothing l u list
  rcv_loop-cells l u cs list (ends bs b) = rw (queued-last bs b) (rcv_loop-oldest l u bs b list)

  -- On a queue with messages, the loop of `msg_q_rcv` waits if there is no message and the queue is
  -- blocked, returns no resource if there is no message and the queue is unblocked, and else takes out
  -- the oldest message; the mode stays.
  pub rcv_loop-QueueHolds :
      (l : Handle) (u : Bool) (ms : List ℕ)
      → Queues m.heap l ms
      → Returns
          (λ (r, q) n. (r ≡ receipt ms u) × QueueHolds n.heap q u (after_rcv ms))
          (rcv_loop (record { msg_list = l; unblocked = u }) m)
  rcv_loop-QueueHolds none u ms is = absurd is.holds
  rcv_loop-QueueHolds (some l) u ms is =
      rw⁻¹ is.order (rcv_loop-cells l u is.cells is.holds (ending is.cells))

  -- A call of `msg_q_rcv` on an unblocked queue returns no resource and leaves the messages; on a blocked
  -- queue it waits if there is no message, and else takes out the oldest one. The mode stays.
  pub msg_q_rcv-QueueHolds :
      (l : Handle) (u : Bool) (ms : List ℕ)
      → Queues m.heap l ms
      → Returns
          (λ (r, q) n.
            (r ≡ (if u then returned q_unavailable_resource none else receipt ms false))
            × QueueHolds n.heap q u (if u then ms else after_rcv ms))
          (msg_q_rcv (some (record { msg_list = l; unblocked = u })) true m)
  unfolding msg_q_rcv
  msg_q_rcv-QueueHolds l true ms is = (refl, (is, refl))
  msg_q_rcv-QueueHolds l false ms is = rcv_loop-QueueHolds l false ms is
