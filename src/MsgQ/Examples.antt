-- ===== src/MsgQ/Examples.antt =====
-- Runs of gps/utils/msg_q.c.
use android_device_samsung_d.Common.{
  ℕ, ◌≡◌, refl, true, false, Option, none, some, List, [], ◌∷◌, ◌++◌, arith,
}
use android_device_samsung_d.LinkedList.Chain.{has, Returns}
use android_device_samsung_d.LinkedList.Memory.{
  null_ptr, ListElement, Memory, write, load, set_next, free,
}
use android_device_samsung_d.LinkedList.Operations.{
  list_state, linked_list_init, insert_head, linked_list_add, take_tail, linked_list_remove,
  linked_list_empty,
}
use android_device_samsung_d.MsgQ.Flushing.{nothing-Queues}
use android_device_samsung_d.MsgQ.Operations.{
  q_success, q_unavailable_resource, MsgQ, convert_linked_list_err_type, init_sync, msg_q_init,
  msg_q_snd, returned, rcv_loop, msg_q_rcv,
}
use android_device_samsung_d.MsgQ.Order.{Trace, created, sent, received, Trace-InOrder}
use android_device_samsung_d.MsgQ.Queued.{queued, Queues, QueueHolds}
use android_device_samsung_d.MsgQ.Receiving.{rcv_loop-QueueHolds, msg_q_rcv-QueueHolds}
use android_device_samsung_d.MsgQ.Sending.{after_snd, msg_q_snd-QueueHolds}

abbrev blank : Memory
blank = record { heap = λ _. none; deallocs = [] }

abbrev empty_queue : MsgQ
empty_queue = record { msg_list = list_state null_ptr null_ptr; unblocked = false }

abbrev element_of : ℕ → ℕ → ℕ → Option ListElement
element_of next prev d = some (record { next = next; prev = prev; data_ptr = d; dealloc_func = 0 })

-- The memory and the queue after 5 is sent with an element at 100.
abbrev one : Memory
one = record {
  heap = write (write (λ _. none) 100 (element_of 0 0 5)) 100 (element_of 0 0 5);
  deallocs = [];
}

abbrev one_queue : MsgQ
one_queue = record { msg_list = list_state 100 100; unblocked = false }

one-Queues : Queues one.heap one_queue.msg_list (5 ∷ [])
unfolding queued write has
one-Queues = record {
  cells = record { addr = 100; data_ptr = 5; dealloc_func = 0 } ∷ [];
  holds = (record { head = refl; tail = refl; chain = ((λ e. omega (arith, e)), refl, refl, tt) });
  order = refl;
}

created-Trace : Trace [] [] blank empty_queue
unfolding msg_q_init init_sync linked_list_init
created-Trace = created 1 blank blank empty_queue refl

sent-Trace : Trace (5 ∷ []) [] one one_queue
unfolding msg_q_snd linked_list_add insert_head set_next load convert_linked_list_err_type write
sent-Trace = sent created-Trace 100 5 0 refl q_success one_queue one refl

-- The memory after 5 is received again.
abbrev spent : Memory
spent = record { heap = write one.heap 100 none; deallocs = [] }

received-Trace : Trace (5 ∷ []) (5 ∷ []) spent empty_queue
unfolding msg_q_rcv rcv_loop linked_list_empty linked_list_remove take_tail free load
    convert_linked_list_err_type write
received-Trace = received sent-Trace (returned q_success (some 5)) empty_queue spent refl

Trace-InOrder_example :
    (ms : List ℕ) × Queues spent.heap empty_queue.msg_list ms × (5 ∷ [] ≡ (5 ∷ []) ++ ms)
Trace-InOrder_example = Trace-InOrder received-Trace

msg_q_snd-QueueHolds_example :
    Returns
      (λ (err, q) n. (err ≡ q_success) × QueueHolds n.heap q false (after_snd err (5 ∷ []) 7))
      (msg_q_snd 200 (some one_queue) 7 0 one)
unfolding write
msg_q_snd-QueueHolds_example =
    msg_q_snd-QueueHolds 200 7 0 one refl (5 ∷ []) (some one_queue) one-Queues

msg_q_rcv-QueueHolds_example :
    Returns
      (λ (r, q) n. (r ≡ returned q_success (some 5)) × QueueHolds n.heap q false [])
      (msg_q_rcv (some one_queue) true one)
msg_q_rcv-QueueHolds_example =
    msg_q_rcv-QueueHolds one (list_state 100 100) false (5 ∷ []) one-Queues

rcv_loop-QueueHolds_example :
    Returns
      (λ (r, q) n. (r ≡ returned q_unavailable_resource none) × QueueHolds n.heap q true [])
      (rcv_loop (record { msg_list = list_state null_ptr null_ptr; unblocked = true }) blank)
rcv_loop-QueueHolds_example =
    rcv_loop-QueueHolds blank (list_state null_ptr null_ptr) true [] (nothing-Queues blank.heap)
