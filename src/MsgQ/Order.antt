-- ===== src/MsgQ/Order.antt =====
-- A message queue is first in, first out, over any interleaving of calls.
use android_device_samsung_d.Common.{
  ℕ, ◌≡◌, refl, sym, ap, ◌∙◌, subst, Bool, true, false, none, some, List, [], ◌∷◌, ◌++◌,
  append_assoc,
}
use android_device_samsung_d.LinkedList.Chain.{Returns}
use android_device_samsung_d.LinkedList.Memory.{Memory, Run, ok}
use android_device_samsung_d.LinkedList.Operations.{Handle}
use android_device_samsung_d.MsgQ.Flushing.{
  msg_q_init-Queues, msg_q_flush-Queues, msg_q_unblock-keeps,
}
use android_device_samsung_d.MsgQ.Operations.{
  MsgQErr, q_success, q_failure_general, q_invalid_parameter, q_invalid_handle,
  q_unavailable_resource, q_insufficient_buffer, MsgQ, msg_q_init, msg_q_snd, Receipt, returned,
  rcv_loop, msg_q_rcv, msg_q_flush, msg_q_unblock,
}
use android_device_samsung_d.MsgQ.Queued.{Queues}
use android_device_samsung_d.MsgQ.Receiving.{
  receipt, after_rcv, rcv_loop-QueueHolds, msg_q_rcv-QueueHolds,
}
use android_device_samsung_d.MsgQ.Sending.{after_snd, msg_q_snd-QueueHolds}

-- The messages received, after a call of `msg_q_rcv` with a result.
abbrev after_receipt : List ℕ → Receipt → List ℕ
after_receipt ds (returned q_success (some d)) = ds ++ d ∷ []
after_receipt ds _ = ds

-- What happened to a queue: the messages sent and received since it was new or last flushed, and the
-- memory and the queue after it. Calls hold the mutex, so a run of several threads is a sequence; a
-- receiver that waits is woken at any time.
pub data Trace : List ℕ → List ℕ → Memory → MsgQ → Type 0 where
  created :
      (fuel : ℕ) (m n : Memory) (q : MsgQ)
      → msg_q_init fuel true true true true true m ≡ ok (q_success, some q) n
      → Trace [] [] n q
  sent :
      {s r : List ℕ} {m : Memory} {q : MsgQ} (t : Trace s r m q) (elem d f : ℕ)
      → m.heap elem ≡ none
      → (err : MsgQErr) (q' : MsgQ) (n : Memory)
      → msg_q_snd elem (some q) d f m ≡ ok (err, some q') n
      → Trace (after_snd err s d) r n q'
  received :
      {s r : List ℕ} {m : Memory} {q : MsgQ} (t : Trace s r m q) (c : Receipt) (q' : MsgQ)
      (n : Memory)
      → msg_q_rcv (some q) true m ≡ ok (c, some q') n
      → Trace s (after_receipt r c) n q'
  woken :
      {s r : List ℕ} {m : Memory} {q : MsgQ} (t : Trace s r m q) (c : Receipt) (q' : MsgQ)
      (n : Memory)
      → rcv_loop q m ≡ ok (c, some q') n
      → Trace s (after_receipt r c) n q'
  stopped :
      {s r : List ℕ} {m : Memory} {q : MsgQ} (t : Trace s r m q) (err : MsgQErr) (q' : MsgQ)
      → msg_q_unblock (some q) ≡ (err, some q')
      → Trace s r m q'
  flushed :
      {s r : List ℕ} {m : Memory} {q : MsgQ} (t : Trace s r m q) (fuel : ℕ) (err : MsgQErr)
      (q' : MsgQ) (n : Memory)
      → msg_q_flush fuel (some q) m ≡ ok (err, some q') n
      → Trace [] [] n q'

Returns-ok :
    {A : Type 0} (P : A → Memory → Type 0) (r : Run A) (a : A) (n : Memory)
    → Returns P r
    → r ≡ ok a n
    → P a n
Returns-ok P r a n p e = subst (λ x. Returns P x) e p

after_snd-append :
    (err : MsgQErr) (s r ms : List ℕ) (d : ℕ)
    → s ≡ r ++ ms
    → after_snd err s d ≡ r ++ after_snd err ms d
after_snd-append q_success s r ms d e = ap (λ t. t ++ d ∷ []) e ∙ append_assoc r ms (d ∷ [])
after_snd-append q_failure_general s r ms d e = e
after_snd-append q_invalid_parameter s r ms d e = e
after_snd-append q_invalid_handle s r ms d e = e
after_snd-append q_unavailable_resource s r ms d e = e
after_snd-append q_insufficient_buffer s r ms d e = e

after_receipt-append :
    (ms : List ℕ) (u : Bool) (c : Receipt) (s r : List ℕ)
    → c ≡ receipt ms u
    → s ≡ r ++ ms
    → s ≡ after_receipt r c ++ after_rcv ms
after_receipt-append [] true c s r g e = rw g e
after_receipt-append [] false c s r g e = rw g e
after_receipt-append (d ∷ ms) u c s r g e = rw g (e ∙ sym (append_assoc r (d ∷ []) ms))

-- The messages received are the first of those sent, in their order; the queue holds the others.
abbrev InOrder : List ℕ → List ℕ → Memory → MsgQ → Type 0
InOrder s r m q = (ms : List ℕ) × Queues m.heap q.msg_list ms × (s ≡ r ++ ms)

sent-InOrder :
    (s r : List ℕ) (m : Memory) (q : MsgQ) (elem d f : ℕ)
    → m.heap elem ≡ none
    → (err : MsgQErr) (q' : MsgQ) (n : Memory) → msg_q_snd elem (some q) d f m ≡ ok (err, some q') n
    → InOrder s r m q
    → InOrder (after_snd err s d) r n q'
sent-InOrder s r m q elem d f fresh err q' n e (ms, is, order) =
    let done =
      Returns-ok _ _ (err, some q') n (msg_q_snd-QueueHolds elem d f m fresh ms (some q) is) e in
    (after_snd err ms d, done.1.0, after_snd-append err s r ms d order)

woken-InOrder :
    (s r : List ℕ) (m : Memory) (q : MsgQ) (c : Receipt) (q' : MsgQ) (n : Memory)
    → rcv_loop q m ≡ ok (c, some q') n
    → InOrder s r m q
    → InOrder s (after_receipt r c) n q'
woken-InOrder s r m q c q' n e (ms, is, order) =
    let done =
      Returns-ok _ _ (c, some q') n (rcv_loop-QueueHolds m q.msg_list q.unblocked ms is) e in
    (after_rcv ms, done.1.0, after_receipt-append ms q.unblocked c s r done.0 order)

received-InOrder :
    (s r : List ℕ) (m : Memory) (l : Handle) (u : Bool) (c : Receipt) (q' : MsgQ) (n : Memory)
    → msg_q_rcv (some (record { msg_list = l; unblocked = u })) true m ≡ ok (c, some q') n
    → InOrder s r m (record { msg_list = l; unblocked = u })
    → InOrder s (after_receipt r c) n q'
received-InOrder s r m l true c q' n e (ms, is, order) =
    let done = Returns-ok _ _ (c, some q') n (msg_q_rcv-QueueHolds m l true ms is) e in
    (ms, done.1.0, rw done.0 order)
received-InOrder s r m l false c q' n e (ms, is, order) =
    let done = Returns-ok _ _ (c, some q') n (msg_q_rcv-QueueHolds m l false ms is) e in
    (after_rcv ms, done.1.0, after_receipt-append ms false c s r done.0 order)

-- After any sequence of the calls of senders, receivers and woken receivers, of `msg_q_unblock` and of
-- `msg_q_flush` on a new queue, whatever their codes are, the messages sent since the last flush are the
-- messages received since then, in the same order, and after these the messages that the queue holds.
pub Trace-InOrder :
    {s r : List ℕ} {m : Memory} {q : MsgQ}
    → Trace s r m q
    → (ms : List ℕ) × Queues m.heap q.msg_list ms × (s ≡ r ++ ms)
Trace-InOrder (created fuel m n q e) = ([], msg_q_init-Queues fuel m n q e, refl)
Trace-InOrder (sent {s} {r} {m} {q} t elem d f fresh err q' n e) =
    sent-InOrder s r m q elem d f fresh err q' n e (Trace-InOrder t)
Trace-InOrder (received {s} {r} {m} {q} t c q' n e) =
    received-InOrder s r m q.msg_list q.unblocked c q' n e (Trace-InOrder t)
Trace-InOrder (woken {s} {r} {m} {q} t c q' n e) = woken-InOrder s r m q c q' n e (Trace-InOrder t)
Trace-InOrder (stopped {s} {r} {m} {q} t err q' e) =
    let (ms, is, order) = Trace-InOrder t in
    (ms, subst (λ h. Queues m.heap h ms) (sym (msg_q_unblock-keeps q q' err e)) is, order)
Trace-InOrder (flushed {s} {r} {m} {q} t fuel err q' n e) =
    let (ms, is, order) = Trace-InOrder t in
    ([], msg_q_flush-Queues fuel m n q q' err ms is e, refl)
