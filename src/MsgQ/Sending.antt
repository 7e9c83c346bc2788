-- ===== src/MsgQ/Sending.antt =====
-- `msg_q_snd` adds the newest message of a queue.
use android_device_samsung_d.Common.{
  ℕ, ◌≡◌, refl, ap, ◌≢◌, inl, inr, Bool, true, false, none, some, List, [], ◌∷◌, ◌++◌, arith, ◌==◌,
  if◌then◌else◌, ==_ne, Bool-cases,
}
use android_device_samsung_d.LinkedList.Adding.{new_cell, linked_list_add-IsList}
use android_device_samsung_d.LinkedList.Chain.{Holds, Returns}
use android_device_samsung_d.LinkedList.Flushing.{Returns-map}
use android_device_samsung_d.LinkedList.Memory.{null_ptr, Memory}
use android_device_samsung_d.LinkedList.Operations.{ListErr, success, Handle, linked_list_add}
use android_device_samsung_d.MsgQ.Operations.{
  MsgQErr, q_success, q_failure_general, q_invalid_parameter, q_invalid_handle,
  q_unavailable_resource, QHandle, convert_linked_list_err_type, msg_q_snd,
}
use android_device_samsung_d.MsgQ.Queued.{queued, Queues, QueueHolds, Returns-then}

-- The messages after a call of `msg_q_snd` with a result.
abbrev pub after_snd : MsgQErr → List ℕ → ℕ → List ℕ
after_snd q_success ms d = ms ++ d ∷ []
after_snd _ ms d = ms

-- The code of `msg_q_snd`, from the address that `malloc` returns, the message and the mode.
abbrev allocation_code : ℕ → MsgQErr
allocation_code elem = if elem == null_ptr then q_failure_general else q_success

abbrev pub snd_code : ℕ → ℕ → Bool → MsgQErr
snd_code elem d u =
    if d == null_ptr
    then q_invalid_parameter
    else if u
    then q_unavailable_resource
    else allocation_code elem

module _ (elem d f : ℕ) (m : Memory) (fresh : m.heap elem ≡ none) (ms : List ℕ) where
  abbrev Joined : ListErr × Handle → Memory → Type 0
  Joined (err, l) n =
      (convert_linked_list_err_type err ≡ allocation_code elem)
      × Queues n.heap l (after_snd (convert_linked_list_err_type err) ms d)

  new_cell-Joined :
      (l : Handle) (is : Queues m.heap l ms) (err : ListErr) (l' : Handle) (n : Memory)
      → elem ≢ null_ptr
      → err ≡ success
      → Holds n.heap l' (new_cell elem d f ∷ is.cells)
      → Joined (err, l') n
  unfolding queued convert_linked_list_err_type
  new_cell-Joined l is err l' n live e holds =
      rw (e, ==_ne elem null_ptr live)
        (
          refl,
          record {
            cells = new_cell elem d f ∷ is.cells;
            holds = holds;
            order = ap (λ t. t ++ d ∷ []) is.order;
          },
        )

  linked_list_add-Joined :
      (l : Handle)
      → Queues m.heap l ms
      → d ≢ null_ptr
      → Returns Joined (linked_list_add elem l d f m)
  unfolding linked_list_add convert_linked_list_err_type
  linked_list_add-Joined none is given = absurd is.holds
  linked_list_add-Joined (some l) is given = elim (Bool-cases (elem == null_ptr)) [
    | inl e ↦ rw (==_ne d null_ptr given, e) (rw e refl, is)
    | inr ne ↦
        let live : elem ≢ null_ptr = λ z. ground arith in
        Returns-map _ (linked_list_add-IsList elem d f m live given fresh l is.cells is.holds)
          (λ (err, l') n p. new_cell-Joined (some l) is err l' n live p.0 p.1)
  ]

  abbrev Sent : MsgQErr × QHandle → Memory → Type 0
  Sent (err, q) n = (err ≡ allocation_code elem) × QueueHolds n.heap q false (after_snd err ms d)

  -- On a queue.
  snd-QueueHolds :
      (l : Handle) (u : Bool)
      → Queues m.heap l ms
      → Returns
          (λ (err, q) n. (err ≡ snd_code elem d u) × QueueHolds n.heap q u (after_snd err ms d))
          (msg_q_snd elem (some (record { msg_list = l; unblocked = u })) d f m)
  unfolding msg_q_snd convert_linked_list_err_type
  snd-QueueHolds l true is = elim (Bool-cases (d == null_ptr)) [
    | inl e ↦ rw e (refl, (is, refl))
    | inr given ↦ rw given (refl, (is, refl))
  ]
  snd-QueueHolds l false is = elim (Bool-cases (d == null_ptr)) [
    | inl e ↦ rw e (refl, (is, refl))
    | inr given ↦
        let added = linked_list_add-Joined l is (λ z. ground arith) in
        rw given
          (Returns-then Sent (linked_list_add elem l d f m) _ added λ _ n p. (p.0, (p.1, refl)))
  ]

  -- The messages of a queue that is not NULL.
  abbrev pub HoldsIf : QHandle → Type 0
  HoldsIf none = Unit
  HoldsIf (some before) = Queues m.heap before.msg_list ms

  -- What a call promises: on a NULL queue, that it is refused and nothing changes.
  abbrev pub SentTo : QHandle → MsgQErr × QHandle → Memory → Type 0
  SentTo none (err, q) n = (err ≡ q_invalid_handle) × (q ≡ none) × (n ≡ m)
  SentTo (some before) (err, q) n =
      (err ≡ snd_code elem d before.unblocked)
      × QueueHolds n.heap q before.unblocked (after_snd err ms d)

  -- With an address from `malloc` that is free, a call of `msg_q_snd` returns: with a NULL queue it
  -- returns the code of that and changes nothing; on a NULL message, on an unblocked queue and without
  -- memory it returns the code of that and the queue has the same messages; else it returns success, and
  -- the message is the newest in the queue. The mode stays.
  pub msg_q_snd-QueueHolds : (q : QHandle) → HoldsIf q → Returns (SentTo q) (msg_q_snd elem q d f m)
  unfolding msg_q_snd
  msg_q_snd-QueueHolds none is = (refl, refl, refl)
  msg_q_snd-QueueHolds (some before) is = snd-QueueHolds before.msg_list before.unblocked is
