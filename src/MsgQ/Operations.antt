-- ===== src/MsgQ/Operations.antt =====
-- The functions of gps/utils/msg_q.c. Each holds the mutex from its first read of the queue to its
-- last write, so it is one command; `msg_q_rcv` gives the mutex up only while it waits, and goes on
-- with `rcv_loop` when it is woken. Signals, which only wake waiting threads, are left out.
use android_device_samsung_d.Common.{
  ℕ, zero, Bool, true, false, not, ◌&&◌, Option, none, some, ◌==◌, if◌then◌else◌, ℤ, pos,
}
use android_device_samsung_d.Agps.Subscribing.{added}
use android_device_samsung_d.LinkedList.Memory.{null_ptr, fault, Cmd, pure, ◌>>=◌, ◌>>◌}
use android_device_samsung_d.LinkedList.Operations.{
  ListErr, success, failure_general, invalid_parameter, invalid_handle, unavailable_resource,
  insufficient_buffer, Handle, linked_list_init, linked_list_add, linked_list_remove,
  linked_list_empty, linked_list_flush, linked_list_destroy,
}

pub data MsgQErr : Type 0 where
  q_success q_failure_general q_invalid_parameter : MsgQErr
  q_invalid_handle q_unavailable_resource q_insufficient_buffer : MsgQErr

-- `msg_q`, without its mutex and condition.
pub record MsgQ : Type 0 where
  pub msg_list : Handle
  pub unblocked : Bool

abbrev pub QHandle : Type 0
QHandle = Option MsgQ

unfoldable pub convert_linked_list_err_type : ListErr → MsgQErr
convert_linked_list_err_type success = q_success
convert_linked_list_err_type invalid_parameter = q_invalid_parameter
convert_linked_list_err_type invalid_handle = q_invalid_handle
convert_linked_list_err_type unavailable_resource = q_unavailable_resource
convert_linked_list_err_type insufficient_buffer = q_insufficient_buffer
convert_linked_list_err_type failure_general = q_failure_general

-- The rest of `msg_q_init` after the list: whether the mutex and the condition are initialised.
unfoldable pub init_sync : ℕ → Handle → Bool → Bool → Cmd (MsgQErr × QHandle)
init_sync fuel l false cond_ok = linked_list_destroy fuel true l >> pure (q_failure_general, none)
init_sync fuel l true false = linked_list_destroy fuel true l >> pure (q_failure_general, none)
init_sync fuel l true true = pure (q_success, some (record { msg_list = l; unblocked = false }))

init_list : ℕ → ListErr × Handle → Bool → Bool → Cmd (MsgQErr × QHandle)
unfolding init_sync
init_list fuel (success, l) mutex_ok cond_ok = init_sync fuel l mutex_ok cond_ok
init_list fuel _ mutex_ok cond_ok = pure (q_failure_general, none)

-- `msg_q_init(msg_q_data)`: whether `msg_q_data` is given, then whether the allocation of the queue
-- and of its list, the mutex and the condition succeed.
unfoldable pub msg_q_init : ℕ → Bool → Bool → Bool → Bool → Bool → Cmd (MsgQErr × QHandle)
unfolding init_list
msg_q_init fuel false allocated list_allocated mutex_ok cond_ok = pure (q_invalid_parameter, none)
msg_q_init fuel true false list_allocated mutex_ok cond_ok = pure (q_failure_general, none)
msg_q_init fuel true true list_allocated mutex_ok cond_ok =
    init_list fuel (linked_list_init true list_allocated) mutex_ok cond_ok

-- `msg_q_destroy(msg_q_data)`: whether `msg_q_data` is given, and the handle there. The mutex of a
-- NULL handle is no object.
unfoldable pub msg_q_destroy : ℕ → Bool → QHandle → Cmd (MsgQErr × QHandle)
msg_q_destroy fuel false q = pure (q_invalid_handle, q)
msg_q_destroy fuel true none = λ _. fault
msg_q_destroy fuel true (some q) =
    linked_list_destroy fuel true q.msg_list >> pure (q_success, none)

-- `msg_q_snd(msg_q_data, msg_obj, dealloc)`, with what `malloc` returns first.
unfoldable pub msg_q_snd : ℕ → QHandle → ℕ → ℕ → Cmd (MsgQErr × QHandle)
unfolding convert_linked_list_err_type
msg_q_snd elem none msg_obj dealloc_func = pure (q_invalid_handle, none)
msg_q_snd elem (some q) msg_obj dealloc_func =
    if msg_obj == null_ptr
    then pure (q_invalid_parameter, some q)
    else if q.unblocked
    then pure (q_unavailable_resource, some q)
    else do
      added ← linked_list_add elem q.msg_list msg_obj dealloc_func
      pure (convert_linked_list_err_type added.0, some (record q { msg_list = added.1 }))

-- A receiver waits for the condition, or `msg_q_rcv` returns with a code and what it stores.
pub data Receipt : Type 0 where
  waiting : Receipt
  returned : MsgQErr → Option ℕ → Receipt

is_nonzero : ℤ → Bool
is_nonzero (pos zero) = false
is_nonzero _ = true

-- The loop of `msg_q_rcv` from its test on, and what follows.
unfoldable pub rcv_loop : MsgQ → Cmd (Receipt × QHandle)
unfolding convert_linked_list_err_type is_nonzero
rcv_loop q =
    if is_nonzero (linked_list_empty q.msg_list) && not q.unblocked
    then pure (waiting, some q)
    else do
      removed ← linked_list_remove q.msg_list true
      pure (
        returned (convert_linked_list_err_type removed.0) removed.2,
        some (record q { msg_list = removed.1 }),
      )

-- `msg_q_rcv(msg_q_data, msg_obj)`: whether `msg_obj` is given.
unfoldable pub msg_q_rcv : QHandle → Bool → Cmd (Receipt × QHandle)
unfolding rcv_loop
msg_q_rcv none given = pure (returned q_invalid_handle none, none)
msg_q_rcv (some q) false = pure (returned q_invalid_parameter none, some q)
msg_q_rcv (some q) true =
    if q.unblocked then pure (returned q_unavailable_resource none, some q) else rcv_loop q

-- `msg_q_flush(msg_q_data)`.
unfoldable pub msg_q_flush : ℕ → QHandle → Cmd (MsgQErr × QHandle)
unfolding convert_linked_list_err_type
msg_q_flush fuel none = pure (q_invalid_handle, none)
msg_q_flush fuel (some q) = do
  flushed ← linked_list_flush fuel q.msg_list
  pure (convert_linked_list_err_type flushed.0, some (record q { msg_list = flushed.1 }))

-- `msg_q_unblock(msg_q_data)`.
unfoldable pub msg_q_unblock : QHandle → MsgQErr × QHandle
msg_q_unblock none = (q_invalid_handle, none)
msg_q_unblock (some q) =
    if q.unblocked
    then (q_unavailable_resource, some q)
    else (q_success, some (record q { unblocked = true }))
