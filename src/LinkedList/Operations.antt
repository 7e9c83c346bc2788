-- ===== src/LinkedList/Operations.antt =====
-- The functions of gps/utils/linked_list.c. A `list_state` is reached through its handle alone, so
-- a function takes its value, `none` for a NULL handle, and returns the new one. What `malloc` or
-- `calloc` returns is an argument.
use android_device_samsung_d.Common.{
  ℕ, zero, suc, Bool, true, false, Option, none, some, ◌==◌, if◌then◌else◌, ℤ, pos, negsuc,
}
use android_device_samsung_d.LinkedList.Memory.{
  null_ptr, ListState, out_of_fuel, Cmd, pure, ◌>>=◌, ◌>>◌, store, load, set_next, set_prev, free,
  dealloc,
}

pub data ListErr : Type 0 where
  success failure_general invalid_parameter : ListErr
  invalid_handle unavailable_resource insufficient_buffer : ListErr

abbrev pub Handle : Type 0
Handle = Option ListState

abbrev pub list_state : ℕ → ℕ → Handle
list_state head tail = some (record { p_head = head; p_tail = tail })

-- `linked_list_init(list_data)`: whether `list_data` is given, and whether `calloc` succeeds.
unfoldable pub linked_list_init : Bool → Bool → ListErr × Handle
linked_list_init false allocated = (invalid_parameter, none)
linked_list_init true false = (failure_general, none)
linked_list_init true true = (success, list_state null_ptr null_ptr)

-- The new element becomes the head.
unfoldable pub insert_head : ListState → ℕ → ℕ → ℕ → Cmd (ListErr × Handle)
insert_head l elem data_obj dealloc_func = do
  store elem (
      some (record {
        next = null_ptr;
        prev = null_ptr;
        data_ptr = data_obj;
        dealloc_func = dealloc_func;
      }))
  set_next elem l.p_head
  if l.p_head == null_ptr
      then pure (success, list_state elem elem)
      else set_prev l.p_head elem >> pure (success, list_state elem l.p_tail)

-- `linked_list_add(list_data, data_obj, dealloc)`, with what `malloc` returns first.
unfoldable pub linked_list_add : ℕ → Handle → ℕ → ℕ → Cmd (ListErr × Handle)
unfolding insert_head
linked_list_add elem none data_obj dealloc_func = pure (invalid_handle, none)
linked_list_add elem (some l) data_obj dealloc_func =
    if data_obj == null_ptr
    then pure (invalid_parameter, some l)
    else if elem == null_ptr
    then pure (failure_general, some l)
    else insert_head l elem data_obj dealloc_func

-- The element at the tail is taken off.
unfoldable pub take_tail : ListState → Cmd (ListErr × Handle × Option ℕ)
take_tail l = do
  tmp ← load l.p_tail
  if tmp.prev == null_ptr
      then free l.p_tail >> pure (success, list_state tmp.prev tmp.prev, some tmp.data_ptr)
      else do
        set_next tmp.prev null_ptr
        free l.p_tail
        pure (success, list_state l.p_head tmp.prev, some tmp.data_ptr)

-- `linked_list_remove(list_data, data_obj)`: whether `data_obj` is given; the result holds what is
-- stored there.
unfoldable pub linked_list_remove : Handle → Bool → Cmd (ListErr × Handle × Option ℕ)
unfolding take_tail
linked_list_remove none given = pure (invalid_handle, none, none)
linked_list_remove (some l) false = pure (invalid_parameter, some l, none)
linked_list_remove (some l) true =
    if l.p_tail == null_ptr then pure (unavailable_resource, some l, none) else take_tail l

-- `linked_list_empty(list_data)`; the code of a NULL handle is not 0 either.
unfoldable pub linked_list_empty : Handle → ℤ
linked_list_empty none = negsuc 2
linked_list_empty (some l) = if l.p_head == null_ptr then pos 1 else pos 0

-- The loop of `linked_list_flush`, with fuel.
unfoldable pub flush_loop : ℕ → ℕ → Cmd (Unit {0})
flush_loop zero head = λ _. out_of_fuel
flush_loop (suc k) head =
    if head == null_ptr
    then pure tt
    else do e ← load head; dealloc e.dealloc_func e.data_ptr; free head; flush_loop k e.next

-- `linked_list_flush(list_data)`.
unfoldable pub linked_list_flush : ℕ → Handle → Cmd (ListErr × Handle)
linked_list_flush fuel none = pure (invalid_handle, none)
linked_list_flush fuel (some l) =
    flush_loop fuel l.p_head >> pure (success, list_state null_ptr null_ptr)

-- `linked_list_destroy(list_data)`: whether `list_data` is given, and the handle there. The handle
-- is set to NULL.
unfoldable pub linked_list_destroy : ℕ → Bool → Handle → Cmd (ListErr × Handle)
unfolding linked_list_flush
linked_list_destroy fuel false l = pure (invalid_handle, l)
linked_list_destroy fuel true l = linked_list_flush fuel l >> pure (success, none)
