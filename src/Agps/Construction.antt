-- ===== src/Agps/Construction.antt =====
-- The constructors of `AgpsStateMachine` and `DSStateMachine`, `setAPN`, `setBearer`,
-- `dropAllSubscribers` and `retryCallback` (gps/loc_api/libloc_api_50001/loc_eng_agps.{h,cpp}).
use android_device_samsung_d.Common.{
  ℕ, Bool, false, Option, none, some, List, [], leb, if◌then◌else◌, length, take, ℤ,
}
use android_device_samsung_d.Agps.Request.{find_active}
use android_device_samsung_d.Agps.Subscribers.{
  agps_type_invalid, agps_apn_bearer_invalid, id_of, c_string,
}
use android_device_samsung_d.Agps.Types.{
  ServicerType, Node, released, request_supl_es, agps_state_machine, ds_state_machine, Machine, Run,
  ok, fault, Cmd, pure, ◌>>=◌, modify, call,
}

-- `AgpsStateMachine(servType, cb_func, type, enforceSingleSubscriber)`.
unfoldable pub new_agps_state_machine : ServicerType → ℤ → Bool → Machine
new_agps_state_machine servicer type enforce_single_subscriber = record {
  kind = agps_state_machine;
  state = released;
  subscribers = [];
  servicer = servicer;
  type = type;
  apn = none;
  bearer = agps_apn_bearer_invalid;
  enforce_single_subscriber = enforce_single_subscriber;
  retries = 0;
  next_addr = 0;
  calls = [];
}

-- `DSStateMachine(type, cb_func, adapterHandle)`.
unfoldable pub new_ds_state_machine : ServicerType → Machine
unfolding new_agps_state_machine
new_ds_state_machine servicer = record (new_agps_state_machine servicer agps_type_invalid false) {
  kind = ds_state_machine;
}

copy_apn : List ℕ → ℕ → Machine → Run (Unit {0})
copy_apn bytes len m =
    if leb len (length bytes)
    then ok tt (record m { apn = some (c_string (take len bytes)) })
    else fault

-- `setAPN(apn, len)`: the copy of `len` bytes of a buffer, read as a C string; NULL clears it.
unfoldable pub set_apn : Option (List ℕ) → ℕ → Cmd (Unit {0})
unfolding copy_apn
set_apn none len m = ok tt (record m { apn = none })
set_apn (some bytes) len m = copy_apn bytes len m

unfoldable pub set_bearer : ℤ → Cmd (Unit {0})
set_bearer bearer = modify λ m. record m { bearer = bearer }

-- `dropAllSubscribers`: `linked_list_flush` deletes them all.
unfoldable pub drop_all_subscribers : Cmd (Unit {0})
drop_all_subscribers = modify λ m. record m { subscribers = [] }

retry_for : Option Node → Cmd (Unit {0})
retry_for none = pure tt
retry_for (some n) = call (request_supl_es (id_of n.sub))

-- `DSStateMachine::retryCallback`.
unfoldable pub retry_callback : Cmd (Unit {0})
unfolding retry_for
retry_callback = do s ← find_active; retry_for s
