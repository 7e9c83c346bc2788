-- ===== src/Agps/DataCall.antt =====
-- `DSStateMachine`: the retries of a data call, and a release that stands for a denial.
use android_device_samsung_d.Common.{
  ℕ, zero, suc, ◌+◌, ◌%◌, ◌≤◌, ◌≡◌, refl, inl, inr, Bool, true, false, not, List, [], ◌∷◌, ◌++◌,
  arith, ltb, ◌==◌, if◌then◌else◌, Bool-cases, ℤ, pos, negsuc,
}
use android_device_samsung_d.Agps.Events.{notify_all}
use android_device_samsung_d.Agps.Notify.{inform_status}
use android_device_samsung_d.Agps.Replies.{told, denied_final}
use android_device_samsung_d.Agps.Request.{
  Env, conn_handle, request_result, request_rsrc_of, retry_data_call, on_result, send_ds,
}
use android_device_samsung_d.Agps.Searches.{split_first, find_subscriber-group, is_active}
use android_device_samsung_d.Agps.StateMachine.{state_on_rsrc_event, transition, ds_on_rsrc_event}
use android_device_samsung_d.Agps.SubscriberList.{found_node}
use android_device_samsung_d.Agps.Subscribers.{in_group}
use android_device_samsung_d.Agps.Types.{
  rsrc_released, rsrc_denied, ServicerType, servicer_type_ext, AgpsStatusValue, broadcast_active,
  released, pending, ds_cb_data, Action, request_atl, request_rsrc, loc_timer_start, Machine, Run,
  ok, fault, out_of_fuel,
}

-- The subscriber that a data call is for: the first active one, or -1.
unfoldable pub handle_of : Machine → ℕ
handle_of m = conn_handle (found_node (split_first is_active m.subscribers))

-- The data call was requested.
abbrev pub requested : AgpsStatusValue → Machine → Machine
requested action m = record m {
  calls = m.calls ++ request_rsrc m.servicer (ds_cb_data action) ∷ [];
}

-- The fallback: the modem is asked for an ordinary SUPL connection, and the count starts again.
abbrev pub fall_back : ℕ → Machine → Machine
fall_back handle m = record m { retries = 0; calls = m.calls ++ request_atl handle (pos 1) ∷ [] }

-- A timer for another attempt was started, and counted.
abbrev pub retry_later : Machine → Machine
retry_later m = record m { retries = m.retries + 1; calls = m.calls ++ loc_timer_start 500 ∷ [] }

abbrev pub is_busy : ℤ → Bool
is_busy (pos n) = n == 6
is_busy (negsuc n) = false

-- `LOC_API_ADAPTER_ERR_UNSUPPORTED` and -1.
abbrev pub is_refused : ℤ → Bool
is_refused (pos n) = n == 2
is_refused (negsuc zero) = true
is_refused (negsuc (suc n)) = false

-- What follows the result of the data call: four more attempts while the engine is busy, then the
-- fallback; the fallback at once on a refusal; nothing else.
unfoldable pub data_call_outcome : Env → ℕ → ℤ → Machine → Run ℤ
data_call_outcome env handle z m =
    if is_busy z
    then (if ltb m.retries 4
        then ok (if env.timer_fails (retry_later m).calls then negsuc 0 else z) (retry_later m)
        else ok z (fall_back handle m))
    else if is_refused z
    then ok z (fall_back handle m)
    else ok z m

-- The run returns, with at most four retries counted.
abbrev pub ReturnsFewRetries : Run ℤ → Type 0
ReturnsFewRetries (ok r m) = m.retries ≤ 4
ReturnsFewRetries fault = ⊥
ReturnsFewRetries out_of_fuel = ⊥

module _ (env : Env) where
  busy-outcome :
      (handle n : ℕ) (m : Machine)
      → m.retries ≤ 4
      → retry_data_call env handle (pos n) m ≡ (
          if ltb m.retries 4
          then ok
              (if env.timer_fails (retry_later m).calls then negsuc 0 else pos n)
              (retry_later m)
          else ok (pos n) (fall_back handle m))
  unfolding retry_data_call inform_status
  busy-outcome handle n m few =
      let exact : (m.retries + 1) % 256 ≡ m.retries + 1 = omega arith in
      let over : ltb 4 (m.retries + 1) ≡ not (ltb m.retries 4) = ground arith in
      rw (exact, over) (elim (Bool-cases (ltb m.retries 4)) [ inl e ↦ rw e | inr e ↦ rw e ])

  on_result-outcome :
      (handle : ℕ) (z : ℤ) (m : Machine)
      → m.retries ≤ 4
      → on_result env handle z m ≡ data_call_outcome env handle z m
  unfolding on_result data_call_outcome inform_status
  on_result-outcome handle (pos n) m few = elim (Bool-cases (n == 6)) [
    | inl e ↦ rw e (busy-outcome handle n m few)
    | inr e ↦ rw e (elim (Bool-cases (n == 2)) [ inl f ↦ rw f | inr f ↦ rw f ])
  ]
  on_result-outcome handle (negsuc zero) m few = refl
  on_result-outcome handle (negsuc (suc n)) m few = refl

  request_result-ext :
      (servicer : ServicerType) (calls : List Action)
      → servicer ≡ servicer_type_ext
      → request_result env servicer calls ≡ env.callback_ext calls
  unfolding request_result
  request_result-ext servicer calls e = rw e

  -- `sendRsrcRequest` of the data call machine, at every result of the callback and of the timer:
  -- one request, then what the result calls for. It always returns.
  pub send_ds-outcome :
      (action : AgpsStatusValue) (m : Machine)
      → m.servicer ≡ servicer_type_ext
      → m.retries ≤ 4
      → send_ds env action m
        ≡ data_call_outcome env
            (handle_of m)
            (env.callback_ext (requested action m).calls)
            (requested action m)
  unfolding send_ds in_group handle_of request_rsrc_of
  send_ds-outcome action m ext few = rw (find_subscriber-group broadcast_active m) (
      rw (request_result-ext m.servicer (requested action m).calls ext) (
        on_result-outcome _ (env.callback_ext (requested action m).calls) (requested action m) few))

  outcome-retries :
      (handle : ℕ) (z : ℤ) (m : Machine)
      → m.retries ≤ 4
      → ReturnsFewRetries (data_call_outcome env handle z m)
  unfolding data_call_outcome
  outcome-retries handle z m few = elim (Bool-cases (is_busy z)) [
    | inl e ↦ rw e (elim (Bool-cases (ltb m.retries 4)) [
      | inl f ↦ rw f (ground arith)
      | inr f ↦ rw f (omega arith)
    ])
    | inr e ↦
        rw e (elim (Bool-cases (is_refused z)) [ inl f ↦ rw f (omega arith) | inr f ↦ rw f few ])
  ]

  -- `sendRsrcRequest` of the data call machine returns, whatever the callback and the timer do,
  -- and leaves a retry counter of four at most: the unsigned char cannot wrap.
  pub send_ds-retries :
      (action : AgpsStatusValue) (m : Machine)
      → m.servicer ≡ servicer_type_ext
      → m.retries ≤ 4
      → ReturnsFewRetries (send_ds env action m)
  send_ds-retries action m ext few = rw (send_ds-outcome action m ext few) (
      outcome-retries (handle_of m) (env.callback_ext (requested action m).calls)
        (requested action m) few)

  -- On a data call machine a release that arrives while the call is pending is taken for a denial:
  -- every subscriber falls back, and none is left.
  pub ds_released-denied :
      (m : Machine)
      → m.state ≡ pending
      → ds_on_rsrc_event env rsrc_released m
        ≡ ok tt (record (told rsrc_denied m.subscribers m) { state = released; subscribers = [] })
  unfolding ds_on_rsrc_event transition state_on_rsrc_event told
  ds_released-denied m e = rw e (rw (notify_all (record m { state = pending }) denied_final))
