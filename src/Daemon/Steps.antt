-- ===== src/Daemon/Steps.antt =====
-- The steps of the state machine of gps/loc_api/libloc_api_50001/loc_eng_agps.cpp for one subscriber of the
-- daemon: its request, the grant and its release.
use android_device_samsung_d.Common.{
  ℕ, ◌+◌, ◌≡◌, refl, ◌∙◌, true, Option, none, some, List, [], ◌∷◌, ◌++◌, arith, ℤ,
}
use android_device_samsung_d.Agps.Broadcast.{members}
use android_device_samsung_d.Agps.Equality.{matches_self, comparable_self}
use android_device_samsung_d.Agps.Events.{after_event, agps_on_rsrc_event-after_event}
use android_device_samsung_d.Agps.Replies.{reply, replies, retries_after, told, granted_final}
use android_device_samsung_d.Agps.Request.{Env}
use android_device_samsung_d.Agps.Searches.{split_first, request_for}
use android_device_samsung_d.Agps.StateMachine.{
  agps_on_rsrc_event, subscribe_rsrc, unsubscribe_rsrc,
}
use android_device_samsung_d.Agps.Subscribers.{
  is_inactive, wait_for_close_complete, clone, in_group,
}
use android_device_samsung_d.Agps.Subscribing.{
  added, after_join, after_subscribe, subscribe_rsrc-after_subscribe,
}
use android_device_samsung_d.Agps.Types.{
  rsrc_granted, ServicerType, gps_request_agps_data_conn, gps_release_agps_data_conn, CString,
  Subscriber, bit_subscriber, Node, AgpsState, released, acquired, pending, Action,
  server_data_conn, Machine, ok,
}
use android_device_samsung_d.Agps.Unsubscribe.{unsubscribe_rsrc-outcome}
use android_device_samsung_d.Agps.Unsubscribing.{
  closing_call, released_if_idle, after_last, leave, unsubscribe_outcome,
}
use android_device_samsung_d.Agps.WellFormed.{has_addr}
use android_device_samsung_d.Routing.Steps.{shared_machine, asked}

module _ (env : Env) (servicer : ServicerType) (type : ℤ) (retries next v4 : ℕ) (v6 : List ℕ)
    (apn : Option CString) (bearer : ℤ) (calls : List Action) where
  abbrev subscriber : Subscriber
  subscriber = bit_subscriber v4 v6

  abbrev node : Node
  node = record { addr = next; sub = subscriber }

  abbrev machine : AgpsState → List Node → ℕ → List Action → Machine
  machine state ns addr cs = shared_machine servicer type retries state ns apn bearer addr cs

  pub bit_request_step :
      subscribe_rsrc env subscriber (machine released [] next calls)
      ≡ ok tt (
          machine pending
            (node ∷ [])
            (next + 1)
            (calls ++ asked servicer type gps_request_agps_data_conn (some node) ∷ []))
  unfolding after_subscribe after_join added request_for split_first clone is_inactive
  bit_request_step =
      subscribe_rsrc-after_subscribe env subscriber (machine released [] next calls) tt
        (record { agps = refl; empty = refl; active = λ h. cc h; distinct = tt })

  pub bit_grant_step :
      agps_on_rsrc_event env rsrc_granted (machine pending (node ∷ []) (next + 1) calls)
      ≡ ok tt (machine acquired (node ∷ []) (next + 1) (calls ++ server_data_conn 3 0xf0 ∷ []))
  unfolding after_event told members in_group is_inactive replies retries_after reply
  bit_grant_step =
      agps_on_rsrc_event-after_event env (machine pending (node ∷ []) (next + 1) calls)
        granted_final refl

  pub bit_release_step :
      unsubscribe_rsrc env subscriber (machine acquired (node ∷ []) (next + 1) calls)
      ≡ ok true (
          machine released [] (next + 1) (
            (calls ++ server_data_conn 3 0xf1 ∷ [])
            ++ asked servicer type gps_release_agps_data_conn none ∷ []))
  unfolding unsubscribe_outcome leave split_first wait_for_close_complete after_last
      released_if_idle closing_call request_for is_inactive has_addr
  bit_release_step =
      unsubscribe_rsrc-outcome env subscriber (machine acquired (node ∷ []) (next + 1) calls)
        (record {
          agps = refl;
          empty = refl;
          active = λ h. refl;
          distinct = (omega arith, refl, tt);
        })
        (comparable_self subscriber, tt) ((comparable_self subscriber, tt), tt)
      ∙ rw (matches_self subscriber) refl
