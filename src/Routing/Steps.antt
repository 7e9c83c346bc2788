-- ===== src/Routing/Steps.antt =====
-- The steps of the state machine of gps/loc_api/libloc_api_50001/loc_eng_agps.cpp for one subscriber of the
-- modem: its request, the grant and its release.
-- An `AgpsStateMachine` that takes several subscribers, in a state.
use android_device_samsung_d.Common.{
  ℕ, ◌+◌, ◌≡◌, refl, ap, ◌∙◌, Bool, true, false, Option, none, some, List, [], ◌∷◌, ◌++◌,
  append-nil, arith, leb, ==_refl, length, take-exact, length-append, ℤ,
}
use android_device_samsung_d.Agps.Broadcast.{members}
use android_device_samsung_d.Agps.Construction.{set_apn, set_bearer}
use android_device_samsung_d.Agps.Equality.{matches, comparable}
use android_device_samsung_d.Agps.Events.{after_event, agps_on_rsrc_event-after_event}
use android_device_samsung_d.Agps.Replies.{reply, replies, retries_after, told, granted_final}
use android_device_samsung_d.Agps.Request.{Env, fill_request}
use android_device_samsung_d.Agps.Searches.{split_first, request_for}
use android_device_samsung_d.Agps.StateMachine.{
  agps_on_rsrc_event, subscribe_rsrc, unsubscribe_rsrc,
}
use android_device_samsung_d.Agps.Subscribers.{
  id_of, is_inactive, wait_for_close_complete, clone, c_string, in_group,
}
use android_device_samsung_d.Agps.Subscribing.{
  added, after_join, after_subscribe, subscribe_rsrc-after_subscribe,
}
use android_device_samsung_d.Agps.Types.{
  rsrc_granted, ServicerType, AgpsStatusValue, gps_request_agps_data_conn,
  gps_release_agps_data_conn, CString, Subscriber, atl_subscriber, Node, AgpsState, released,
  acquired, pending, nif_request, Action, atl_close_status, request_rsrc, agps_state_machine,
  Machine, ok, ◌>>◌,
}
use android_device_samsung_d.Agps.Unsubscribe.{unsubscribe_rsrc-outcome}
use android_device_samsung_d.Agps.Unsubscribing.{
  closing_call, released_if_idle, after_last, leave, unsubscribe_outcome,
}
use android_device_samsung_d.Agps.WellFormed.{has_addr}

abbrev pub shared_machine :
    ServicerType → ℤ → ℕ → AgpsState → List Node → Option CString → ℤ → ℕ → List Action → Machine
shared_machine servicer type retries state subscribers apn bearer next_addr calls = record {
  kind = agps_state_machine;
  state = state;
  subscribers = subscribers;
  servicer = servicer;
  type = type;
  apn = apn;
  bearer = bearer;
  enforce_single_subscriber = false;
  retries = retries;
  next_addr = next_addr;
  calls = calls;
}

-- What the service is asked for.
abbrev pub asked : ServicerType → ℤ → AgpsStatusValue → Option Node → Action
asked servicer type action who = request_rsrc servicer (nif_request (fill_request type action who))

module _ (env : Env) (servicer : ServicerType) (type : ℤ) (retries next id : ℕ) (compatible : Bool)
    (apn : Option CString) (bearer : ℤ) (calls : List Action) where
  abbrev subscriber : Subscriber
  subscriber = atl_subscriber id compatible

  abbrev node : Node
  node = record { addr = next; sub = subscriber }

  pub request_step :
      subscribe_rsrc env subscriber
        (shared_machine servicer type retries released [] apn bearer next calls)
      ≡ ok tt (
          shared_machine servicer type retries pending
            (node ∷ [])
            apn
            bearer
            (next + 1)
            (calls ++ asked servicer type gps_request_agps_data_conn (some node) ∷ []))
  unfolding after_subscribe after_join added request_for split_first clone is_inactive
  request_step =
      subscribe_rsrc-after_subscribe env subscriber
        (shared_machine servicer type retries released [] apn bearer next calls) tt
        (record { agps = refl; empty = refl; active = λ h. cc h; distinct = tt })

  pub grant_step :
      agps_on_rsrc_event env rsrc_granted
        (shared_machine servicer type retries pending (node ∷ []) apn bearer (next + 1) calls)
      ≡ ok tt (
          shared_machine servicer type retries acquired
            (node ∷ [])
            apn
            bearer
            (next + 1)
            (calls ++ reply apn bearer type rsrc_granted subscriber))
  unfolding after_event told members in_group is_inactive replies retries_after
  grant_step =
      agps_on_rsrc_event-after_event env
        (shared_machine servicer type retries pending (node ∷ []) apn bearer (next + 1) calls)
        granted_final refl
      ∙ ap
          (λ t. ok tt (
            shared_machine servicer type retries acquired (node ∷ []) apn bearer (next + 1)
              (calls ++ t)))
          (append-nil (reply apn bearer type rsrc_granted subscriber))

  pub release_step :
      unsubscribe_rsrc env
        (atl_subscriber id false)
        (shared_machine servicer type retries acquired (node ∷ []) apn bearer (next + 1) calls)
      ≡ ok true (
          shared_machine servicer type retries released [] apn bearer (next + 1) (
            (calls ++ atl_close_status id 1 ∷ [])
            ++ asked servicer type gps_release_agps_data_conn none ∷ []))
  unfolding unsubscribe_outcome leave split_first matches id_of comparable wait_for_close_complete
      after_last released_if_idle closing_call request_for is_inactive has_addr
  release_step =
      unsubscribe_rsrc-outcome env (atl_subscriber id false)
        (shared_machine servicer type retries acquired (node ∷ []) apn bearer (next + 1) calls)
        (record {
          agps = refl;
          empty = refl;
          active = λ h. refl;
          distinct = (omega arith, refl, tt);
        })
        (refl, tt) ((refl, tt), tt)
      ∙ rw (==_refl id) refl

-- The APN is set to the characters that were given.
pub open_step :
    (bytes : CString) (bearer : ℤ) (m : Machine)
    → (set_bearer bearer >> set_apn (some (bytes ++ 0 ∷ [])) (length bytes)) m
      ≡ ok tt (record m { bearer = bearer; apn = some (c_string bytes) })
unfolding set_bearer set_apn
open_step bytes bearer m =
    let fits : leb (length bytes) (length (bytes ++ 0 ∷ [])) ≡ true =
      ground (arith, length-append bytes (0 ∷ [])) in
    rw (fits, take-exact bytes (0 ∷ [])) refl
