-- ===== src/Ni/Handlers.antt =====
-- The functions of gps/loc_api/libloc_api_50001/loc_eng_ni.cpp that the engine and the HAL call.
use android_device_samsung_d.Common.{
  ℕ, ◌+◌, ◌%◌, ◌^◌, Bool, true, false, not, ◌&&◌, ◌||◌, Option, none, some, List, [], ◌∷◌, ◌++◌,
  ◌==◌, if◌then◌else◌, is_some,
}
use android_device_samsung_d.Ni.Session.{answer}
use android_device_samsung_d.Ni.Types.{
  gps_ni_response_accept, gps_ni_response_ignore, gps_ni_type_emergency_supl,
  gps_ni_privacy_override, loc_ni_no_response_time, Which, supl, supl_es, NiSession, NiNotification,
  starting, Ni, session_of, with_session,
}

-- `++reqIDCounter`, on the 32-bit pattern.
abbrev pub next_id : ℕ → ℕ
next_id n = (n + 1) % 2 ^ 32

-- The session that a request gets, if any.
unfoldable pub admit : Ni → ℕ → Option Which
admit d type =
    if type == gps_ni_type_emergency_supl
    then (if is_some d.session_es.raw_request then none else some supl_es)
    else if is_some d.session.raw_request || is_some d.session_es.raw_request
    then none
    else some supl

-- `free(p)` of a pointer that may be NULL.
abbrev pub free_payload : Option ℕ → Ni → Ni
free_payload none d = d
free_payload (some p) d = record d { freed = d.freed ++ p ∷ [] }

unfoldable pub time_left : ℕ → ℕ
time_left timeout = 5 + (if timeout == 0 then loc_ni_no_response_time else timeout)

-- The saved request of a session.
unfoldable pub save_request : ℕ → ℕ → ℕ → Option ℕ → NiSession → NiSession
unfolding time_left
save_request id owner timeout payload s = record s {
  raw_request = payload;
  req_id = id;
  adapter = owner;
  resp_time_left = time_left timeout;
}

-- The branch with a session: whether `pthread_create` succeeds, and the request.
unfoldable pub start_session : Which → Bool → NiNotification → Option ℕ → Ni → Ni
unfolding save_request
start_session w spawned notif payload d =
    let id = next_id d.req_id_counter in
    let saved = with_session w (save_request id d.owner notif.timeout payload (session_of w d)) d in
    record saved {
      req_id_counter = id;
      mute_requested = notif.notify_flags == gps_ni_privacy_override || d.mute_requested;
      threads = if spawned then d.threads ++ starting w ∷ [] else d.threads;
      notified = d.notified ++ id ∷ [];
    }

unfoldable pub serve : Option Which → Bool → NiNotification → Option ℕ → Ni → Ni
unfolding start_session
serve none spawned notif payload d = free_payload payload d
serve (some w) spawned notif payload d = start_session w spawned notif payload d

-- `loc_eng_ni_request_handler(loc_eng_data, notif, passThrough)`.
unfoldable pub loc_eng_ni_request_handler : Bool → NiNotification → Option ℕ → Ni → Ni
unfolding serve
loc_eng_ni_request_handler spawned notif payload d =
    if d.ni_notify_cb then serve (admit d notif.ni_type) spawned notif payload d else d

-- The answers that `loc_eng_ni_respond` writes, in order.
unfoldable pub answers : ℕ → ℕ → Ni → List (Which × Option ℕ)
answers id response d =
    if id == d.session_es.req_id && is_some d.session_es.raw_request
    then (if response == gps_ni_response_accept && is_some d.session.raw_request
        then (supl, some gps_ni_response_ignore) ∷ (supl_es, some response) ∷ []
        else (supl_es, some response) ∷ [])
    else if id == d.session.req_id && is_some d.session.raw_request
    then (supl, some response) ∷ []
    else []

abbrev pub write_answer : Which × Option ℕ → Ni → Ni
write_answer (w, r) d = with_session w (answer r (session_of w d)) d

abbrev pub write_answers : List (Which × Option ℕ) → Ni → Ni
write_answers [] d = d
write_answers (a ∷ rest) d = write_answers rest (write_answer a d)

-- `loc_eng_ni_respond(loc_eng_data, notif_id, user_response)`, undisturbed by other threads.
unfoldable pub loc_eng_ni_respond : ℕ → ℕ → Ni → Ni
unfolding answers answer
loc_eng_ni_respond id response d =
    if d.ni_notify_cb then write_answers (answers id response d) d else d

-- The parts of a restart of the modem for a session, outside the mutex: the request is freed, and its
-- pointer, whatever it then is, set to NULL.
unfoldable pub free_request : Which → Ni → Ni
free_request w d = free_payload (session_of w d).raw_request d

unfoldable pub clear_request : Which → Ni → Ni
clear_request w d = with_session w (record (session_of w d) { raw_request = none }) d

-- The parts in a row; the last one holds the mutex.
unfoldable pub restart_session : Which → Ni → Ni
unfolding free_request clear_request answer
restart_session w d =
    if is_some (session_of w d).raw_request
    then write_answer (w, none) (clear_request w (free_request w d))
    else d

-- `loc_eng_ni_reset_on_engine_restart`, undisturbed by other threads.
unfoldable pub loc_eng_ni_reset_on_engine_restart : Ni → Ni
unfolding restart_session
loc_eng_ni_reset_on_engine_restart d =
    if d.ni_notify_cb then restart_session supl (restart_session supl_es d) else d

abbrev pub fresh_session : NiSession → NiSession
fresh_session s = record s {
  resp_time_left = 0;
  resp_recvd = false;
  raw_request = none;
  req_id = 0;
}

-- `loc_eng_ni_init(loc_eng_data, callbacks)`: whether `callbacks` and its `notify_cb` are given.
unfoldable pub loc_eng_ni_init : Bool → Bool → Ni → Ni
loc_eng_ni_init callbacks notify_cb d =
    if not callbacks || not notify_cb || d.ni_notify_cb then d else record d {
      session_es = fresh_session d.session_es;
      session = fresh_session d.session;
      ni_notify_cb = true;
    }
