-- ===== src/Ni/Races.antt =====
-- Two interleavings in which gps/loc_api/libloc_api_50001/loc_eng_ni.cpp misdirects the user's
-- response: the functions read and write the sessions outside the mutex.
use android_device_samsung_d.Common.{
  ℕ, ◌≡◌, refl, ap, ◌∙◌, ◌≢◌, Bool, true, false, Option, some, [], ◌∷◌, ==_ne,
}
use android_device_samsung_d.Ni.Answers.{Replied, blocked-Replied, loc_eng_ni_respond-unknown}
use android_device_samsung_d.Ni.Handlers.{
  next_id, admit, save_request, start_session, serve, loc_eng_ni_request_handler, answers,
  write_answer, write_answers, loc_eng_ni_respond,
}
use android_device_samsung_d.Ni.Ownership.{request-admit}
use android_device_samsung_d.Ni.Session.{clear_session, answer}
use android_device_samsung_d.Ni.Threads.{run_part}
use android_device_samsung_d.Ni.Types.{
  gps_ni_response_ignore, Which, supl, supl_es, InformNiResponse, NiNotification, starting, blocked,
  leaving, Ni, session_of,
}

-- The memory after the thread of a session times out and an answer that was decided on before is
-- written.
abbrev pub late_answer : Which → ℕ → ℕ → Ni → Ni
late_answer w id r d = write_answers (answers id r d) (run_part true (blocked w) d).0

pub served_session :
    (w : Which) (spawned : Bool) (notif : NiNotification) (p : ℕ) (d : Ni)
    → ((session_of w (start_session w spawned notif (some p) d)).resp ≡ (session_of w d).resp)
      × ((session_of w (start_session w spawned notif (some p) d)).resp_recvd
          ≡ (session_of w d).resp_recvd)
      × ((session_of w (start_session w spawned notif (some p) d)).raw_request ≡ some p)
      × ((session_of w (start_session w spawned notif (some p) d)).adapter ≡ d.owner)
unfolding start_session save_request
served_session supl spawned notif p d = (refl, refl, refl, refl)
served_session supl_es spawned notif p d = (refl, refl, refl, refl)

answered_session :
    (w : Which) (r : ℕ) (d : Ni)
    → ((session_of w (write_answer (w, some r) d)).resp ≡ r)
      × ((session_of w (write_answer (w, some r) d)).resp_recvd ≡ true)
unfolding answer
answered_session supl r d = (refl, refl)
answered_session supl_es r d = (refl, refl)

-- The user answers a request while its thread times out, and the answer is written after that. When the
-- session is then given the next request, its thread does not wait: it goes on to send the adapter the
-- payload of the new request with the response to the former one.
pub stale_response :
    (d : Ni) (id r p : ℕ) (w : Which) (spawned : Bool) (notif : NiNotification)
    → answers id r d ≡ (w, some r) ∷ []
    → r ≢ gps_ni_response_ignore
    → (late_answer w id r d).ni_notify_cb ≡ true
    → admit (late_answer w id r d) notif.ni_type ≡ some w
    → Replied w
        (record { to = (late_answer w id r d).owner; response = r; payload = p })
        (run_part false
          (starting w)
          (loc_eng_ni_request_handler spawned notif (some p) (late_answer w id r d)))
unfolding serve
stale_response d id r p w spawned notif one sends inited given =
    let served = served_session w spawned notif p (late_answer w id r d) in
    let kept = answered_session w r (run_part true (blocked w) d).0 in
    let at = ap (λ as'. write_answers as' (run_part true (blocked w) d).0) one in
    let resp = served.0 ∙ ap (λ x. (session_of w x).resp) at ∙ kept.0 in
    let recvd = served.1 ∙ ap (λ x. (session_of w x).resp_recvd) at ∙ kept.1 in
    rw (request-admit spawned notif (some p) (late_answer w id r d) inited given)
      (blocked-Replied w _ r p _ recvd served.2 resp served.3 sends).1

-- A session is given a request before the thread of its former request has cleared the session. Once
-- that thread goes on, a response to the id of which the user was notified changes nothing.
pub cleared_id :
    (d : Ni) (r p : ℕ) (msg : Option InformNiResponse) (w : Which) (spawned : Bool)
    (notif : NiNotification)
    → d.ni_notify_cb ≡ true
    → admit d notif.ni_type ≡ some w
    → next_id d.req_id_counter ≢ 0
    → next_id d.req_id_counter ≢ d.session.req_id
    → next_id d.req_id_counter ≢ d.session_es.req_id
    → loc_eng_ni_respond
        (next_id d.req_id_counter)
        r
        (run_part false (leaving w msg) (loc_eng_ni_request_handler spawned notif (some p) d)).0
      ≡ (run_part false (leaving w msg) (loc_eng_ni_request_handler spawned notif (some p) d)).0
unfolding run_part clear_session serve start_session save_request
cleared_id d r p msg supl spawned notif inited given live apart apart_es =
    rw (request-admit spawned notif (some p) d inited given)
      (loc_eng_ni_respond-unknown _ _ r (rw (==_ne _ _ live, ==_ne _ _ apart_es)))
cleared_id d r p msg supl_es spawned notif inited given live apart apart_es =
    rw (request-admit spawned notif (some p) d inited given)
      (loc_eng_ni_respond-unknown _ _ r (rw (==_ne _ _ live, ==_ne _ _ apart)))
