-- ===== src/Ni/Rounds.antt =====
-- A request from the handler to the message of its thread.
use android_device_samsung_d.Common.{
  ℕ, ◌≡◌, refl, sym, ap, ◌∙◌, subst, ◌≢◌, Bool, true, false, Option, none, some, List, [], ◌∷◌,
  ◌++◌, arith,
}
use android_device_samsung_d.Ni.Answers.{
  target, reply_of, respond-answers, answered-last, Replied, finish-Replied,
}
use android_device_samsung_d.Ni.Handlers.{
  next_id, admit, save_request, start_session, serve, loc_eng_ni_request_handler, answers,
  write_answer, write_answers, loc_eng_ni_respond,
}
use android_device_samsung_d.Ni.Ownership.{request-admit}
use android_device_samsung_d.Ni.Races.{served_session}
use android_device_samsung_d.Ni.Reach.{serve-ni_notify_cb}
use android_device_samsung_d.Ni.Session.{answered, wake, take_request, clear_session}
use android_device_samsung_d.Ni.Threads.{finish, run_part, run_thread}
use android_device_samsung_d.Ni.Types.{
  gps_ni_response_noresp, gps_ni_response_ignore, Which, supl, supl_es, NiSession, InformNiResponse,
  NiNotification, Thread, starting, blocked, Ni, session_of,
}

-- The session that is given to a request is the one that the notified id names.
start_session-target :
    (w : Which) (spawned : Bool) (notif : NiNotification) (p : ℕ) (d : Ni)
    → admit d notif.ni_type ≡ some w
    → target (next_id d.req_id_counter) (start_session w spawned notif (some p) d) ≡ some w
unfolding start_session save_request admit
start_session-target supl spawned notif p d given = ground arith
start_session-target supl_es spawned notif p d given = ground arith

pub timed_out-Replied :
    (w : Which) (d : Ni) (p : ℕ)
    → (session_of w d).raw_request ≡ some p
    → Replied w (reply_of w gps_ni_response_noresp p d) (run_part true (blocked w) d)
unfolding run_part wake
timed_out-Replied w d p saved =
    finish-Replied w (record (session_of w d) { resp = gps_ni_response_noresp }) d
      gps_ni_response_noresp p saved refl (λ e. omega (arith, e))

-- A thread has ended: its message is the last one sent, and its session takes the next request.
abbrev pub Ended : Which → InformNiResponse → Ni → Ni × List Thread → Type 0
Ended w msg d (after, ts) =
    (ts ≡ [])
    × (after.posted ≡ d.posted ++ msg ∷ [])
    × (after.freed ≡ d.freed)
    × ((session_of w after).raw_request ≡ none)
    × ((session_of w after).req_id ≡ 0)

take_request-sent :
    (s : NiSession) (p r : ℕ)
    → s.raw_request ≡ some p
    → s.resp ≡ r
    → r ≢ gps_ni_response_ignore
    → ((take_request s).1 ≡ some (record { to = s.adapter; response = r; payload = p }))
      × ((take_request s).2 ≡ none)
unfolding take_request
take_request-sent s p r saved given sends = ground arith

finish-Ended :
    (b : Bool) (w : Which) (s : NiSession) (d : Ni) (p r : ℕ)
    → s.raw_request ≡ some p
    → s.resp ≡ r
    → r ≢ gps_ni_response_ignore
    → Ended w
        (record { to = s.adapter; response = r; payload = p })
        d
        (run_thread 2 b (finish w s d).1 (finish w s d).0)
unfolding finish run_thread run_part clear_session
finish-Ended b supl s d p r saved given sends =
    let sent = take_request-sent s p r saved given sends in
    rw (sent.0, sent.1) (refl, refl, refl, refl, refl)
finish-Ended b supl_es s d p r saved given sends =
    let sent = take_request-sent s p r saved given sends in
    rw (sent.0, sent.1) (refl, refl, refl, refl, refl)

-- A thread that waits ends after the answer, and after a timeout.
woken-finish :
    (w : Which) (d : Ni)
    → (session_of w d).resp_recvd ≡ true
    → run_part false (blocked w) d ≡ finish w (session_of w d) d
unfolding run_part wake answered
woken-finish w d recvd = rw recvd refl

answered-Ended :
    (w : Which) (d : Ni) (p r : ℕ)
    → (session_of w d).resp_recvd ≡ true
    → (session_of w d).raw_request ≡ some p
    → (session_of w d).resp ≡ r
    → r ≢ gps_ni_response_ignore
    → Ended w (reply_of w r p d) d (run_thread 3 false (blocked w ∷ []) d)
unfolding run_thread
answered-Ended w d p r recvd saved given sends =
    subst (λ x. Ended w (reply_of w r p d) d (run_thread 2 false x.1 x.0))
      (sym (woken-finish w d recvd)) (finish-Ended false w (session_of w d) d p r saved given sends)

write_answers-sent :
    (as' : List (Which × Option ℕ)) (d : Ni)
    → ((write_answers as' d).posted ≡ d.posted) × ((write_answers as' d).freed ≡ d.freed)
write_answers-sent [] d = (refl, refl)
write_answers-sent ((supl, r) ∷ rest) d = write_answers-sent rest (write_answer (supl, r) d)
write_answers-sent ((supl_es, r) ∷ rest) d = write_answers-sent rest (write_answer (supl_es, r) d)

started-waits :
    (w : Which) (d : Ni)
    → (session_of w d).resp_recvd ≡ false
    → run_part false (starting w) d ≡ (d, blocked w ∷ [])
unfolding run_part answered
started-waits w d idle = rw idle refl

start_session-threads :
    (w : Which) (notif : NiNotification) (payload : Option ℕ) (d : Ni)
    → (start_session w true notif payload d).threads ≡ d.threads ++ starting w ∷ []
unfolding start_session
start_session-threads supl notif payload d = refl
start_session-threads supl_es notif payload d = refl

-- A response to the id of a session ends its thread.
responded-Ended :
    (d : Ni) (id p r to : ℕ) (w : Which)
    → d.ni_notify_cb ≡ true
    → target id d ≡ some w
    → (session_of w d).raw_request ≡ some p
    → (session_of w d).adapter ≡ to
    → r ≢ gps_ni_response_ignore
    → Ended w
        (record { to = to; response = r; payload = p })
        d
        (run_thread 3 false (blocked w ∷ []) (loc_eng_ni_respond id r d))
responded-Ended d id p r to w inited named saved owner sends =
    let as' = answers id r d in
    let e = answered-last d id r inited w named in
    let kept = write_answers-sent as' d in
    let done = answered-Ended w (write_answers as' d) p r e.1 (e.2 ∙ saved) e.0 sends in
    rw (respond-answers d id r inited) (
      rw (← owner, ← e.3)
        (
          done.0,
          done.1 ∙ ap (λ t. t ++ reply_of w r p (write_answers as' d) ∷ []) kept.0,
          done.2 ∙ kept.1,
          done.3,
          done.4,
        ))

pub timed_out-Ended :
    (w : Which) (d : Ni) (p : ℕ)
    → (session_of w d).raw_request ≡ some p
    → Ended w (reply_of w gps_ni_response_noresp p d) d (run_thread 3 true (blocked w ∷ []) d)
unfolding run_thread run_part wake
timed_out-Ended w d p saved =
    finish-Ended true w (record (session_of w d) { resp = gps_ni_response_noresp }) d p
      gps_ni_response_noresp saved refl (λ e. omega (arith, e))

module _ (d : Ni) (p r : ℕ) (w : Which) (notif : NiNotification) (inited : d.ni_notify_cb ≡ true)
    (given : admit d notif.ni_type ≡ some w) (idle : (session_of w d).resp_recvd ≡ false)
    (sends : r ≢ gps_ni_response_ignore) where
  abbrev requested_ni : Ni
  requested_ni = loc_eng_ni_request_handler true notif (some p) d

  abbrev message : ℕ → InformNiResponse
  message response = record { to = d.owner; response = response; payload = p }

  abbrev responded_ni : Ni
  responded_ni = loc_eng_ni_respond (next_id d.req_id_counter) r requested_ni

  -- A request with a payload that is given an idle session, undisturbed by other calls, where the thread
  -- can be created: the thread is the new one, and its first part ends in the wait. If the user responds
  -- to the id that was notified, the thread then ends, having sent the adapter the payload with this
  -- response as one message; if the wait times out, it ends, having sent the payload with the code for no
  -- response. In both cases nothing is freed, and the session has no request and no id.
  pub request-Replied :
      (requested_ni.threads ≡ d.threads ++ starting w ∷ [])
      × (run_part false (starting w) requested_ni ≡ (requested_ni, blocked w ∷ []))
      × Ended w (message r) requested_ni (run_thread 3 false (blocked w ∷ []) responded_ni)
      × Ended w
          (message gps_ni_response_noresp)
          requested_ni
          (run_thread 3 true (blocked w ∷ []) requested_ni)
  unfolding serve
  request-Replied =
      let served = served_session w true notif p d in
      let named = start_session-target w true notif p d given in
      let live = serve-ni_notify_cb (some w) true notif (some p) d ∙ inited in
      let after = start_session w true notif (some p) d in
      rw (request-admit true notif (some p) d inited given) (
        start_session-threads w notif (some p) d,
        started-waits w after (served.1 ∙ idle),
        responded-Ended after (next_id d.req_id_counter) p r d.owner w live named served.2 served.3
            sends,
        subst
            (λ to.
              Ended w (record { to = to; response = gps_ni_response_noresp; payload = p }) after
                (run_thread 3 true (blocked w ∷ []) after))
            served.3 (timed_out-Ended w after p served.2),
      )
