-- ===== src/Ni/Answers.antt =====
-- What a user's response does, and the races that misdirect it.
use android_device_samsung_d.Common.{
  ℕ, ◌≡◌, sym, ap, ◌∙◌, ◌≢◌, true, false, ◌&&◌, Option, none, some, List, [], ◌∷◌, ◌++◌, arith,
  ◌==◌, if◌then◌else◌, is_some,
}
use android_device_samsung_d.Ni.Handlers.{answers, write_answers, loc_eng_ni_respond}
use android_device_samsung_d.Ni.Session.{answered, wake, take_request, answer}
use android_device_samsung_d.Ni.Threads.{finish, run_part}
use android_device_samsung_d.Ni.Types.{
  gps_ni_response_accept, gps_ni_response_ignore, Which, supl, supl_es, NiSession, InformNiResponse,
  Thread, starting, blocked, leaving, Ni, session_of,
}

-- The session whose request an id names.
abbrev pub target : ℕ → Ni → Option Which
target id d =
    if id == d.session_es.req_id && is_some d.session_es.raw_request
    then some supl_es
    else if id == d.session.req_id && is_some d.session.raw_request
    then some supl
    else none

abbrev pub reply_of : Which → ℕ → ℕ → Ni → InformNiResponse
reply_of w r p d = record { to = (session_of w d).adapter; response = r; payload = p }

module _ (d : Ni) (id r : ℕ) (inited : d.ni_notify_cb ≡ true) where
  pub respond-answers : loc_eng_ni_respond id r d ≡ write_answers (answers id r d) d
  unfolding loc_eng_ni_respond
  respond-answers = ap (λ b. if b then write_answers (answers id r d) d else d) inited

  pub answered-last :
      (w : Which)
      → target id d ≡ some w
      → ((session_of w (write_answers (answers id r d) d)).resp ≡ r)
        × ((session_of w (write_answers (answers id r d) d)).resp_recvd ≡ true)
        × ((session_of w (write_answers (answers id r d) d)).raw_request
            ≡ (session_of w d).raw_request)
        × ((session_of w (write_answers (answers id r d) d)).adapter ≡ (session_of w d).adapter)
  unfolding answers answer
  answered-last supl named = ground arith
  answered-last supl_es named = ground arith

-- The locked part after an answer: the message with it, and an idle session.
abbrev pub Replied : Which → InformNiResponse → Ni × List Thread → Type 0
Replied w msg (d, ts) =
    (ts ≡ leaving w (some msg) ∷ [])
    × ((session_of w d).raw_request ≡ none)
    × ((session_of w d).resp_recvd ≡ false)

pub finish-Replied :
    (w : Which) (s : NiSession) (d : Ni) (r p : ℕ)
    → s.raw_request ≡ some p
    → s.resp ≡ r
    → r ≢ gps_ni_response_ignore
    → Replied w (record { to = s.adapter; response = r; payload = p }) (finish w s d)
unfolding finish take_request
finish-Replied supl s d r p saved given sends = ground arith
finish-Replied supl_es s d r p saved given sends = ground arith

pub blocked-Replied :
    (w : Which) (d : Ni) (r p to : ℕ)
    → (session_of w d).resp_recvd ≡ true
    → (session_of w d).raw_request ≡ some p
    → (session_of w d).resp ≡ r
    → (session_of w d).adapter ≡ to
    → r ≢ gps_ni_response_ignore
    → Replied w (record { to = to; response = r; payload = p }) (run_part false (blocked w) d)
      × Replied w (record { to = to; response = r; payload = p }) (run_part false (starting w) d)
unfolding run_part wake answered
blocked-Replied w d r p to recvd saved given owner sends =
    let done = finish-Replied w (session_of w d) d r p saved given sends in
    rw (recvd, sym owner) (done, done)

-- A response to the id of an active session, other than the code for a request to ignore, reaches its
-- thread, whether it has started to wait or not: the thread goes on to send the adapter the response
-- with the payload of the session, and the session is free for the next request.
pub loc_eng_ni_respond-Replied :
    (d : Ni) (id r p : ℕ) (w : Which)
    → d.ni_notify_cb ≡ true
    → target id d ≡ some w
    → (session_of w d).raw_request ≡ some p
    → r ≢ gps_ni_response_ignore
    → Replied w (reply_of w r p d) (run_part false (blocked w) (loc_eng_ni_respond id r d))
      × Replied w (reply_of w r p d) (run_part false (starting w) (loc_eng_ni_respond id r d))
loc_eng_ni_respond-Replied d id r p w inited named saved sends =
    let e = answered-last d id r inited w named in
    rw (respond-answers d id r inited) (blocked-Replied w _ r p _ e.1 (e.2 ∙ saved) e.0 e.3 sends)

both_answers :
    (d : Ni) (id q : ℕ)
    → target id d ≡ some supl_es
    → d.session.raw_request ≡ some q
    → answers id gps_ni_response_accept d
      ≡ (supl, some gps_ni_response_ignore) ∷ (supl_es, some gps_ni_response_accept) ∷ []
unfolding answers
both_answers d id q named saved = ground arith

-- When the user accepts an emergency request while another request is active, the other thread frees
-- the payload of its request and sends nothing.
pub loc_eng_ni_respond-ignored :
    (d : Ni) (id q : ℕ)
    → d.ni_notify_cb ≡ true
    → target id d ≡ some supl_es
    → d.session.raw_request ≡ some q
    → ((run_part false (blocked supl) (loc_eng_ni_respond id gps_ni_response_accept d)).1
        ≡ leaving supl none ∷ [])
      × ((run_part false (blocked supl) (loc_eng_ni_respond id gps_ni_response_accept d)).0.freed
          ≡ d.freed ++ q ∷ [])
unfolding run_part wake answered finish take_request answers answer
loc_eng_ni_respond-ignored d id q inited named saved =
    rw (respond-answers d id gps_ni_response_accept inited, both_answers d id q named saved)
      (ground arith)

-- A response whose id names no active session changes nothing.
pub loc_eng_ni_respond-unknown :
    (d : Ni) (id r : ℕ) → target id d ≡ none → loc_eng_ni_respond id r d ≡ d
unfolding loc_eng_ni_respond answers
loc_eng_ni_respond-unknown d id r unknown = ground arith
