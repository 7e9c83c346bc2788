-- ===== src/Ni/Reach.antt =====
-- Runs of the requests of gps/loc_api/libloc_api_50001/loc_eng_ni.cpp, in any interleaving.
use android_device_samsung_d.Common.{
  ℕ, ◌≡◌, refl, ◌∙◌, Bool, true, false, Option, none, some, List, [], ◌∷◌, ◌++◌, if◌then◌else◌,
}
use android_device_samsung_d.Ni.Handlers.{
  admit, free_payload, start_session, serve, loc_eng_ni_request_handler, answers, loc_eng_ni_init,
}
use android_device_samsung_d.Ni.Session.{answered, wake, take_request}
use android_device_samsung_d.Ni.Threads.{finish, wait_or, run_part}
use android_device_samsung_d.Ni.Types.{
  Which, supl, supl_es, NiSession, NiNotification, Thread, starting, blocked, leaving, posting,
  answering, restarting, freeing, clearing, waking, Ni, session_of, with_session,
}

-- The payloads that requests came with.
abbrev pub arrive : Option ℕ → List ℕ → List ℕ
arrive none ps = ps
arrive (some p) ps = p ∷ ps

-- The memory before `loc_eng_init` and `loc_eng_ni_init`.
abbrev pub blank : ℕ → Ni
blank owner =
    let s : NiSession = record {
      resp_time_left = 0;
      resp_recvd = false;
      raw_request = none;
      req_id = 0;
      resp = 0;
      adapter = 0;
    } in
    record {
      session = s;
      session_es = s;
      req_id_counter = 0;
      ni_notify_cb = false;
      owner = owner;
      mute_requested = false;
      threads = [];
      freed = [];
      posted = [];
      notified = [];
    }

-- A restart that sets the request of a session to NULL finds there the one that it freed.
abbrev pub IsUndisturbed : Thread → Ni → Type 0
IsUndisturbed (clearing w p rest) d = (session_of w d).raw_request ≡ p
IsUndisturbed _ d = Unit

-- The payloads that came since the start, and the memory after any interleaving of requests, of
-- responses and restarts of the modem, and of the parts of the threads, but that no thread takes a request
-- away between a restart's `free` of it and the store of NULL.
pub data Reach : List ℕ → Ni → Type 0 where
  start : (owner : ℕ) → Reach [] (loc_eng_ni_init true true (blank owner))
  requested :
      {ps : List ℕ} {d : Ni} (r : Reach ps d) (spawned : Bool) (notif : NiNotification)
      (payload : Option ℕ)
      → Reach (arrive payload ps) (loc_eng_ni_request_handler spawned notif payload d)
  responded :
      {ps : List ℕ} {d : Ni} (r : Reach ps d) (id response : ℕ)
      → Reach ps (record d { threads = d.threads ++ answering (answers id response d) ∷ [] })
  restarted :
      {ps : List ℕ} {d : Ni} (r : Reach ps d)
      → Reach ps (record d { threads = d.threads ++ restarting (supl_es ∷ supl ∷ []) ∷ [] })
  ran :
      {ps : List ℕ} {d : Ni} (r : Reach ps d) (before : List Thread) (t : Thread)
      (after : List Thread) (timed_out : Bool)
      → d.threads ≡ before ++ t ∷ after
      → IsUndisturbed t d
      → Reach ps (record (run_part timed_out t d).0 {
        threads = before ++ (run_part timed_out t d).1 ++ after;
      })

-- The parts keep the callback.
with_session-ni_notify_cb :
    (w : Which) (s : NiSession) (d : Ni) → (with_session w s d).ni_notify_cb ≡ d.ni_notify_cb
with_session-ni_notify_cb supl s d = refl
with_session-ni_notify_cb supl_es s d = refl

free_payload-ni_notify_cb :
    (p : Option ℕ) (d : Ni) → (free_payload p d).ni_notify_cb ≡ d.ni_notify_cb
free_payload-ni_notify_cb none d = refl
free_payload-ni_notify_cb (some p) d = refl

finish-ni_notify_cb :
    (w : Which) (s : NiSession) (d : Ni) → (finish w s d).0.ni_notify_cb ≡ d.ni_notify_cb
unfolding finish
finish-ni_notify_cb w s d =
    free_payload-ni_notify_cb (take_request s).2 (with_session w (take_request s).0 d)
    ∙ with_session-ni_notify_cb w (take_request s).0 d

wait_or-ni_notify_cb :
    (w : Which) (s : Option NiSession) (d : Ni) → (wait_or w s d).0.ni_notify_cb ≡ d.ni_notify_cb
wait_or-ni_notify_cb w none d = refl
wait_or-ni_notify_cb w (some s) d = finish-ni_notify_cb w s d

run_part-ni_notify_cb :
    (timed_out : Bool) (t : Thread) (d : Ni)
    → (run_part timed_out t d).0.ni_notify_cb ≡ d.ni_notify_cb
unfolding run_part
run_part-ni_notify_cb timed_out (starting w) d =
    wait_or-ni_notify_cb w (answered (session_of w d)) d
run_part-ni_notify_cb timed_out (blocked w) d =
    wait_or-ni_notify_cb w (wake timed_out (session_of w d)) d
run_part-ni_notify_cb timed_out (leaving w msg) d = with_session-ni_notify_cb w _ d
run_part-ni_notify_cb timed_out (posting none) d = refl
run_part-ni_notify_cb timed_out (posting (some msg)) d = refl
run_part-ni_notify_cb timed_out (answering []) d = refl
run_part-ni_notify_cb timed_out (answering ((w, r) ∷ rest)) d = with_session-ni_notify_cb w _ d
run_part-ni_notify_cb timed_out (restarting []) d = refl
run_part-ni_notify_cb timed_out (restarting (w ∷ rest)) d = refl
run_part-ni_notify_cb timed_out (freeing w rest) d =
    free_payload-ni_notify_cb (session_of w d).raw_request d
run_part-ni_notify_cb timed_out (clearing w p rest) d = with_session-ni_notify_cb w _ d
run_part-ni_notify_cb timed_out (waking w rest) d = with_session-ni_notify_cb w _ d

pub serve-ni_notify_cb :
    (o : Option Which) (spawned : Bool) (notif : NiNotification) (payload : Option ℕ) (d : Ni)
    → (serve o spawned notif payload d).ni_notify_cb ≡ d.ni_notify_cb
unfolding serve start_session
serve-ni_notify_cb none spawned notif payload d = free_payload-ni_notify_cb payload d
serve-ni_notify_cb (some w) spawned notif payload d = with_session-ni_notify_cb w _ d

request-ni_notify_cb :
    (spawned : Bool) (notif : NiNotification) (payload : Option ℕ) (d : Ni)
    → (loc_eng_ni_request_handler spawned notif payload d).ni_notify_cb ≡ d.ni_notify_cb
unfolding loc_eng_ni_request_handler
request-ni_notify_cb spawned notif payload d =
    elim d.ni_notify_cb
      as (λ b.
        (if b then serve (admit d notif.ni_type) spawned notif payload d else d).ni_notify_cb
        ≡ d.ni_notify_cb) [
          | true ↦ serve-ni_notify_cb (admit d notif.ni_type) spawned notif payload d
          | false ↦ refl
        ]

-- The handlers stay live once `loc_eng_ni_init` has run.
pub Reach-ni_notify_cb : {ps : List ℕ} {d : Ni} → Reach ps d → d.ni_notify_cb ≡ true
unfolding loc_eng_ni_init
Reach-ni_notify_cb (start owner) = refl
Reach-ni_notify_cb (requested {ps} {d} r spawned notif payload) =
    request-ni_notify_cb spawned notif payload d ∙ Reach-ni_notify_cb r
Reach-ni_notify_cb (responded r id response) = Reach-ni_notify_cb r
Reach-ni_notify_cb (restarted r) = Reach-ni_notify_cb r
Reach-ni_notify_cb (ran {ps} {d} r before t after timed_out e calm) =
    run_part-ni_notify_cb timed_out t d ∙ Reach-ni_notify_cb r
