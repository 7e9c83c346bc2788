-- ===== src/Ni/Examples.antt =====
-- Runs of gps/loc_api/libloc_api_50001/loc_eng_ni.cpp.
use android_device_samsung_d.Common.{◌≡◌, refl, true, false, none, some, [], ◌∷◌, arith}
use android_device_samsung_d.Ni.Answers.{Replied}
use android_device_samsung_d.Ni.Handlers.{
  admit, save_request, start_session, loc_eng_ni_request_handler, answers, loc_eng_ni_respond,
  free_request, clear_request, restart_session, loc_eng_ni_reset_on_engine_restart, loc_eng_ni_init,
}
use android_device_samsung_d.Ni.Races.{late_answer, stale_response, cleared_id}
use android_device_samsung_d.Ni.Reach.{blank, Reach}
use android_device_samsung_d.Ni.Restarts.{freed_ni, restart_race}
use android_device_samsung_d.Ni.Rounds.{Ended, request-Replied}
use android_device_samsung_d.Ni.Session.{answered, wake, take_request, answer}
use android_device_samsung_d.Ni.Threads.{finish, run_part, run_thread}
use android_device_samsung_d.Ni.Types.{
  supl, supl_es, NiNotification, starting, blocked, leaving, restarting, Ni,
}

abbrev ready : Ni
ready = loc_eng_ni_init true true (blank 70)

abbrev plain : NiNotification
plain = record { ni_type = 2; notify_flags = 3; timeout = 0 }

abbrev emergency : NiNotification
emergency = record { ni_type = 4; notify_flags = 4; timeout = 30 }

-- A request with the payload at 500, then an emergency request with the payload at 600.
abbrev one : Ni
one = loc_eng_ni_request_handler true plain (some 500) ready

abbrev both : Ni
both = loc_eng_ni_request_handler true emergency (some 600) one

both_notified : (both.notified ≡ 1 ∷ 2 ∷ []) × (both.mute_requested ≡ true)
unfolding loc_eng_ni_request_handler loc_eng_ni_init admit start_session
both_notified = (refl, refl)

third_refused : (loc_eng_ni_request_handler true plain (some 700) both).freed ≡ 700 ∷ []
unfolding loc_eng_ni_request_handler loc_eng_ni_init admit start_session save_request
third_refused = refl

request-Replied_example :
    (one.threads ≡ starting supl ∷ [])
    × (run_part false (starting supl) one ≡ (one, blocked supl ∷ []))
    × Ended supl
        (record { to = 70; response = 2; payload = 500 })
        one
        (run_thread 3 false (blocked supl ∷ []) (loc_eng_ni_respond 1 2 one))
    × Ended supl
        (record { to = 70; response = 3; payload = 500 })
        one
        (run_thread 3 true (blocked supl ∷ []) one)
unfolding loc_eng_ni_init admit
request-Replied_example =
    request-Replied ready 500 2 supl plain refl refl refl (λ e. omega (arith, e))

-- A restart that no thread comes between frees the request, and the thread that it wakes sends nothing.
abbrev restarted_ni : Ni
restarted_ni = loc_eng_ni_reset_on_engine_restart one

restart_alone :
    (restarted_ni.freed ≡ 500 ∷ [])
    × ((run_thread 3 false (blocked supl ∷ []) restarted_ni).0.posted ≡ [])
    × ((run_thread 3 false (blocked supl ∷ []) restarted_ni).0.freed ≡ 500 ∷ [])
    × ((run_thread 9 false (restarting (supl_es ∷ supl ∷ []) ∷ []) one).0 ≡ restarted_ni)
unfolding loc_eng_ni_request_handler loc_eng_ni_init admit start_session save_request run_thread
    run_part wake answered finish take_request loc_eng_ni_reset_on_engine_restart restart_session
    free_request clear_request answer
restart_alone = (refl, refl, refl, refl)

restart_race_example :
    ((run_thread 3 true (blocked supl ∷ []) (freed_ni supl [] one)).1 ≡ [])
    × ((run_thread 3 true (blocked supl ∷ []) (freed_ni supl [] one)).0.posted
        ≡ record { to = 70; response = 3; payload = 500 } ∷ [])
    × ((run_thread 3 true (blocked supl ∷ []) (freed_ni supl [] one)).0.freed ≡ 500 ∷ [])
unfolding loc_eng_ni_request_handler loc_eng_ni_init admit start_session save_request
restart_race_example = restart_race supl [] one 500 refl

stale_response_example :
    Replied supl
      (record { to = 70; response = 1; payload = 800 })
      (run_part false
        (starting supl)
        (loc_eng_ni_request_handler true plain (some 800) (late_answer supl 1 1 one)))
unfolding loc_eng_ni_request_handler loc_eng_ni_init admit start_session save_request answers answer
    run_part
stale_response_example =
    stale_response one 1 1 800 supl true plain refl (λ e. omega (arith, e)) refl refl

-- The first request has timed out, and its thread is about to clear the session.
abbrev timed_out_ni : Ni
timed_out_ni = (run_part true (blocked supl) one).0

cleared_id_example :
    loc_eng_ni_respond 2 1
      (run_part false
        (leaving supl none)
        (loc_eng_ni_request_handler true plain (some 900) timed_out_ni)).0
    ≡ (run_part false
        (leaving supl none)
        (loc_eng_ni_request_handler true plain (some 900) timed_out_ni)).0
unfolding loc_eng_ni_request_handler loc_eng_ni_init admit start_session save_request run_part
cleared_id_example =
    cleared_id timed_out_ni 1 900 none supl true plain refl refl (λ e. omega (arith, e))
      (λ e. omega (arith, e)) (λ e. omega (arith, e))
