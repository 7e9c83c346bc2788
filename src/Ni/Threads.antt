-- ===== src/Ni/Threads.antt =====
-- The threads of gps/loc_api/libloc_api_50001/loc_eng_ni.cpp, one locked part at a time.
use android_device_samsung_d.Common.{
  ℕ, zero, suc, Bool, Option, none, some, List, [], ◌∷◌, ◌++◌, if◌then◌else◌, is_some,
}
use android_device_samsung_d.Ni.Handlers.{free_payload, write_answer, free_request, clear_request}
use android_device_samsung_d.Ni.Session.{answered, wake, take_request, clear_session, answer}
use android_device_samsung_d.Ni.Types.{
  Which, NiSession, InformNiResponse, Thread, starting, blocked, leaving, posting, answering,
  restarting, freeing, clearing, waking, Ni, session_of, with_session,
}

-- The locked part after the wait.
unfoldable pub finish : Which → NiSession → Ni → Ni × List Thread
unfolding take_request
finish w s d =
    let (after, msg, dropped) = take_request s in
    (free_payload dropped (with_session w after d), leaving w msg ∷ [])

abbrev pub wait_or : Which → Option NiSession → Ni → Ni × List Thread
wait_or w none d = (d, blocked w ∷ [])
wait_or w (some s) d = finish w s d

abbrev pub post : Option InformNiResponse → Ni → Ni
post none d = d
post (some msg) d = record d { posted = d.posted ++ msg ∷ [] }

-- The next part of a thread: the memory after it, and the thread, unless it has ended. The wait
-- ends with a timeout if `timed_out`.
unfoldable pub run_part : Bool → Thread → Ni → Ni × List Thread
unfolding finish wake answered clear_session answer free_request clear_request
run_part timed_out (starting w) d = wait_or w (answered (session_of w d)) d
run_part timed_out (blocked w) d = wait_or w (wake timed_out (session_of w d)) d
run_part timed_out (leaving w msg) d =
    (with_session w (clear_session (session_of w d)) d, posting msg ∷ [])
run_part timed_out (posting msg) d = (post msg d, [])
run_part timed_out (answering []) d = (d, [])
run_part timed_out (answering (a ∷ rest)) d = (write_answer a d, answering rest ∷ [])
run_part timed_out (restarting []) d = (d, [])
run_part timed_out (restarting (w ∷ rest)) d =
    (d, (if is_some (session_of w d).raw_request then freeing w rest else restarting rest) ∷ [])
run_part timed_out (freeing w rest) d =
    (free_request w d, clearing w (session_of w d).raw_request rest ∷ [])
run_part timed_out (clearing w p rest) d = (clear_request w d, waking w rest ∷ [])
run_part timed_out (waking w rest) d = (write_answer (w, none) d, restarting rest ∷ [])

-- The parts of a thread in a row, as many as given at most: the memory, and what is left of the thread. Each
-- wait ends with a timeout if `timed_out`.
unfoldable pub run_thread : ℕ → Bool → List Thread → Ni → Ni × List Thread
unfolding run_part
run_thread zero timed_out ts d = (d, ts)
run_thread (suc n) timed_out [] d = (d, [])
run_thread (suc n) timed_out (t ∷ ts) d =
    let (after, left) = run_part timed_out t d in run_thread n timed_out left after
