-- ===== src/Ni/Restarts.antt =====
-- The race of `loc_eng_ni_reset_on_engine_restart` with the thread of a session: the request is freed
-- outside the mutex (gps/loc_api/libloc_api_50001/loc_eng_ni.cpp).
use android_device_samsung_d.Common.{ℕ, ◌≡◌, refl, ap, ◌∙◌, true, false, some, List, [], ◌∷◌, ◌++◌}
use android_device_samsung_d.Ni.Answers.{reply_of}
use android_device_samsung_d.Ni.Handlers.{free_payload, free_request}
use android_device_samsung_d.Ni.Rounds.{timed_out-Ended}
use android_device_samsung_d.Ni.Threads.{run_part, run_thread}
use android_device_samsung_d.Ni.Types.{
  gps_ni_response_noresp, Which, supl, supl_es, blocked, freeing, Ni, session_of,
}

-- The memory after a restart has freed the request of a session, and before it sets the pointer to NULL.
abbrev pub freed_ni : Which → List Which → Ni → Ni
freed_ni w rest d = (run_part false (freeing w rest) d).0

freed_ni-keeps :
    (w : Which) (rest : List Which) (d : Ni) (p : ℕ)
    → (session_of w d).raw_request ≡ some p
    → freed_ni w rest d ≡ record d { freed = d.freed ++ p ∷ [] }
unfolding run_part free_request
freed_ni-keeps w rest d p saved = ap (λ o. free_payload o d) saved

session_of-freed :
    (w : Which) (ps : List ℕ) (d : Ni) → session_of w (record d { freed = ps }) ≡ session_of w d
session_of-freed supl ps d = refl
session_of-freed supl_es ps d = refl

-- The wait of a thread times out between a restart's `free` of the request of its session and the store of
-- NULL: the thread ends, and has sent the adapter the payload that the restart has freed.
pub restart_race :
    (w : Which) (rest : List Which) (d : Ni) (p : ℕ)
    → (session_of w d).raw_request ≡ some p
    → ((run_thread 3 true (blocked w ∷ []) (freed_ni w rest d)).1 ≡ [])
      × ((run_thread 3 true (blocked w ∷ []) (freed_ni w rest d)).0.posted
          ≡ d.posted ++ reply_of w gps_ni_response_noresp p d ∷ [])
      × ((run_thread 3 true (blocked w ∷ []) (freed_ni w rest d)).0.freed ≡ d.freed ++ p ∷ [])
restart_race w rest d p saved =
    let after = record d { freed = d.freed ++ p ∷ [] } in
    let same = session_of-freed w (d.freed ++ p ∷ []) d in
    let ends = timed_out-Ended w after p (ap (λ s. s.raw_request) same ∙ saved) in
    rw (freed_ni-keeps w rest d p saved) (
      ends.0,
      ends.1
          ∙ ap
              (λ s.
                d.posted
                ++ record { to = s.adapter; response = gps_ni_response_noresp; payload = p } ∷ [])
              same,
      ends.2,
    )
