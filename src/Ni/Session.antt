-- ===== src/Ni/Session.antt =====
-- The parts of `ni_thread_proc`, on its session
-- (gps/loc_api/libloc_api_50001/loc_eng_ni.cpp). The mutex is held from the start of the loop to
-- the end of `take`, but for the wait.
use android_device_samsung_d.Common.{ℕ, Bool, true, false, Option, none, some, ◌==◌, if◌then◌else◌}
use android_device_samsung_d.Ni.Types.{
  gps_ni_response_noresp, gps_ni_response_ignore, NiSession, InformNiResponse,
}

-- The test of the loop: whether the thread goes on, or waits.
unfoldable pub answered : NiSession → Option NiSession
answered s = if s.resp_recvd then some s else none

-- After `pthread_cond_timedwait`: a timeout ends the loop whether there is an answer or not.
unfoldable pub wake : Bool → NiSession → Option NiSession
unfolding answered
wake true s = some (record s { resp = gps_ni_response_noresp })
wake false s = answered s

-- The rest of the locked part: the message to send and the payload to free, if any.
take_payload : NiSession → Option ℕ → Option InformNiResponse × Option ℕ
take_payload s none = (none, none)
take_payload s (some p) =
    if s.resp == gps_ni_response_ignore
    then (none, some p)
    else (some (record { to = s.adapter; response = s.resp; payload = p }), none)

unfoldable pub take_request : NiSession → NiSession × Option InformNiResponse × Option ℕ
unfolding take_payload
take_request s =
    let (msg, dropped) = take_payload s s.raw_request in
    (record s { resp_recvd = false; raw_request = none }, msg, dropped)

-- After the mutex is unlocked.
unfoldable pub clear_session : NiSession → NiSession
clear_session s = record s { resp_time_left = 0; req_id = 0 }

-- What a caller writes under the mutex.
unfoldable pub answer : Option ℕ → NiSession → NiSession
answer none s = record s { resp_recvd = true }
answer (some r) s = record s { resp = r; resp_recvd = true }
