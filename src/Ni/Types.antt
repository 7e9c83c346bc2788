-- ===== src/Ni/Types.antt =====
-- The data of gps/loc_api/libloc_api_50001/loc_eng_ni.h, and the fields of `loc_eng_data` that the
-- requests use.
use android_device_samsung_d.Common.{ℕ, Bool, Option, List}

-- `GpsUserResponseType`.
abbrev pub gps_ni_response_accept : ℕ
gps_ni_response_accept = 1

abbrev pub gps_ni_response_noresp : ℕ
gps_ni_response_noresp = 3

abbrev pub gps_ni_response_ignore : ℕ
gps_ni_response_ignore = 4

abbrev pub gps_ni_type_emergency_supl : ℕ
gps_ni_type_emergency_supl = 4

abbrev pub gps_ni_privacy_override : ℕ
gps_ni_privacy_override = 4

abbrev pub loc_ni_no_response_time : ℕ
loc_ni_no_response_time = 20

-- The two sessions, `session` and `sessionEs`.
pub data Which : Type 0 where
  supl supl_es : Which

-- `loc_eng_ni_session_s_type`. A payload is its address; `none` is NULL.
pub record NiSession : Type 0 where
  pub resp_time_left : ℕ
  pub resp_recvd : Bool
  pub raw_request : Option ℕ
  pub req_id : ℕ
  pub resp : ℕ
  pub adapter : ℕ

-- `LocEngInformNiResponse`.
pub record InformNiResponse : Type 0 where
  pub to : ℕ
  pub response : ℕ
  pub payload : ℕ

-- The part of `GpsNiNotification` that the code reads.
pub record NiNotification : Type 0 where
  pub ni_type : ℕ
  pub notify_flags : ℕ
  pub timeout : ℕ

-- Where a thread stands: before `ni_thread_proc` locks the mutex, in `pthread_cond_timedwait`,
-- after it has unlocked the mutex, and before it sends; and a caller that has yet to lock the
-- mutex and write the given answers (`none` leaves `resp`); and a restart of the modem, before its test of
-- the sessions that are left, before it frees the request of a session, before it sets that to NULL (with
-- the address that it freed, which the code does not keep), and before it locks the mutex.
pub data Thread : Type 0 where
  starting : Which → Thread
  blocked : Which → Thread
  leaving : Which → Option InformNiResponse → Thread
  posting : Option InformNiResponse → Thread
  answering : List (Which × Option ℕ) → Thread
  restarting : List Which → Thread
  freeing : Which → List Which → Thread
  clearing : Which → Option ℕ → List Which → Thread
  waking : Which → List Which → Thread

-- `loc_eng_ni_data_s_type`, whether `ni_notify_cb` is set, the adapter, and whether
-- `loc_eng_mute_one_session` was called;
-- the threads, the payloads freed, the messages sent to the adapter and the ids notified.
pub record Ni : Type 0 where
  pub session : NiSession
  pub session_es : NiSession
  pub req_id_counter : ℕ
  pub ni_notify_cb : Bool
  pub owner : ℕ
  pub mute_requested : Bool
  pub threads : List Thread
  pub freed : List ℕ
  pub posted : List InformNiResponse
  pub notified : List ℕ

abbrev pub session_of : Which → Ni → NiSession
session_of supl d = d.session
session_of supl_es d = d.session_es

abbrev pub with_session : Which → NiSession → Ni → Ni
with_session supl s d = record d { session = s }
with_session supl_es s d = record d { session_es = s }
