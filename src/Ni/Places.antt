-- ===== src/Ni/Places.antt =====
-- Where the payloads are: saved in a session, in a message on its way, sent, or freed; and what the
-- parts of the threads do to the places.
use android_device_samsung_d.Common.{
  ℕ, ◌+◌, ◌≡◌, refl, ap, inl, inr, Bool, true, false, Option, none, some, List, [], ◌∷◌, ◌++◌,
  arith, ◌==◌, if◌then◌else◌, Bool-cases, Option-cases, is_some,
}
use android_device_samsung_d.Ni.Handlers.{free_payload, write_answer, clear_request}
use android_device_samsung_d.Ni.Reach.{IsUndisturbed}
use android_device_samsung_d.Ni.Session.{take_request, clear_session, answer}
use android_device_samsung_d.Ni.Threads.{finish, post, run_part}
use android_device_samsung_d.Ni.Types.{
  gps_ni_response_noresp, Which, supl, supl_es, NiSession, InformNiResponse, Thread, starting,
  blocked, leaving, posting, answering, restarting, freeing, clearing, waking, Ni, session_of,
  with_session,
}

abbrev pub held : ℕ → Option ℕ → ℕ
held x none = 0
held x (some p) = if p == x then 1 else 0

abbrev pub count_of : ℕ → List ℕ → ℕ
count_of x [] = 0
count_of x (p ∷ ps) = held x (some p) + count_of x ps

abbrev pub in_message : ℕ → Option InformNiResponse → ℕ
in_message x none = 0
in_message x (some msg) = held x (some msg.payload)

unfoldable pub in_posted : ℕ → List InformNiResponse → ℕ
in_posted x [] = 0
in_posted x (msg ∷ rest) = in_message x (some msg) + in_posted x rest

abbrev pub in_thread : ℕ → Thread → ℕ
in_thread x (starting w) = 0
in_thread x (blocked w) = 0
in_thread x (leaving w msg) = in_message x msg
in_thread x (posting msg) = in_message x msg
in_thread x (answering rest) = 0
in_thread x (restarting rest) = 0
in_thread x (freeing w rest) = 0
in_thread x (clearing w p rest) = 0
in_thread x (waking w rest) = 0

unfoldable pub in_threads : ℕ → List Thread → ℕ
in_threads x [] = 0
in_threads x (t ∷ ts) = in_thread x t + in_threads x ts

-- A payload that a restart has freed while the session still points to it.
abbrev pub dangling : ℕ → Thread → ℕ
dangling x (clearing w p rest) = held x p
dangling x _ = 0

unfoldable pub all_dangling : ℕ → List Thread → ℕ
all_dangling x [] = 0
all_dangling x (t ∷ ts) = dangling x t + all_dangling x ts

-- How often a payload is saved, freed or sent, and how often it is in one of the places.
unfoldable pub settled : ℕ → Ni → ℕ
settled x d =
    held x d.session.raw_request
    + held x d.session_es.raw_request
    + count_of x d.freed
    + in_posted x d.posted

unfoldable pub places : ℕ → Ni → ℕ
places x d = settled x d + in_threads x d.threads

pub count_of-append :
    (x : ℕ) (ps qs : List ℕ) → count_of x (ps ++ qs) ≡ count_of x ps + count_of x qs
count_of-append x [] qs = omega arith
count_of-append x (p ∷ ps) qs = omega (arith, count_of-append x ps qs)

pub in_posted-append :
    (x : ℕ) (ps qs : List InformNiResponse)
    → in_posted x (ps ++ qs) ≡ in_posted x ps + in_posted x qs
unfolding in_posted
in_posted-append x [] qs = omega arith
in_posted-append x (p ∷ ps) qs = omega (arith, in_posted-append x ps qs)

pub in_threads-append :
    (x : ℕ) (ps qs : List Thread) → in_threads x (ps ++ qs) ≡ in_threads x ps + in_threads x qs
unfolding in_threads
in_threads-append x [] qs = omega arith
in_threads-append x (p ∷ ps) qs = omega (arith, in_threads-append x ps qs)

pub all_dangling-append :
    (x : ℕ) (ps qs : List Thread)
    → all_dangling x (ps ++ qs) ≡ all_dangling x ps + all_dangling x qs
unfolding all_dangling
all_dangling-append x [] qs = omega arith
all_dangling-append x (p ∷ ps) qs = omega (arith, all_dangling-append x ps qs)

-- The locked part of a thread moves the payload of its session.
pub finish-settled :
    (x : ℕ) (w : Which) (s : NiSession) (d : Ni)
    → s.raw_request ≡ (session_of w d).raw_request
    → settled x (finish w s d).0 + in_threads x (finish w s d).1 ≡ settled x d
unfolding finish take_request settled in_threads in_posted
finish-settled x supl s d e = elim (Option-cases d.session.raw_request) [
  | inl none_saved ↦ ground (arith)
  | inr (p, saved) ↦ ground (arith, count_of-append x d.freed (p ∷ []))
]
finish-settled x supl_es s d e = elim (Option-cases d.session_es.raw_request) [
  | inl none_saved ↦ ground (arith)
  | inr (p, saved) ↦ ground (arith, count_of-append x d.freed (p ∷ []))
]

pub free_payload-settled :
    (x : ℕ) (p : Option ℕ) (d : Ni) → settled x (free_payload p d) ≡ settled x d + held x p
unfolding settled
free_payload-settled x none d = omega arith
free_payload-settled x (some p) d = omega (arith, count_of-append x d.freed (p ∷ []))

write_answer-settled :
    (x : ℕ) (w : Which) (r : Option ℕ) (d : Ni) → settled x (write_answer (w, r) d) ≡ settled x d
unfolding settled answer
write_answer-settled x supl none d = refl
write_answer-settled x supl (some r) d = refl
write_answer-settled x supl_es none d = refl
write_answer-settled x supl_es (some r) d = refl

clear_session-settled :
    (x : ℕ) (w : Which) (d : Ni)
    → settled x (with_session w (clear_session (session_of w d)) d) ≡ settled x d
unfolding settled clear_session
clear_session-settled x supl d = refl
clear_session-settled x supl_es d = refl

post-settled :
    (x : ℕ) (msg : Option InformNiResponse) (d : Ni)
    → settled x (post msg d) ≡ settled x d + in_message x msg
unfolding settled in_posted
post-settled x none d = omega arith
post-settled x (some msg) d = omega (arith, in_posted-append x d.posted (msg ∷ []))

finish-dangling : (x : ℕ) (w : Which) (s : NiSession) (d : Ni) → all_dangling x (finish w s d).1 ≡ 0
unfolding finish all_dangling
finish-dangling x w s d = refl

clear_request-settled :
    (x : ℕ) (w : Which) (d : Ni)
    → settled x (clear_request w d) + held x (session_of w d).raw_request ≡ settled x d
unfolding settled clear_request
clear_request-settled x supl d = omega arith
clear_request-settled x supl_es d = omega arith

tested-places :
    (x : ℕ) (b : Bool) (w : Which) (rest : List Which)
    → (in_threads x ((if b then freeing w rest else restarting rest) ∷ []) ≡ 0)
      × (all_dangling x ((if b then freeing w rest else restarting rest) ∷ []) ≡ 0)
unfolding in_threads all_dangling
tested-places x true w rest = (refl, refl)
tested-places x false w rest = (refl, refl)

-- Each part of a thread moves a payload at most, and loses none; a restart that has freed one leaves it
-- dangling until it clears the pointer.
pub run_part-settled :
    (x : ℕ) (timed_out : Bool) (t : Thread) (d : Ni)
    → IsUndisturbed t d
    → settled x (run_part timed_out t d).0 + in_threads x (run_part timed_out t d).1 + dangling x t
      ≡ settled x d + in_thread x t + all_dangling x (run_part timed_out t d).1
unfolding run_part in_threads all_dangling
run_part-settled x timed_out (starting w) d calm = elim (Bool-cases (session_of w d).resp_recvd) [
  | inl e ↦ rw e (
      omega
        (arith, finish-settled x w (session_of w d) d refl, finish-dangling x w (session_of w d) d))
  | inr e ↦ rw e (omega arith)
]
run_part-settled x true (blocked w) d calm =
    let s = record (session_of w d) { resp = gps_ni_response_noresp } in
    omega (arith, finish-settled x w s d refl, finish-dangling x w s d)
run_part-settled x false (blocked w) d calm = elim (Bool-cases (session_of w d).resp_recvd) [
  | inl e ↦ rw e (
      omega
        (arith, finish-settled x w (session_of w d) d refl, finish-dangling x w (session_of w d) d))
  | inr e ↦ rw e (omega arith)
]
run_part-settled x timed_out (leaving w msg) d calm = omega (arith, clear_session-settled x w d)
run_part-settled x timed_out (posting msg) d calm = omega (arith, post-settled x msg d)
run_part-settled x timed_out (answering []) d calm = omega arith
run_part-settled x timed_out (answering ((w, r) ∷ rest)) d calm =
    omega (arith, write_answer-settled x w r d)
run_part-settled x timed_out (restarting []) d calm = omega arith
run_part-settled x timed_out (restarting (w ∷ rest)) d calm =
    let there = tested-places x (is_some (session_of w d).raw_request) w rest in
    omega (arith, there.0, there.1)
run_part-settled x timed_out (freeing w rest) d calm =
    omega (arith, free_payload-settled x (session_of w d).raw_request d)
run_part-settled x timed_out (clearing w p rest) d calm =
    omega (arith, clear_request-settled x w d, ap (held x) calm)
run_part-settled x timed_out (waking w rest) d calm = omega (arith, write_answer-settled x w none d)
