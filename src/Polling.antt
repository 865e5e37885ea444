-- ===== src/Polling.antt =====
-- The wait for a playlist: `pollPlaylistUrl` of
-- frontend/src/main/resources/static/js/set-video-url.js, one call of it.
pub mod Settling
use streaming_service.Base.{Bool, List, Option, [], false, if◌then◌else◌, none, some, true, ◌∷◌}
use streaming_service.Base.Text.{Text, codes, text_eq}

-- How the promise is settled. The text of a result goes through `safeJsonParse` on its way out.
pub data Outcome : Type 0 where
  resolved : Text → Outcome
  rejected : Text → Outcome

-- Where the body of the promise stands: at `await connectStompAsync()`, at `await apiRequest(..)`
-- with what is read of a good response, at `await response.text()` of a refused one, or at its end.
pub data Phase : Type 0 where
  connecting : Phase
  requesting : Phase
  reading : Phase
  over : Phase

-- The variables of a call. `listening` is there while `pendingJobs` has the call's listener;
-- `has_client` says if `stompClient` is set.
pub record Poll : Type 0 where
  pub cancel_requested : Bool
  pub has_timer : Bool
  pub current_job_id : Option Text
  pub listening : Bool
  pub has_client : Bool
  pub phase : Phase
  pub outcome : Option Outcome

-- What comes from outside: the end of the connecting, the answer to the request, a refusal and then
-- its text, an exception of either, a payload for the job, the timer, and a call of `cancel`.
pub data PollEvent : Type 0 where
  connected : PollEvent
  connect_failed : Text → PollEvent
  request_answered : Text → Text → PollEvent
  request_refused : PollEvent
  refusal_read : Text → PollEvent
  request_failed : Text → PollEvent
  job_replied : Text → PollEvent
  timer_fired : PollEvent
  cancelled : PollEvent

-- Only the first call of `resolve` or `reject` counts.
settle : Outcome → Poll → Poll
settle o p = elim p.outcome [ none ↦ record p { outcome = some o } | some _ ↦ p ]

-- `cleanup`: the listener goes if the job has an id.
unfoldable pub cleanup : Poll → Poll
cleanup p = record p {
  has_timer = false;
  listening = elim p.current_job_id [ none ↦ p.listening | some _ ↦ false ];
}

-- What `disconnectAfterResult` says of a result; it can throw.
pub data TestResult : Type 0 where
  keep_socket : TestResult
  drop_socket : TestResult
  test_threw : Text → TestResult

abbrev pub verdict_of : Option (Text → TestResult) → Text → TestResult
verdict_of none result = keep_socket
verdict_of (some test) result = test result

finish_with : Outcome → Poll → Poll
unfolding settle
finish_with o p = settle o (cleanup (record p { phase = over }))

-- `disconnectSocketIfNeeded` and `resolve`, behind a `cleanup`. An exception of the test is caught:
-- by the body of the promise, which rejects, and in the listener by the handler of the messages,
-- which does not.
resolve_with : TestResult → Bool → Text → Poll → Poll
unfolding settle
resolve_with keep_socket in_body result p = settle (resolved result) (cleanup p)
resolve_with drop_socket in_body result p =
    settle (resolved result) (record (cleanup p) { has_client = false })
resolve_with (test_threw e) true result p = settle (rejected e) (cleanup (cleanup p))
resolve_with (test_threw e) false result p = cleanup p

-- The answer to the request has come in full.
take_answer : Option (Text → TestResult) → Text → Text → Poll → Poll
unfolding resolve_with
take_answer test job result p =
    let q = record p { current_job_id = some job; phase = over } in
    if text_eq result (codes "PROCESSING")
    then record q { listening = true }
    else resolve_with (verdict_of test result) true result q

-- The body of the promise goes on after the connecting.
after_connect : Poll → Poll
unfolding finish_with
after_connect p =
    if p.cancel_requested
    then finish_with (rejected (codes "cancelled")) p
    else record p { phase = requesting }

on_timer : Poll → Poll
unfolding settle
on_timer p =
    let q = cleanup p in
    if p.cancel_requested
    then q
    else settle (rejected (codes "Timeout waiting for job completion")) q

-- An event that the call does not wait for changes nothing.
unfoldable pub poll_step : Option (Text → TestResult) → Poll → PollEvent → Poll
unfolding after_connect finish_with take_answer resolve_with on_timer cleanup settle
poll_step test p connected = elim p.phase [
  | connecting ↦ after_connect p
  | requesting ↦ p
  | reading ↦ p
  | over ↦ p
]
poll_step test p (connect_failed e) = elim p.phase [
  | connecting ↦ finish_with (rejected e) p
  | requesting ↦ p
  | reading ↦ p
  | over ↦ p
]
poll_step test p (request_answered job result) = elim p.phase [
  | connecting ↦ p
  | requesting ↦ take_answer test job result p
  | reading ↦ p
  | over ↦ p
]
poll_step test p request_refused = elim p.phase [
  | connecting ↦ p
  | requesting ↦ record (cleanup p) { phase = reading }
  | reading ↦ p
  | over ↦ p
]
poll_step test p (refusal_read e) = elim p.phase [
  | connecting ↦ p
  | requesting ↦ p
  | reading ↦ settle (rejected e) (record p { phase = over })
  | over ↦ p
]
poll_step test p (request_failed e) = elim p.phase [
  | connecting ↦ p
  | requesting ↦ finish_with (rejected e) p
  | reading ↦ finish_with (rejected e) p
  | over ↦ p
]
poll_step test p (job_replied result) =
    if p.listening then resolve_with (verdict_of test result) false result p else p
poll_step test p timer_fired = if p.has_timer then on_timer p else p
poll_step test p cancelled = record p {
  cancel_requested = true;
  listening = elim p.current_job_id [ none ↦ p.listening | some _ ↦ false ];
}

-- The call after some events.
unfoldable pub run_poll : Option (Text → TestResult) → Poll → List PollEvent → Poll
run_poll test p [] = p
run_poll test p (e ∷ es) = run_poll test (poll_step test p e) es

-- The call at its first `await`.
abbrev pub begin_poll : Bool → Poll
begin_poll client = record {
  cancel_requested = false;
  has_timer = true;
  current_job_id = none;
  listening = false;
  has_client = client;
  phase = connecting;
  outcome = none;
}
