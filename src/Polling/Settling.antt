-- ===== src/Polling/Settling.antt =====
-- Which calls of `pollPlaylistUrl` in set-video-url.js have their promise settled.
use streaming_service.Base.{
  All, Bool, List, Option, [], arith, false, inl, inr, is_some, none, refl, some, true, ◌∷◌, ◌≡◌,
  ◌≢◌, ◌⊎◌,
}
use streaming_service.Base.Text.{Text}
use streaming_service.Polling.{
  Poll, PollEvent, TestResult, begin_poll, cancelled, cleanup, connect_failed, connected,
  drop_socket, job_replied, keep_socket, over, poll_step, reading, refusal_read, request_answered,
  request_failed, request_refused, run_poll, test_threw, timer_fired, verdict_of,
}

-- A call that is cancelled, hears nothing more and is not settled.
abbrev IsLost : Poll → Type 0
IsLost p =
    (p.phase ≡ over)
    × (p.listening ≡ false)
    × (p.cancel_requested ≡ true)
    × (p.outcome ≡ none)
    × (is_some p.current_job_id ≡ true)

poll_step-IsLost :
    (test : Option (Text → TestResult)) (p : Poll) (e : PollEvent)
    → IsLost p
    → IsLost (poll_step test p e)
unfolding poll_step cleanup
poll_step-IsLost test p e (o, d, c, n, j) = ground arith

run_poll-IsLost :
    (test : Option (Text → TestResult)) (p : Poll) (es : List PollEvent)
    → IsLost p
    → IsLost (run_poll test p es)
unfolding run_poll
run_poll-IsLost test p [] l = l
run_poll-IsLost test p (e ∷ es) l =
    run_poll-IsLost test (poll_step test p e) es (poll_step-IsLost test p e l)

-- A call that is cancelled while it waits for a payload of its job is never settled, whatever comes
-- then, its timer included.
pub cancel_never_settles :
    (test : Option (Text → TestResult)) (p : Poll) (es : List PollEvent) (job : Text)
    → p.phase ≡ over
    → p.outcome ≡ none
    → p.current_job_id ≡ some job
    → (run_poll test p (cancelled ∷ es)).outcome ≡ none
unfolding run_poll poll_step
cancel_never_settles test p es job at_end unsettled has_job =
    let (o, d, c, n, j) =
      run_poll-IsLost test (poll_step test p cancelled) es
        (at_end, rw has_job refl, refl, unsettled, rw has_job refl) in
    n

-- The events have no cancel in them.
abbrev pub NoCancel : List PollEvent → Type 0
NoCancel es = All (λ e. e ≢ cancelled) es

abbrev pub is_thrown : TestResult → Bool
is_thrown keep_socket = false
is_thrown drop_socket = false
is_thrown (test_threw e) = true

-- The test of the results throws for none of them.
abbrev pub Returns : Option (Text → TestResult) → Type 0
Returns test = (result : Text) → is_thrown (verdict_of test result) ≡ false

-- A call that is not cancelled has an outcome, or its timer, or it reads the text of a refusal.
abbrev Pending : Poll → Type 0
Pending p =
    (p.cancel_requested ≡ false)
    × ((is_some p.outcome ≡ true) ⊎ ((p.has_timer ≡ true) ⊎ (p.phase ≡ reading)))

poll_step-Pending :
    (test : Option (Text → TestResult)) (p : Poll) (e : PollEvent)
    → Returns test
    → e ≢ cancelled
    → Pending p
    → Pending (poll_step test p e)
unfolding poll_step cleanup
poll_step-Pending test p connected r nc (c, w) = ground arith
poll_step-Pending test p (connect_failed e) r nc (c, w) = ground arith
poll_step-Pending test p (request_answered job result) r nc (c, w) = ground (arith, r result)
poll_step-Pending test p request_refused r nc (c, w) = ground arith
poll_step-Pending test p (refusal_read e) r nc (c, w) = ground arith
poll_step-Pending test p (request_failed e) r nc (c, w) = ground arith
poll_step-Pending test p (job_replied result) r nc (c, w) = ground (arith, r result)
poll_step-Pending test p timer_fired r nc (c, w) = ground arith
poll_step-Pending test p cancelled r nc (c, w) = absurd (nc refl)

run_poll-Pending :
    (test : Option (Text → TestResult)) (p : Poll) (es : List PollEvent)
    → Returns test
    → NoCancel es
    → Pending p
    → Pending (run_poll test p es)
unfolding run_poll
run_poll-Pending test p [] r nc w = w
run_poll-Pending test p (e ∷ es) r nc w =
    run_poll-Pending test (poll_step test p e) es r nc.1 (poll_step-Pending test p e r nc.0 w)

timer-settles :
    (test : Option (Text → TestResult)) (p : Poll)
    → Pending p
    → (is_some (poll_step test p timer_fired).outcome ≡ true) ⊎ (p.phase ≡ reading)
unfolding poll_step cleanup
timer-settles test p (c, w) = ground arith

-- A call that is not cancelled, with a test that does not throw, is settled at the latest when its
-- timer fires, whatever has come before, unless it waits for the text of a refusal then.
pub timer-settles_poll :
    (test : Option (Text → TestResult)) (client : Bool) (es : List PollEvent)
    → Returns test
    → NoCancel es
    → (is_some (poll_step test (run_poll test (begin_poll client) es) timer_fired).outcome ≡ true)
      ⊎ ((run_poll test (begin_poll client) es).phase ≡ reading)
timer-settles_poll test client es r nc =
    timer-settles test (run_poll test (begin_poll client) es)
      (run_poll-Pending test (begin_poll client) es r nc (refl, inr (inl refl)))

-- A refusal whose text has come is settled.
pub refusal_read-settles :
    (test : Option (Text → TestResult)) (p : Poll) (e : Text)
    → p.phase ≡ reading
    → is_some (poll_step test p (refusal_read e)).outcome ≡ true
unfolding poll_step
refusal_read-settles test p e h = ground arith
