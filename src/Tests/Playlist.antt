-- ===== src/Tests/Playlist.antt =====
-- Runs of the model of the wait for a playlist: set-video-url.js.
use streaming_service.Base.{List, [], false, is_some, none, refl, some, true, ◌∷◌, ◌≡◌, ◌⊎◌}
use streaming_service.Base.Text.{codes, text_eq}
use streaming_service.Polling.{
  Poll, PollEvent, begin_poll, cleanup, connected, job_replied, poll_step, reading,
  request_answered, resolved, run_poll, timer_fired,
}
use streaming_service.Polling.Settling.{NoCancel, timer-settles_poll}

abbrev to_processing : List PollEvent
to_processing = connected ∷ request_answered (codes "7") (codes "PROCESSING") ∷ []

-- A call whose job is at work.
waiting : Poll
unfolding run_poll poll_step text_eq
waiting = run_poll none (begin_poll false) to_processing

-- The same call without the cancel gets the playlist.
playlist_comes :
    (run_poll none waiting (job_replied (codes "a.m3u8") ∷ timer_fired ∷ [])).outcome
    ≡ some (resolved (codes "a.m3u8"))
unfolding waiting run_poll poll_step cleanup
playlist_comes = refl

to_processing-NoCancel : NoCancel to_processing
to_processing-NoCancel = ((λ e. absurd (cc e)), ((λ e. absurd (cc e)), tt))

timer-settles_poll_example :
    (is_some (poll_step none (run_poll none (begin_poll false) to_processing) timer_fired).outcome
      ≡ true)
    ⊎ ((run_poll none (begin_poll false) to_processing).phase ≡ reading)
timer-settles_poll_example =
    timer-settles_poll none false to_processing (λ result. refl) to_processing-NoCancel
