-- ===== src/Browser/Messages.antt =====
-- The messages of file-manager-page.js: `displayInfoMessage`, `processQueue` and the timers that
-- move the queue on. Times are in milliseconds.
pub mod Queue
use streaming_service.Base.{
  Bool, List, Option, [], drop, false, if◌then◌else◌, leb, length, none, not, some, true, ℕ, ◌&&◌,
  ◌++◌, ◌+◌, ◌-◌, ◌∷◌,
}
use streaming_service.Base.Text.{Text}

pub record Message : Type 0 where
  pub message : Text
  pub has_timeout : Bool
  pub timeout_time : ℕ

-- What the running `processQueue` waits for: its delay, or an abort only.
pub data Wait : Type 0 where
  delayed : ℕ → Wait
  until_abort : Wait

-- A message that is shown, since when, its wait, and if its controller has been aborted. The rejected
-- `await` goes on only after the handler that aborts it.
pub record Showing : Type 0 where
  pub item : Message
  pub start : ℕ
  pub wait : Wait
  pub aborted : Bool

-- The variables of the queue. `showing` is there while `currentController` is; `aborts` are the times
-- of the timers that abort the controller that is then the current one.
pub record Board : Type 0 where
  pub queue : List Message
  pub is_processing : Bool
  pub showing : Option Showing
  pub hidden : Bool
  pub text_shown : Text
  pub aborts : List ℕ

abbrev pub max_queue : ℕ
max_queue = 20

-- The delay of a message, given what is behind it.
wait_of : Message → List Message → Wait
wait_of m [] = if m.has_timeout then delayed m.timeout_time else until_abort
wait_of m (n ∷ rest) = delayed 700

-- `processQueue` up to its `await`.
unfoldable pub process_queue : Board → List Message → ℕ → Board
unfolding wait_of
process_queue b [] now = record b { queue = []; is_processing = false; hidden = true }
process_queue b (m ∷ rest) now = record b {
  queue = rest;
  is_processing = true;
  showing = some (record { item = m; start = now; wait = wait_of m rest; aborted = false });
  hidden = false;
  text_shown = m.message;
}

-- The end of the `await`, by the delay or by an abort, which is caught: the controller goes and the
-- queue moves on.
unfoldable pub move_on : Board → ℕ → Board
move_on b now = process_queue (record b { showing = none }) b.queue now

mark : Board → Option Showing → Board
mark b none = b
mark b (some s) = record b { showing = some (record s { aborted = true }) }

-- `currentController.abort()`
unfoldable pub abort : Board → Board
unfolding mark
abort b = mark b b.showing

push_message : List Message → Message → List Message
push_message q m = (if leb max_queue (length q) then drop 1 q else q) ++ m ∷ []

-- A message that is shown is cut short after half a second.
interrupt : Board → Option Showing → ℕ → Board
unfolding abort
interrupt b none now = b
interrupt b (some s) now =
    if leb 500 (now - s.start)
    then abort b
    else record b { aborts = b.aborts ++ (now + (500 - (now - s.start))) ∷ [] }

-- `displayInfoMessage`
unfoldable pub display_info_message : Board → Message → ℕ → Board
unfolding push_message interrupt
display_info_message b m now =
    let b' = record b { queue = push_message b.queue m } in
    if b.is_processing then interrupt b' b.showing now else process_queue b' b'.queue now

-- The delay of the message that is shown is over, unless an abort has cleared its timer.
delay_over : Board → Option Showing → ℕ → Board
delay_over b none now = b
delay_over b (some s) now = elim s.wait [
  | until_abort ↦ b
  | delayed d ↦ if not s.aborted && leb (s.start + d) now then move_on b now else b
]

-- The `await` of an aborted controller goes on.
await_rejected : Board → Option Showing → ℕ → Board
await_rejected b none now = b
await_rejected b (some s) now = if s.aborted then move_on b now else b

-- What can happen to the board at a time: a message, the end of a delay, the end of an aborted
-- `await`, a timer that aborts, the close button.
pub data Event : Type 0 where
  told : Message → Event
  delay_ended : Event
  await_failed : Event
  abort_timer : Event
  closed_by_user : Event

unfoldable pub step : Board → ℕ → Event → Board
unfolding delay_over await_rejected
step b now (told m) = display_info_message b m now
step b now delay_ended = delay_over b b.showing now
step b now await_failed = await_rejected b b.showing now
step b now abort_timer = elim b.aborts [
  | [] ↦ b
  | t ∷ ts ↦ if leb t now then abort (record b { aborts = ts }) else b
]
step b now closed_by_user = record b { hidden = true }

-- The board after some events with their times.
unfoldable pub play : Board → List (ℕ × Event) → Board
play b [] = b
play b ((now, e) ∷ rest) = play (step b now e) rest

abbrev pub blank : Board
blank = record {
  queue = [];
  is_processing = false;
  showing = none;
  hidden = true;
  text_shown = [];
  aborts = [];
}
