-- ===== src/Browser/Messages/Queue.antt =====
-- The invariant of the message queue of file-manager-page.js.
use mathlib.Core.Path.{subst}
use streaming_service.Base.{
  Bool, Bool-cases, List, Option, [], ap, arith, drop, false, if_either, if◌then◌else◌, inl, inr,
  is_some, leb, leb→le, length, length-append, length-drop, none, not, refl, some, sym, true, ℕ,
  ◌&&◌, ◌+◌, ◌-◌, ◌∙◌, ◌∷◌, ◌≡◌, ◌≤◌, ◌⊎◌,
}
use streaming_service.Base.Text.{Text}
use streaming_service.Browser.Messages.{
  Board, Event, Message, Showing, Wait, abort, abort_timer, await_failed, await_rejected, blank,
  closed_by_user, delay_ended, delay_over, delayed, display_info_message, interrupt, mark,
  max_queue, move_on, play, process_queue, push_message, step, told, until_abort,
}

-- The text of the message that is shown stands in the box.
abbrev pub HasText : Option Showing → Text → Type 0
HasText none t = Unit {0}
HasText (some s) t = s.item.message ≡ t

-- At most twenty messages wait; a message has the controller exactly while the queue is at work,
-- and its text stands in the box; nothing waits while the queue is not at work; and the box is
-- hidden exactly then, unless the user has closed it.
pub record IsSound (closed : Bool) (b : Board) : Type 0 where
  pub bounded : length b.queue ≤ max_queue
  pub shown : is_some b.showing ≡ b.is_processing
  pub text : HasText b.showing b.text_shown
  pub idle : (b.is_processing ≡ true) ⊎ (b.queue ≡ [])
  pub visible : (b.hidden ≡ not b.is_processing) ⊎ (closed ≡ true)

process_queue-IsSound :
    (c : Bool) (b : Board) (q : List Message) (now : ℕ)
    → length q ≤ max_queue
    → b.showing ≡ none
    → IsSound c (process_queue b q now)
unfolding process_queue
process_queue-IsSound c b [] now h none_shown = record {
  bounded = omega arith;
  shown = ap is_some none_shown;
  text = subst (λ o. HasText o b.text_shown) (sym none_shown) tt;
  idle = inr refl;
  visible = inl refl;
}
process_queue-IsSound c b (m ∷ rest) now h none_shown = record {
  bounded = omega arith;
  shown = refl;
  text = refl;
  idle = inl refl;
  visible = inl refl;
}

length-push_message :
    (q : List Message) (m : Message) → length q ≤ max_queue → length (push_message q m) ≤ max_queue
unfolding push_message
length-push_message q m h = elim (Bool-cases (leb max_queue (length q))) [
  | inl full ↦ rw full (
      let n = leb→le max_queue (length q) full in
      omega (arith, length-append (drop 1 q) (m ∷ []), length-drop 1 q))
  | inr room ↦ rw room (ground (arith, length-append q (m ∷ [])))
]

move_on-IsSound :
    (c : Bool) (b : Board) (now : ℕ) → length b.queue ≤ max_queue → IsSound c (move_on b now)
unfolding move_on
move_on-IsSound c b now h = process_queue-IsSound c (record b { showing = none }) b.queue now h refl

mark-IsSound :
    (c : Bool) (b : Board) (o : Option Showing) → b.showing ≡ o → IsSound c b → IsSound c (mark b o)
unfolding mark
mark-IsSound c b none here v = v
mark-IsSound c b (some s) here v = record {
  bounded = v.bounded;
  shown = ap is_some (sym here) ∙ v.shown;
  text = subst (λ o. HasText o b.text_shown) here v.text;
  idle = v.idle;
  visible = v.visible;
}

abort-IsSound : (c : Bool) (b : Board) → IsSound c b → IsSound c (abort b)
unfolding abort
abort-IsSound c b v = mark-IsSound c b b.showing refl v

-- The board with other timers.
with_aborts-IsSound :
    (c : Bool) (b : Board) (ts : List ℕ) → IsSound c b → IsSound c (record b { aborts = ts })
with_aborts-IsSound c b ts v = record {
  bounded = v.bounded;
  shown = v.shown;
  text = v.text;
  idle = v.idle;
  visible = v.visible;
}

interrupt-IsSound :
    (c : Bool) (b : Board) (o : Option Showing) (now : ℕ)
    → IsSound c b
    → IsSound c (interrupt b o now)
unfolding interrupt
interrupt-IsSound c b none now v = v
interrupt-IsSound c b (some s) now v =
    if_either (IsSound c) (leb 500 (now - s.start)) _ _ (abort-IsSound c b v)
      (with_aborts-IsSound c b _ v)

told-IsSound :
    (c : Bool) (b : Board) (q : List Message) (p : Bool) (now : ℕ)
    → length q ≤ max_queue
    → b.is_processing ≡ p
    → IsSound c b
    → IsSound c (
        if p
        then interrupt (record b { queue = q }) b.showing now
        else process_queue (record b { queue = q }) q now)
told-IsSound c b q true now bound at_work v =
    interrupt-IsSound c (record b { queue = q }) b.showing now
      (record {
        bounded = bound;
        shown = v.shown;
        text = v.text;
        idle = inl at_work;
        visible = v.visible;
      })
told-IsSound c b q false now bound free v =
    process_queue-IsSound c (record b { queue = q }) q now bound (absent b.showing (v.shown ∙ free))
  where
    absent : (o : Option Showing) → is_some o ≡ false → o ≡ none
    absent none h = refl
    absent (some s) h = cc

display_info_message-IsSound :
    (c : Bool) (b : Board) (m : Message) (now : ℕ)
    → IsSound c b
    → IsSound c (display_info_message b m now)
unfolding display_info_message
display_info_message-IsSound c b m now v =
    told-IsSound c b (push_message b.queue m) b.is_processing now
      (length-push_message b.queue m v.bounded) refl v

delay_over-IsSound :
    (c : Bool) (b : Board) (o : Option Showing) (now : ℕ)
    → IsSound c b
    → IsSound c (delay_over b o now)
unfolding delay_over
delay_over-IsSound c b none now v = v
delay_over-IsSound c b (some s) now v = waited s.wait
  where
    waited :
        (w : Wait)
        → IsSound c (elim w [
          | until_abort ↦ b
          | delayed d ↦ if not s.aborted && leb (s.start + d) now then move_on b now else b
        ])
    waited until_abort = v
    waited (delayed d) =
        if_either (IsSound c) (not s.aborted && leb (s.start + d) now) _ _
          (move_on-IsSound c b now v.bounded) v

rejected-IsSound :
    (c : Bool) (b : Board) (o : Option Showing) (now : ℕ)
    → IsSound c b
    → IsSound c (await_rejected b o now)
unfolding await_rejected
rejected-IsSound c b none now v = v
rejected-IsSound c b (some s) now v =
    if_either (IsSound c) s.aborted _ _ (move_on-IsSound c b now v.bounded) v

timer-IsSound :
    (c : Bool) (b : Board) (ts : List ℕ) (now : ℕ)
    → IsSound c b
    → IsSound c
        (elim ts [ [] ↦ b | t ∷ ts ↦ if leb t now then abort (record b { aborts = ts }) else b ])
timer-IsSound c b [] now v = v
timer-IsSound c b (t ∷ ts) now v =
    if_either (IsSound c) (leb t now) _ _
      (abort-IsSound c (record b { aborts = ts }) (with_aborts-IsSound c b ts v)) v

-- If the user has closed the box before or with an event.
abbrev pub or_closes : Bool → Event → Bool
or_closes c (told m) = c
or_closes c delay_ended = c
or_closes c await_failed = c
or_closes c abort_timer = c
or_closes c closed_by_user = true

abbrev pub closes : Bool → List (ℕ × Event) → Bool
closes c [] = c
closes c ((now, e) ∷ rest) = closes (or_closes c e) rest

step-IsSound :
    (c : Bool) (b : Board) (now : ℕ) (e : Event)
    → IsSound c b
    → IsSound (or_closes c e) (step b now e)
unfolding step
step-IsSound c b now (told m) v = display_info_message-IsSound c b m now v
step-IsSound c b now delay_ended v = delay_over-IsSound c b b.showing now v
step-IsSound c b now await_failed v = rejected-IsSound c b b.showing now v
step-IsSound c b now abort_timer v = timer-IsSound c b b.aborts now v
step-IsSound c b now closed_by_user v = record {
  bounded = v.bounded;
  shown = v.shown;
  text = v.text;
  idle = v.idle;
  visible = inr refl;
}

play-IsSound_from :
    (c : Bool) (b : Board) (events : List (ℕ × Event))
    → IsSound c b
    → IsSound (closes c events) (play b events)
unfolding play
play-IsSound_from c b [] v = v
play-IsSound_from c b ((now, e) ∷ rest) v =
    play-IsSound_from (or_closes c e) (step b now e) rest (step-IsSound c b now e v)

-- Whatever messages come and timers fire, and when: at most twenty messages wait; a message has the
-- controller exactly while the queue is at work, and its text stands in the box; no message waits
-- while the queue is not at work; and the box is hidden exactly then, unless the user has closed it
-- once.
pub play-IsSound : (events : List (ℕ × Event)) → IsSound (closes false events) (play blank events)
play-IsSound events =
    play-IsSound_from false blank events (record {
      bounded = omega arith;
      shown = refl;
      text = tt;
      idle = inr refl;
      visible = inl refl;
    })
