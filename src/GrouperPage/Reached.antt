-- ===== src/GrouperPage/Reached.antt =====
-- What the list of a grouper shows, whatever is clicked.
use streaming_service.Base.{
  Bool-cases, List, Option, false, get_elem?, if_either, inl, inr, leb, length, ltb, none, refl,
  some, ℕ, ◌+◌, ◌-◌, ◌==◌, ◌∷◌, ◌≡◌,
}
use streaming_service.GrouperPage.{
  Content, ContentAnswer, Grouped, Grouper, SliceAnswer, click_show_more, click_sort_order, content,
  content_loaded, content_refused, display_list, first_count, group_threw, grouped, hide_more,
  load_next, new_grouper, no_content, slice_loaded, slice_refused, state_of,
}
use streaming_service.GrouperPage.Numbers.{IsNumbered}
use streaming_service.GrouperPage.Redrawn.{add_items-IsNumbered, begun-IsNumbered, order-IsNumbered}
use streaming_service.GrouperPage.View.{
  content_of, get_content, keep_answer, next_from, prev_from, show_content, show_found, show_item,
  show_next, show_prev, show_step_controls, step_behind, step_next, step_prev, view_next_album,
  view_prev_album, viewed_index,
}

abbrev StateIsNumbered : Grouped → Type 0
StateIsNumbered r = IsNumbered (state_of r)

load_next-IsNumbered :
    (g : Grouper) (slice : SliceAnswer) → IsNumbered g → IsNumbered (state_of (load_next g slice))
unfolding load_next
load_next-IsNumbered g slice_refused n = elim (Bool-cases (leb g.total (length g.child_ids))) [
  | inl all ↦ rw all n
  | inr more ↦ rw more (record { titles = n.titles; next = n.next; distinct = n.distinct })
]
load_next-IsNumbered g (slice_loaded ids) n = elim (Bool-cases (leb g.total (length g.child_ids))) [
  | inl all ↦ rw all n
  | inr more ↦ rw more (
      add_items-IsNumbered (record g { current_page = g.current_page + 1 }) ids
        (record { titles = n.titles; next = n.next; distinct = n.distinct }))
]

hide_more-IsNumbered : (r : Grouped) → IsNumbered (state_of r) → IsNumbered (state_of (hide_more r))
unfolding hide_more
hide_more-IsNumbered (group_threw g) n = n
hide_more-IsNumbered (grouped g) n = record {
  titles = n.titles;
  next = n.next;
  distinct = n.distinct;
}

show_content-IsNumbered :
    (g : Grouper) (id : ℕ) (c : Content) → IsNumbered g → IsNumbered (show_content g id c)
unfolding show_content show_step_controls
show_content-IsNumbered g id no_content n = n
show_content-IsNumbered g id (content t) n = record {
  titles = n.titles;
  next = n.next;
  distinct = n.distinct;
}

keep_answer-IsNumbered :
    (g : Grouper) (id : ℕ) (answer : ContentAnswer)
    → IsNumbered g
    → IsNumbered (keep_answer g id answer)
unfolding keep_answer
keep_answer-IsNumbered g id (content_loaded t) n = record {
  titles = n.titles;
  next = n.next;
  distinct = n.distinct;
}
keep_answer-IsNumbered g id content_refused n = record {
  titles = n.titles;
  next = n.next;
  distinct = n.distinct;
}

show_found-IsNumbered :
    (g : Grouper) (id : ℕ) (answer : ContentAnswer) (o : Option Content)
    → IsNumbered g
    → IsNumbered (show_found g id answer o)
unfolding show_found
show_found-IsNumbered g id answer none n =
    show_content-IsNumbered (keep_answer g id answer) id (content_of answer)
      (keep_answer-IsNumbered g id answer n)
show_found-IsNumbered g id answer (some c) n = show_content-IsNumbered g id c n

show_item-IsNumbered :
    (g : Grouper) (id : ℕ) (answer : ContentAnswer)
    → IsNumbered g
    → IsNumbered (show_item g id answer)
unfolding show_item
show_item-IsNumbered g id answer n = show_found-IsNumbered g id answer (get_content g.contents id) n

show_next-IsNumbered :
    (g : Grouper) (i : ℕ) (answer : ContentAnswer) (o : Option ℕ)
    → IsNumbered g
    → IsNumbered (show_next g i answer o)
unfolding show_next
show_next-IsNumbered g i answer none n = n
show_next-IsNumbered g i answer (some id) n =
    let n' = show_item-IsNumbered g id answer n in
    record { titles = n'.titles; next = n'.next; distinct = n'.distinct }

step_next-IsNumbered :
    (g : Grouper) (i : ℕ) (answer : ContentAnswer)
    → IsNumbered g
    → IsNumbered (step_next g i answer)
unfolding step_next
step_next-IsNumbered g i answer n = show_next-IsNumbered g i answer (get_elem? g.child_ids i) n

show_prev-IsNumbered :
    (g : Grouper) (i : ℕ) (answer : ContentAnswer) (o : Option ℕ)
    → IsNumbered g
    → IsNumbered (show_prev g i answer o)
unfolding show_prev
show_prev-IsNumbered g i answer none n = n
show_prev-IsNumbered g i answer (some id) n =
    let n' = show_item-IsNumbered g id answer n in
    record { titles = n'.titles; next = n'.next; distinct = n'.distinct }

step_prev-IsNumbered :
    (g : Grouper) (i : ℕ) (answer : ContentAnswer)
    → IsNumbered g
    → IsNumbered (step_prev g i answer)
unfolding step_prev
step_prev-IsNumbered g i answer n = show_prev-IsNumbered g i answer (get_elem? g.child_ids i) n

step_behind-IsNumbered :
    (r : Grouped) (i : ℕ) (answer : ContentAnswer)
    → IsNumbered (state_of r)
    → IsNumbered (state_of (step_behind r i answer))
unfolding step_behind
step_behind-IsNumbered (group_threw g) i answer n = n
step_behind-IsNumbered (grouped g) i answer n = elim (Bool-cases (ltb i (length g.child_ids))) [
  | inl there ↦ rw there (step_next-IsNumbered g i answer n)
  | inr absent ↦ rw absent n
]

next_from-IsNumbered :
    (g : Grouper) (slice : SliceAnswer) (answer : ContentAnswer) (o : Option ℕ)
    → IsNumbered g
    → IsNumbered (state_of (next_from g slice answer o))
unfolding next_from
next_from-IsNumbered g slice answer none n = n
next_from-IsNumbered g slice answer (some i) n =
    if_either StateIsNumbered g.ascending _ _
      (if_either StateIsNumbered (ltb (i + 1) (length g.child_ids)) _ _
        (step_next-IsNumbered g (i + 1) answer n)
        (step_behind-IsNumbered (load_next g slice) (i + 1) answer
          (load_next-IsNumbered g slice n)))
      (if_either StateIsNumbered (i == 0) _ _ (load_next-IsNumbered g slice n)
        (step_next-IsNumbered g (i - 1) answer n))

prev_from-IsNumbered :
    (g : Grouper) (answer : ContentAnswer) (o : Option ℕ)
    → IsNumbered g
    → IsNumbered (prev_from g answer o)
unfolding prev_from
prev_from-IsNumbered g answer none n = n
prev_from-IsNumbered g answer (some i) n =
    if_either IsNumbered g.ascending _ _
      (if_either IsNumbered (i == 0) _ _ n (step_prev-IsNumbered g (i - 1) answer n))
      (if_either IsNumbered (ltb (i + 1) (length g.child_ids)) _ _
        (step_prev-IsNumbered g (i + 1) answer n) n)

-- The pages that a page becomes: more ids are asked for, the sort order is turned when all are
-- there, an item is opened, and the overlay steps on and back.
pub data Reaches (g : Grouper) : Grouper → Type 0 where
  reached : Reaches g g
  more :
      {h : Grouper}
      → (slice : SliceAnswer) → Reaches g h
      → Reaches g (state_of (click_show_more h slice))
  turn :
      {h : Grouper}
      → (slice : SliceAnswer) → length h.child_ids ≡ h.total
      → Reaches g h
      → Reaches g (state_of (click_sort_order h slice))
  open_item :
      {h : Grouper}
      → (id : ℕ) (answer : ContentAnswer) → Reaches g h
      → Reaches g (show_item h id answer)
  step_on :
      {h : Grouper}
      → (slice : SliceAnswer) (answer : ContentAnswer) → Reaches g h
      → Reaches g (state_of (view_next_album h slice answer))
  step_back :
      {h : Grouper} → (answer : ContentAnswer) → Reaches g h → Reaches g (view_prev_album h answer)

Reaches-IsNumbered : {g h : Grouper} → Reaches g h → IsNumbered g → IsNumbered h
unfolding click_show_more view_next_album view_prev_album
Reaches-IsNumbered reached n = n
Reaches-IsNumbered (more {h} slice r) n =
    hide_more-IsNumbered (load_next h slice) (load_next-IsNumbered h slice (Reaches-IsNumbered r n))
Reaches-IsNumbered (turn {h} slice all r) n = order-IsNumbered h slice all (Reaches-IsNumbered r n)
Reaches-IsNumbered (open_item {h} id answer r) n =
    show_item-IsNumbered h id answer (Reaches-IsNumbered r n)
Reaches-IsNumbered (step_on {h} slice answer r) n =
    next_from-IsNumbered h slice answer (viewed_index h) (Reaches-IsNumbered r n)
Reaches-IsNumbered (step_back {h} answer r) n =
    prev_from-IsNumbered h answer (viewed_index h) (Reaches-IsNumbered r n)

-- Whatever is loaded, opened and stepped to after the first ids of a grouper have been shown, and
-- however often the sort order is turned once all ids are there, a refused request included: the
-- nodes of the list stand for the ids in order, each id once, and are numbered from 1 up or from
-- the grouper's length down.
pub display_list-IsNumbered :
    (total id : ℕ) (ids : List ℕ) (h : Grouper)
    → Reaches (display_list new_grouper total (id ∷ ids)) h
    → IsNumbered h
unfolding display_list
display_list-IsNumbered total id ids h r =
    let n =
      begun-IsNumbered
        (record new_grouper {
          total = total;
          count = first_count false total;
          more_hidden = false;
          order_hidden = false;
        })
        (id ∷ ids) refl refl refl in
    Reaches-IsNumbered r (record { titles = n.titles; next = n.next; distinct = n.distinct })
