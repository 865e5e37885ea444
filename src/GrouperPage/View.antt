-- ===== src/GrouperPage/View.antt =====
-- Viewing the albums of a grouper in the overlay, one and then the next or the one before, in
-- album-grouper/album-grouper-page.js.
use streaming_service.Base.{
  List, Option, [], false, get_elem?, if◌then◌else◌, leb, length, ltb, none, some, true, ℕ, ◌++◌,
  ◌+◌, ◌-◌, ◌==◌, ◌∷◌,
}
use streaming_service.GrouperPage.{
  Content, ContentAnswer, Grouped, Grouper, SliceAnswer, content, content_loaded, content_refused,
  group_threw, grouped, id_index, load_next, no_content, pos, position, sub, ℤ,
}

unfoldable pub get_content : List (ℕ × Content) → ℕ → Option Content
get_content [] id = none
get_content ((j, c) ∷ m) id = let rest = get_content m id in if j == id then some c else rest

-- `showStepControls`
unfoldable pub show_step_controls : Grouper → ℕ → Grouper
unfolding position
show_step_controls g id =
    let p = position id g.child_ids in
    let at_last = leb g.total p in
    let at_first = p == 1 in
    record g {
      next_hidden = if g.ascending then at_last else at_first;
      prev_hidden = if g.ascending then at_first else at_last;
    }

-- The number of an item in the overlay's title.
unfoldable pub number_of : Grouper → ℕ → ℤ
unfolding position sub
number_of g id =
    if g.ascending
    then pos (position id g.child_ids)
    else sub (g.total + 1) (position id g.child_ids)

-- The end of `getMediaContentAndShowInOverlay`, with the content at hand.
unfoldable pub show_content : Grouper → ℕ → Content → Grouper
unfolding show_step_controls number_of
show_content g id no_content = g
show_content g id (content t) = record (show_step_controls g id) {
  viewing = some id;
  heading = some (number_of g id);
  opening = some id;
}

unfoldable pub keep_answer : Grouper → ℕ → ContentAnswer → Grouper
keep_answer g id (content_loaded t) = record g { contents = g.contents ++ (id, content t) ∷ [] }
keep_answer g id content_refused = record g {
  contents = g.contents ++ (id, no_content) ∷ [];
  alerts = g.alerts + 1;
}

unfoldable pub content_of : ContentAnswer → Content
content_of (content_loaded t) = content t
content_of content_refused = no_content

-- `getMediaContentAndShowInOverlay`, by the entry that is kept.
unfoldable pub show_found : Grouper → ℕ → ContentAnswer → Option Content → Grouper
unfolding show_content keep_answer content_of
show_found g id answer none = show_content (keep_answer g id answer) id (content_of answer)
show_found g id answer (some c) = show_content g id c

unfoldable pub show_item : Grouper → ℕ → ContentAnswer → Grouper
unfolding get_content show_found
show_item g id answer = show_found g id answer (get_content g.contents id)

-- The rest of `viewNextAlbum` for the item at an index.
unfoldable pub show_next : Grouper → ℕ → ContentAnswer → Option ℕ → Grouper
unfolding show_item
show_next g i answer none = g
show_next g i answer (some id) =
    let g' = show_item g id answer in
    let at_end = if g.ascending then leb g.total (i + 1) else i == 0 in
    record g' { next_hidden = if at_end then true else g'.next_hidden; prev_hidden = false }

unfoldable pub step_next : Grouper → ℕ → ContentAnswer → Grouper
unfolding show_next
step_next g i answer = show_next g i answer (get_elem? g.child_ids i)

-- The rest of `viewPrevAlbum` for the item at an index.
unfoldable pub show_prev : Grouper → ℕ → ContentAnswer → Option ℕ → Grouper
unfolding show_item
show_prev g i answer none = g
show_prev g i answer (some id) =
    let g' = show_item g id answer in
    let at_end = if g.ascending then i == 0 else leb g.total (i + 1) in
    record g' { prev_hidden = if at_end then true else g'.prev_hidden; next_hidden = false }

unfoldable pub step_prev : Grouper → ℕ → ContentAnswer → Grouper
unfolding show_prev
step_prev g i answer = show_prev g i answer (get_elem? g.child_ids i)

-- The index of the item in the overlay.
unfoldable pub viewed_index : Grouper → Option ℕ
unfolding id_index
viewed_index g = elim g.viewing [ none ↦ none | some id ↦ id_index id g.child_ids ]

-- Behind a page of ids: the item at an index is shown, if it is there by then.
unfoldable pub step_behind : Grouped → ℕ → ContentAnswer → Grouped
unfolding step_next
step_behind (group_threw g) i answer = group_threw g
step_behind (grouped g) i answer =
    if ltb i (length g.child_ids) then grouped (step_next g i answer) else grouped g

-- `viewNextAlbum` from an index, -1 being `none`.
unfoldable pub next_from : Grouper → SliceAnswer → ContentAnswer → Option ℕ → Grouped
unfolding load_next step_next step_behind
next_from g slice answer none = grouped g
next_from g slice answer (some i) =
    if g.ascending
    then if ltb (i + 1) (length g.child_ids)
      then grouped (step_next g (i + 1) answer)
      else step_behind (load_next g slice) (i + 1) answer
    else if i == 0
    then load_next g slice
    else grouped (step_next g (i - 1) answer)

unfoldable pub view_next_album : Grouper → SliceAnswer → ContentAnswer → Grouped
unfolding viewed_index next_from
view_next_album g slice answer = next_from g slice answer (viewed_index g)

-- `viewPrevAlbum` from an index.
unfoldable pub prev_from : Grouper → ContentAnswer → Option ℕ → Grouper
unfolding step_prev
prev_from g answer none = g
prev_from g answer (some i) =
    if g.ascending
    then if i == 0 then g else step_prev g (i - 1) answer
    else if ltb (i + 1) (length g.child_ids)
    then step_prev g (i + 1) answer
    else g

unfoldable pub view_prev_album : Grouper → ContentAnswer → Grouper
unfolding viewed_index prev_from
view_prev_album g answer = prev_from g answer (viewed_index g)
