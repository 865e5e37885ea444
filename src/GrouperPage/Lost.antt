-- ===== src/GrouperPage/Lost.antt =====
-- Where the list of a grouper goes wrong.
use streaming_service.Base.{
  ==_iff, List, [], ap, append-nil, append_assoc, arith, false, if◌then◌else◌, is_some, leb, length,
  none, not, refl, some, suc, sym, true, ℕ, ◌++◌, ◌+◌, ◌<◌, ◌==◌, ◌∙◌, ◌∷◌, ◌≡◌,
}
use streaming_service.GrouperPage.{
  Content, ContentAnswer, Grouper, SliceAnswer, add_items, add_list_item, add_new_album_item,
  click_sort_order, content_refused, first_count, id_index, load_next, no_content, pos, redraw_list,
  slice_loaded, slice_refused, state_of, succ, ℤ,
}
use streaming_service.GrouperPage.Numbers.{all_once, id_index-append}
use streaming_service.GrouperPage.Redrawn.{id_index-middle}
use streaming_service.GrouperPage.View.{
  get_content, keep_answer, show_content, show_found, show_item,
}

get_content-append :
    (m : List (ℕ × Content)) (id : ℕ) (c : Content)
    → get_content m id ≡ none
    → get_content (m ++ (id, c) ∷ []) id ≡ some c
unfolding get_content
get_content-append [] id c h = ground (arith, ==_iff id id)
get_content-append ((j, d) ∷ m) id c h = ground (arith, get_content-append m id c)

show_item-refused :
    (g : Grouper) (id : ℕ)
    → get_content g.contents id ≡ none
    → show_item g id content_refused ≡ keep_answer g id content_refused
unfolding show_item show_found show_content
show_item-refused g id unknown = rw unknown refl

show_item-kept :
    (g : Grouper) (id : ℕ) (answer : ContentAnswer)
    → get_content g.contents id ≡ some no_content
    → show_item g id answer ≡ g
unfolding show_item show_found show_content
show_item-kept g id answer known = rw known refl

-- An item whose content was refused once is never shown again: a later click changes nothing,
-- whatever the server would answer by then.
pub show_item_refused :
    (g : Grouper) (id : ℕ) (answer : ContentAnswer)
    → get_content g.contents id ≡ none
    → show_item (show_item g id content_refused) id answer ≡ show_item g id content_refused
unfolding keep_answer
show_item_refused g id answer unknown =
    let once = show_item-refused g id unknown in
    ap (λ h. show_item h id answer) once
    ∙ show_item-kept (keep_answer g id content_refused) id answer
        (get_content-append g.contents id no_content unknown)
    ∙ sym once

-- Ids with numbers that go up from one.
abbrev pub shifted : ℕ → List ℕ → List (ℕ × ℤ)
shifted n [] = []
shifted n (id ∷ ids) = (id, pos (suc n)) ∷ shifted (suc n) ids

abbrev appended : Grouper → ℕ → Grouper
appended g id = record g {
  count = succ g.count;
  shown = g.shown ++ (id, succ g.count) ∷ [];
  child_ids = g.child_ids ++ id ∷ [];
}

appended_lem :
    (g : Grouper) (id : ℕ)
    → g.ascending ≡ true
    → is_some (id_index id g.child_ids) ≡ false
    → add_list_item g id ≡ appended g id
unfolding add_list_item
appended_lem g id up fresh = rw (fresh, up) refl

add_items-shifted :
    (g : Grouper) (ids : List ℕ) (n : ℕ)
    → g.ascending ≡ true
    → g.count ≡ pos n
    → all_once (g.child_ids ++ ids) ≡ true
    → (add_items g ids).shown ≡ g.shown ++ shifted n ids
unfolding add_items succ
add_items-shifted g [] n up c once = sym (append-nil g.shown)
add_items-shifted g (id ∷ ids) n up c once =
    let step = appended_lem g id up (id_index-middle g.child_ids id ids once) in
    let joined = append_assoc g.child_ids (id ∷ []) ids in
    let number : succ g.count ≡ pos (suc n) = rw c refl in
    ap (λ h. (add_items h ids).shown) step
    ∙ (add_items-shifted (appended g id) ids (suc n) up number (rw joined once)
        ∙ append_assoc g.shown ((id, succ g.count) ∷ []) (shifted (suc n) ids)
        ∙ rw number refl)

-- An item that is added to a list in ascending order is put at its end, and then the numbers of all
-- items begin behind the new length instead of at 1.
pub add_new_album_item-numbers :
    (g : Grouper) (id : ℕ)
    → g.ascending ≡ true
    → all_once (g.child_ids ++ id ∷ []) ≡ true
    → (add_new_album_item g id).shown ≡ shifted (g.total + 1) (g.child_ids ++ id ∷ [])
unfolding add_new_album_item redraw_list
add_new_album_item-numbers g id up once =
    let longer = record g { total = g.total + 1; count = pos (g.total + 1) } in
    let at_end : (if g.ascending then g.child_ids ++ id ∷ [] else id ∷ g.child_ids)
        ≡ g.child_ids ++ id ∷ [] =
      rw up refl in
    ap (λ ids. (redraw_list longer ids).shown) at_end
    ∙ add_items-shifted (record longer { child_ids = []; shown = [] }) (g.child_ids ++ id ∷ [])
        (g.total + 1) up refl once

abbrev pub shown_ids : List (ℕ × ℤ) → List ℕ
shown_ids [] = []
shown_ids ((id, n) ∷ nodes) = id ∷ shown_ids nodes

shown_ids-append :
    (nodes : List (ℕ × ℤ)) (x : ℕ) (n : ℤ)
    → shown_ids (nodes ++ (x, n) ∷ []) ≡ shown_ids nodes ++ x ∷ []
shown_ids-append [] x n = refl
shown_ids-append ((y, m) ∷ nodes) x n = ap (y ∷◌) (shown_ids-append nodes x n)

-- An id that is in the list already, and has no node, gets none.
KeepsAbsent : Grouper → ℕ → Type 0
KeepsAbsent g id =
    (is_some (id_index id g.child_ids) ≡ true) × (is_some (id_index id (shown_ids g.shown)) ≡ false)

added-absent : (g : Grouper) (x id : ℕ) → KeepsAbsent g id → KeepsAbsent (add_list_item g x) id
unfolding add_list_item KeepsAbsent
added-absent g x id (there, absent) = ground (
  arith,
  there,
  absent,
  id_index-append g.child_ids x id,
  shown_ids-append g.shown x g.count,
  shown_ids-append g.shown x (succ g.count),
  id_index-append (shown_ids g.shown) x id,
  ==_iff x id,
)

add_items-absent :
    (g : Grouper) (ids : List ℕ) (id : ℕ) → KeepsAbsent g id → KeepsAbsent (add_items g ids) id
unfolding add_items
add_items-absent g [] id k = k
add_items-absent g (x ∷ ids) id k =
    add_items-absent (add_list_item g x) ids id (added-absent g x id k)

-- If the sort order is turned before all ids are there, the nodes of the ids that were there are
-- gone, and none comes back with the next page of ids.
pub click_sort_order-forgets :
    (g : Grouper) (slice : SliceAnswer) (id : ℕ)
    → length g.child_ids < g.total
    → is_some (id_index id g.child_ids) ≡ true
    → is_some (id_index id (shown_ids (state_of (click_sort_order g slice)).shown)) ≡ false
unfolding click_sort_order load_next id_index KeepsAbsent
click_sort_order-forgets g slice_refused id less there =
    let other : (length g.child_ids == g.total) ≡ false =
      ground (arith, ==_iff (length g.child_ids) g.total) in
    let missing : leb g.total (length g.child_ids) ≡ false = ground arith in
    rw (other, missing) refl
click_sort_order-forgets g (slice_loaded ids) id less there =
    let other : (length g.child_ids == g.total) ≡ false =
      ground (arith, ==_iff (length g.child_ids) g.total) in
    let missing : leb g.total (length g.child_ids) ≡ false = ground arith in
    rw (other, missing)
      ((add_items-absent
        (record g {
          ascending = not g.ascending;
          count = first_count (not g.ascending) g.total;
          shown = [];
          current_page = g.current_page + 1;
        })
        ids id (there, refl)).1)
