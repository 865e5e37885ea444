-- ===== src/SearchPage/View.antt =====
-- Stepping through the results of search-page.js in the overlay: `viewNextMedia`,
-- `viewPreviousMedia`.
pub mod Next
pub mod Previous
use streaming_service.Base.{
  Bool, List, Option, [], drop, false, get_elem?, if◌then◌else◌, length, ltb, none, some, suc, take,
  true, zero, ℕ, ◌++◌, ◌+◌, ◌-◌, ◌∷◌,
}
use streaming_service.Base.Text.{Text, codes, text_eq}

-- An entry of `currentItemTypeMap`.
pub record ViewItem : Type 0 where
  pub id : Text
  pub media_type : Text

unfoldable pub is_grouper : ViewItem → Bool
unfolding text_eq
is_grouper i = text_eq i.media_type (codes "GROUPER")

-- `currentItemTypeMap` by its keys 0, 1, ..; the runs of `displaySearchItems`, each with the next
-- key that it puts and the items that are left; `currentViewItemIndex`, `currentPageInfo`, the
-- pages that were asked for, which arrows are hidden, and the index that the timer opens.
pub record Viewer : Type 0 where
  pub items : List ViewItem
  pub displays : List (ℕ × List ViewItem)
  pub index : Option ℕ
  pub page : ℕ
  pub total_pages : ℕ
  pub asked : List ℕ
  pub previous_hidden : Bool
  pub next_hidden : Bool
  pub opening : Option ℕ

-- The answer to the request for a page: its number, the number of pages, its items, and how many of
-- them `displaySearchItems`, which waits for each thumbnail and is not waited for, has put in the
-- map when the step goes on.
pub data PageAnswer : Type 0 where
  page_loaded : ℕ → ℕ → List ViewItem → ℕ → PageAnswer
  page_failed : PageAnswer

-- `currentItemTypeMap.set(0, ..)`, `set(1, ..)` and so on: entries beyond the new ones stay.
unfoldable pub put_items : List ViewItem → List ViewItem → List ViewItem
put_items old new = new ++ drop (length new) old

-- How a step ends: the viewer, or the wait for an answer.
pub data Stepped : Type 0 where
  stepped : Viewer → Stepped
  step_waits : Viewer → Stepped

-- A null index counts as zero.
abbrev pub index_number : Option ℕ → ℕ
index_number none = 0
index_number (some i) = i

-- The first entry that is no grouper, counted from `i`.
unfoldable pub first_viewable : List ViewItem → ℕ → Option ℕ
first_viewable [] i = none
first_viewable (x ∷ xs) i =
    let rest = first_viewable xs (i + 1) in if is_grouper x then rest else some i

-- The last one of the entries.
unfoldable pub last_viewable : List ViewItem → ℕ → Option ℕ
last_viewable [] i = none
last_viewable (x ∷ xs) i = elim (last_viewable xs (i + 1)) [
  | some j ↦ some j
  | none ↦ if is_grouper x then none else some i
]

take_answer : Viewer → PageAnswer → Viewer
unfolding put_items
take_answer v (page_loaded page total items put) = record v {
  page = page;
  total_pages = total;
  items = put_items v.items (take put items);
  displays = v.displays ++ (put, drop put items) ∷ [];
}
take_answer v page_failed = v

-- The viewer behind the request for a page and its answer.
unfoldable pub turn_to : Viewer → ℕ → PageAnswer → Viewer
unfolding take_answer
turn_to v page answer = take_answer (record v { page = page; asked = v.asked ++ page ∷ [] }) answer

-- `currentItemTypeMap.set(index, ..)` at one key, which is one of the map or the next one.
set_at : List ViewItem → ℕ → ViewItem → List ViewItem
set_at [] i x = x ∷ []
set_at (y ∷ ys) zero x = x ∷ ys
set_at (y ∷ ys) (suc i) x = y ∷ set_at ys i x

-- The next item of a run goes to the map.
run_on : Viewer → List (ℕ × List ViewItem) → ℕ → List (ℕ × List ViewItem) × List ViewItem
unfolding set_at
run_on v [] i = ([], v.items)
run_on v ((k, []) ∷ runs) zero = ((k, []) ∷ runs, v.items)
run_on v ((k, x ∷ xs) ∷ runs) zero = ((k + 1, xs) ∷ runs, set_at v.items k x)
run_on v (r ∷ runs) (suc i) = let (runs', items) = run_on v runs i in (r ∷ runs', items)

-- The thumbnail that a run of `displaySearchItems` waits for has come.
unfoldable pub display_next : Viewer → ℕ → Viewer
unfolding run_on
display_next v i =
    let (runs, items) = run_on v v.displays i in record v { items = items; displays = runs }

show_next : Viewer → Option ℕ → Viewer
show_next v none = record v { next_hidden = true }
show_next v (some i) = record v { previous_hidden = false; index = some i; opening = some i }

show_previous : Viewer → Option ℕ → Viewer
show_previous v none = record v { previous_hidden = true }
show_previous v (some i) = record v { next_hidden = false; index = some i; opening = some i }

-- The loop of `viewNextMedia`, looking from an index on.
unfoldable pub next_loop : Viewer → ℕ → List PageAnswer → Stepped
unfolding show_next
next_loop v start [] = elim (first_viewable (drop start v.items) start) [
  | some i ↦ stepped (show_next v (some i))
  | none ↦
      if ltb (v.page + 1) v.total_pages
      then step_waits (record v { page = v.page + 1; asked = v.asked ++ (v.page + 1) ∷ [] })
      else stepped (show_next v none)
]
next_loop v start (a ∷ answers) =
    let v' = turn_to v (v.page + 1) a in
    let more = next_loop v' 0 answers in
    elim (first_viewable (drop start v.items) start) [
      | some i ↦ stepped (show_next v (some i))
      | none ↦
          if ltb (v.page + 1) v.total_pages
          then if ltb v'.page v'.total_pages then more else stepped (show_next v' none)
          else stepped (show_next v none)
    ]

-- `viewNextMedia`
unfoldable pub view_next_media : Viewer → List PageAnswer → Stepped
unfolding next_loop
view_next_media v answers = next_loop v (index_number v.index + 1) answers

-- The loop of `viewPreviousMedia`, looking below an index. The page is never negative.
unfoldable pub previous_loop : Viewer → ℕ → List PageAnswer → Stepped
unfolding show_previous
previous_loop v end [] = elim (last_viewable (take end v.items) 0) [
  | some i ↦ stepped (show_previous v (some i))
  | none ↦
      if ltb 0 v.page
      then step_waits (record v { page = v.page - 1; asked = v.asked ++ (v.page - 1) ∷ [] })
      else stepped (show_previous v none)
]
previous_loop v end (a ∷ answers) =
    let v' = turn_to v (v.page - 1) a in
    let more = previous_loop v' (length v'.items) answers in
    elim (last_viewable (take end v.items) 0) [
      | some i ↦ stepped (show_previous v (some i))
      | none ↦ if ltb 0 v.page then more else stepped (show_previous v none)
    ]

-- `viewPreviousMedia`
unfoldable pub view_previous_media : Viewer → List PageAnswer → Stepped
unfolding previous_loop
view_previous_media v answers = previous_loop v (index_number v.index) answers

-- What the timer of a step opens.
abbrev pub opened : Stepped → Option ViewItem
opened (stepped v) = elim v.opening [ none ↦ none | some i ↦ get_elem? v.items i ]
opened (step_waits v) = none
