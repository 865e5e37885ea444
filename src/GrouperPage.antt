-- ===== src/GrouperPage.antt =====
-- The list of the albums of a grouper, and the steps from one to the next:
-- frontend/src/main/resources/static/js/album-grouper/album-grouper-page.js.
pub mod View
pub mod Numbers
pub mod Redrawn
pub mod Reached
pub mod Stepped
pub mod Lost
use streaming_service.Base.{
  Bool, List, Option, [], false, if◌then◌else◌, is_some, leb, length, none, not, some, suc, true,
  zero, ℕ, ◌++◌, ◌+◌, ◌==◌, ◌||◌, ◌∷◌,
}
use streaming_service.Base.Text.{Text}
use streaming_service.FileManager.Sorting.{sort}
use streaming_service.Upload.Choose.{difference}

-- A number that can fall below zero.
pub data ℤ : Type 0 where
  pos : ℕ → ℤ
  negsuc : ℕ → ℤ

unfoldable pub pred : ℤ → ℤ
pred (pos zero) = negsuc 0
pred (pos (suc n)) = pos n
pred (negsuc n) = negsuc (suc n)

unfoldable pub succ : ℤ → ℤ
succ (pos n) = pos (suc n)
succ (negsuc zero) = pos 0
succ (negsuc (suc n)) = negsuc n

-- The difference of two natural numbers.
unfoldable pub sub : ℕ → ℕ → ℤ
sub m zero = pos m
sub zero (suc n) = negsuc n
sub (suc m) (suc n) = sub m n

-- An entry of `albumInfoContentMap`: the media type of an item, or `false`.
pub data Content : Type 0 where
  content : Text → Content
  no_content : Content

-- The answer to the request for an item's content, and for a page of ids.
pub data ContentAnswer : Type 0 where
  content_loaded : Text → ContentAnswer
  content_refused : ContentAnswer

pub data SliceAnswer : Type 0 where
  slice_loaded : List ℕ → SliceAnswer
  slice_refused : SliceAnswer

-- The variables of the page; `shown` are the nodes of the list, an id and the number of its title.
-- `heading` is the number in the overlay's title and `opening` what the timer opens.
pub record Grouper : Type 0 where
  pub total : ℕ
  pub child_ids : List ℕ
  pub count : ℤ
  pub ascending : Bool
  pub shown : List (ℕ × ℤ)
  pub current_page : ℕ
  pub contents : List (ℕ × Content)
  pub viewing : Option ℕ
  pub heading : Option ℤ
  pub opening : Option ℕ
  pub next_hidden : Bool
  pub prev_hidden : Bool
  pub more_hidden : Bool
  pub order_hidden : Bool
  pub alerts : ℕ

-- How a handler ends.
pub data Grouped : Type 0 where
  grouped : Grouper → Grouped
  group_threw : Grouper → Grouped

-- The page behind a handler.
abbrev pub state_of : Grouped → Grouper
state_of (grouped g) = g
state_of (group_threw g) = g

-- `ids.indexOf(id)`
unfoldable pub id_index : ℕ → List ℕ → Option ℕ
id_index id [] = none
id_index id (x ∷ xs) =
    let rest = id_index id xs in
    if x == id then some 0 else elim rest [ none ↦ none | some i ↦ some (suc i) ]

abbrev pub one_more : Option ℕ → ℕ
one_more none = 0
one_more (some i) = suc i

-- `indexOf` and one.
unfoldable pub position : ℕ → List ℕ → ℕ
unfolding id_index
position id ids = one_more (id_index id ids)

-- `addItem`
unfoldable pub add_list_item : Grouper → ℕ → Grouper
unfolding id_index pred succ
add_list_item g id =
    if is_some (id_index id g.child_ids)
    then g
    else if g.ascending
    then record g {
      count = succ g.count;
      shown = g.shown ++ (id, succ g.count) ∷ [];
      child_ids = g.child_ids ++ id ∷ [];
    }
    else record g {
      count = pred g.count;
      shown = g.shown ++ (id, g.count) ∷ [];
      child_ids = g.child_ids ++ id ∷ [];
    }

unfoldable pub add_items : Grouper → List ℕ → Grouper
unfolding add_list_item
add_items g [] = g
add_items g (id ∷ ids) = add_items (add_list_item g id) ids

-- `getNextGrouperInfo`
unfoldable pub load_next : Grouper → SliceAnswer → Grouped
unfolding add_items
load_next g (slice_loaded ids) =
    if leb g.total (length g.child_ids)
    then grouped g
    else grouped (add_items (record g { current_page = g.current_page + 1 }) ids)
load_next g slice_refused =
    if leb g.total (length g.child_ids)
    then grouped g
    else group_threw (record g { current_page = g.current_page + 1; alerts = g.alerts + 1 })

-- Behind the ids of a click on `show more`: the button goes when all are there.
unfoldable pub hide_more : Grouped → Grouped
hide_more (group_threw g) = group_threw g
hide_more (grouped g) =
    grouped
      (record g { more_hidden = if leb g.total (length g.child_ids) then true else g.more_hidden })

-- A click on `show more`.
unfoldable pub click_show_more : Grouper → SliceAnswer → Grouped
unfolding load_next hide_more
click_show_more g slice = hide_more (load_next g slice)

-- The list is drawn anew from some ids: `addItem` fills an empty array, and the copy takes its place.
unfoldable pub redraw_list : Grouper → List ℕ → Grouper
unfolding add_items
redraw_list g ids = record (add_items (record g { child_ids = []; shown = [] }) ids) {
  child_ids = ids;
}

-- The number that the titles begin at.
abbrev pub first_count : Bool → ℕ → ℤ
first_count true total = pos 0
first_count false total = pos total

-- A click on the button of the sort order.
unfoldable pub click_sort_order : Grouper → SliceAnswer → Grouped
unfolding redraw_list load_next
click_sort_order g slice =
    let ascending = not g.ascending in
    let g' = record g {
      ascending = ascending;
      count = first_count ascending g.total;
      shown = [];
    } in
    if length g.child_ids == g.total
    then grouped (
        redraw_list g'
          (sort (λ a b. if ascending then difference a b else difference b a) g.child_ids))
    else load_next g' slice

-- `count === 0 || count === total`
is_zero_or : ℤ → ℕ → Bool
is_zero_or (negsuc n) total = false
is_zero_or (pos n) total = n == 0 || n == total

-- `displayListSectionInfo` for a grouper with a length and the first page of its ids.
unfoldable pub display_list : Grouper → ℕ → List ℕ → Grouper
unfolding add_items is_zero_or
display_list g total [] = record g { total = total; more_hidden = true; order_hidden = true }
display_list g total (id ∷ ids) =
    let g' =
      add_items
        (record g {
          total = total;
          more_hidden = false;
          order_hidden = false;
          count = first_count g.ascending total;
        })
        (id ∷ ids) in
    record g' { more_hidden = is_zero_or g'.count total }

-- `addNewAlbumItem`
unfoldable pub add_new_album_item : Grouper → ℕ → Grouper
unfolding redraw_list
add_new_album_item g id =
    let ids = if g.ascending then g.child_ids ++ id ∷ [] else id ∷ g.child_ids in
    redraw_list (record g { total = g.total + 1; count = pos (g.total + 1) }) ids

abbrev pub new_grouper : Grouper
new_grouper = record {
  total = 0;
  child_ids = [];
  count = pos 0;
  ascending = false;
  shown = [];
  current_page = 0;
  contents = [];
  viewing = none;
  heading = none;
  opening = none;
  next_hidden = false;
  prev_hidden = false;
  more_hidden = false;
  order_hidden = false;
  alerts = 0;
}
