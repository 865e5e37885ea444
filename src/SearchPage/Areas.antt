-- ===== src/SearchPage/Areas.antt =====
-- The four keyword areas of the advanced search in search-page.js, `addEventKeywordSearchArea`: the
-- items that are chosen, and what is shown of them.
pub mod Shown
use streaming_service.Base.JsMap
use streaming_service.Base.{
  Bool, List, [], any_of, false, if◌then◌else◌, is_empty, is_some, length, none, not, some, suc,
  true, ℕ, ◌&&◌, ◌++◌, ◌∷◌,
}
use streaming_service.Base.JsMap.{JsMap, values}
use streaming_service.Base.Text.{Text, text_eq}
use streaming_service.SearchPage.Info.{SearchField, SearchInfo}

-- An area: `keywordMap` with the `included` of each item, `matchAll`, the lines of the list of chosen
-- items by their ids, the two counts, and which of the button and the list is hidden.
pub record Area : Type 0 where
  pub added : JsMap Bool
  pub match_all : Bool
  pub lines : List Text
  pub selected_count : ℕ
  pub unselected_count : ℕ
  pub button_hidden : Bool
  pub list_hidden : Bool

-- How many items are excluded.
abbrev pub count_false : List Bool → ℕ
count_false [] = 0
count_false (true ∷ bs) = count_false bs
count_false (false ∷ bs) = suc (count_false bs)

-- A click on the button `Included` or `Excluded`. For an item that is gone it throws at once.
unfoldable pub toggle_inclusion : Area → Text → Area
toggle_inclusion a id = elim (JsMap.get a.added id) [
  | none ↦ a
  | some included ↦
      let added = JsMap.set a.added id (not included) in
      record a { added = added; unselected_count = count_false (JsMap.values added) }
]

-- `addSelectedItem`
unfoldable pub add_selected_item : Area → Text → Bool → Area
unfolding toggle_inclusion
add_selected_item a id click_at_first =
    let b = record a { added = JsMap.set a.added id true; lines = a.lines ++ id ∷ [] } in
    if click_at_first then toggle_inclusion b id else b

-- The last line of an item goes: the one that its entry has.
unfoldable pub drop_last_line : Text → List Text → List Text
drop_last_line id [] = []
drop_last_line id (x ∷ xs) =
    if any_of (text_eq id) xs then x ∷ drop_last_line id xs else if text_eq id x then xs else x ∷ xs

-- The entry and its line go; an empty area hides its button and its list.
unfoldable pub drop_item : Area → Text → Area
drop_item a id =
    let added = JsMap.delete a.added id in
    let empty = is_empty added in
    record a {
      added = added;
      lines = drop_last_line id a.lines;
      button_hidden = if empty then true else a.button_hidden;
      list_hidden = if empty then true else a.list_hidden;
    }

-- A click on the button that removes a chosen item.
unfoldable pub remove_chosen : Area → Text → Area
unfolding drop_item
remove_chosen a id =
    if JsMap.has a.added id
    then record (drop_item a id) { selected_count = length (JsMap.delete a.added id) }
    else a

-- A click on an item that the search has found.
unfoldable pub click_found : Area → Text → Area
unfolding drop_item add_selected_item
click_found a id =
    let b =
      if JsMap.has a.added id
      then drop_item a id
      else add_selected_item (record a { button_hidden = false }) id false in
    record b { selected_count = length b.added }

-- A click on the button of the list.
unfoldable pub toggle_list : Area → Area
toggle_list a = record a { list_hidden = not a.list_hidden }

-- The clicks that change what is chosen.
pub data Click : Type 0 where
  on_found : Text → Click
  on_remove : Text → Click
  on_inclusion : Text → Click
  on_button : Click

click : Area → Click → Area
unfolding toggle_inclusion remove_chosen click_found toggle_list
click a (on_found id) = click_found a id
click a (on_remove id) = remove_chosen a id
click a (on_inclusion id) = toggle_inclusion a id
click a on_button = toggle_list a

unfoldable pub play_clicks : Area → List Click → Area
unfolding click
play_clicks a [] = a
play_clicks a (c ∷ cs) = play_clicks (click a c) cs

abbrev pub new_area : Bool → Area
new_area checked = record {
  added = [];
  match_all = checked;
  lines = [];
  selected_count = 0;
  unselected_count = 0;
  button_hidden = true;
  list_hidden = true;
}

-- `undefined` as a key; ids are not empty.
abbrev pub undefined_key : Text
undefined_key = []

unfoldable pub add_each : Area → List Text → Bool → Area
unfolding add_selected_item
add_each a [] click_at_first = a
add_each a (v ∷ vs) click_at_first =
    add_each (add_selected_item a undefined_key click_at_first) vs click_at_first

-- The values of a search that is restored are ids, but `addSelectedItem` takes an item and uses its
-- `id`, which a text does not have.
unfoldable pub restore_values : Area → List Text → Area
unfolding add_each
restore_values a vs =
    let b = add_each a vs false in
    record b { selected_count = length b.added; button_hidden = false }

restore_included : Area → Text → List SearchField → Area
unfolding restore_values
restore_included a label [] = a
restore_included a label (f ∷ fs) =
    restore_included (if text_eq f.field label then restore_values a f.values else a) label fs

restore_excluded : Area → Text → List SearchField → Area
unfolding add_each
restore_excluded a label [] = a
restore_excluded a label (f ∷ fs) =
    restore_excluded (if text_eq f.field label then add_each a f.values true else a) label fs

-- What the start of an area restores of the current search; `values` are those of the keyword,
-- split at commas.
unfoldable pub restore_area : SearchInfo → Text → List Text → Area → Area
unfolding restore_values restore_included restore_excluded text_eq
restore_area i label values a =
    let named : Bool = elim i.keyword_field [ none ↦ false | some f ↦ text_eq label f ] in
    let b : Area = if is_some i.keyword_values && named then restore_values a values else a in
    elim i.advance_body [
      | none ↦ b
      | some body ↦
          restore_excluded (restore_included b label body.include_fields) label body.exclude_fields
    ]

clear_each : Area → List Text → Area
unfolding remove_chosen
clear_each a [] = a
clear_each a (id ∷ ids) = clear_each (remove_chosen a id) ids

-- What `sendSearchRequestOnCurrentInfo` does to an area: a click on each entry's remove button, then
-- `clear()`.
unfoldable pub clear_area : Area → Area
unfolding clear_each
clear_area a = record (clear_each a (JsMap.keys a.added)) { added = [] }
