-- ===== src/Browser/Search/Local.antt =====
-- What a search in the open folder shows, and what can be done with its results.
use streaming_service.Base.{
  All, List, [], ap, arith, false, is_some, length, ltb, none, refl, sym, true, ◌↔◌, ◌∙◌, ◌∷◌, ◌≡◌,
  ◌≤◌,
}
use streaming_service.Base.Text.{Text, codes}
use streaming_service.Browser.Change.{get_current_file_item, given_up, rename_file}
use streaming_service.Browser.Fetch.{Reply}
use streaming_service.Browser.Search.{null_if_empty, search_files, search_locally}
use streaming_service.Browser.State.{State, alert, completed, display_file_item, main_items}
use streaming_service.Browser.State.Display.{IsDrawable, node_ids}
use streaming_service.Browser.State.Folder.{redraw_given, redraw_none}
use streaming_service.Browser.State.Kept.{display_file_item-Kept}
use streaming_service.FileManager.{FileManager, contains, item_by_id, loop_given}
use streaming_service.FileManager.Invariant.{IsValid}
use streaming_service.FileManager.Search.{
  DistinctKeys, IsNamedWith, find_ids-IsNamedWith, find_ids_with_name,
}
use streaming_service.Upload.Workers.{Answer}

null_if_empty_shows :
    (s : State) (ks : List Text)
    → IsValid s.main
    → All IsDrawable (loop_given s.main ks)
    → let (t, e) = display_file_item s (null_if_empty ks) main_items true false false in
      (e ≡ completed) × (node_ids t.view ≡ ks) × (t.main ≡ s.main)
unfolding null_if_empty
null_if_empty_shows s [] v d = redraw_none s
null_if_empty_shows s (k ∷ ks) v d = redraw_given s k ks v d

search_files-locally :
    (s : State) (word : Text) (reply : Reply)
    → 2 ≤ length word
    → s.main.page ≡ none
    → search_files s word false reply
      ≡ display_file_item
          (record s { searching = true })
          (null_if_empty (find_ids_with_name s.main word))
          main_items
          true
          false
          false
unfolding search_files search_locally
search_files-locally s word reply long last =
    let enough : ltb (length word) 2 ≡ false = ground arith in
    let no_more : is_some s.main.page ≡ false = ground arith in rw (enough, no_more) refl

-- A search by at least two units in a folder that is loaded to its end, whose manager is valid, has
-- each key once, and has items that can be drawn, shows exactly the items whose name has the text
-- in it, with the case of letters ignored, in the order of the map, and leaves the manager as it
-- is.
pub search_files_local :
    (s : State) (word k : Text) (reply : Reply)
    → 2 ≤ length word
    → s.main.page ≡ none
    → IsValid s.main
    → DistinctKeys s.main.items
    → All IsDrawable (loop_given s.main (find_ids_with_name s.main word))
    → let (t, e) = search_files s word false reply in
      (e ≡ completed)
      × (node_ids t.view ≡ find_ids_with_name s.main word)
      × ((contains (node_ids t.view) k ≡ true) ↔ IsNamedWith s.main word k)
      × (t.main ≡ s.main)
search_files_local s word k reply long last v once d =
    rw (search_files-locally s word reply long last) (
      let shown =
        null_if_empty_shows (record s { searching = true }) (find_ids_with_name s.main word) v d in
      let named = find_ids-IsNamedWith s.main word k once in
      (
        shown.0,
        shown.1,
        (
          λ h. named.0 (ap (λ ks. contains ks k) (sym shown.1) ∙ h),
          λ n. ap (λ ks. contains ks k) shown.1 ∙ named.1 n,
        ),
        shown.2,
      ))

lookup_missing :
    (t : State) (m : FileManager) (id : Text)
    → t.searching ≡ true
    → t.found ≡ m
    → item_by_id m id ≡ none
    → get_current_file_item t id ≡ none
unfolding get_current_file_item
lookup_missing t m id searching found absent =
    rw searching (ap (λ x. item_by_id x id) found ∙ absent)

rename_missing :
    (t : State) (id typed : Text) (a : Answer)
    → get_current_file_item t id ≡ none
    → rename_file t id typed a ≡ (alert t (codes "No current file item"), given_up)
unfolding rename_file
rename_missing t id typed a absent = rw (absent, rename_file) refl

-- After a search in an open folder an item cannot be renamed if the last search by the server has
-- not found it: it is looked up among those results, and not in the open folder.
pub search_files_rename :
    (s : State) (word id typed : Text) (reply : Reply) (a : Answer)
    → 2 ≤ length word
    → s.main.page ≡ none
    → item_by_id s.found id ≡ none
    → let t = (search_files s word false reply).0 in
      rename_file t id typed a ≡ (alert t (codes "No current file item"), given_up)
search_files_rename s word id typed reply a long last absent =
    let g = null_if_empty (find_ids_with_name s.main word) in
    let kept =
      display_file_item-Kept (record s { searching = true }) g main_items true false false in
    rw (search_files-locally s word reply long last) (
      rename_missing
        (display_file_item (record s { searching = true }) g main_items true false false).0 id typed
        a (lookup_missing _ s.found id kept.searching kept.other absent))
