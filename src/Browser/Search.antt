-- ===== src/Browser/Search.antt =====
-- The search of search-file.js, and the click on a file of file-manager-page.js.
pub mod Local
use streaming_service.Base.{
  Bool, List, Option, [], false, if◌then◌else◌, is_empty, is_some, length, ltb, none, not, some,
  true, ◌&&◌, ◌++◌, ◌||◌, ◌∷◌,
}
use streaming_service.Base.Text.{Text, codes, text_eq, truthy}
use streaming_service.Browser.Fetch.{
  Fetched, Reply, busy, failed_by_throw, fetch_more_files, got, lost, missing, not_ok, replied,
  set_current_uri, turn_page,
}
use streaming_service.Browser.Menu.{file_of}
use streaming_service.Browser.Navigate.{
  Moved, fetch_more_files_and_move, move_threw, moved, not_moved,
}
use streaming_service.Browser.PathStack.{current_path, push_path}
use streaming_service.Browser.Selection.{toggle_selected_file}
use streaming_service.Browser.State.{
  End, Given, Node, Request, State, aborted, alert, completed, display_file_item, found_items,
  given_ids, given_items, main_items, no_ids, send,
}
use streaming_service.FileManager.{item_by_id}
use streaming_service.FileManager.Search.{find_ids_with_name}

-- `clearSearch`; the observer that it sets up waits for the display to observe the end.
unfoldable pub clear_search : State → State × End
clear_search s =
    display_file_item (record s { searching = false; observed = false }) (given_ids []) main_items
      true false false

search_request : State → Text → Text → Bool → Option Text → Request
search_request s folder word recursive page = record {
  method = codes "POST";
  url = codes "/api/file/search";
  pairs =
      (codes "parentId", folder)
      ∷ (codes "searchString", word)
      ∷ (codes "isRecursive", if recursive then codes "true" else codes "false")
      ∷ (codes "pageCursor", elim page [ none ↦ codes "null" | some p ↦ p ])
      ∷ [];
}

after_search : State → Reply → State × End
after_search s lost = (s, aborted)
after_search s not_ok = (alert s (codes "Failed to search files"), completed)
after_search s (replied l) =
    display_file_item (record s { found = turn_page s.found l }) (given_items l.content) found_items
      false false true

-- `fetchSearchFiles`
unfoldable pub fetch_search_files : State → Text → Bool → Option Text → Reply → State × End
unfolding search_request after_search
fetch_search_files s word recursive page reply = elim (current_path s.path) [
  | none ↦ (s, completed)
  | some node ↦
      let folder : Text = elim node.id [ none ↦ codes "null" | some i ↦ i ] in
      after_search (send s (search_request s folder word recursive page)) reply
]

-- `filteredFileIds.length === 0 ? null : filteredFileIds`
null_if_empty : List Text → Given
null_if_empty [] = no_ids
null_if_empty (k ∷ ks) = given_ids (k ∷ ks)

-- A search among the items of a folder that is loaded to its end.
search_locally : State → Text → State × End
unfolding null_if_empty
search_locally s word =
    display_file_item s (null_if_empty (find_ids_with_name s.main word)) main_items true false false

observe_end : State × End → State × End
observe_end (s, aborted) = (s, aborted)
observe_end (s, completed) = (record s { observed = true }, completed)

and_fetch : State × End → Text → Bool → Reply → State × End
unfolding observe_end
and_fetch (s, aborted) word recursive reply = (s, aborted)
and_fetch (s, completed) word recursive reply =
    observe_end (fetch_search_files (record s { observed = false }) word recursive none reply)

-- A search by the server, below the folder if it is recursive.
search_remotely : State → Text → Bool → Reply → State × End
unfolding and_fetch
search_remotely s word recursive reply =
    let s' = if recursive then record s { deep = true } else s in
    and_fetch (display_file_item s' (given_items []) found_items true true false) word recursive
      reply

-- `searchFiles`: one unit is too little to search for, and none clears the search.
unfoldable pub search_files : State → Text → Bool → Reply → State × End
unfolding search_locally search_remotely
search_files s word recursive reply =
    if ltb (length word) 2
    then (if is_empty word
        then (let (s', e) = clear_search s in
            elim e [
              | completed ↦ (record s' { deep = false }, completed)
              | aborted ↦ (s', aborted)
            ])
        else (record s { deep = false }, completed))
    else (let s' = record s { searching = true } in
        if not (is_some s.main.page) && not recursive
        then search_locally s' word
        else search_remotely s' word recursive reply)

-- The observer of `setObserverToSearch`.
unfoldable pub reach_search_end : State → Text → Bool → Reply → State × End
reach_search_end s word recursive reply =
    if is_some s.found.page
    then fetch_search_files s word recursive s.found.page reply
    else (record s { observed = false }, completed)

is_directory : Text → Bool
is_directory t =
    text_eq t (codes "DIR") || (text_eq t (codes "ALBUM") || text_eq t (codes "GROUPER"))

leave_deep : State × Moved → State × End
leave_deep (s, move_threw) = (s, aborted)
leave_deep (s, moved) = (record s { deep = false }, completed)
leave_deep (s, not_moved) = (record s { deep = false }, completed)

-- A click during a deep search goes to the folder, or to the folder of the file.
click_deep : State × End → Node → Reply → State × End
unfolding is_directory leave_deep
click_deep (s, aborted) n reply = (s, aborted)
click_deep (s, completed) n reply =
    if is_directory n.file_type
    then leave_deep (fetch_more_files_and_move s (some n.id) none reply)
    else (let parent : Option Text = elim (item_by_id s.found n.id) [
      | none ↦ none
      | some f ↦ f.parent_id
    ] in
        if truthy parent
        then leave_deep (fetch_more_files_and_move s parent none reply)
        else (alert s (codes "Failed to get parent id."), completed))

-- A folder is added to the path once its files are shown.
enter_folder : State × Fetched → Node → State × End
enter_folder (s, busy) n = (s, completed)
enter_folder (s, missing) n = (s, completed)
enter_folder (s, failed_by_throw) n = (s, aborted)
enter_folder (s, got l) n =
    let (s', e) = display_file_item s (given_items l.content) main_items true true true in
    elim e [
      | completed ↦ (record s' { path = push_path s'.path (some n.id) n.name }, completed)
      | aborted ↦ (s', aborted)
    ]

-- The request of `openPreview`; the preview itself is left out.
preview : State → Node → State × End
preview s n =
    if text_eq n.file_type (codes "IMAGE") || text_eq n.file_type (codes "VIDEO")
    then (
      send s
          (record { method = codes "GET"; url = codes "/api/file/download/" ++ n.id; pairs = [] }),
      completed,
    )
    else (s, completed)

-- The click on a file's node: it changes the selection if there is one, and else opens the file.
unfoldable pub click_file : State → Node → Reply → State × End
unfolding click_deep enter_folder preview is_directory
click_file s n reply =
    if not s.moving && not (is_empty s.selected)
    then (toggle_selected_file s n.id (file_of n), completed)
    else if s.deep
    then click_deep (clear_search s) n reply
    else if is_directory n.file_type
    then (if s.processing
        then (s, completed)
        else enter_folder
            (fetch_more_files (set_current_uri s (some n.id)) (some n.id) none false reply) n)
    else preview s n
