-- ===== src/Browser/Fetch.antt =====
-- Fetching a folder in file-manager-page.js: `fetchMoreFiles`, the sort order, `setCurrentUri`.
use streaming_service.Base.{
  Bool, List, Option, [], drop, false, if◌then◌else◌, is_some, length, ltb, none, some, take, true,
  ◌++◌, ◌∷◌,
}
use streaming_service.Base.Text.{Text, codes, includes, index_of, opt_eq, text_eq, truthy}
use streaming_service.Browser.PathStack.{current_path}
use streaming_service.Browser.State.{
  End, Request, State, Visit, aborted, alert, completed, display_file_item, given_ids, given_items,
  main_items, send,
}
use streaming_service.FileManager.{FileItem, FileManager, set_page}
use streaming_service.FileManager.Sorting.{sort_file_items}

-- A page of a folder, as the server sends it.
pub record Listing : Type 0 where
  pub content : List FileItem
  pub has_next : Bool
  pub next_cursor : Option Text
  pub parent_id : Option Text
  pub parent_name : Option Text

-- The answer to a request for a folder. `lost` is an exception of `apiRequest`, of the JSON, or of
-- the missing response after a failed refresh of the login.
pub data Reply : Type 0 where
  replied : Listing → Reply
  not_ok : Reply
  lost : Reply

-- What `fetchMoreFiles` returns: false, null, the folder, or an exception.
pub data Fetched : Type 0 where
  busy missing failed_by_throw : Fetched
  got : Listing → Fetched

-- `value.substring(0, value.indexOf('-'))`: -1 is taken for 0.
sort_by : Text → Text
sort_by value = elim (index_of b'-' value) [ none ↦ [] | some i ↦ take i value ]

sort_order : Text → Text
sort_order value = if includes value (codes "DESC") then codes "DESC" else codes "ASC"

-- `getSortSelectValue`
unfoldable pub get_sort_select_value : State → Text × Text
unfolding sort_by sort_order
get_sort_select_value s = (sort_by s.sort_value, sort_order s.sort_value)

pub optional_pair : Text → Option Text → List (Text × Text)
optional_pair key none = []
optional_pair key (some v) = if truthy (some v) then (key, v) ∷ [] else []

-- `setCurrentUri`: a new entry of the history when the folder changes, and else a new address.
unfoldable pub set_current_uri : State → Option Text → State
unfolding optional_pair get_sort_select_value
set_current_uri s id =
    let (by, order) = get_sort_select_value s in
    let params = optional_pair (codes "id") id ++ (codes "by", by) ∷ (codes "order", order) ∷ [] in
    let root : Text = elim id [
      | none ↦ codes "root"
      | some i ↦ if truthy (some i) then i else codes "root"
    ] in
    let visit : Visit = record { path_id = root; params = params } in
    if opt_eq s.previous_id id
    then record s { history = visit ∷ drop 1 s.history }
    else record s { previous_id = id; history = visit ∷ s.history }

-- The request for a folder, or for the root.
unfoldable pub fetch_request : State → Option Text → Option Text → Bool → Request
unfolding optional_pair get_sort_select_value
fetch_request s id page full =
    let (by, order) = get_sort_select_value s in
    record {
      method = codes "GET";
      url = if truthy id then codes "/api/file/dir" else codes "/api/file/root";
      pairs =
          optional_pair (codes "id") id
          ++ (optional_pair (codes "p") page
              ++ (codes "by", by)
                ∷ (codes "order", order)
                ∷ (if full then (codes "full", codes "true") ∷ [] else []));
    }

-- `fetchMoreFiles` up to its `await`. The next function goes on from there.
unfoldable pub begin_fetch : State → Option Text → Option Text → Bool → State
unfolding fetch_request
begin_fetch s id page full =
    send (record s { processing = true; searching = false }) (fetch_request s id page full)

-- `setCurrentFilePage(subFiles.hasNext ? subFiles.nextCursor : null)`
pub turn_page : FileManager → Listing → FileManager
turn_page m l = set_page m (if l.has_next then l.next_cursor else none)

unfoldable pub end_fetch : State → Reply → State × Fetched
unfolding turn_page
end_fetch s lost = (s, failed_by_throw)
end_fetch s not_ok =
    (record (alert s (codes "Failed to fetch more files")) { processing = false }, missing)
end_fetch s (replied l) = (record s { main = turn_page s.main l; processing = false }, got l)

-- `fetchMoreFiles` when nothing happens before the answer.
unfoldable pub fetch_more_files : State → Option Text → Option Text → Bool → Reply → State × Fetched
unfolding begin_fetch end_fetch
fetch_more_files s id page full reply =
    if s.processing then (s, busy) else end_fetch (begin_fetch s id page full) reply

-- `getRootDir`, which leaves `isProcessing` alone.
unfoldable pub get_root_dir : State → Reply → State × Fetched
unfolding turn_page
get_root_dir s lost = (s, failed_by_throw)
get_root_dir s not_ok = (alert s (codes "Failed to get root directory"), missing)
get_root_dir s (replied l) = (record s { main = turn_page s.main l }, got l)

-- The request of `getRootDir`.
unfoldable pub root_request : Request
root_request = record { method = codes "GET"; url = codes "/api/file/root"; pairs = [] }

-- `getItemKeyFromSortSelectValue`, with `resolution.area` for the resolution.
unfoldable pub sort_key : Text → Option Text
sort_key by =
    if text_eq by (codes "NAME")
    then some (codes "name")
    else if text_eq by (codes "SIZE")
    then some (codes "size")
    else if text_eq by (codes "LENGTH")
    then some (codes "length")
    else if text_eq by (codes "RESOLUTION")
    then some (codes "resolution.area")
    else if text_eq by (codes "UPLOAD")
    then some (codes "uploadDate")
    else none

-- The result of a fetch is shown as a new view, unless there is none.
unfoldable pub show_fetched : State × Fetched → State × End
show_fetched (s, busy) = (s, completed)
show_fetched (s, missing) = (s, completed)
show_fetched (s, failed_by_throw) = (s, aborted)
show_fetched (s, got l) = display_file_item s (given_items l.content) main_items true true true

-- `sortFileItems(key, order)` for the chosen order, with null as a key when the choice is unknown:
-- `null.split` throws, unless there is nothing to compare.
sort_locally : State → Option Text → Bool → State × End
sort_locally s none descending =
    if ltb 1 (length s.main.ids)
    then (s, aborted)
    else display_file_item s (given_ids []) main_items true false false
sort_locally s (some key) descending =
    display_file_item (record s { main = sort_file_items s.main key descending }) (given_ids [])
      main_items true false false

-- The `change` event of the sort order; it throws when no folder is open. Showing a new view also
-- observes the end of the list, as the handler does once more.
unfoldable pub change_sort : State → Text → Reply → State × End
unfolding sort_locally
change_sort s₀ value reply =
    let s = record s₀ { sort_value = value } in
    elim (current_path s.path) [
      | none ↦ (s, aborted)
      | some folder ↦
          (let s' = set_current_uri s folder.id in
            let (by, order) = get_sort_select_value s in
            if is_some s'.main.page
            then show_fetched (fetch_more_files s' folder.id none false reply)
            else sort_locally s' (sort_key by) (text_eq order (codes "DESC")))
    ]
