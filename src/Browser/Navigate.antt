-- ===== src/Browser/Navigate.antt =====
-- Moving between folders in file-manager-page.js: the path bar, the back and home buttons, the click
-- on a file, the start of the page, and the observer of the end of the list.
pub mod Opened
use streaming_service.Base.{
  Bool, List, Option, [], false, get_elem?, if◌then◌else◌, is_empty, is_some, leb, length, none,
  not, some, true, ℕ, ◌++◌, ◌==◌, ◌||◌, ◌∷◌,
}
use streaming_service.Base.Text.{Text, codes, truthy}
use streaming_service.Browser.Fetch.{
  Fetched, Listing, Reply, busy, failed_by_throw, fetch_more_files, get_root_dir, got, missing,
  root_request, set_current_uri, show_fetched,
}
use streaming_service.Browser.PathStack.{
  PathNode, clear_path, current_path, cut_path, pop_path, push_path,
}
use streaming_service.Browser.Selection.{cancel_selection}
use streaming_service.Browser.State.{
  End, State, aborted, completed, display_file_item, given_items, main_items, send,
}
use streaming_service.FileManager.{contains}

-- `if (!isMovingFile) selectFileBannerCancelBtn.click()`, after the folder has been shown.
settle : State × End → State × End
settle (s, aborted) = (s, aborted)
settle (s, completed) = (if s.moving then s else cancel_selection s, completed)

-- A new view ends with the cancel button, unless there is nothing to show.
pub show_and_settle : State × Fetched → State × End
unfolding settle show_fetched
show_and_settle (s, busy) = (s, completed)
show_and_settle (s, missing) = (s, completed)
show_and_settle (s, failed_by_throw) = (s, aborted)
show_and_settle (s, got l) = settle (show_fetched (s, got l))

-- The click on the folder at an index of the path bar, with the `isRoot` it was added with.
unfoldable pub click_path : State → ℕ → Bool → Reply → State × End
unfolding show_and_settle
click_path s index is_root reply =
    if s.processing
    then (s, completed)
    else (let s' = record s { path = cut_path s.path index } in
        elim (get_elem? s'.path index) [
          | none ↦ (s', aborted)
          | some folder ↦
              (let id = if is_root then none else folder.id in
                show_and_settle (fetch_more_files (set_current_uri s' id) id none false reply))
        ])

-- `currentPathStack.length === 1 ? null : lastPath.id`
folder_id : State → Option Text
folder_id s =
    if length s.path == 1
    then none
    else elim (current_path s.path) [ none ↦ none | some folder ↦ folder.id ]

-- The back button.
unfoldable pub click_back : State → Reply → State × End
unfolding folder_id show_and_settle
click_back s reply =
    if s.processing
    then (s, completed)
    else if leb (length s.path) 1
    then (s, completed)
    else (let s' = record s { path = pop_path s.path } in
        let id = folder_id s' in
        show_and_settle (fetch_more_files (set_current_uri s' id) id none false reply))

-- The root, as it is added to the path.
unfoldable pub root_node : Listing → PathNode
root_node l = record {
  id = l.parent_id;
  name = elim l.parent_name [ none ↦ codes "undefined" | some n ↦ n ];
}

unfoldable pub at_root : State → Listing → State
at_root s l =
    let n = root_node l in record s { searching = false; path = push_path s.path n.id n.name }

enter_root : State × Fetched → State × End
unfolding settle at_root
enter_root (s, busy) = (s, completed)
enter_root (s, missing) = (s, completed)
enter_root (s, failed_by_throw) = (s, aborted)
enter_root (s, got l) =
    settle (display_file_item (at_root s l) (given_items l.content) main_items true true true)

-- The home button up to its `await`, and from there on.
unfoldable pub begin_home : State → State
begin_home s = send (set_current_uri (record s { path = clear_path s.path }) none) root_request

unfoldable pub end_home : State → Reply → State × End
unfolding enter_root
end_home s reply = enter_root (get_root_dir s reply)

-- The home button when nothing happens before the answer.
unfoldable pub click_home : State → Reply → State × End
unfolding begin_home end_home
click_home s reply = if s.processing then (s, completed) else end_home (begin_home s) reply

-- `text.split('/').filter(Boolean)`
pub segments : Text → List Text
segments [] = []
segments (c ∷ s) =
    let rest = segments s in
    if c == b'/' then rest else elim s [
      | [] ↦ (c ∷ []) ∷ []
      | d ∷ s' ↦
          if d == b'/'
          then (c ∷ []) ∷ rest
          else elim rest [ [] ↦ (c ∷ []) ∷ [] | part ∷ parts ↦ (c ∷ part) ∷ parts ]
    ]

-- The folders above the one that was fetched; a name that is missing is `undefined`.
add_parents : List PathNode → List Text → List Text → List PathNode
add_parents stack [] names = stack
add_parents stack (i ∷ ids) [] = add_parents (push_path stack (some i) (codes "undefined")) ids []
add_parents stack (i ∷ ids) (n ∷ names) = add_parents (push_path stack (some i) n) ids names

-- The result of `fetchMoreFilesAndMove`, with its Boolean.
pub data Moved : Type 0 where
  moved not_moved move_threw : Moved

moved_to : State → Listing → Text → Text → State × Moved
unfolding segments add_parents
moved_to s l ids names =
    let s' = record s { path = add_parents (clear_path s.path) (segments ids) (segments names) } in
    let (s'', e) = display_file_item s' (given_items l.content) main_items true true true in
    elim e [ completed ↦ (s'', moved) | aborted ↦ (s'', move_threw) ]

move_fetched : State × Fetched → State × Moved
unfolding moved_to
move_fetched (s, busy) = (s, not_moved)
move_fetched (s, missing) = (s, not_moved)
move_fetched (s, failed_by_throw) = (s, move_threw)
move_fetched (s, got l) =
    let ids : Text = elim l.parent_id [ none ↦ [] | some i ↦ i ] in
    let names : Text = elim l.parent_name [ none ↦ [] | some n ↦ n ] in
    if is_empty ids || is_empty names then (s, not_moved) else moved_to s l ids names

unfoldable pub fetch_more_files_and_move : State → Option Text → Option Text → Reply → State × Moved
unfolding move_fetched
fetch_more_files_and_move s id page reply = move_fetched (fetch_more_files s id page true reply)

-- The query of the address: `id`, `by`, `order`.
pub record Query : Type 0 where
  pub id : Option Text
  pub by : Option Text
  pub order : Option Text

null_text : Option Text → Text
null_text none = codes "null"
null_text (some t) = t

-- The order that the address asks for, if the page has it.
pub chosen_sort : List Text → Query → Text
unfolding null_text
chosen_sort options q =
    let value = null_text q.by ++ b'-' ∷ null_text q.order in
    if contains options value then value else codes "NAME-ASC"

after_move : State × Moved → Reply → State × End
after_move (s, moved) root = (s, completed)
after_move (s, not_moved) root = click_home s root
after_move (s, move_threw) root = (s, aborted)

-- `initialize`, also for `popstate`: the folder of the address, or the root.
unfoldable pub initialize : State → List Text → Query → Reply → Reply → State × End
unfolding chosen_sort after_move
initialize s options q reply root =
    if truthy q.id || (truthy q.by || truthy q.order)
    then after_move
        (fetch_more_files_and_move (record s { sort_value = chosen_sort options q }) q.id none
          reply)
        root
    else click_home s root

-- What the observer does with the next page of the folder.
append_fetched : State × Fetched → State × End
append_fetched (s, busy) = (s, completed)
append_fetched (s, missing) = (record s { observed = false }, completed)
append_fetched (s, failed_by_throw) = (s, aborted)
append_fetched (s, got l) = display_file_item s (given_items l.content) main_items false false true

-- The observer of `setObserverToFetchMore`, when the end of the list comes into sight.
unfoldable pub reach_end : State → Reply → State × End
unfolding folder_id append_fetched
reach_end s reply =
    if not (is_some s.main.page)
    then (record s { observed = false }, completed)
    else if is_empty s.path
    then (record s { observed = false }, completed)
    else append_fetched (fetch_more_files s (folder_id s) s.main.page false reply)
