-- ===== src/Browser/Change.antt =====
-- Changes of single files in file-manager-page.js: a new folder, a new name, another folder; the name
-- entity of selected media; and the click on a file.
pub mod Moves
use streaming_service.Base.JsMap
use streaming_service.Base.{
  Bool, List, Option, [], false, if◌then◌else◌, is_empty, is_some, map, none, not, some, true, ◌++◌,
  ◌||◌, ◌∷◌,
}
use streaming_service.Base.JsMap.{JsMap}
use streaming_service.Base.Text.{Text, codes, includes, opt_eq, text_eq, trim, truthy}
use streaming_service.Browser.Menu.{Course, Target, crashed, done, early, pending}
use streaming_service.Browser.PathStack.{current_path, full_current_path_in_ids}
use streaming_service.Browser.Selection.{cancel_moving, cancel_selection}
use streaming_service.Browser.State.{
  Node, Request, State, aborted, alert, completed, display_file_item, given_items, inform,
  main_items, send,
}
use streaming_service.FileManager.{FileItem, FileManager, item_by_id}
use streaming_service.FileManager.Search.{find_one_with_exact_name}
use streaming_service.Upload.Workers.{Answer, answered, refused, thrown}

-- `hasSameNameItem`
unfoldable pub has_same_name_item : State → Text → Bool
has_same_name_item s name = is_some (find_one_with_exact_name s.main name)

-- `getCurrentFileItemById`
unfoldable pub get_current_file_item : State → Text → Option FileItem
get_current_file_item s id = if s.searching then item_by_id s.found id else item_by_id s.main id

-- The answer to a request that returns a file: the file, the text of a failure, or an exception.
pub data FileReply : Type 0 where
  file : FileItem → FileReply
  denied : Text → FileReply
  broke : FileReply

-- How a change ends: made, given up without a request, refused by the server, or left by an
-- exception.
pub data Change : Type 0 where
  made given_up denied_by_server broken_off : Change

abbrev empty_name : Text
empty_name = codes "Folder name cannot be empty"

-- The answer to the request for a new folder. The message has the name as it was typed.
after_new_folder : State → Text → FileReply → State × Change
after_new_folder s name broke = (s, broken_off)
after_new_folder s name (denied t) =
    (alert s (codes "Failed to create folder: " ++ t), denied_by_server)
after_new_folder s name (file f) =
    let (s', e) = display_file_item s (given_items (f ∷ [])) main_items false false true in
    elim e [
      | completed ↦ (inform s' (codes "Created folder: " ++ name) true, made)
      | aborted ↦ (s', broken_off)
    ]

new_folder_request : Text → Text → Request
new_folder_request folder name = record {
  method = codes "POST";
  url = codes "/api/file/folder";
  pairs = (codes "parentId", folder) ∷ (codes "name", name) ∷ [];
}

-- `sendCreateNewFolderRequest`
unfoldable pub create_new_folder : State → Text → FileReply → State × Change
unfolding after_new_folder new_folder_request
create_new_folder s name reply = elim (current_path s.path) [
  | none ↦ (alert s (codes "Failed to get current path"), given_up)
  | some node ↦ elim node.id [
    | none ↦ (alert s (codes "Failed to get current folder id"), given_up)
    | some folder ↦
        if is_empty name || is_empty (trim name)
        then (alert s empty_name, given_up)
        else if has_same_name_item s (trim name)
        then (alert s (codes "Folder name already exists"), given_up)
        else after_new_folder (send s (new_folder_request folder (trim name))) name reply
  ]
]

-- The item that the manager shows now gets another name, in whichever map it was found; its node too.
rename_item : FileManager → Text → FileItem → FileManager
rename_item m id f = record m { items = JsMap.set m.items id f }

rename_node : Text → Text → List Node → List Node
rename_node id name [] = []
rename_node id name (n ∷ ns) =
    (if text_eq n.id id then record n { name = name } else n) ∷ rename_node id name ns

renamed : State → Text → FileItem → Text → State
unfolding rename_item rename_node
renamed s id f name =
    let f' = record f { name = name } in
    let s' =
      if s.searching
      then record s { found = rename_item s.found id f' }
      else record s { main = rename_item s.main id f' } in
    inform (record s' { view = rename_node id name s'.view }) (codes "Renamed: " ++ name) true

after_rename : State → Text → FileItem → Answer → State × Change
unfolding renamed
after_rename s id f (answered name) = (renamed s id f name, made)
after_rename s id f (refused t) = (alert s (codes "Failed to rename file: " ++ t), denied_by_server)
after_rename s id f (thrown t) = (s, broken_off)

rename_request : FileItem → Text → Request
rename_request f name = record {
  method = codes "PUT";
  url = codes "/api/file/rename";
  pairs = (codes "parentId", f.id) ∷ (codes "name", name) ∷ [];
}

-- The button `rename` on an item with an id, and the name that is typed.
unfoldable pub rename_file : State → Text → Text → Answer → State × Change
unfolding after_rename rename_request
rename_file s id typed a = elim (get_current_file_item s id) [
  | none ↦ (alert s (codes "No current file item"), given_up)
  | some f ↦
      if text_eq f.name typed
      then (inform s (codes "New name is the same as current name") true, given_up)
      else if is_empty (trim typed)
      then (alert s (codes "New name cannot be empty"), given_up)
      else if has_same_name_item s (trim typed)
      then (alert s (codes "An item the same name already exists"), given_up)
      else after_rename (send s (rename_request f (trim typed))) id f a
]

pub move_request : Text → Text → Request
move_request id folder = record {
  method = codes "PUT";
  url = codes "/api/file/move";
  pairs = (codes "fileId", id) ∷ (codes "parentId", folder) ∷ [];
}

-- What `moveFile` returns: nothing or null, the text of a failure, or an exception.
pub data MoveEnd : Type 0 where
  no_text move_broke : MoveEnd
  move_failed : Text → MoveEnd

after_move_file : State → FileReply → State × MoveEnd
after_move_file s broke = (s, move_broke)
after_move_file s (denied t) = (s, move_failed (codes "Failed to move file: " ++ t))
after_move_file s (file f) =
    let (s', e) = display_file_item s (given_items (f ∷ [])) main_items false false true in
    elim e [
      | completed ↦ (inform s' (codes "Moved: " ++ f.name) true, no_text)
      | aborted ↦ (s', move_broke)
    ]

-- The checks of `moveFile` once the folder is known.
move_into : State → FileItem → Text → FileReply → State × MoveEnd
unfolding after_move_file move_request
move_into s f folder reply =
    if opt_eq f.parent_id (some folder)
    then (s, move_failed (codes "Item is already in the same folder"))
    else if text_eq f.id folder
    then (s, move_failed (codes "Cannot move item to itself"))
    else if includes (full_current_path_in_ids s.path) f.id
    then (s, move_failed (codes "Cannot move item to its subfolder"))
    else if has_same_name_item s f.name
    then (alert s (codes "Cannot move item to a folder with item that has the same name"), no_text)
    else after_move_file (send s (move_request f.id folder)) reply

-- `moveFile`
unfoldable pub move_file : State → FileItem → FileReply → State × MoveEnd
unfolding move_into
move_file s f reply =
    if is_empty f.id
    then (s, move_failed (codes "Failed to get current file item: "))
    else elim (current_path s.path) [
      | none ↦ (s, move_failed (codes "Failed to get current path"))
      | some node ↦ elim node.id [
        | none ↦ (s, move_failed (codes "Failed to get current folder id"))
        | some folder ↦ move_into s f folder reply
      ]
    ]

-- The files of a move are looked up when the button of the menu is clicked.
unfoldable pub moving_files : State → List (Option FileItem)
unfolding get_current_file_item
moving_files s = map (get_current_file_item s) (JsMap.keys s.selected)

-- `moveFiles`: one after the other, up to the first failure. `undefined` has no id.
unfoldable pub move_files : State → List (Option FileItem) → List FileReply → State × Course
move_files s [] replies = (cancel_selection (cancel_moving s), done)
move_files s (none ∷ fs) replies = (s, crashed)
move_files s (some f ∷ fs) [] = (s, pending)
move_files s (some f ∷ fs) (r ∷ replies) =
    let (s', e) = move_file s f r in
    elim e [
      | no_text ↦ move_files s' fs replies
      | move_failed t ↦ (alert s' t, early)
      | move_broke ↦ (s', crashed)
    ]

-- The button `move`: the banner opens, with the name of the one file or the number of files.
unfoldable pub start_move : State → Target → State × Course
unfolding get_current_file_item
start_move s t =
    if not (truthy t.id) then (alert s (codes "No target selected"), early) else elim s.selected [
      | [] ↦ (alert s (codes "No file selected"), early)
      | (k, f) ∷ [] ↦
          if is_some (get_current_file_item s k)
          then (record s { moving = true }, done)
          else (s, crashed)
      | (k, f) ∷ g ∷ rest ↦ (record s { moving = true }, done)
    ]
