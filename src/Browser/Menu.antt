-- ===== src/Browser/Menu.antt =====
-- The right-click menu of file-manager-page.js: its target, its buttons, and the actions that send
-- one request for each selected file.
pub mod Deletion
pub mod Requests
use streaming_service.Base.JsMap
use streaming_service.Base.{
  Bool, List, Option, [], false, if◌then◌else◌, is_empty, is_some, keep, length, ltb, none, not,
  some, true, ℕ, ◌&&◌, ◌++◌, ◌==◌, ◌||◌, ◌∷◌,
}
use streaming_service.Base.JsMap.{JsMap}
use streaming_service.Base.Text.{Text, codes, decimal, opt_eq, text_eq, truthy}
use streaming_service.Browser.Selection.{add_selected_file, remove_selected_file}
use streaming_service.Browser.State.{Node, Request, SelectedFile, State, inform, send}
use streaming_service.FileManager.{remove_in_id_list_only, remove_in_map_only}
use streaming_service.Upload.Workers.{Answer, answered, refused, thrown}

-- `currentTargetNode`, without its node.
pub record Target : Type 0 where
  pub id : Option Text
  pub file_type : Option Text
  pub media_id : Option Text
  pub name : Option Text

-- `clearTargetNode`
abbrev pub no_target : Target
no_target = record { id = none; file_type = none; media_id = none; name = none }

-- Which buttons of the menu are enabled and visible.
pub record Buttons : Type 0 where
  pub add_as_video : Bool
  pub add_as_album : Bool
  pub add_as_grouper : Bool
  pub open_media : Bool
  pub add_name_entity : Bool
  pub rename : Bool
  pub move : Bool
  pub delete_file : Bool

no_buttons : Buttons
no_buttons = record {
  add_as_video = false;
  add_as_album = false;
  add_as_grouper = false;
  open_media = false;
  add_name_entity = false;
  rename = false;
  move = false;
  delete_file = false;
}

file_buttons : Node → Bool → Buttons
unfolding no_buttons
file_buttons n any_selected =
    let media = truthy n.media_id in
    let dir = not media && text_eq n.file_type (codes "DIR") in
    record {
      add_as_video = not media && text_eq n.file_type (codes "VIDEO");
      add_as_album = dir;
      add_as_grouper = dir;
      open_media = media;
      add_name_entity = media;
      rename = any_selected;
      move = any_selected;
      delete_file = any_selected;
    }

target_of : Node → Target
target_of n = record {
  id = some n.id;
  file_type = some n.file_type;
  media_id = n.media_id;
  name = some n.name;
}

abbrev pub file_of : Node → SelectedFile
file_of n = record {
  media_id = n.media_id;
  file_type = n.file_type;
  file_name = n.name;
  node = n.handle;
}

-- The `contextmenu` event, on a file's node or beside the files.
unfoldable pub context_menu : State → Option Node → State × Target × Buttons
unfolding no_buttons file_buttons target_of
context_menu s none = (s, no_target, no_buttons)
context_menu s (some n) =
    let s' = (add_selected_file s n.id (file_of n)).0 in
    (s', target_of n, file_buttons n (not (is_empty s'.selected)))

-- How a handler with several requests ends: it runs through, it returns early, an exception leaves
-- it, or it still waits for an answer.
pub data Course : Type 0 where
  done early crashed pending : Course

-- One of the three kinds of media that files can be made into.
pub record Kind : Type 0 where
  pub url : Text
  pub wanted : Text
  pub failure : Text
  pub one : Text
  pub many : Text

abbrev pub as_video : Kind
as_video = record {
  url = codes "/api/file/vid/";
  wanted = codes "VIDEO";
  failure = codes "Failed to add as video: ";
  one = codes " file(s)";
  many = codes " as video(s).";
}

abbrev pub as_album : Kind
as_album = record {
  url = codes "/api/file/album/";
  wanted = codes "DIR";
  failure = codes "Failed to add as album: ";
  one = codes " dir(s)";
  many = codes " as album(s).";
}

abbrev pub as_grouper : Kind
as_grouper = record {
  url = codes "/api/file/grouper/";
  wanted = codes "DIR";
  failure = codes "Failed to add as grouper: ";
  one = codes " dir(s)";
  many = codes " as grouper(s).";
}

abbrev pub post : Text → Request
post url = record { method = codes "POST"; url = url; pairs = [] }

-- The loop over the selected files: those of another type are passed over.
unfoldable pub add_as_loop : Kind → State → JsMap SelectedFile → List Answer → State × Course
add_as_loop kind s [] answers = (s, done)
add_as_loop kind s ((k, f) ∷ m) [] =
    if text_eq f.file_type kind.wanted
    then (send s (post (kind.url ++ k)), pending)
    else add_as_loop kind s m []
add_as_loop kind s ((k, f) ∷ m) (a ∷ answers) =
    if text_eq f.file_type kind.wanted
    then (let s' = send s (post (kind.url ++ k)) in
        elim a [
          | answered t ↦ add_as_loop kind (inform s' t true) m answers
          | refused t ↦ (inform s' (kind.failure ++ t) false, early)
          | thrown t ↦ (s', crashed)
        ])
    else add_as_loop kind s m (a ∷ answers)

close_add_as : Kind → State × Course → State × Course
close_add_as kind (s, done) = (
  inform s (codes "Processing " ++ (decimal (length s.selected) ++ (kind.one ++ kind.many))) true,
  done,
)
close_add_as kind (s, early) = (s, early)
close_add_as kind (s, crashed) = (s, crashed)
close_add_as kind (s, pending) = (s, pending)

-- The buttons `add as video`, `add as album`, `add as grouper`.
unfoldable pub add_as : Kind → State → Target → List Answer → State × Course
unfolding close_add_as
add_as kind s t answers =
    if not (is_some t.id) || is_empty s.selected
    then (s, early)
    else close_add_as kind (add_as_loop kind s s.selected answers)

-- `openMediaButton`: the address that is opened, if any.
unfoldable pub open_media_url : Target → Option Text
open_media_url t = elim t.media_id [
  | none ↦ none
  | some m ↦
      if opt_eq t.file_type (some (codes "VIDEO"))
      then some (codes "/page/video?mediaId=" ++ m)
      else if opt_eq t.file_type (some (codes "ALBUM"))
      then some (codes "/page/album?mediaId=" ++ m)
      else if opt_eq t.file_type (some (codes "GROUPER"))
      then some (codes "/page/album-grouper?grouperId=" ++ m)
      else none
]

-- What a deletion asks for, and what it says of it.
pub delete_request : Text → SelectedFile → Request
delete_request k f =
    let url : Text = elim f.media_id [
      | none ↦ codes "/api/file/" ++ k
      | some m ↦ if truthy (some m) then codes "/api/file/media/" ++ m else codes "/api/file/" ++ k
    ] in
    record { method = codes "DELETE"; url = url; pairs = [] }

delete_failure : SelectedFile → Text
delete_failure f =
    if truthy f.media_id then codes "Failed to delete media: " else codes "Failed to delete file: "

delete_notice : SelectedFile → Text
delete_notice f = elim f.media_id [
  | none ↦ codes "Processing to delete file: " ++ f.file_name
  | some m ↦
      if truthy (some m)
      then codes "Processing to delete media: " ++ m
      else codes "Processing to delete file: " ++ f.file_name
]

-- `fileNode.remove()`
drop_node : Option ℕ → List Node → List Node
drop_node none ns = ns
drop_node (some h) ns = keep (λ (n : Node). not (n.handle == h)) ns

-- A file that the server has begun to delete leaves the selection, the view and the maps.
unfoldable pub forget_file : State → Text → State
unfolding drop_node
forget_file s k =
    let s' = (remove_selected_file s k).0 in
    let found = if s'.searching then remove_in_map_only s'.found k else s'.found in
    record s' {
      view = drop_node (JsMap.get s.file_nodes k) s'.view;
      found = found;
      main = remove_in_map_only s'.main k;
    }

-- The loop over the selected files, with the ids that have been deleted.
unfoldable pub delete_loop :
    State → JsMap SelectedFile → List Answer → List Text → State × List Text × Course
unfolding delete_request delete_failure delete_notice
delete_loop s [] answers gone = (s, gone, done)
delete_loop s ((k, f) ∷ m) [] gone = (send s (delete_request k f), gone, pending)
delete_loop s ((k, f) ∷ m) (answered t ∷ answers) gone =
    let s' = inform (send s (delete_request k f)) (delete_notice f) true in
    delete_loop (forget_file s' k) m answers (gone ++ k ∷ [])
delete_loop s ((k, f) ∷ m) (refused t ∷ answers) gone =
    (inform (send s (delete_request k f)) (delete_failure f ++ t) false, gone, early)
delete_loop s ((k, f) ∷ m) (thrown t ∷ answers) gone = (send s (delete_request k f), gone, crashed)

delete_text : State → Target → Text
delete_text s t =
    if length s.selected == 1
    then codes "file " ++ elim t.name [ none ↦ codes "null" | some n ↦ n ]
    else decimal (length s.selected) ++ codes " files"

-- After the loop the ids leave the lists of the managers.
close_delete : Text → State × List Text × Course → State × Course
close_delete what (s, gone, done) =
    let found = if s.searching then remove_in_id_list_only s.found gone else s.found in
    let s' = record s { found = found; main = remove_in_id_list_only s.main gone } in
    (
      if ltb 1 (length gone) then inform s' (codes "Processing to delete: " ++ what) true else s',
      done,
    )
close_delete what (s, gone, early) = (s, early)
close_delete what (s, gone, crashed) = (s, crashed)
close_delete what (s, gone, pending) = (s, pending)

-- The button `delete`, with the user's answer to the question.
unfoldable pub delete_files : State → Target → Bool → List Answer → State × Course
unfolding delete_text close_delete
delete_files s t confirmed answers =
    if (not (is_some t.id) && not (is_some t.media_id)) || (is_empty s.selected || not confirmed)
    then (s, early)
    else close_delete (delete_text s t) (delete_loop s s.selected answers [])
