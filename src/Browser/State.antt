-- ===== src/Browser/State.antt =====
-- The variables of file-manager-page.js and search-file.js, what the page shows, and
-- `displayFileItem`. A handler gets the answers of the server as arguments.
pub mod Kept
pub mod Display
pub mod Folder
use streaming_service.Base.JsMap
use streaming_service.Base.{
  Bool, List, Option, [], false, if◌then◌else◌, inl, inr, is_some, map, none, refl, some, true, ℕ,
  ◌++◌, ◌+◌, ◌∷◌, ◌≡◌, ◌⊎◌,
}
use streaming_service.Base.JsMap.{JsMap}
use streaming_service.Base.Text.{Text, codes, text_eq, truthy}
use streaming_service.Browser.PathStack.{PathNode}
use streaming_service.FileManager.{
  FileItem, FileManager, add_item, loop_all, loop_given, remove_all,
}

-- What `selectedFiles` keeps for an id, with the node that the file was selected by.
pub record SelectedFile : Type 0 where
  pub media_id : Option Text
  pub file_type : Text
  pub file_name : Text
  pub node : ℕ

-- A file's node in the view. Its handle tells it from all other nodes, also from others of the file.
pub record Node : Type 0 where
  pub handle : ℕ
  pub id : Text
  pub file_type : Text
  pub media_id : Option Text
  pub name : Text
  pub picture : Text
  pub color : Option Text
  pub bordered : Bool

-- A request that has been sent, with the pairs of its query or of its JSON body.
pub record Request : Type 0 where
  pub method : Text
  pub url : Text
  pub pairs : List (Text × Text)

-- An entry of the browser's history.
pub record Visit : Type 0 where
  pub path_id : Text
  pub params : List (Text × Text)

-- `file_nodes` has for each selected id the `fileNode` that `selectedFiles` has for it now, and
-- `next_node` is the handle of the next node. The history stands with its newest entry first;
-- `alerts` and `infos` are the messages in the order in which they were given, an `info` with its
-- `hasTimeout`.
pub record State : Type 0 where
  pub processing : Bool
  pub main : FileManager
  pub found : FileManager
  pub searching : Bool
  pub deep : Bool
  pub path : List PathNode
  pub selected : JsMap SelectedFile
  pub file_nodes : JsMap ℕ
  pub next_node : ℕ
  pub count_text : Text
  pub banner_hidden : Bool
  pub moving : Bool
  pub view : List Node
  pub end_text : Option Text
  pub observed : Bool
  pub sort_value : Text
  pub previous_id : Option Text
  pub history : List Visit
  pub alerts : List Text
  pub infos : List (Text × Bool)
  pub sent : List Request

abbrev pub alert : State → Text → State
alert s message = record s { alerts = s.alerts ++ message ∷ [] }

abbrev pub inform : State → Text → Bool → State
inform s message has_timeout = record s { infos = s.infos ++ (message, has_timeout) ∷ [] }

abbrev pub send : State → Request → State
send s r = record s { sent = s.sent ++ r ∷ [] }

-- How a handler ends: it returns, or an exception leaves it.
pub data End : Type 0 where
  completed aborted : End

pub End-cases : (e : End) → (e ≡ completed) ⊎ (e ≡ aborted)
End-cases completed = inl refl
End-cases aborted = inr refl

-- `getIconNode`, with the icon's class; `none` is null, which cannot be appended.
unfoldable pub icon_class : Text → Option Text
icon_class file_type =
    if text_eq file_type (codes "DIR")
    then some (codes "directory-icon")
    else if text_eq file_type (codes "IMAGE")
    then some (codes "photo-icon")
    else if text_eq file_type (codes "VIDEO")
    then some (codes "video-icon")
    else if text_eq file_type (codes "AUDIO")
    then some (codes "audio-icon")
    else if text_eq file_type (codes "ALBUM")
    then some (codes "album-icon")
    else if text_eq file_type (codes "GROUPER")
    then some (codes "grouper-icon")
    else if text_eq file_type (codes "FILE")
    then some (codes "file-icon")
    else none

unfoldable pub picture_of : FileItem → Option Text
unfolding icon_class
picture_of f = if truthy f.thumbnail then f.thumbnail else icon_class f.file_type

-- `setMediaBgColor`
unfoldable pub media_color : Text → Option Text
media_color file_type =
    if text_eq file_type (codes "VIDEO")
    then some (codes "#2b7fff")
    else if text_eq file_type (codes "AUDIO")
    then some (codes "#162456")
    else if text_eq file_type (codes "ALBUM")
    then some (codes "#4f39f6")
    else if text_eq file_type (codes "GROUPER")
    then some (codes "#ad46ff")
    else none

-- Which manager `displayFileItem` gets.
pub data Which : Type 0 where
  main_items found_items : Which

abbrev pub manager : State → Which → FileManager
manager s main_items = s.main
manager s found_items = s.found

abbrev pub with_manager : State → Which → FileManager → State
with_manager s main_items m = record s { main = m }
with_manager s found_items m = record s { found = m }

unfoldable pub node_of : State → FileItem → Text → Node
unfolding media_color
node_of s f picture = record {
  handle = s.next_node;
  id = f.id;
  file_type = f.file_type;
  media_id = if truthy f.media_id then f.media_id else none;
  name = f.name;
  picture = picture;
  color = if truthy f.media_id then media_color f.file_type else none;
  bordered = JsMap.has s.selected f.id;
}

unfoldable pub push_item : State → Which → Bool → FileItem → State
push_item s which push f = if push then with_manager s which (add_item (manager s which) f) else s

unfoldable pub append_node : State → FileItem → Option Text → State × End
unfolding node_of
append_node s f none = (s, aborted)
append_node s f (some picture) = (
  record s {
    view = s.view ++ node_of s f picture ∷ [];
    next_node = s.next_node + 1;
    file_nodes =
        if JsMap.has s.selected f.id then JsMap.set s.file_nodes f.id s.next_node else s.file_nodes;
  },
  completed,
)

-- `renderFileItem`; the texts of the chosen details are left out. An item that is `undefined`
-- throws, and so does one of an unknown type without a thumbnail.
unfoldable pub render_file_item : State → Which → Bool → Option FileItem → State × End
unfolding push_item append_node picture_of
render_file_item s which push none = (s, aborted)
render_file_item s which push (some f) = append_node (push_item s which push f) f (picture_of f)

unfoldable pub render_all : State → Which → Bool → List (Option FileItem) → State × End
unfolding render_file_item
render_all s which push [] = (s, completed)
render_all s which push (f ∷ fs) =
    let (s', e) = render_file_item s which push f in
    elim e [ completed ↦ render_all s' which push fs | aborted ↦ (s', aborted) ]

-- The first argument of `displayFileItem` with its last one: items, ids of the manager's items, or
-- null in place of ids.
pub data Given : Type 0 where
  given_items : List FileItem → Given
  given_ids : List Text → Given
  no_ids : Given

-- What is rendered: an empty list of ids stands for all.
unfoldable pub rendered : FileManager → Given → List (Option FileItem)
rendered m (given_items fs) = map some fs
rendered m (given_ids []) = loop_all m
rendered m (given_ids (k ∷ ks)) = loop_given m (k ∷ ks)
rendered m no_ids = []

unfoldable pub is_given : Given → Bool
is_given (given_items []) = false
is_given (given_items (f ∷ fs)) = true
is_given (given_ids []) = false
is_given (given_ids (k ∷ ks)) = true
is_given no_ids = false

unfoldable pub cleared : State → Which → Bool → Bool → State
cleared s which clear_node clear_list =
    let s₁ = if clear_node then record s { view = []; observed = true } else s in
    let s₂ = if clear_list then with_manager s₁ which (remove_all (manager s₁ which)) else s₁ in
    record s₂ { end_text = none }

unfoldable pub end_of_list : State → Which → Given → State
unfolding is_given
end_of_list s which g = if is_some (manager s which).page then s else record s {
  end_text = some (if is_given g then codes "End of file list" else codes "No files found");
}

unfoldable pub close_display : State × End → Which → Given → State × End
unfolding end_of_list
close_display (s, aborted) which g = (s, aborted)
close_display (s, completed) which g = (end_of_list s which g, completed)

-- `displayFileItem`: what is shown, the manager, and `clearNode`, `clearFileList`, `pushFileList`.
unfoldable pub display_file_item : State → Given → Which → Bool → Bool → Bool → State × End
unfolding cleared rendered render_all close_display
display_file_item s g which clear_node clear_list push =
    let s₁ = cleared s which clear_node clear_list in
    close_display (render_all s₁ which push (rendered (manager s₁ which) g)) which g
