-- ===== src/Tests/Browse.antt =====
-- Runs of the model of the file browser: file-manager-page.js and search-file.js.
use streaming_service.Base.JsMap
use streaming_service.Base.{List, [], arith, false, none, refl, some, true, ◌↔◌, ◌∷◌, ◌≡◌}
use streaming_service.Base.JsMap.{JsMap}
use streaming_service.Base.Text.{
  Text, codes, decimal, includes, starts_with, text_eq, to_lower_case, truthy,
}
use streaming_service.Browser.Change.{file, move_file}
use streaming_service.Browser.Change.Moves.{Guarded, move_file-Guarded}
use streaming_service.Browser.Fetch.{Listing, lost}
use streaming_service.Browser.Menu.{Target, delete_files, delete_loop}
use streaming_service.Browser.Menu.Deletion.{delete_files-IsValid}
use streaming_service.Browser.Messages.{Message, abort_timer, blank, play, told}
use streaming_service.Browser.Messages.Queue.{IsSound, play-IsSound}
use streaming_service.Browser.Search.{search_files}
use streaming_service.Browser.Search.Local.{search_files_local}
use streaming_service.Browser.Selection.{
  Point, Rect, add_selected_file, cancel_selection, drag, drag_box, drag_frame,
  remove_selected_file, start_drag, toggle_selected_file,
}
use streaming_service.Browser.Selection.Drag.{drag-selected, in_box, xor}
use streaming_service.Browser.Selection.Shown.{IsShown, selection-IsShown}
use streaming_service.Browser.State.{
  SelectedFile, State, completed, display_file_item, given_items, main_items, picture_of,
}
use streaming_service.Browser.State.Display.{IsDrawable, node_ids}
use streaming_service.Browser.State.Folder.{display_folder}
use streaming_service.FileManager.{FileItem, FileManager, add_item, contains, loop_given, new}
use streaming_service.FileManager.Invariant.{IsValid, add_item-IsValid, new-IsValid}
use streaming_service.FileManager.Search.{IsNamedWith, find_ids_with_name}
use streaming_service.Upload.Workers.{answered}

abbrev item_of : Text → Text → FileItem
item_of id name = record {
  id = id;
  name = name;
  file_type = codes "DIR";
  media_id = none;
  parent_id = some (codes "p");
  size = none;
  len = none;
  resolution = none;
  upload_date = none;
  thumbnail = none;
}

abbrev content : List FileItem
content = item_of (codes "1") (codes "ab") ∷ item_of (codes "2") (codes "cd") ∷ []

abbrev listing : Listing
listing = record {
  content = content;
  has_next = false;
  next_cursor = none;
  parent_id = some (codes "r");
  parent_name = some (codes "media");
}

abbrev start : State
start = record {
  processing = false;
  main = new;
  found = new;
  searching = false;
  deep = false;
  path =
      record { id = some (codes "r"); name = codes "media" }
      ∷ record { id = some (codes "f"); name = codes "vid" }
      ∷ [];
  selected = [];
  file_nodes = [];
  next_node = 0;
  count_text = codes "0";
  banner_hidden = true;
  moving = false;
  view = [];
  end_text = none;
  observed = false;
  sort_value = codes "NAME-ASC";
  previous_id = none;
  history = [];
  alerts = [];
  infos = [];
  sent = [];
}

-- The page with the two folders, both of them selected.
abbrev loaded : FileManager
loaded = record {
  items =
      (codes "1", item_of (codes "1") (codes "ab"))
      ∷ (codes "2", item_of (codes "2") (codes "cd"))
      ∷ [];
  ids = codes "1" ∷ codes "2" ∷ [];
  page = none;
}

loaded-IsValid : IsValid loaded
unfolding add_item JsMap.get JsMap.set text_eq
loaded-IsValid =
    add_item-IsValid (add_item new (item_of (codes "1") (codes "ab")))
      (item_of (codes "2") (codes "cd"))
      (add_item-IsValid new (item_of (codes "1") (codes "ab")) new-IsValid refl) refl

abbrev dir : Text → SelectedFile
dir name = record { media_id = none; file_type = codes "DIR"; file_name = name; node = 0 }

abbrev chosen : State
chosen = record start {
  main = loaded;
  selected = (codes "1", dir (codes "ab")) ∷ (codes "2", dir (codes "cd")) ∷ [];
  file_nodes = (codes "1", 0) ∷ (codes "2", 1) ∷ [];
}

abbrev target : Target
target = record {
  id = some (codes "1");
  file_type = some (codes "DIR");
  media_id = none;
  name = some (codes "ab");
}

display_folder_example :
    let (t, e) = display_file_item start (given_items content) main_items true true true in
    (e ≡ completed)
    × (node_ids t.view ≡ codes "1" ∷ codes "2" ∷ [])
    × (t.main.ids ≡ codes "1" ∷ codes "2" ∷ [])
    × IsValid t.main
unfolding IsDrawable picture_of text_eq truthy
display_folder_example = display_folder start content (refl, (refl, tt)) (refl, (refl, tt))

abbrev box : Rect
box = record { left = 10; right = 30; top = 10; bottom = 30 }

-- A page whose view shows a file twice.
abbrev twice : State
twice = record start {
  view =
      record {
        handle = 0;
        id = codes "1";
        file_type = codes "DIR";
        media_id = none;
        name = codes "ab";
        picture = [];
        color = none;
        bordered = false;
      }
      ∷ record {
        handle = 1;
        id = codes "1";
        file_type = codes "DIR";
        media_id = none;
        name = codes "ab";
        picture = [];
        color = none;
        bordered = false;
      }
      ∷ [];
  next_node = 2;
}

twice-IsShown : IsShown twice
unfolding decimal JsMap.get
twice-IsShown = record {
  counted = refl;
  banner = refl;
  stored = λ k. refl;
  borders = (refl, (refl, tt));
  owned = (λ k h. cc, (λ k h. cc, tt));
}

selection-IsShown_example :
    IsShown (add_selected_file twice (codes "1") (dir (codes "ab"))).0
    × IsShown (remove_selected_file twice (codes "1")).0
    × IsShown (toggle_selected_file twice (codes "1") (dir (codes "ab")))
    × IsShown (cancel_selection twice)
    × IsShown (drag_frame twice [] box).0
unfolding text_eq
selection-IsShown_example =
    selection-IsShown twice (codes "1") (dir (codes "ab")) [] box (refl, (refl, tt)) tt
      twice-IsShown

abbrev corner : Point
corner = record { x = 0; y = 0 }

-- The mouse passes over the second node, and ends before it.
abbrev nodes : List (Text × SelectedFile × Rect)
nodes =
    (codes "1", dir (codes "ab"), record { left = 5; right = 9; top = 5; bottom = 9 })
    ∷ (codes "2", dir (codes "cd"), record { left = 50; right = 60; top = 5; bottom = 9 })
    ∷ []

abbrev far_away : Point
far_away = record { x = 100; y = 100 }

abbrev near : Point
near = record { x = 20; y = 20 }

drag-selected_example :
    JsMap.has (drag start (start_drag nodes) corner (far_away ∷ near ∷ [])).0.selected (codes "1")
    ≡ xor (in_box (codes "1") nodes (drag_box corner near)) (JsMap.has start.selected (codes "1"))
unfolding text_eq
drag-selected_example =
    drag-selected start nodes corner far_away (near ∷ []) (codes "1") (refl, (refl, tt))

delete_files-IsValid_example :
    IsValid (delete_files chosen target true (answered [] ∷ answered [] ∷ [])).0.main
unfolding delete_files delete_loop
delete_files-IsValid_example =
    delete_files-IsValid chosen target true (answered [] ∷ answered [] ∷ []) loaded-IsValid refl

abbrev other_item : FileItem
other_item = item_of (codes "9") (codes "zz")

move_file-Guarded_example :
    Guarded chosen other_item (move_file chosen other_item (file other_item))
move_file-Guarded_example = move_file-Guarded chosen other_item (file other_item)

search_files_local_example :
    let (t, e) = search_files chosen (codes "CD") false lost in
    (e ≡ completed)
    × (node_ids t.view ≡ find_ids_with_name loaded (codes "CD"))
    × ((contains (node_ids t.view) (codes "2") ≡ true)
        ↔ IsNamedWith loaded (codes "CD") (codes "2"))
    × (t.main ≡ loaded)
unfolding find_ids_with_name loop_given IsDrawable picture_of JsMap.get text_eq truthy includes
    starts_with to_lower_case
search_files_local_example =
    search_files_local chosen (codes "CD") (codes "2") lost (omega arith) refl loaded-IsValid
      (refl, (refl, tt)) (refl, tt)

abbrev note : Message
note = record { message = codes "hi"; has_timeout = true; timeout_time = 5000 }

play-IsSound_example :
    IsSound false (play blank ((0, told note) ∷ (100, told note) ∷ (500, abort_timer) ∷ []))
play-IsSound_example = play-IsSound ((0, told note) ∷ (100, told note) ∷ (500, abort_timer) ∷ [])
