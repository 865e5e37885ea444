-- ===== src/Tests/Shell.antt =====
-- Runs of the models of overlay.js and browse-page.js, and of the choice of files.
use mathlib.Core.List.{Perm}
use streaming_service.Base.JsMap
use streaming_service.Base.{List, [], false, none, refl, some, true, ◌∷◌, ◌≡◌}
use streaming_service.Base.JsMap.{JsMap}
use streaming_service.Base.Text.{Text, codes, ends_with, starts_with, text_eq, to_lower_case}
use streaming_service.BrowsePage.{Browse, NameItems, characters}
use streaming_service.FileManager.Fields.{Sign, none_less}
use streaming_service.Overlay.{
  LayoutAnswer, close_overlay, layout, layout_refused, new_overlay, quick_view_content,
}
use streaming_service.Overlay.Shown.{
  Action, overlay_closed, overlay_of, play_actions, play_actions-shown, quick_view, shown_id,
}
use streaming_service.Upload.Choose.{
  Choice, ChosenFile, handle_files, local_file, validate_allow_image, validate_allow_video,
}
use streaming_service.Upload.Choose.Chosen.{handle_files-Chosen}
use streaming_service.Upload.Manage.{Page}

-- Every item is a video.
abbrev always_video : Text → Text
always_video id = codes "VIDEO"

abbrev video_layout : LayoutAnswer
video_layout = layout (record { has_html = true; has_module = true })

abbrev viewed_before : List Action
viewed_before = quick_view (codes "1") video_layout ∷ overlay_closed ∷ []

play_actions-shown_example :
    let o' = overlay_of (
      quick_view_content
        (play_actions always_video new_overlay viewed_before)
        (codes "2")
        (codes "VIDEO")
        layout_refused) in
    (shown_id o' ≡ some (codes "2")) × (o'.hidden ≡ false)
unfolding play_actions quick_view_content close_overlay text_eq JsMap.get JsMap.set
play_actions-shown_example =
    play_actions-shown always_video viewed_before (codes "2") layout_refused refl

abbrev names : NameItems
names = record { names = codes "n" ∷ []; page_number = 0; page_size = 20; total = 41 }

abbrev browse : Browse
browse = record {
  current_entry = characters;
  current_page = 3;
  sort_by = codes "NAME";
  sort_order = codes "Asc";
  tabs = (codes "Tags", names) ∷ [];
  shown = [];
  shown_page = 3;
  shown_pages = 5;
  requests = [];
  history = [];
  alerts = 0;
}

abbrev picture : ChosenFile
picture = record {
  own_name = codes "b.PNG";
  media_type = [];
  listed_name = codes "d/b.PNG";
  size = 5;
  last_modified = 2;
}

abbrev film : ChosenFile
film = record {
  own_name = codes "a.mp4";
  media_type = codes "video/mp4";
  listed_name = codes "d/a.mp4";
  size = 7;
  last_modified = 1;
}

abbrev text_file : ChosenFile
text_file = record film { own_name = codes "a.txt"; media_type = codes "text/plain" }

abbrev chosen_files : List ChosenFile
chosen_files = picture ∷ text_file ∷ film ∷ []

-- All names alike.
abbrev no_order : Text → Text → Sign
no_order s t = none_less

abbrev empty_page : Page
empty_page = record {
  uploads = record { uploading = []; fail_texts = []; progress = 0 };
  file_list = [];
  name_nodes = [];
  total_progress = 0;
  all_video = true;
  as_video = false;
  submitting = false;
  retry_label = false;
  shown = [];
  ended = [];
}

abbrev empty_choice : Choice
empty_choice = record { page = empty_page; box_disabled = false; told = none }

abbrev after_choice : Choice
after_choice = handle_files no_order (codes "modified-asc") empty_choice chosen_files

handle_files-Chosen_example :
    Perm after_choice.page.file_list (local_file picture ∷ local_file film ∷ [])
    × (after_choice.page.all_video ≡ false)
    × (after_choice.box_disabled ≡ true)
    × (after_choice.told ≡ some 2)
unfolding validate_allow_image validate_allow_video starts_with ends_with to_lower_case
handle_files-Chosen_example =
    handle_files-Chosen no_order (codes "modified-asc") empty_choice chosen_files
