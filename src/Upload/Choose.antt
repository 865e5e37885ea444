-- ===== src/Upload/Choose.antt =====
-- Choosing the files of an upload in manage-upload-file.js: which kinds are allowed, and their order.
pub mod Chosen
use Prim.Native.Nat.{Ordering, compare}
use streaming_service.Base.JsMap
use streaming_service.Base.{
  Bool, List, Option, [], any_of, false, if◌then◌else◌, length, some, true, ℕ, ◌++◌, ◌||◌, ◌∷◌,
}
use streaming_service.Base.Text.{Text, codes, ends_with, starts_with, text_eq, to_lower_case}
use streaming_service.FileManager.Fields.{Sign, minus, none_less, plus}
use streaming_service.FileManager.Sorting.{sort}
use streaming_service.Upload.Manage.{LocalFile, Page, add_uploading_file_text, clear_uploading_list}

-- A file of an input or a drop: its own name and type, and the name that it is listed under, which is
-- `file.name`, `file.webkitRelativePath`, or the path of a dropped entry.
pub record ChosenFile : Type 0 where
  pub own_name : Text
  pub media_type : Text
  pub listed_name : Text
  pub size : ℕ
  pub last_modified : ℕ

abbrev pub allowed_image : List Text
allowed_image =
    codes "image/png"
    ∷ codes "image/jpg"
    ∷ codes "image/jpeg"
    ∷ codes "image/gif"
    ∷ codes "image/webp"
    ∷ []

abbrev pub image_endings : List Text
image_endings = codes ".png" ∷ codes ".jpg" ∷ codes ".jpeg" ∷ codes ".gif" ∷ codes ".webp" ∷ []

abbrev pub allowed_video : List Text
allowed_video = codes "video/mp4" ∷ codes "video/mov" ∷ codes "video/mp3" ∷ []

abbrev pub video_endings : List Text
video_endings = codes ".mp4" ∷ codes ".mov" ∷ codes ".mp3" ∷ []

-- `validateAllowImage`
unfoldable pub validate_allow_image : ChosenFile → Bool
validate_allow_image f =
    any_of (λ a. starts_with f.media_type a) allowed_image
    || any_of (λ e. ends_with (to_lower_case f.own_name) e) image_endings

-- `validateAllowVideo`
unfoldable pub validate_allow_video : ChosenFile → Bool
validate_allow_video f =
    any_of (λ a. starts_with f.media_type a) allowed_video
    || any_of (λ e. ends_with (to_lower_case f.own_name) e) video_endings

-- The form, the `disabled` of the checkbox `upload as video`, and the number of the last message.
pub record Choice : Type 0 where
  pub page : Page
  pub box_disabled : Bool
  pub told : Option ℕ

abbrev pub local_file : ChosenFile → LocalFile
local_file f = record {
  name = f.listed_name;
  size = f.size;
  mime = f.media_type;
  last_modified = f.last_modified;
}

push_local : Choice → ChosenFile → Choice
push_local c f = record c {
  page = record (c.page) { file_list = c.page.file_list ++ local_file f ∷ [] };
}

-- `validateAllowFile`, and the file goes to the list if it is allowed.
unfoldable pub accept : Choice → ChosenFile → Choice
unfolding push_local
accept c f =
    if validate_allow_image f
    then push_local (record c { box_disabled = true; page = record (c.page) { all_video = false } })
        f
    else if validate_allow_video f
    then push_local c f
    else c

unfoldable pub accept_each : Choice → List ChosenFile → Choice
accept_each c [] = c
accept_each c (f ∷ fs) = accept_each (accept c f) fs

unfoldable pub add_names : Page → List LocalFile → Page
unfolding add_uploading_file_text
add_names p [] = p
add_names p (f ∷ fs) = add_names (add_uploading_file_text p f.name) fs

-- `a - b` for a sort.
abbrev pub difference : ℕ → ℕ → Sign
difference a b = elim (compare a b) [
  | Ordering.lt ↦ minus
  | Ordering.eq ↦ none_less
  | Ordering.gt ↦ plus
]

module _ (locale_compare : Text → Text → Sign) where
  -- The order that is chosen for the files.
  unfoldable pub upload_order : Text → LocalFile → LocalFile → Sign
  unfolding text_eq
  upload_order selected a b =
      if text_eq selected (codes "name-desc")
      then locale_compare b.name a.name
      else if text_eq selected (codes "modified-asc")
      then difference a.last_modified b.last_modified
      else if text_eq selected (codes "modified-desc")
      then difference b.last_modified a.last_modified
      else locale_compare a.name b.name

  -- `sortUploadFileAndDisplayFileName`
  unfoldable pub sort_upload_files : Text → Page → Page
  unfolding add_names add_uploading_file_text
  sort_upload_files selected p = elim p.file_list [
    | [] ↦ p
    | (f ∷ []) ↦ add_uploading_file_text p f.name
    | (f ∷ g ∷ fs) ↦
        let sorted = sort (upload_order selected) (f ∷ g ∷ fs) in
        add_names (record p { file_list = sorted; name_nodes = [] }) sorted
  ]

  -- `handleFiles`, `handleFolderFiles` and `handleFileArray`, which differ in the listed names.
  unfoldable pub handle_files : Text → Choice → List ChosenFile → Choice
  unfolding accept_each sort_upload_files clear_uploading_list
  handle_files selected c files =
      let cleared = record c { page = clear_uploading_list c.page; box_disabled = false } in
      let chosen = accept_each cleared files in
      record chosen {
        told = some (length chosen.page.file_list);
        page = sort_upload_files selected chosen.page;
      }
