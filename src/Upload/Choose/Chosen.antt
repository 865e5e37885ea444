-- ===== src/Upload/Choose/Chosen.antt =====
-- Which files of a choice are uploaded.
use mathlib.Core.List.{Perm}
use mathlib.Core.List.Perm
use streaming_service.Base.{
  Bool, Bool-cases, List, [], any_of, ap, append-nil, append_assoc, arith, false, if◌then◌else◌,
  inl, inr, keep, length, map, not, refl, some, suc, sym, ◌&&◌, ◌++◌, ◌||◌, ◌∙◌, ◌∷◌, ◌≡◌,
}
use streaming_service.Base.Text.{Text}
use streaming_service.FileManager.Fields.{Sign}
use streaming_service.FileManager.Sorting.{sort, sort-perm}
use streaming_service.Upload.Choose.{
  Choice, ChosenFile, accept, accept_each, add_names, handle_files, local_file, sort_upload_files,
  upload_order, validate_allow_image, validate_allow_video,
}
use streaming_service.Upload.Manage.{LocalFile, Page, add_uploading_file_text, clear_uploading_list}

-- A file is taken if it is an image or a video.
abbrev pub is_allowed : ChosenFile → Bool
is_allowed f = validate_allow_image f || validate_allow_video f

-- What a file adds to the list.
abbrev take_allowed : ChosenFile → List LocalFile
take_allowed f = if is_allowed f then local_file f ∷ [] else []

accept-list :
    (c : Choice) (f : ChosenFile) → (accept c f).page.file_list ≡ c.page.file_list ++ take_allowed f
unfolding accept
accept-list c f = ground (arith, append-nil c.page.file_list)

take_allowed-keep :
    (f : ChosenFile) (fs : List ChosenFile)
    → take_allowed f ++ map local_file (keep is_allowed fs)
      ≡ map local_file (keep is_allowed (f ∷ fs))
take_allowed-keep f fs = elim (Bool-cases (is_allowed f)) [
  | inl allowed ↦ rw allowed refl
  | inr other ↦ rw other refl
]

accept_each-list :
    (c : Choice) (fs : List ChosenFile)
    → (accept_each c fs).page.file_list ≡ c.page.file_list ++ map local_file (keep is_allowed fs)
unfolding accept_each accept
accept_each-list c [] = sym (append-nil c.page.file_list)
accept_each-list c (f ∷ fs) =
    accept_each-list (accept c f) fs
    ∙ rw (accept-list c f) (
        append_assoc c.page.file_list (take_allowed f) (map local_file (keep is_allowed fs))
        ∙ ap (λ fs'. c.page.file_list ++ fs') (take_allowed-keep f fs))

accept_each-all_video :
    (c : Choice) (fs : List ChosenFile)
    → (accept_each c fs).page.all_video ≡ (c.page.all_video && not (any_of validate_allow_image fs))
unfolding accept_each accept
accept_each-all_video c [] = ground arith
accept_each-all_video c (f ∷ fs) = ground (arith, accept_each-all_video (accept c f) fs)

accept_each-box :
    (c : Choice) (fs : List ChosenFile)
    → (accept_each c fs).box_disabled ≡ (c.box_disabled || any_of validate_allow_image fs)
unfolding accept_each accept
accept_each-box c [] = ground arith
accept_each-box c (f ∷ fs) = ground (arith, accept_each-box (accept c f) fs)

add_names-list : (p : Page) (fs : List LocalFile) → (add_names p fs).file_list ≡ p.file_list
unfolding add_names add_uploading_file_text
add_names-list p [] = refl
add_names-list p (f ∷ fs) = add_names-list (add_uploading_file_text p f.name) fs

add_names-all_video : (p : Page) (fs : List LocalFile) → (add_names p fs).all_video ≡ p.all_video
unfolding add_names add_uploading_file_text
add_names-all_video p [] = refl
add_names-all_video p (f ∷ fs) = add_names-all_video (add_uploading_file_text p f.name) fs

length-map : {A : Type 0} → {B : Type 0} → (f : A → B) (xs : List A) → length (map f xs) ≡ length xs
length-map f [] = refl
length-map f (x ∷ xs) = ap suc (length-map f xs)

-- The form while the files of a choice are taken.
abbrev begin_choice : Choice → Choice
begin_choice c = record c { page = clear_uploading_list c.page; box_disabled = false }

module _ (locale_compare : Text → Text → Sign) where
  perm_of :
      (selected : Text) (p : Page) (fs : List LocalFile)
      → p.file_list ≡ fs
      → Perm (sort_upload_files locale_compare selected p).file_list fs
  unfolding sort_upload_files add_names add_uploading_file_text
  perm_of selected p [] is = rw is (Perm.refl _)
  perm_of selected p (f ∷ []) is = rw is (Perm.refl _)
  perm_of selected p (f ∷ g ∷ fs) is = rw is (
      rw
        (add_names-list
          (record p {
            file_list = (sort (upload_order locale_compare selected) (f ∷ g ∷ fs));
            name_nodes = [];
          })
          (sort (upload_order locale_compare selected) (f ∷ g ∷ fs)))
        (sort-perm (upload_order locale_compare selected) (f ∷ g ∷ fs)))

  all_video_of :
      (selected : Text) (p : Page) (fs : List LocalFile)
      → p.file_list ≡ fs
      → (sort_upload_files locale_compare selected p).all_video ≡ p.all_video
  unfolding sort_upload_files add_names add_uploading_file_text
  all_video_of selected p [] is = rw is refl
  all_video_of selected p (f ∷ []) is = rw is refl
  all_video_of selected p (f ∷ g ∷ fs) is = rw is (
      add_names-all_video
        (record p {
          file_list = (sort (upload_order locale_compare selected) (f ∷ g ∷ fs));
          name_nodes = [];
        })
        (sort (upload_order locale_compare selected) (f ∷ g ∷ fs)))

  -- A choice takes exactly the images and the videos among the files, each as often as it was
  -- chosen; the files count as videos only exactly if no image is among them, and then the box to
  -- upload them as videos can be used; and the message tells how many files there are.
  pub handle_files-Chosen :
      (selected : Text) (c : Choice) (files : List ChosenFile)
      → let c' = handle_files locale_compare selected c files in
        Perm c'.page.file_list (map local_file (keep is_allowed files))
        × (c'.page.all_video ≡ not (any_of validate_allow_image files))
        × (c'.box_disabled ≡ any_of validate_allow_image files)
        × (c'.told ≡ some (length (keep is_allowed files)))
  unfolding handle_files clear_uploading_list
  handle_files-Chosen selected c files =
      let taken = accept_each (begin_choice c) files in
      (
        perm_of selected taken.page _ (accept_each-list (begin_choice c) files),
        all_video_of selected taken.page taken.page.file_list refl
            ∙ accept_each-all_video (begin_choice c) files,
        accept_each-box (begin_choice c) files,
        ap some (
            ap length (accept_each-list (begin_choice c) files)
            ∙ length-map local_file (keep is_allowed files)),
      )
