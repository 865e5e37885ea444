-- ===== src/Browser/Menu/Deletion.antt =====
-- What the deletion of file-manager-page.js does to the manager of the open folder.
use streaming_service.Base.JsMap
use streaming_service.Base.{
  Bool, Bool-cases, List, [], ap, append-nil, append_assoc, arith, false, inl, inr, is_empty,
  is_some, length, ltb, not, refl, sym, true, ◌&&◌, ◌++◌, ◌||◌, ◌∙◌, ◌∷◌, ◌≡◌,
}
use streaming_service.Base.JsMap.{JsMap}
use streaming_service.Base.Text.{Text, text_eq_refl}
use streaming_service.Browser.Menu.{
  Course, Target, close_delete, crashed, delete_files, delete_loop, delete_notice, delete_request,
  delete_text, done, early, forget_file, pending,
}
use streaming_service.Browser.Selection.{remove_selected_file}
use streaming_service.Browser.State.{
  SelectedFile, State, aborted, display_file_item, given_ids, inform, main_items, send,
}
use streaming_service.Browser.State.Folder.{redraw_dangling}
use streaming_service.FileManager.{
  FileManager, contains, remove_in_id_list_only, remove_in_map_only,
}
use streaming_service.FileManager.Invariant.{IsValid, remove_each_in_map, remove_two_steps-IsValid}
use streaming_service.Upload.Workers.{Answer, answered, refused, thrown}

forget_file-main : (s : State) (k : Text) → (forget_file s k).main ≡ remove_in_map_only s.main k
unfolding forget_file remove_selected_file
forget_file-main s k = elim (Bool-cases (JsMap.has s.selected k)) [
  | inl there ↦ rw there refl
  | inr absent ↦ rw absent refl
]

-- The ids that the loop has deleted before it ends, and the manager then.
record Removed (m : FileManager) (gone : List Text) (r : State × List Text × Course) : Type 0 where
  more : List Text
  ids : r.1 ≡ gone ++ more
  left : r.0.main ≡ remove_each_in_map m more

delete_loop-Removed :
    (s : State) (sel : JsMap SelectedFile) (answers : List Answer) (gone : List Text)
    → Removed s.main gone (delete_loop s sel answers gone)
unfolding delete_loop remove_each_in_map
delete_loop-Removed s [] answers gone = record {
  more = [];
  ids = sym (append-nil gone);
  left = refl;
}
delete_loop-Removed s ((k, f) ∷ sel) [] gone = record {
  more = [];
  ids = sym (append-nil gone);
  left = refl;
}
delete_loop-Removed s ((k, f) ∷ sel) (refused t ∷ answers) gone = record {
  more = [];
  ids = sym (append-nil gone);
  left = refl;
}
delete_loop-Removed s ((k, f) ∷ sel) (thrown t ∷ answers) gone = record {
  more = [];
  ids = sym (append-nil gone);
  left = refl;
}
delete_loop-Removed s ((k, f) ∷ sel) (answered t ∷ answers) gone =
    let s' = inform (send s (delete_request k f)) (delete_notice f) true in
    let rest = delete_loop-Removed (forget_file s' k) sel answers (gone ++ k ∷ []) in
    record {
      more = k ∷ rest.more;
      ids = rest.ids ∙ append_assoc gone (k ∷ []) rest.more;
      left = rest.left ∙ ap (λ m. remove_each_in_map m rest.more) (forget_file-main s' k);
    }

close_delete-IsValid :
    (what : Text) (m : FileManager) (r : State × List Text × Course)
    → IsValid m
    → Removed m [] r
    → (close_delete what r).1 ≡ done
    → IsValid (close_delete what r).0.main
unfolding close_delete
close_delete-IsValid what m (s, gone, done) v removed ends =
    let main : remove_in_id_list_only s.main gone
        ≡ remove_in_id_list_only (remove_each_in_map m removed.more) removed.more =
      ap (λ n. remove_in_id_list_only n gone) removed.left
      ∙ ap (remove_in_id_list_only (remove_each_in_map m removed.more)) removed.ids in
    elim (Bool-cases (ltb 1 (length gone))) [
      | inl several ↦ rw (several, main) (remove_two_steps-IsValid m removed.more v)
      | inr one ↦ rw (one, main) (remove_two_steps-IsValid m removed.more v)
    ]
close_delete-IsValid what m (s, gone, early) v removed ends = absurd (cc)
close_delete-IsValid what m (s, gone, crashed) v removed ends = absurd (cc)
close_delete-IsValid what m (s, gone, pending) v removed ends = absurd (cc)

-- A deletion that runs through keeps the manager of the open folder valid.
pub delete_files-IsValid :
    (s : State) (t : Target) (confirmed : Bool) (answers : List Answer)
    → IsValid s.main
    → (delete_files s t confirmed answers).1 ≡ done
    → IsValid (delete_files s t confirmed answers).0.main
unfolding delete_files
delete_files-IsValid s t confirmed answers v ends =
    elim (Bool-cases (
      (not (is_some t.id) && not (is_some t.media_id)) || (is_empty s.selected || not confirmed))) [
        | inl refuse ↦ rw refuse v
        | inr allow ↦ rw allow (
            close_delete-IsValid (delete_text s t) s.main (delete_loop s s.selected answers []) v
              (delete_loop-Removed s s.selected answers []) (rw allow at ends))
      ]

delete_stopped-main :
    (s : State) (t : Target) (k j : Text) (f g : SelectedFile) (sel : JsMap SelectedFile)
    (ok fault : Text) (answers : List Answer)
    → is_some t.id ≡ true
    → s.selected ≡ (k, f) ∷ (j, g) ∷ sel
    → (delete_files s t true (answered ok ∷ refused fault ∷ answers)).0.main
      ≡ remove_in_map_only s.main k
unfolding delete_files delete_loop close_delete
delete_stopped-main s t k j f g sel ok fault answers target chosen =
    rw (target, chosen)
      (forget_file-main
        (inform (send (record s { selected = (k, f) ∷ (j, g) ∷ sel }) (delete_request k f))
          (delete_notice f) true)
        k)

-- If the deletion of the first file goes through and that of the second is refused, then the list
-- still names the first file, which the map has lost, and redrawing the folder throws.
pub delete_files_dangling :
    (s : State) (t : Target) (k j : Text) (f g : SelectedFile) (sel : JsMap SelectedFile)
    (ok fault : Text) (answers : List Answer)
    → is_some t.id ≡ true
    → s.selected ≡ (k, f) ∷ (j, g) ∷ sel
    → contains s.main.ids k ≡ true
    → let s' = (delete_files s t true (answered ok ∷ refused fault ∷ answers)).0 in
      (display_file_item s' (given_ids []) main_items true false false).1 ≡ aborted
unfolding remove_in_map_only
delete_files_dangling s t k j f g sel ok fault answers target chosen there =
    let s' = (delete_files s t true (answered ok ∷ refused fault ∷ answers)).0 in
    let main = delete_stopped-main s t k j f g sel ok fault answers target chosen in
    redraw_dangling s' k (rw main there)
      (rw main (ground (arith, JsMap.get-delete s.main.items k k, text_eq_refl k)))
