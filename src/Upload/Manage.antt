-- ===== src/Upload/Manage.antt =====
-- The upload form of manage-upload-file.js: `manageUploadFile`, its `endSession`, the submit button.
pub mod FirstPass
pub mod Retry
use streaming_service.Base.JsMap
use streaming_service.Base.{
  Bool, List, Option, [], false, if◌then◌else◌, inl, inr, is_empty, leb, length, map, none, some,
  true, ℕ, ◌&&◌, ◌++◌, ◌+◌, ◌==◌, ◌∷◌, ◌⊎◌,
}
use streaming_service.Base.JsMap.{JsMap}
use streaming_service.Base.Text.{Text, codes, starts_with}
use streaming_service.Browser.PathStack.{PathNode, current_path, full_current_path}
use streaming_service.Upload.Chunks.{Chunk}
use streaming_service.Upload.Paths.{get_dir_path, video_title}
use streaming_service.Upload.Session.{
  Attempt, Entry, Outcome, Replies, Uploads, failed, passed, raised, upload_file, waiting,
}
use streaming_service.Upload.Workers.{Answer, Etag, answered, refused, thrown}

pub record LocalFile : Type 0 where
  pub name : Text
  pub size : ℕ
  pub mime : Text
  pub last_modified : ℕ

-- A request that ends an upload session, as it is sent.
pub record EndRequest : Type 0 where
  pub video : Bool
  pub upload_id : Option Text
  pub etags : List Etag
  pub title : Option Text
  pub is_last : Bool

-- The page: `Uploads`, the chosen files, the list nodes by file name, the totals and the flags,
-- the messages in the error box, and the requests that have been sent to end a session.
pub record Page : Type 0 where
  pub uploads : Uploads
  pub file_list : List LocalFile
  pub name_nodes : JsMap (Unit {0})
  pub total_progress : ℕ
  pub all_video : Bool
  pub as_video : Bool
  pub submitting : Bool
  pub retry_label : Bool
  pub shown : List Text
  pub ended : List EndRequest

-- The server's answers for one file.
pub record FileReplies : Type 0 where
  pub upload : Replies
  pub end : Answer

-- `displayFailTexts(currentFailTexts)` empties the list that it shows.
unfoldable pub display_fail_texts : Page → Page
display_fail_texts p = record p {
  shown = p.shown ++ p.uploads.fail_texts;
  uploads = record (p.uploads) { fail_texts = [] };
}

-- `name.replace(/\\/g, '/')` in `addUploadingFileText`
abbrev slashes : Text → Text
slashes = map (λ c. if c == 92 then b'/' else c)

unfoldable pub add_uploading_file_text : Page → Text → Page
add_uploading_file_text p name = record p { name_nodes = JsMap.set p.name_nodes (slashes name) tt }

-- What `endVideoUploadSession` and `endFileSession` return.
end_message : Bool → Answer → Text ⊎ Text
end_message true (answered t) = inl t
end_message false (answered t) = inl (codes "Success")
end_message true (refused t) = inl (codes "Error: Failed to finalize video upload: " ++ t)
end_message false (refused t) = inl (codes "Error: Failed to finalize file upload: " ++ t)
end_message _ (thrown t) = inr t

pub data Ended : Type 0 where
  closed rejected : Ended
  broken : Text → Ended

judge : Page → Text ⊎ Text → Page × Ended
judge p (inr e) = (p, broken e)
judge p (inl message) =
    if starts_with message (codes "Error:")
    then (record p { shown = p.shown ++ message ∷ [] }, rejected)
    else (p, closed)

-- `endSession(fileInfo, filename, isLast)`
unfoldable pub end_session : Page → Entry → Text → Bool → Answer → Page × Ended
unfolding end_message judge
end_session p e name is_last a =
    let request : EndRequest = record {
      video = p.all_video;
      upload_id = e.upload_id;
      etags = e.etags;
      title = if p.all_video then some (video_title name) else none;
      is_last = is_last;
    } in
    judge (record p { ended = p.ended ++ request ∷ [] }) (end_message p.all_video a)

-- What `get(key).remove()` does on a key that the map lacks.
abbrev pub type_error : Outcome
type_error = raised (codes "TypeError")

-- The file is done: its entry goes, and its line leaves the list.
unfoldable pub drop_file : Page → Text → Text → Page × Outcome
drop_file p key node =
    let p' = record p {
      uploads = record (p.uploads) { uploading = JsMap.delete p.uploads.uploading key };
    } in
    if JsMap.has p.name_nodes node
    then (record p' { name_nodes = JsMap.delete p.name_nodes node }, passed)
    else (p', type_error)

-- After the upload of a file: show why it failed, or end its session. `passed` lets the loop go on.
after_end : Page × Ended → Text → Text → Page × Outcome
unfolding drop_file
after_end (p, rejected) key node = (p, passed)
after_end (p, broken e) key node = (p, raised e)
after_end (p, closed) key node = drop_file p key node

end_entry : Page → Option Entry → Text → Text → Text → Bool → Answer → Page × Outcome
unfolding after_end end_session
end_entry p none key name node is_last a = (p, type_error)
end_entry p (some e) key name node is_last a = after_end (end_session p e name is_last a) key node

after_upload : Page → Outcome → Text → Text → Text → Bool → Answer → Page × Outcome
unfolding end_entry display_fail_texts
after_upload p waiting key name node is_last a = (p, waiting)
after_upload p (raised e) key name node is_last a = (p, raised e)
after_upload p failed key name node is_last a = (display_fail_texts p, passed)
after_upload p passed key name node is_last a =
    end_entry p (JsMap.get p.uploads.uploading key) key name node is_last a

-- The rest of a loop, after a round that has neither thrown nor still waits.
pub and_then : Page × Outcome → (Page → Page × Outcome) → Page × Outcome
and_then (p, passed) rest = rest p
and_then (p, failed) rest = (p, failed)
and_then (p, waiting) rest = (p, waiting)
and_then (p, raised e) rest = (p, raised e)

abbrev pub fresh_attempt : LocalFile → Text → Attempt
fresh_attempt f name = record {
  file_size = f.size;
  file_name = name;
  session_id = none;
  upload_id = none;
  chunks = none;
  etags = none;
}

-- A retry goes on with what the entry has: its ids, its ETags, its chunks from `partNumber` on.
abbrev pub retry_attempt : Entry → Attempt
retry_attempt e = record {
  file_size = e.file_size;
  file_name = e.file_name;
  session_id = e.session_id;
  upload_id = e.upload_id;
  chunks = some (e.chunks, e.part_number);
  etags = some e.etags;
}

module _ (md5 : Chunk → Text) where
  -- One round of the loop over the chosen files.
  unfoldable pub upload_one : Page → Text → LocalFile → Bool → FileReplies → Page × Outcome
  unfolding after_upload
  upload_one p full_path f is_last r =
      let name = get_dir_path full_path (some f.name) in
      let (u, o) = upload_file md5 p.uploads (fresh_attempt f name) r.upload in
      after_upload (record p { uploads = u }) o name name f.name is_last r.end

  -- `i >= fileList.length - 1` holds when no file is left behind this one.
  unfoldable pub upload_each : Page → Text → List LocalFile → List FileReplies → Page × Outcome
  unfolding upload_one and_then
  upload_each p path [] rs = (p, passed)
  upload_each p path (f ∷ fs) [] = (p, waiting)
  upload_each p path (f ∷ fs) (r ∷ rs) =
      and_then (upload_one p path f (is_empty fs) r) (λ q. upload_each q path fs rs)

  -- One round of the loop over the files that have failed before.
  unfoldable pub reupload_one : Page → Text → Option Entry → Bool → FileReplies → Page × Outcome
  unfolding after_upload
  reupload_one p key none is_last r = (p, type_error)
  reupload_one p key (some e) is_last r =
      let (u, o) = upload_file md5 p.uploads (retry_attempt e) r.upload in
      after_upload (record p { uploads = u }) o key e.file_name e.file_name is_last r.end

  -- The loop's `i` counts from 0, and the last file is told by `i >= total`.
  unfoldable pub reupload_each : ℕ → ℕ → Page → List Text → List FileReplies → Page × Outcome
  unfolding reupload_one and_then
  reupload_each total i p [] rs = (p, passed)
  reupload_each total i p (k ∷ ks) [] = (p, waiting)
  reupload_each total i p (k ∷ ks) (r ∷ rs) =
      and_then (reupload_one p k (JsMap.get p.uploads.uploading k) (leb total i) r)
        (λ q. reupload_each total (i + 1) q ks rs)

-- `clearUploadingList`
unfoldable pub clear_uploading_list : Page → Page
clear_uploading_list p = record p {
  uploads = record { uploading = []; fail_texts = []; progress = 0 };
  file_list = [];
  name_nodes = [];
  total_progress = 0;
  all_video = true;
  retry_label = false;
  shown = [];
}

-- After the loop: the button says `Retry` if a file is left, and otherwise the form is cleared.
conclude : Page × Outcome → Page × Outcome
unfolding clear_uploading_list
conclude (p, passed) = elim p.uploads.uploading [
  | [] ↦ (clear_uploading_list p, passed)
  | _ ∷ _ ↦
      (record p { retry_label = true; uploads = record (p.uploads) { fail_texts = [] } }, passed)
]
conclude (p, o) = (p, o)

sum_sizes : List LocalFile → ℕ
sum_sizes [] = 0
sum_sizes (f ∷ fs) = f.size + sum_sizes fs

-- The end of the click handler: it is reached only if nothing was thrown.
release : Page × Outcome → Page × Outcome
release (p, passed) = (record p { submitting = false }, passed)
release (p, o) = (p, o)

-- `validateAllowUpload`: files must be chosen and a folder must be open.
validate_allow_upload : List LocalFile → Option PathNode → Bool
validate_allow_upload [] folder = false
validate_allow_upload (f ∷ fs) none = false
validate_allow_upload (f ∷ fs) (some n) = true

-- The total of the progress bar grows by the chosen files unless files are left for a retry.
start_total : JsMap Entry → ℕ → List LocalFile → ℕ
unfolding sum_sizes
start_total [] total fs = total + sum_sizes fs
start_total (x ∷ m) total fs = total

module _ (md5 : Chunk → Text) where
  -- The two loops: over the chosen files, or over those that failed before.
  manage_loop : JsMap Entry → Page → Text → List FileReplies → Page × Outcome
  unfolding upload_each reupload_each
  manage_loop [] p path rs = upload_each md5 p path p.file_list rs
  manage_loop (x ∷ m) p path rs = reupload_each md5 (length (x ∷ m)) 0 p (JsMap.keys (x ∷ m)) rs

  unfoldable pub manage_upload_file : Page → Text → List FileReplies → Page × Outcome
  unfolding manage_loop conclude
  manage_upload_file p path rs =
      conclude (
        manage_loop p.uploads.uploading (record p { all_video = p.all_video && p.as_video }) path
          rs)

  -- The click handler behind its two guards.
  submit_allowed : Page → List PathNode → List FileReplies → Page × Outcome
  unfolding manage_upload_file release start_total
  submit_allowed p stack rs =
      let total = start_total p.uploads.uploading p.total_progress p.file_list in
      release (
        manage_upload_file (record p { submitting = true; total_progress = total; shown = [] })
          (full_current_path stack) rs)

  -- A click on the submit button, with the folders that are open.
  unfoldable pub submit : Page → List PathNode → List FileReplies → Page × Outcome
  unfolding submit_allowed validate_allow_upload
  submit p stack rs =
      if p.submitting
      then (p, passed)
      else (if validate_allow_upload p.file_list (current_path stack)
          then submit_allowed (record p { retry_label = false }) stack rs
          else (record p { retry_label = false }, passed))
