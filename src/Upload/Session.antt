-- ===== src/Upload/Session.antt =====
-- `uploadFile` of upload-file.js as a whole: the session, the upload id, the workers.
pub mod Complete
use streaming_service.Base.JsMap
use streaming_service.Base.{
  Bool, List, Option, [], false, if◌then◌else◌, none, not, some, true, ℕ, ◌++◌, ◌||◌, ◌∷◌,
}
use streaming_service.Base.JsMap.{JsMap}
use streaming_service.Base.Text.{Text, codes, starts_with, truthy}
use streaming_service.Upload.Chunks.{Chunk, chunk_file}
use streaming_service.Upload.Workers.{
  Answer, Etag, Job, Pool, answered, finish, refused, run, start_pool, thrown,
}

-- What `uploadingFiles` keeps for a file; the workers push to its `eTags` and raise its counter.
pub record Entry : Type 0 where
  pub file_size : ℕ
  pub session_id : Option Text
  pub upload_id : Option Text
  pub file_name : Text
  pub chunks : List Chunk
  pub etags : List Etag
  pub part_number : ℕ

-- The variables of the page that an upload changes.
pub record Uploads : Type 0 where
  pub uploading : JsMap Entry
  pub fail_texts : List Text
  pub progress : ℕ

-- The arguments of `uploadFile`; `chunks` carries the `partNumber` that a retry sets on it.
pub record Attempt : Type 0 where
  pub file_size : ℕ
  pub file_name : Text
  pub session_id : Option Text
  pub upload_id : Option Text
  pub chunks : Option (List Chunk × ℕ)
  pub etags : Option (List Etag)

-- The answers of the server in this attempt: to `create-session` and `initiate`, if they are
-- asked for, and to the workers.
pub record Replies : Type 0 where
  pub session : Answer
  pub initiate : Answer
  pub answers : List (ℕ × Answer)

-- How a call ends: with a Boolean, with an exception, or it still waits for an answer.
pub data Outcome : Type 0 where
  passed failed waiting : Outcome
  raised : Text → Outcome

pub data Run {ℓ} (A : Type ℓ) : Type ℓ where
  go : Uploads → A → Run A
  stop : Uploads → Outcome → Run A

infixl 5 ◌>>=◌
abbrev pub ◌>>=◌ {ℓ κ} : {A : Type ℓ} {B : Type κ} → Run A → (Uploads × A → Run B) → Run B
go u a >>= f = f (u, a)
stop u o >>= f = stop u o

push_fail : Uploads → Text → Uploads
push_fail u message = record u { fail_texts = u.fail_texts ++ message ∷ [] }

change_entry : (Entry → Entry) → Uploads → Text → Uploads
change_entry f u name = elim (JsMap.get u.uploading name) [
  | none ↦ u
  | some e ↦ record u { uploading = JsMap.set u.uploading name (f e) }
]

-- The chunks of the attempt and the index of the first one to upload.
pub chunks_of : Attempt → List Chunk × ℕ
chunks_of a = elim a.chunks [
  | some cs ↦ cs
  | none ↦ elim (chunk_file a.file_size) [ none ↦ ([], 0) | some cs ↦ (cs, 0) ]
]

pub etags_of : Attempt → List Etag
etags_of a = elim a.etags [ none ↦ [] | some es ↦ es ]

pub first_entry : Attempt → Entry
unfolding chunks_of etags_of
first_entry a = record {
  file_size = a.file_size;
  session_id = a.session_id;
  upload_id = a.upload_id;
  file_name = a.file_name;
  chunks = (chunks_of a).0;
  etags = etags_of a;
  part_number = (chunks_of a).1;
}

-- A session id that is empty or an error text ends the attempt.
check_session : Uploads → Text → Run Text
unfolding push_fail
check_session u s =
    if not (truthy (some s)) || starts_with s (codes "Error:")
    then stop (push_fail u s) failed
    else go u s

session_text : Uploads → Answer → Run Text
session_text u (answered t) = go u t
session_text u (refused t) = go u (codes "Error: Failed to start upload: " ++ t)
session_text u (thrown t) = stop u (raised t)

start_session : Uploads → Option Text → Answer → Run Text
unfolding session_text
start_session u (some s) a = go u s
start_session u none a = session_text u a

initiate_upload : Uploads → Option Text → Answer → Run Text
unfolding push_fail
initiate_upload u (some i) a = go u i
initiate_upload u none (answered []) = stop u failed
initiate_upload u none (answered (c ∷ t)) = go u (c ∷ t)
initiate_upload u none (refused t) = stop (push_fail u (codes "Init: " ++ t)) failed
initiate_upload u none (thrown t) = stop u (raised t)

-- What the workers leave behind.
pub store_pool : Uploads → Text → Pool → Uploads
unfolding change_entry
store_pool u name p =
    let u' = change_entry (λ e. record e { etags = p.etags; part_number = p.part_number }) u name in
    record u' { fail_texts = p.fail_texts; progress = p.progress }

finish_result : Uploads → Text → Pool × Bool → Run (Unit {0})
unfolding store_pool
finish_result u name (q, true) = stop (store_pool u name q) passed
finish_result u name (q, false) = stop (store_pool u name q) failed

finish_jobs : List Job → Uploads → Text → Pool → Run (Unit {0})
unfolding store_pool finish_result
finish_jobs (_ ∷ _) u name p = stop (store_pool u name p) waiting
finish_jobs [] u name p = finish_result u name (finish p)

-- The end of `uploadFile`, which waits as long as a worker runs.
finish_pool : Uploads → Text → Pool → Run (Unit {0})
unfolding finish_jobs
finish_pool u name p = finish_jobs p.busy u name p

to_result : Run (Unit {0}) → Uploads × Outcome
to_result (go u _) = (u, passed)
to_result (stop u o) = (u, o)

module _ (md5 : Chunk → Text) where
  unfoldable pub upload_file : Uploads → Attempt → Replies → Uploads × Outcome
  unfolding first_entry start_session check_session change_entry initiate_upload finish_pool
      to_result
  upload_file u₀ a r =
      let name = a.file_name in
      let u₁ = record u₀ { uploading = JsMap.set u₀.uploading name (first_entry a) } in
      to_result (do
        (u₂, started) ← start_session u₁ a.session_id r.session
        (u₃, session) ← check_session u₂ started
        let u₄ = change_entry (λ e. record e { session_id = some session }) u₃ name
        (u₅, upload) ← initiate_upload u₄ a.upload_id r.initiate
        let u₆ = change_entry (λ e. record e { upload_id = some upload }) u₅ name
        let (chunks, start) = chunks_of a
        let pool = start_pool chunks start (etags_of a) u₆.fail_texts u₆.progress
        finish_pool u₆ name (run md5 pool r.answers))
