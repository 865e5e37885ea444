-- ===== src/Upload/Session/Complete.antt =====
-- `uploadFile` of upload-file.js from its start to its end: what it leaves of a file that passed.
use streaming_service.Base.JsMap
use streaming_service.Base.{
  Bool, Bool-cases, List, [], ap, arith, false, inl, inr, none, not, refl, some, sym, true, ℕ, ◌++◌,
  ◌+◌, ◌<◌, ◌==◌, ◌||◌, ◌∙◌, ◌∷◌, ◌≡◌, ◌≢◌, ◌≤◌, ◌⊎◌,
}
use streaming_service.Base.JsMap.{JsMap}
use streaming_service.Base.Text.{Text, codes, starts_with, text_eq_refl, truthy}
use streaming_service.Browser.Messages.{step}
use streaming_service.Upload.Chunks.{Chunk, Tiles, chunk_file-Tiles, chunk_size}
use streaming_service.Upload.Manage.{LocalFile, fresh_attempt}
use streaming_service.Upload.Session.{
  Entry, Outcome, Replies, Run, Uploads, change_entry, check_session, chunks_of, etags_of, failed,
  finish_jobs, finish_pool, finish_result, first_entry, go, initiate_upload, passed, push_fail,
  raised, session_text, start_session, stop, store_pool, to_result, upload_file, ◌>>=◌,
}
use streaming_service.Upload.Workers.{
  Answer, Job, Pool, answered, finish, refused, run, start_pool, thrown,
}
use streaming_service.Upload.Workers.Parts.{count_chunks, count_etags}
use streaming_service.Upload.Workers.Parts.Sorted.{StrictlyRising, first_attempt_complete}

-- The numbers of tiles.
count_below :
    (step size from part n : ℕ) (cs : List Chunk)
    → Tiles step size from part cs
    → n < part
    → count_chunks n cs ≡ 0
count_below step size from part n [] t h = refl
count_below step size from part n (c ∷ cs) t h =
    let rest = count_below step size c.upto (part + 1) n cs t.6 (omega arith) in
    let part_is = t.0 in ground arith

count_once :
    (step size from part n : ℕ) (cs : List Chunk)
    → Tiles step size from part cs
    → count_chunks n cs ≤ 1
count_once step size from part n [] t = omega arith
count_once step size from part n (c ∷ cs) t =
    let rest = count_once step size c.upto (part + 1) n cs t.6 in
    let part_is = t.0 in
    elim (Bool-cases (c.part_number == n)) [
      | inl e ↦
          let none_left = count_below step size c.upto (part + 1) n cs t.6 (ground arith) in
          ground arith
      | inr e ↦ ground arith
    ]

-- How the workers must have ended for the upload to pass, and what they leave.
record Passed (u : Uploads) (name : Text) (p : Pool) (r : Uploads × Outcome) : Type 0 where
  idle : p.busy ≡ []
  good : (finish p).1 ≡ true
  left : r.0 ≡ store_pool u name (finish p).0

finish_result-passed :
    (u : Uploads) (name : Text) (q : Pool × Bool)
    → (to_result (finish_result u name q)).1 ≡ passed
    → (q.1 ≡ true) × ((to_result (finish_result u name q)).0 ≡ store_pool u name q.0)
unfolding finish_result to_result
finish_result-passed u name (q, true) h = (refl, refl)
finish_result-passed u name (q, false) h = absurd (cc)

finish_jobs-Passed :
    (u : Uploads) (name : Text) (p : Pool) (js : List Job)
    → p.busy ≡ js
    → (to_result (finish_jobs js u name p)).1 ≡ passed
    → Passed u name p (to_result (finish_jobs js u name p))
unfolding finish_jobs to_result
finish_jobs-Passed u name p [] b h =
    let (good, left) = finish_result-passed u name (finish p) h in
    record { idle = b; good = good; left = left }
finish_jobs-Passed u name p (j ∷ js) b h = absurd (cc)

finish_pool-Passed :
    (u : Uploads) (name : Text) (p : Pool)
    → (to_result (finish_pool u name p)).1 ≡ passed
    → Passed u name p (to_result (finish_pool u name p))
unfolding finish_pool
finish_pool-Passed u name p h = finish_jobs-Passed u name p p.busy refl h

-- The entry of a file after the workers.
store_pool-get :
    (u : Uploads) (name : Text) (p : Pool) (e : Entry)
    → JsMap.get u.uploading name ≡ some e
    → JsMap.get (store_pool u name p).uploading name
      ≡ some (record e { etags = p.etags; part_number = p.part_number })
unfolding store_pool change_entry
store_pool-get u name p e h =
    rw (h, change_entry)
      (rw
        (
          JsMap.get-set u.uploading name (record e { etags = p.etags; part_number = p.part_number })
              name,
          text_eq_refl name,
        )
        refl)

change_entry-get :
    (g : Entry → Entry) (u : Uploads) (name : Text) (e : Entry)
    → JsMap.get u.uploading name ≡ some e
    → JsMap.get (change_entry g u name).uploading name ≡ some (g e)
unfolding change_entry
change_entry-get g u name e h =
    rw (h, change_entry) (rw (JsMap.get-set u.uploading name (g e) name, text_eq_refl name) refl)

-- The entry of a file that is stored as a whole: its chunks tile the file, and its ETags are one for
-- each chunk, in the order of their part numbers.
pub record IsStored (size : ℕ) (e : Entry) : Type 0 where
  pub tiles : Tiles (chunk_size size) size 0 1 e.chunks
  pub rising : StrictlyRising e.etags
  pub all : (n : ℕ) → count_etags n e.etags ≡ count_chunks n e.chunks

-- An entry of a file that is stored, as it stands in the map.
pub Stored : Uploads → Text → ℕ → Type 0
Stored u name size = (e : Entry) × (JsMap.get u.uploading name ≡ some e) × IsStored size e

workers-Stored :
    (md5 : Chunk → Text) (u : Uploads) (name : Text) (size : ℕ) (e : Entry) (start : ℕ)
    (answers : List (ℕ × Answer))
    → start ≡ 0
    → JsMap.get u.uploading name ≡ some e
    → Tiles (chunk_size size) size 0 1 e.chunks
    → let p = run md5 (start_pool e.chunks start [] u.fail_texts u.progress) answers in
      (to_result (finish_pool u name p)).1 ≡ passed
      → Stored (to_result (finish_pool u name p)).0 name size
unfolding Stored
workers-Stored md5 u name size e start answers first there tiles h₀ =
    let p = run md5 (start_pool e.chunks start [] u.fail_texts u.progress) answers in
    let w = finish_pool-Passed u name p h₀ in
    let p₀ = run md5 (start_pool e.chunks 0 [] u.fail_texts u.progress) answers in
    let same : p ≡ p₀ =
      ap (λ k. run md5 (start_pool e.chunks k [] u.fail_texts u.progress) answers) first in
    let (rising, all) =
      first_attempt_complete md5 e.chunks u.fail_texts u.progress answers
        (λ n. count_once (chunk_size size) size 0 1 n e.chunks tiles)
        (ap (λ q. q.busy) (sym same) ∙ w.idle) (ap (λ q. (finish q).1) (sym same) ∙ w.good) in
    let left : (to_result (finish_pool u name p)).0 ≡ store_pool u name (finish p₀).0 =
      w.left ∙ ap (λ q. store_pool u name (finish q).0) same in
    (
      record e { etags = (finish p₀).0.etags; part_number = (finish p₀).0.part_number },
      ap (λ v. JsMap.get v.uploading name) left ∙ store_pool-get u name (finish p₀).0 e there,
      record { tiles = tiles; rising = rising; all = all },
    )

fresh_chunks :
    (f : LocalFile) (name : Text)
    → let cs = chunks_of (fresh_attempt f name) in
      (cs.1 ≡ 0) × Tiles (chunk_size f.size) f.size 0 1 cs.0
unfolding chunks_of
fresh_chunks f name =
    let (cs, cut, tiles) = chunk_file-Tiles f.size in
    (rw (cut, chunks_of) refl, rw (cut, chunks_of) tiles)

fresh_etags : (f : LocalFile) (name : Text) → etags_of (fresh_attempt f name) ≡ []
unfolding etags_of
fresh_etags f name = refl

-- A step that goes on, or ends the attempt without having passed.
Proceeds : Uploads → Run Text → Type 0
Proceeds u m =
    ((t : Text) × (m ≡ go u t)) ⊎ ((v : Uploads) × (o : Outcome) × (m ≡ stop v o) × (o ≢ passed))

start_session-Proceeds : (u : Uploads) (a : Answer) → Proceeds u (start_session u none a)
unfolding start_session session_text Proceeds
start_session-Proceeds u (answered t) = inl (t, refl)
start_session-Proceeds u (refused t) = inl (_, refl)
start_session-Proceeds u (thrown t) = inr (u, raised t, refl, λ h. cc)

check_session-Proceeds : (u : Uploads) (s : Text) → Proceeds u (check_session u s)
unfolding check_session Proceeds
check_session-Proceeds u s =
    elim (Bool-cases (not (truthy (some s)) || starts_with s (codes "Error:"))) [
      | inl bad ↦ rw bad (inr (push_fail u s, failed, refl, λ h. cc))
      | inr good ↦ rw good (inl (s, refl))
    ]

initiate_upload-Proceeds : (u : Uploads) (a : Answer) → Proceeds u (initiate_upload u none a)
unfolding initiate_upload Proceeds
initiate_upload-Proceeds u (answered []) = inr (u, failed, refl, λ h. cc)
initiate_upload-Proceeds u (answered (c ∷ t)) = inl (c ∷ t, refl)
initiate_upload-Proceeds u (refused t) =
    inr (push_fail u (codes "Init: " ++ t), failed, refl, λ h. cc)
initiate_upload-Proceeds u (thrown t) = inr (u, raised t, refl, λ h. cc)

-- What comes after a step is asked only if the step goes on.
after_step :
    (u : Uploads) (m : Run Text) (f : Uploads × Text → Run (Unit {0})) (G : Uploads → Type 0)
    → Proceeds u m
    → ((t : Text) → (to_result (f (u, t))).1 ≡ passed → G (to_result (f (u, t))).0)
    → (to_result (m >>= f)).1 ≡ passed
    → G (to_result (m >>= f)).0
unfolding Proceeds to_result
after_step u m f G (inl (t, e)) next h = rw e (next t (rw e at h))
after_step u m f G (inr (v, o, e, bad)) next h = absurd (bad (rw e at h))

-- A first attempt that passes leaves an entry of the file that is stored as a whole: whatever the
-- answers of the server and their order, `uploadFile` returns true only with an ETag for every part.
pub upload_file-Stored :
    (md5 : Chunk → Text) (u : Uploads) (f : LocalFile) (name : Text) (r : Replies)
    → (upload_file md5 u (fresh_attempt f name) r).1 ≡ passed
    → Stored (upload_file md5 u (fresh_attempt f name) r).0 name f.size
unfolding upload_file etags_of first_entry
upload_file-Stored md5 u f name r h =
    let a = fresh_attempt f name in
    let (first, tiles) = fresh_chunks f name in
    let u₁ = record u { uploading = JsMap.set u.uploading name (first_entry a) } in
    let e₁ : JsMap.get u₁.uploading name ≡ some (first_entry a) =
      rw (JsMap.get-set u.uploading name (first_entry a) name, text_eq_refl name) refl in
    let G = λ (v : Uploads). Stored v name f.size in
    after_step u₁ (start_session u₁ none r.session) _ G (start_session-Proceeds u₁ r.session)
      (λ started.
        after_step u₁ (check_session u₁ started) _ G (check_session-Proceeds u₁ started) (λ session.
          let in_session = λ (e : Entry). record e { session_id = some session } in
          let u₄ = change_entry in_session u₁ name in
          let e₄ = change_entry-get in_session u₁ name (first_entry a) e₁ in
          after_step u₄ (initiate_upload u₄ none r.initiate) _ G
            (initiate_upload-Proceeds u₄ r.initiate)
            (λ upload passed_at_end.
              let with_id = λ (e : Entry). record e { upload_id = some upload } in
              let u₆ = change_entry with_id u₄ name in
              workers-Stored md5 u₆ name f.size (with_id (in_session (first_entry a)))
                (chunks_of a).1 r.answers first
                (change_entry-get with_id u₄ name (in_session (first_entry a)) e₄) tiles
                passed_at_end)))
      h
