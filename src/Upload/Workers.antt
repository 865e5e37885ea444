-- ===== src/Upload/Workers.antt =====
-- The workers of `uploadFile` in upload-file.js. At most four run at a time over one list of
-- tasks; between two `await`s a worker is not interrupted, so the pool moves from answer to
-- answer of the server.
pub mod Measure
pub mod Parts
use streaming_service.Base.{
  Bool, List, Option, [], drop, false, get_elem?, if◌then◌else◌, keep, length, ltb, min, none, not,
  some, suc, true, zero, ℕ, ◌++◌, ◌+◌, ◌==◌, ◌∷◌,
}
use streaming_service.Base.Text.{Text, codes, decimal, text_eq}
use streaming_service.Upload.Chunks.{Chunk}

-- What an `await` gives: a text (a URL, an ETag), the text of a response that is not `ok`, or an
-- exception's message (no connection, no login, no ETag header).
pub data Answer : Type 0 where
  answered : Text → Answer
  refused : Text → Answer
  thrown : Text → Answer

-- What a worker waits for: the URL of its part, or the store's reply to the bytes.
pub data Job : Type 0 where
  presigning : Chunk → Job
  putting : Chunk → Job

pub record Etag : Type 0 where
  pub part : ℕ
  pub etag : Text

-- The variables that the workers of one file share; a worker that ended is not in `busy`.
pub record Pool : Type 0 where
  pub tasks : List Chunk
  pub busy : List Job
  pub has_error : Bool
  pub etags : List Etag
  pub part_number : ℕ
  pub fail_texts : List Text
  pub progress : ℕ

-- The test of the `while` loop and `tasks.shift()`: the worker begins its next part, or ends.
pub take_task : List Chunk → Bool → List Chunk × List Job
take_task [] e = ([], [])
take_task (c ∷ cs) true = (c ∷ cs, [])
take_task (c ∷ cs) false = (cs, presigning c ∷ [])

-- `res.headers.get('ETag').replace(/"/g, '')`
abbrev pub strip_quotes : Text → Text
strip_quotes = keep (λ c. not (c == 34))

pub set_jobs : List Job → ℕ → List Job → List Job
set_jobs [] i js = []
set_jobs (j ∷ rest) zero js = js ++ rest
set_jobs (j ∷ rest) (suc i) js = j ∷ set_jobs rest i js

-- The `catch` block; the worker that it ends leaves `busy`.
unfoldable pub fail_worker : Pool → ℕ → Text → Pool
unfolding set_jobs
fail_worker p i message = record p {
  busy = set_jobs p.busy i [];
  has_error = true;
  fail_texts = p.fail_texts ++ message ∷ [];
}

-- A part is stored: its ETag is kept, the counter of the file grows, and so does the progress
-- bar. Then the worker goes on.
unfoldable pub store_part : Pool → ℕ → Chunk → Text → Pool
unfolding take_task set_jobs
store_part p i c tag =
    let next = take_task p.tasks p.has_error in
    record p {
      tasks = next.0;
      busy = set_jobs p.busy i next.1;
      etags = p.etags ++ (record { part = c.part_number; etag = tag }) ∷ [];
      part_number = p.part_number + 1;
      progress = p.progress + c.size;
    }

integrity_text : Chunk → Text → Text → Text
integrity_text c expected got =
    codes "Integrity check failed for Part "
    ++ (decimal c.part_number ++ (codes "! Expected " ++ (expected ++ (codes ", got " ++ got))))

-- The MD5 of a chunk's bytes comes from the library SparkMD5 and the file.
module _ (md5 : Chunk → Text) where
  -- The reply to the bytes: the store's ETag must be the MD5 of the part.
  unfoldable pub on_put : Pool → ℕ → Chunk → Answer → Pool
  unfolding fail_worker store_part integrity_text
  on_put p i c (refused message) = fail_worker p i (codes "Upload: " ++ message)
  on_put p i c (thrown message) = fail_worker p i message
  on_put p i c (answered tag) =
      if text_eq (md5 c) (strip_quotes tag)
      then store_part p i c (strip_quotes tag)
      else fail_worker p i (integrity_text c (md5 c) (strip_quotes tag))

  unfoldable pub on_job : Pool → ℕ → Option Job → Answer → Pool
  unfolding on_put set_jobs
  on_job p i none a = p
  on_job p i (some (presigning c)) (refused message) =
      fail_worker p i (codes "Presign: " ++ message)
  on_job p i (some (presigning c)) (thrown message) = fail_worker p i message
  on_job p i (some (presigning c)) (answered url) = record p {
    busy = set_jobs p.busy i (putting c ∷ []);
  }
  on_job p i (some (putting c)) a = on_put p i c a

  -- The `i`-th running worker gets its answer.
  unfoldable pub resume : Pool → ℕ → Answer → Pool
  unfolding on_job
  resume p i a = on_job p i (get_elem? p.busy i) a

  -- A schedule of answers, in the order in which they arrive.
  unfoldable pub run : Pool → List (ℕ × Answer) → Pool
  unfolding resume
  run p [] = p
  run p ((i, a) ∷ rest) = run (resume p i a) rest

abbrev pub concurrency_limit : ℕ
concurrency_limit = 4

start_workers : ℕ → Pool → Pool
unfolding take_task
start_workers zero p = p
start_workers (suc n) p =
    let next = take_task p.tasks p.has_error in
    start_workers n (record p { tasks = next.0; busy = p.busy ++ next.1 })

-- The pool of a file: the chunks from `startIdx` on are its tasks.
unfoldable pub start_pool : List Chunk → ℕ → List Etag → List Text → ℕ → Pool
unfolding start_workers
start_pool chunks start etags fails progress =
    let tasks = drop start chunks in
    start_workers (min concurrency_limit (length tasks)) (record {
      tasks = tasks;
      busy = [];
      has_error = false;
      etags = etags;
      part_number = start;
      fail_texts = fails;
      progress = progress;
    })

-- `eTags.sort((a, b) => a.partNumber - b.partNumber)`: a stable sort, by insertion.
insert_etag : Etag → List Etag → List Etag
insert_etag x [] = x ∷ []
insert_etag x (y ∷ ys) =
    let rest = insert_etag x ys in if ltb x.part y.part then x ∷ y ∷ ys else y ∷ rest

insert_etags : List Etag → List Etag → List Etag
unfolding insert_etag
insert_etags acc [] = acc
insert_etags acc (x ∷ xs) = insert_etags (insert_etag x acc) xs

unfoldable pub sort_etags : List Etag → List Etag
unfolding insert_etags
sort_etags xs = insert_etags [] xs

-- After `Promise.all`: no running worker is left. The result says if the file passed.
unfoldable pub finish : Pool → Pool × Bool
unfolding sort_etags
finish p = if p.has_error then (p, false) else (record p { etags = sort_etags p.etags }, true)
