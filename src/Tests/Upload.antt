-- ===== src/Tests/Upload.antt =====
-- Runs of the upload's model: upload-file.js and manage-upload-file.js.
use streaming_service.Base.{List, [], arith, length, refl, some, ℕ, ◌*◌, ◌↔◌, ◌∷◌, ◌≡◌, ◌≤◌}
use streaming_service.Base.Text.{Text, codes, starts_with, text_eq, truthy}
use streaming_service.Upload.Chunks.{
  Chunk, Tiles, chunk_file, chunk_file-Tiles, chunk_size, max_chunk, max_parts,
}
use streaming_service.Upload.Chunks.Count.{parts-le-max_iff}
use streaming_service.Upload.Manage.{LocalFile, fresh_attempt}
use streaming_service.Upload.Session.{Replies, Uploads, passed, upload_file}
use streaming_service.Upload.Session.Complete.{Stored, upload_file-Stored}
use streaming_service.Upload.Workers.{Answer, Etag, Pool, answered, finish, run, start_pool}
use streaming_service.Upload.Workers.Measure.{run_concurrency, run_ends}
use streaming_service.Upload.Workers.Parts.{count_chunks, count_etags}
use streaming_service.Upload.Workers.Parts.Sorted.{ended, retry_complete, retry_misses_part}

-- A file of two parts, and the parts.
abbrev film : LocalFile
film = record { name = codes "a.mp4"; size = 20000000; mime = codes "v"; last_modified = 1 }

abbrev part_one : Chunk
part_one = record { part_number = 1; from = 0; upto = 15728640; size = 15728640 }

abbrev part_two : Chunk
part_two = record { part_number = 2; from = 15728640; upto = 20000000; size = 4271360 }

abbrev parts : List Chunk
parts = part_one ∷ part_two ∷ []

chunk_file-film : chunk_file 20000000 ≡ some parts
unfolding chunk_file
chunk_file-film = refl

abbrev nothing : Uploads
nothing = record { uploading = []; fail_texts = []; progress = 0 }

abbrev same_md5 : Chunk → Text
same_md5 c = codes "m"

abbrev url : Answer
url = answered (codes "u")

abbrev tag : Answer
tag = answered (34 ∷ b'm' ∷ 34 ∷ [])

-- Both parts are stored, the second one first.
abbrev good_answers : List (ℕ × Answer)
good_answers = (0, url) ∷ (1, url) ∷ (1, tag) ∷ (0, tag) ∷ []

abbrev good_replies : Replies
good_replies = record {
  session = answered (codes "s");
  initiate = answered (codes "i");
  answers = good_answers;
}

upload_passes :
    (upload_file same_md5 nothing (fresh_attempt film film.name) good_replies).1 ≡ passed
unfolding upload_file chunk_file run start_pool finish truthy starts_with text_eq
upload_passes = refl

upload_file-Stored_example :
    Stored
      (upload_file same_md5 nothing (fresh_attempt film film.name) good_replies).0
      film.name
      20000000
upload_file-Stored_example =
    upload_file-Stored same_md5 nothing film film.name good_replies upload_passes

chunk_file-Tiles_example :
    (cs : List Chunk) × (chunk_file 20000000 ≡ some cs)
    × Tiles (chunk_size 20000000) 20000000 0 1 cs
chunk_file-Tiles_example = chunk_file-Tiles 20000000

-- The workers of the file.
abbrev pool : Pool
pool = start_pool parts 0 [] [] 0

run_ends_example : (run same_md5 pool good_answers).busy ≡ []
unfolding run start_pool text_eq
run_ends_example =
    run_ends same_md5 pool good_answers (refl, (refl, (refl, (refl, tt)))) (omega arith)

run_concurrency_example : length (run same_md5 pool good_answers).busy ≤ 4
run_concurrency_example = run_concurrency same_md5 parts 0 [] [] 0 good_answers

-- A retry from the second part on, after the first has been stored.
abbrev first_etag : List Etag
first_etag = (record { part = 1; etag = codes "m" }) ∷ []

abbrev retry_answers : List (ℕ × Answer)
retry_answers = (0, url) ∷ (0, tag) ∷ []

retry_complete_example :
    count_etags 2 (finish (ended same_md5 parts 1 first_etag [] 0 retry_answers)).0.etags
    ≡ count_chunks 2 parts
unfolding run start_pool finish text_eq
retry_complete_example =
    retry_complete same_md5 parts first_etag [] 0 retry_answers (λ n. refl) refl refl 2

-- A retry after the second part has been stored and the first has failed.
abbrev second_etag : List Etag
second_etag = (record { part = 2; etag = codes "m" }) ∷ []

retry_misses_part_example :
    count_etags 1 (finish (ended same_md5 parts 1 second_etag [] 0 retry_answers)).0.etags ≡ 0
unfolding run start_pool finish text_eq
retry_misses_part_example =
    retry_misses_part same_md5 parts second_etag [] 0 retry_answers 1 refl refl refl refl

parts-le-max_iff_example : (2 ≤ max_parts) ↔ (20000000 ≤ max_parts * max_chunk)
parts-le-max_iff_example = parts-le-max_iff 20000000 parts chunk_file-film
