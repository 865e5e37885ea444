-- ===== src/Upload/Workers/Parts/Sorted.antt =====
-- What `uploadFile` in upload-file.js leaves in `eTags` when it returns true, and what a retry does.
use streaming_service.Base.{
  All, Bool-cases, List, [], arith, drop, false, inl, inr, length, ltb, min, refl, suc, take, tests,
  true, zero, ℕ, ◌++◌, ◌+◌, ◌-◌, ◌<◌, ◌∷◌, ◌≡◌, ◌≤◌,
}
use streaming_service.Base.Text.{Text}
use streaming_service.Upload.Chunks.{Chunk}
use streaming_service.Upload.Workers.{
  Answer, Etag, Pool, concurrency_limit, finish, insert_etag, insert_etags, run, sort_etags,
  start_pool, start_workers, take_task,
}
use streaming_service.Upload.Workers.Parts.{
  Inv, append-eq-nil, count_chunks, count_etags, count_jobs-append, count_pool, run-Inv,
  take_task_count, take_task_live,
}

insert_etag-count :
    (n : ℕ) (x : Etag) (ys : List Etag) → count_etags n (insert_etag x ys) ≡ count_etags n (x ∷ ys)
unfolding insert_etag
insert_etag-count n x [] = refl
insert_etag-count n x (y ∷ ys) = elim (Bool-cases (ltb x.part y.part)) [
  | inl e ↦ rw e
  | inr e ↦ rw e (omega (arith, insert_etag-count n x ys))
]

insert_etags-count :
    (n : ℕ) (acc xs : List Etag)
    → count_etags n (insert_etags acc xs) ≡ count_etags n acc + count_etags n xs
unfolding insert_etags
insert_etags-count n acc [] = omega arith
insert_etags-count n acc (x ∷ xs) =
    omega (arith, insert_etags-count n (insert_etag x acc) xs, insert_etag-count n x acc)

sort_etags-count : (n : ℕ) (xs : List Etag) → count_etags n (sort_etags xs) ≡ count_etags n xs
unfolding sort_etags
sort_etags-count n xs = omega (arith, insert_etags-count n [] xs)

-- The part numbers never fall, and strictly rise.
abbrev pub Rising : List Etag → Type 0
Rising [] = Unit {0}
Rising (x ∷ xs) = All (λ y. x.part ≤ y.part) xs × Rising xs

abbrev pub StrictlyRising : List Etag → Type 0
StrictlyRising [] = Unit {0}
StrictlyRising (x ∷ xs) = All (λ y. x.part < y.part) xs × StrictlyRising xs

All-le_trans :
    (a b : ℕ) (ys : List Etag) → a ≤ b → All (λ y. b ≤ y.part) ys → All (λ y. a ≤ y.part) ys
All-le_trans a b [] h hs = tt
All-le_trans a b (y ∷ ys) h hs = (omega arith, All-le_trans a b ys h hs.1)

All-insert_etag :
    (a : ℕ) (x : Etag) (ys : List Etag)
    → a ≤ x.part
    → All (λ y. a ≤ y.part) ys
    → All (λ y. a ≤ y.part) (insert_etag x ys)
unfolding insert_etag
All-insert_etag a x [] h hs = (h, tt)
All-insert_etag a x (y ∷ ys) h hs = elim (Bool-cases (ltb x.part y.part)) [
  | inl e ↦ rw e (h, hs)
  | inr e ↦ rw e (hs.0, All-insert_etag a x ys h hs.1)
]

Rising-insert_etag : (x : Etag) (ys : List Etag) → Rising ys → Rising (insert_etag x ys)
unfolding insert_etag
Rising-insert_etag x [] r = (tt, tt)
Rising-insert_etag x (y ∷ ys) r = elim (Bool-cases (ltb x.part y.part)) [
  | inl e ↦
      let le : x.part ≤ y.part = omega tests in rw e ((le, All-le_trans x.part y.part ys le r.0), r)
  | inr e ↦ rw e (All-insert_etag y.part x ys (ground arith) r.0, Rising-insert_etag x ys r.1)
]

Rising-insert_etags : (acc xs : List Etag) → Rising acc → Rising (insert_etags acc xs)
unfolding insert_etags
Rising-insert_etags acc [] r = r
Rising-insert_etags acc (x ∷ xs) r =
    Rising-insert_etags (insert_etag x acc) xs (Rising-insert_etag x acc r)

sort_etags-Rising : (xs : List Etag) → Rising (sort_etags xs)
unfolding sort_etags
sort_etags-Rising xs = Rising-insert_etags [] xs tt

-- A rising list in which no number stands twice rises strictly.
strict_from :
    (a : ℕ) (ys : List Etag)
    → All (λ y. a ≤ y.part) ys
    → count_etags a ys ≡ 0
    → All (λ y. a < y.part) ys
strict_from a [] h c = tt
strict_from a (y ∷ ys) h c = (ground arith, strict_from a ys h.1 (ground arith))

StrictlyRising-of_count :
    (xs : List Etag) → Rising xs → ((n : ℕ) → count_etags n xs ≤ 1) → StrictlyRising xs
StrictlyRising-of_count [] r c = tt
StrictlyRising-of_count (x ∷ xs) r c = (
  strict_from x.part xs r.0 (ground (arith, c x.part)),
  StrictlyRising-of_count xs r.1 (λ n. omega (arith, c n)),
)

-- A pool that starts loses no part.
module _ {total : ℕ → ℕ} {base : ℕ} where
  start_workers-Inv :
      (n : ℕ) (p : Pool)
      → p.has_error ≡ false
      → ((k : ℕ) → count_pool k p ≡ total k)
      → p.part_number + base ≡ length p.etags
      → (n ≡ 0 → p.busy ≡ [] → p.tasks ≡ [])
      → Inv total base (start_workers n p)
  unfolding start_workers
  start_workers-Inv zero p ok kept counted live = record {
    kept = λ e. kept;
    live = λ e. live refl;
    counted = counted;
  }
  start_workers-Inv (suc n) p ok kept counted live =
      let next = take_task p.tasks p.has_error in
      start_workers-Inv n (record p { tasks = next.0; busy = p.busy ++ next.1 }) ok
        (λ k.
          omega (
            arith,
            kept k,
            count_jobs-append k p.busy next.1,
            take_task_count k p.tasks p.has_error,
          ))
        counted
        (λ z b.
          let none_new : next.1 ≡ [] = (append-eq-nil p.busy next.1 b).1 in
          rw ok (take_task_live p.tasks (rw ok at none_new)))

module _ (md5 : Chunk → Text) (chunks : List Chunk) (start : ℕ) (etags : List Etag)
    (fails : List Text) (progress : ℕ) (answers : List (ℕ × Answer)) where
  -- The pool of a file after the answers, and what it must hold in all.
  abbrev pub ended : Pool
  ended = run md5 (start_pool chunks start etags fails progress) answers

  abbrev pub wanted : ℕ → ℕ
  wanted n = count_chunks n (drop start chunks) + count_etags n etags

  start_pool-Inv :
      (base : ℕ)
      → start + base ≡ length etags
      → Inv wanted base (start_pool chunks start etags fails progress)
  unfolding start_pool
  start_pool-Inv base h =
      start_workers-Inv _ _ refl (λ k. omega arith) h (λ z b. no_tasks (drop start chunks) z)
    where
      no_tasks : (ts : List Chunk) → min concurrency_limit (length ts) ≡ 0 → ts ≡ []
      no_tasks [] z = refl
      no_tasks (t ∷ ts) z = absurd (omega arith)

  -- When the workers have ended and `uploadFile` returns true, the ETags are those that were
  -- there and one for each task, in the order of their part numbers.
  pub upload_complete :
      start ≤ length etags
      → ended.busy ≡ []
      → (finish ended).1 ≡ true
      → Rising (finish ended).0.etags × ((n : ℕ) → count_etags n (finish ended).0.etags ≡ wanted n)
  unfolding finish
  upload_complete h idle passed =
      let v =
        run-Inv md5 (start_pool chunks start etags fails progress) answers
          (start_pool-Inv (length etags - start) (omega arith)) in
      let no_error : ended.has_error ≡ false = ground arith in
      rw no_error (
        sort_etags-Rising ended.etags,
        λ n.
            let kept = v.kept no_error n in
            let done = v.live no_error idle in
            omega (arith, sort_etags-count n ended.etags, rw (idle, done) at kept),
      )

  -- The counter of the file is the number of parts that are stored, also after a failure.
  pub part_number-count : start ≡ length etags → ended.part_number ≡ length ended.etags
  part_number-count h =
      let v =
        run-Inv md5 (start_pool chunks start etags fails progress) answers
          (start_pool-Inv 0 (omega arith)) in
      omega (arith, v.counted)

-- The first parts, in a count.
count_chunks-take-drop :
    (n k : ℕ) (cs : List Chunk)
    → count_chunks n (take k cs) + count_chunks n (drop k cs) ≡ count_chunks n cs
count_chunks-take-drop n zero cs = omega arith
count_chunks-take-drop n (suc k) [] = omega arith
count_chunks-take-drop n (suc k) (c ∷ cs) = omega (arith, count_chunks-take-drop n k cs)

-- A first attempt that succeeds stores every chunk exactly as often as it is in the file, and a
-- file whose chunks have different numbers gets them in strictly rising order.
pub first_attempt_complete :
    (md5 : Chunk → Text) (chunks : List Chunk) (fails : List Text) (progress : ℕ)
    (answers : List (ℕ × Answer))
    → ((n : ℕ) → count_chunks n chunks ≤ 1)
    → (ended md5 chunks 0 [] fails progress answers).busy ≡ []
    → (finish (ended md5 chunks 0 [] fails progress answers)).1 ≡ true
    → StrictlyRising (finish (ended md5 chunks 0 [] fails progress answers)).0.etags
      × ((n : ℕ)
          → count_etags n (finish (ended md5 chunks 0 [] fails progress answers)).0.etags
            ≡ count_chunks n chunks)
first_attempt_complete md5 chunks fails progress answers once idle passed =
    let (rising, all) =
      upload_complete md5 chunks 0 [] fails progress answers (omega arith) idle passed in
    (
      StrictlyRising-of_count _ rising (λ n. omega (arith, all n, once n)),
      λ n. omega (arith, all n),
    )

-- A retry goes on from chunk number `length etags`. If those ETags are not of the first chunks,
-- because a part failed while later ones were stored, then a part among the first chunks that has
-- no ETag is still without one when the retry returns true.
pub retry_misses_part :
    (md5 : Chunk → Text) (chunks : List Chunk) (etags : List Etag) (fails : List Text)
    (progress : ℕ) (answers : List (ℕ × Answer)) (n : ℕ)
    → count_etags n etags ≡ 0
    → count_chunks n (drop (length etags) chunks) ≡ 0
    → (ended md5 chunks (length etags) etags fails progress answers).busy ≡ []
    → (finish (ended md5 chunks (length etags) etags fails progress answers)).1 ≡ true
    → count_etags n (finish (ended md5 chunks (length etags) etags fails progress answers)).0.etags
      ≡ 0
retry_misses_part md5 chunks etags fails progress answers n none_before none_after idle passed =
    let (rising, all) =
      upload_complete md5 chunks (length etags) etags fails progress answers (omega arith) idle
        passed in
    omega (arith, all n)

-- If the ETags that are stored are exactly those of the first chunks, then a retry that returns true
-- leaves one ETag for every chunk of the file.
pub retry_complete :
    (md5 : Chunk → Text) (chunks : List Chunk) (etags : List Etag) (fails : List Text)
    (progress : ℕ) (answers : List (ℕ × Answer))
    → ((n : ℕ) → count_etags n etags ≡ count_chunks n (take (length etags) chunks))
    → (ended md5 chunks (length etags) etags fails progress answers).busy ≡ []
    → (finish (ended md5 chunks (length etags) etags fails progress answers)).1 ≡ true
    → (n : ℕ)
    → count_etags n (finish (ended md5 chunks (length etags) etags fails progress answers)).0.etags
      ≡ count_chunks n chunks
retry_complete md5 chunks etags fails progress answers prefix idle passed n =
    let (rising, all) =
      upload_complete md5 chunks (length etags) etags fails progress answers (omega arith) idle
        passed in
    omega (arith, all n, prefix n, count_chunks-take-drop n (length etags) chunks)
