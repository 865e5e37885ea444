-- ===== src/Upload/Workers/Measure.antt =====
-- How long the workers of upload-file.js run, and how many of them.
use streaming_service.Base.{
  Bool, Bool-cases, List, Option-cases, [], arith, drop, false, get_elem?, inl, inr, is_some,
  length, length-append, min, none, refl, some, suc, true, zero, ℕ, ◌*◌, ◌++◌, ◌+◌, ◌<◌, ◌∷◌, ◌≡◌,
  ◌≤◌,
}
use streaming_service.Base.Text.{Text, text_eq}
use streaming_service.FileManager.{new}
use streaming_service.Upload.Chunks.{Chunk}
use streaming_service.Upload.Workers.{
  Answer, Etag, Job, Pool, answered, concurrency_limit, fail_worker, on_job, on_put, presigning,
  putting, refused, resume, run, set_jobs, start_pool, start_workers, store_part, strip_quotes,
  take_task, thrown,
}

abbrev pub weight_job : Job → ℕ
weight_job (presigning c) = 2
weight_job (putting c) = 1

abbrev pub weight_jobs : List Job → ℕ
weight_jobs [] = 0
weight_jobs (j ∷ js) = weight_job j + weight_jobs js

-- How many answers the pool still waits for, at most.
abbrev pub weight : Pool → ℕ
weight p = 2 * length p.tasks + weight_jobs p.busy

weight_jobs-append : (xs ys : List Job) → weight_jobs (xs ++ ys) ≡ weight_jobs xs + weight_jobs ys
weight_jobs-append [] ys = omega arith
weight_jobs-append (x ∷ xs) ys = omega (arith, weight_jobs-append xs ys)

weight_jobs-set_jobs :
    (js : List Job) (i : ℕ) (new : List Job) (j : Job)
    → get_elem? js i ≡ some j
    → weight_jobs (set_jobs js i new) + weight_job j ≡ weight_jobs js + weight_jobs new
unfolding set_jobs
weight_jobs-set_jobs [] i new j h = cc
weight_jobs-set_jobs (x ∷ js) zero new j h =
    let e : x ≡ j = cc in rw e (omega (arith, weight_jobs-append new js))
weight_jobs-set_jobs (x ∷ js) (suc i) new j h = omega (arith, weight_jobs-set_jobs js i new j h)

length-set_jobs :
    (js : List Job) (i : ℕ) (new : List Job) (j : Job)
    → get_elem? js i ≡ some j
    → length (set_jobs js i new) + 1 ≡ length js + length new
unfolding set_jobs
length-set_jobs [] i new j h = cc
length-set_jobs (x ∷ js) zero new j h = omega (arith, length-append new js)
length-set_jobs (x ∷ js) (suc i) new j h = omega (arith, length-set_jobs js i new j h)

take_task_weight :
    (ts : List Chunk) (e : Bool)
    → (2 * length (take_task ts e).0 + weight_jobs (take_task ts e).1 ≡ 2 * length ts)
      × (length (take_task ts e).1 ≤ 1)
unfolding take_task
take_task_weight [] e = (omega arith, omega arith)
take_task_weight (t ∷ ts) true = (omega arith, omega arith)
take_task_weight (t ∷ ts) false = (omega arith, omega arith)

-- One answer: `q` waits for less than `p`, and no further worker runs.
record Falls (p q : Pool) : Type 0 where
  lighter : weight q < weight p
  no_more : length q.busy ≤ length p.busy

weight_job_pos : (j : Job) → 0 < weight_job j
weight_job_pos (presigning c) = omega arith
weight_job_pos (putting c) = omega arith

module _ (p : Pool) (i : ℕ) (j : Job) (h : get_elem? p.busy i ≡ some j) where
  fail_worker-Falls : (message : Text) → Falls p (fail_worker p i message)
  unfolding fail_worker
  fail_worker-Falls message = record {
    lighter = omega (arith, weight_jobs-set_jobs p.busy i [] j h, weight_job_pos j);
    no_more = omega (arith, length-set_jobs p.busy i [] j h);
  }

  store_part-Falls : (c : Chunk) (tag : Text) → Falls p (store_part p i c tag)
  unfolding store_part
  store_part-Falls c tag =
      let new = (take_task p.tasks p.has_error).1 in
      let w = take_task_weight p.tasks p.has_error in
      record {
        lighter = omega (arith, weight_jobs-set_jobs p.busy i new j h, weight_job_pos j, w.0);
        no_more = omega (arith, length-set_jobs p.busy i new j h, w.1);
      }

module _ (md5 : Chunk → Text) (p : Pool) (i : ℕ) where
  on_put-Falls :
      (c : Chunk) (a : Answer)
      → get_elem? p.busy i ≡ some (putting c)
      → Falls p (on_put md5 p i c a)
  unfolding on_put
  on_put-Falls c (refused m) h = fail_worker-Falls p i (putting c) h _
  on_put-Falls c (thrown m) h = fail_worker-Falls p i (putting c) h _
  on_put-Falls c (answered tag) h = elim (Bool-cases (text_eq (md5 c) (strip_quotes tag))) [
    | inl e ↦ rw e (store_part-Falls p i (putting c) h c _)
    | inr e ↦ rw e (fail_worker-Falls p i (putting c) h _)
  ]

  on_job-Falls :
      (j : Job) (a : Answer) → get_elem? p.busy i ≡ some j → Falls p (on_job md5 p i (some j) a)
  unfolding on_job
  on_job-Falls (presigning c) (refused m) h = fail_worker-Falls p i (presigning c) h _
  on_job-Falls (presigning c) (thrown m) h = fail_worker-Falls p i (presigning c) h _
  on_job-Falls (presigning c) (answered url) h = record {
    lighter = omega (arith, weight_jobs-set_jobs p.busy i (putting c ∷ []) (presigning c) h);
    no_more = omega (arith, length-set_jobs p.busy i (putting c ∷ []) (presigning c) h);
  }
  on_job-Falls (putting c) a h = on_put-Falls c a h

  resume-Falls : (j : Job) (a : Answer) → get_elem? p.busy i ≡ some j → Falls p (resume md5 p i a)
  unfolding resume
  resume-Falls j a h = rw h (on_job-Falls j a h)

  resume-no_more : (a : Answer) → length (resume md5 p i a).busy ≤ length p.busy
  resume-no_more a = elim (Option-cases (get_elem? p.busy i)) [
    | inl e ↦ idle e
    | inr (j, e) ↦ (resume-Falls j a e).no_more
  ]
    where
      idle : get_elem? p.busy i ≡ none → length (resume md5 p i a).busy ≤ length p.busy
      idle e = unfold resume in unfold on_job in rw e (omega arith)

-- Each answer of a schedule goes to a running worker.
abbrev pub Served : (Chunk → Text) → Pool → List (ℕ × Answer) → Type 0
Served md5 p [] = Unit {0}
Served md5 p ((i, a) ∷ rest) =
    (is_some (get_elem? p.busy i) ≡ true) × Served md5 (resume md5 p i a) rest

start_workers_busy : (n : ℕ) (p : Pool) → length (start_workers n p).busy ≤ n + length p.busy
unfolding start_workers
start_workers_busy zero p = omega arith
start_workers_busy (suc n) p =
    let next = take_task p.tasks p.has_error in
    omega (
      arith,
      start_workers_busy n (record p { tasks = next.0; busy = p.busy ++ next.1 }),
      length-append p.busy next.1,
      (take_task_weight p.tasks p.has_error).1,
    )

module _ (md5 : Chunk → Text) where
  run-Falls :
      (p : Pool) (answers : List (ℕ × Answer))
      → Served md5 p answers
      → length answers + weight (run md5 p answers) ≤ weight p
  unfolding run
  run-Falls p [] s = omega arith
  run-Falls p ((i, a) ∷ rest) (here, later) = elim (Option-cases (get_elem? p.busy i)) [
    | inl e ↦ absurd (cc)
    | inr (j, e) ↦
        omega (arith, (resume-Falls md5 p i j a e).lighter, run-Falls (resume md5 p i a) rest later)
  ]

  -- The pool of a file ends: after as many answers as its weight, whatever they are and in
  -- whatever order they come, no worker runs, and so `Promise.all` resolves.
  pub run_ends :
      (p : Pool) (answers : List (ℕ × Answer))
      → Served md5 p answers
      → weight p ≤ length answers
      → (run md5 p answers).busy ≡ []
  run_ends p answers s long =
      all_done (run md5 p answers).busy (omega (arith, run-Falls p answers s))
    where
      all_done : (js : List Job) → weight_jobs js ≤ 0 → js ≡ []
      all_done [] h = refl
      all_done (j ∷ js) h = absurd (omega (arith, weight_job_pos j))

  run-no_more :
      (p : Pool) (answers : List (ℕ × Answer)) → length (run md5 p answers).busy ≤ length p.busy
  unfolding run
  run-no_more p [] = omega arith
  run-no_more p ((i, a) ∷ rest) =
      omega (arith, resume-no_more md5 p i a, run-no_more (resume md5 p i a) rest)

  -- At no time do more than four workers of a file run.
  pub run_concurrency :
      (chunks : List Chunk) (start : ℕ) (etags : List Etag) (fails : List Text) (progress : ℕ)
      (answers : List (ℕ × Answer))
      → length (run md5 (start_pool chunks start etags fails progress) answers).busy
        ≤ concurrency_limit
  unfolding start_pool
  run_concurrency chunks start etags fails progress answers = omega (
    arith,
    run-no_more _ answers,
    start_workers_busy (min concurrency_limit (length (drop start chunks))) _,
  )
