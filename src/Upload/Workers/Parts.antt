-- ===== src/Upload/Workers/Parts.antt =====
-- Which parts of a file the workers of upload-file.js have stored when the pool has ended.
pub mod Sorted
use streaming_service.Base.{
  Bool, Bool-cases, List, Option-cases, [], arith, count_by, count_by-append, false, get_elem?,
  if◌then◌else◌, inl, inr, length, length-append, refl, some, suc, true, zero, ℕ, ◌++◌, ◌+◌, ◌==◌,
  ◌∷◌, ◌≡◌,
}
use streaming_service.Base.Text.{Text, text_eq}
use streaming_service.FileManager.{new}
use streaming_service.Upload.Chunks.{Chunk}
use streaming_service.Upload.Workers.{
  Answer, Etag, Job, Pool, answered, fail_worker, on_job, on_put, presigning, putting, refused,
  resume, run, set_jobs, store_part, strip_quotes, take_task, thrown,
}

abbrev pub count_job : ℕ → Job → ℕ
count_job n (presigning c) = if c.part_number == n then 1 else 0
count_job n (putting c) = if c.part_number == n then 1 else 0

abbrev pub count_jobs : ℕ → List Job → ℕ
count_jobs n [] = 0
count_jobs n (j ∷ js) = count_job n j + count_jobs n js

abbrev pub count_chunks : ℕ → List Chunk → ℕ
count_chunks n cs = count_by (λ c. c.part_number) n cs

abbrev pub count_etags : ℕ → List Etag → ℕ
count_etags n es = count_by (λ e. e.part) n es

-- How often a part stands among the tasks, the running workers and the stored parts.
abbrev pub count_pool : ℕ → Pool → ℕ
count_pool n p = count_chunks n p.tasks + count_jobs n p.busy + count_etags n p.etags

count_jobs-append :
    (n : ℕ) (xs ys : List Job) → count_jobs n (xs ++ ys) ≡ count_jobs n xs + count_jobs n ys
count_jobs-append n [] ys = omega arith
count_jobs-append n (x ∷ xs) ys = omega (arith, count_jobs-append n xs ys)

count_jobs-set_jobs :
    (n : ℕ) (js : List Job) (i : ℕ) (new : List Job) (j : Job)
    → get_elem? js i ≡ some j
    → count_jobs n (set_jobs js i new) + count_job n j ≡ count_jobs n js + count_jobs n new
unfolding set_jobs
count_jobs-set_jobs n [] i new j h = cc
count_jobs-set_jobs n (x ∷ js) zero new j h =
    let e : x ≡ j = cc in rw e (omega (arith, count_jobs-append n new js))
count_jobs-set_jobs n (x ∷ js) (suc i) new j h = omega (arith, count_jobs-set_jobs n js i new j h)

take_task_count :
    (n : ℕ) (ts : List Chunk) (e : Bool)
    → count_chunks n (take_task ts e).0 + count_jobs n (take_task ts e).1 ≡ count_chunks n ts
unfolding take_task
take_task_count n [] e = omega arith
take_task_count n (t ∷ ts) true = omega arith
take_task_count n (t ∷ ts) false = omega arith

append-eq-nil {ℓ} : {A : Type ℓ} (xs ys : List A) → xs ++ ys ≡ [] → (xs ≡ []) × (ys ≡ [])
append-eq-nil [] ys h = (refl, h)
append-eq-nil (x ∷ xs) ys h = absurd (cc)

take_task_live : (ts : List Chunk) → (take_task ts false).1 ≡ [] → (take_task ts false).0 ≡ []
unfolding take_task
take_task_live [] h = refl
take_task_live (t ∷ ts) h = absurd (cc)

set_jobs-eq-nil :
    (js : List Job) (i : ℕ) (new : List Job) (j : Job)
    → get_elem? js i ≡ some j
    → set_jobs js i new ≡ []
    → new ≡ []
unfolding set_jobs
set_jobs-eq-nil [] i new j h e = cc
set_jobs-eq-nil (x ∷ js) zero new j h e = (append-eq-nil new js e).0
set_jobs-eq-nil (x ∷ js) (suc i) new j h e = absurd (cc)

-- As long as no error has occurred no part is lost or doubled (`total` says how often each part
-- was there at the start), and a pool without workers has no tasks. The counter of the file
-- always counts the stored parts.
pub record Inv (total : ℕ → ℕ) (base : ℕ) (p : Pool) : Type 0 where
  pub kept : p.has_error ≡ false → (n : ℕ) → count_pool n p ≡ total n
  pub live : p.has_error ≡ false → p.busy ≡ [] → p.tasks ≡ []
  pub counted : p.part_number + base ≡ length p.etags

module _ {total : ℕ → ℕ} {base : ℕ} (p : Pool) (v : Inv total base p) where
  module _ (i : ℕ) (j : Job) (h : get_elem? p.busy i ≡ some j) where
    fail_worker-Inv : (message : Text) → Inv total base (fail_worker p i message)
    unfolding fail_worker
    fail_worker-Inv message = record {
      kept = λ e n. absurd (cc);
      live = λ e b. absurd (cc);
      counted = v.counted;
    }

    store_part-Inv :
        (c : Chunk) (tag : Text) → j ≡ putting c → Inv total base (store_part p i c tag)
    unfolding store_part
    store_part-Inv c tag same =
        let new = (take_task p.tasks p.has_error).1 in
        let placed : get_elem? p.busy i ≡ some (putting c) = cc in
        record {
          kept = λ e n. omega (
            arith,
            v.kept e n,
            count_jobs-set_jobs n p.busy i new (putting c) placed,
            take_task_count n p.tasks p.has_error,
            count_by-append (λ (x : Etag). x.part) n p.etags
                ((record { part = c.part_number; etag = tag }) ∷ []),
          );
          live = λ e b.
              let none_new : new ≡ [] = set_jobs-eq-nil p.busy i new j h b in
              rw e (take_task_live p.tasks (rw e at none_new));
          counted = omega (
            arith,
            v.counted,
            length-append p.etags ((record { part = c.part_number; etag = tag }) ∷ []),
          );
        }

  module _ (md5 : Chunk → Text) (i : ℕ) where
    on_put-Inv :
        (c : Chunk) (a : Answer)
        → get_elem? p.busy i ≡ some (putting c)
        → Inv total base (on_put md5 p i c a)
    unfolding on_put
    on_put-Inv c (refused m) h = fail_worker-Inv i (putting c) h _
    on_put-Inv c (thrown m) h = fail_worker-Inv i (putting c) h _
    on_put-Inv c (answered tag) h = elim (Bool-cases (text_eq (md5 c) (strip_quotes tag))) [
      | inl e ↦ rw e (store_part-Inv i (putting c) h c _ refl)
      | inr e ↦ rw e (fail_worker-Inv i (putting c) h _)
    ]

    on_job-Inv :
        (j : Job) (a : Answer)
        → get_elem? p.busy i ≡ some j
        → Inv total base (on_job md5 p i (some j) a)
    unfolding on_job
    on_job-Inv (presigning c) (refused m) h = fail_worker-Inv i (presigning c) h _
    on_job-Inv (presigning c) (thrown m) h = fail_worker-Inv i (presigning c) h _
    on_job-Inv (presigning c) (answered url) h = record {
      kept = λ e n.
          omega
            (arith, v.kept e n, count_jobs-set_jobs n p.busy i (putting c ∷ []) (presigning c) h);
      live = λ e b.
          let absent : putting c ∷ [] ≡ [] = set_jobs-eq-nil p.busy i _ (presigning c) h b in
          absurd (cc);
      counted = v.counted;
    }
    on_job-Inv (putting c) a h = on_put-Inv c a h

    resume-Inv : (a : Answer) → Inv total base (resume md5 p i a)
    unfolding resume
    resume-Inv a = elim (Option-cases (get_elem? p.busy i)) [
      | inl e ↦ rw (e, on_job) v
      | inr (j, e) ↦ rw e (on_job-Inv j a e)
    ]

pub run-Inv :
    {total : ℕ → ℕ} {base : ℕ} (md5 : Chunk → Text) (p : Pool) (answers : List (ℕ × Answer))
    → Inv total base p
    → Inv total base (run md5 p answers)
unfolding run
run-Inv md5 p [] v = v
run-Inv md5 p ((i, a) ∷ rest) v = run-Inv md5 (resume md5 p i a) rest (resume-Inv p v md5 i a)
