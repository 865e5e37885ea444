-- ===== src/Upload/Drop/Gathered.antt =====
-- The traversal of dropped folders ends with each file once.
use streaming_service.Base.{
  List, Option, [], ap, arith, length, none, refl, some, suc, zero, ℕ, ◌++◌, ◌+◌, ◌<◌, ◌↔◌, ◌∷◌,
  ◌≡◌, ◌≤◌,
}
use streaming_service.Upload.Choose.{ChosenFile}
use streaming_service.Upload.Drop.{
  Callback, DropEntry, Failure, Task, Traversal, broke_off, call_back, came, drop_items,
  failures_at, file_task, place, pushed, pushed_at, read_task, tasks_after, tasks_without,
}
use streaming_service.Upload.Drop.Sums.{
  cost_at, drop_items-sum, files_sum, files_sum-append, items_sum, read_cost, task_sum,
  tasks_after-sum, tasks_sum,
}

-- Callbacks that come or fail, one after the other.
unfoldable pub call_backs : Traversal → List Callback → Traversal
unfolding call_back
call_backs d [] = d
call_backs d (c ∷ cs) = call_backs (call_back d c) cs

-- Each of them is waited for.
abbrev pub IsWaited : Traversal → List Callback → Type 0
IsWaited d [] = Unit {0}
IsWaited d (c ∷ cs) = (place c < length d.tasks) × IsWaited (call_back d c) cs

-- The number of callbacks that some items need: one for each file and each directory, and one for
-- each batch.
abbrev pub callbacks_of : List (Option DropEntry) → ℕ
callbacks_of items = items_sum (λ _. 1) 1 items

cost_at-zero : (v : ChosenFile → ℕ) (ts : List Task) (i : ℕ) → cost_at v 0 ts i ≡ 0
unfolding cost_at read_cost
cost_at-zero v [] i = refl
cost_at-zero v (file_task path f ∷ ts) zero = refl
cost_at-zero v (read_task got bs ∷ ts) zero = refl
cost_at-zero v (t ∷ ts) (suc i) = cost_at-zero v ts i

-- A callback that is waited for takes one off the number.
cost_at-one :
    (ts : List Task) (i : ℕ)
    → i < length ts
    → files_sum (λ _. 1) 1 (pushed_at ts i) + cost_at (λ _. 1) 1 ts i ≡ 1
unfolding cost_at read_cost files_sum pushed_at pushed
cost_at-one [] i h = omega arith
cost_at-one (file_task path f ∷ ts) zero h = omega arith
cost_at-one (read_task got bs ∷ ts) zero h = omega arith
cost_at-one (t ∷ ts) (suc i) h = cost_at-one ts i (omega arith)

tasks_sum-none : (ts : List Task) → (ts ≡ []) ↔ (tasks_sum (λ _. 1) 1 ts ≡ 0)
unfolding tasks_sum task_sum
tasks_sum-none [] = (λ _. refl, λ _. refl)
tasks_sum-none (file_task path f ∷ ts) = (λ h. cc, λ h. ground arith)
tasks_sum-none (read_task got bs ∷ ts) = (λ h. cc, λ h. ground arith)

abbrev waits_for : List Task → ℕ
waits_for ts = tasks_sum (λ _. 1) 1 ts

waits_for-after :
    (ts : List Task) (i : ℕ) → i < length ts → suc (waits_for (tasks_after ts i)) ≡ waits_for ts
waits_for-after ts i h = omega (arith, cost_at-one ts i h, tasks_after-sum (λ _. 1) 1 ts i)

waits_for-without :
    (ts : List Task) (i : ℕ) → i < length ts → suc (waits_for (tasks_without ts i)) ≤ waits_for ts
unfolding tasks_without tasks_sum task_sum
waits_for-without [] i h = omega arith
waits_for-without (file_task path f ∷ ts) zero h = omega arith
waits_for-without (read_task got bs ∷ ts) zero h = omega arith
waits_for-without (t ∷ ts) (suc i) h = omega (arith, waits_for-without ts i (omega arith))

-- A failure takes off one callback at least.
call_back-bound :
    (d : Traversal) (c : Callback)
    → place c < length d.tasks
    → suc (waits_for (call_back d c).tasks) ≤ waits_for d.tasks
unfolding call_back
call_back-bound d (came i) h = omega (arith, waits_for-after d.tasks i h)
call_back-bound d (broke_off i) h = waits_for-without d.tasks i h

call_backs-bound :
    (d : Traversal) (cs : List Callback)
    → IsWaited d cs
    → length cs + waits_for (call_backs d cs).tasks ≤ waits_for d.tasks
unfolding call_backs
call_backs-bound d [] w = omega arith
call_backs-bound d (c ∷ cs) w =
    omega (arith, call_backs-bound (call_back d c) cs w.1, call_back-bound d c w.0)

none_before : (xs ys : List Failure) → xs ++ ys ≡ [] → xs ≡ []
none_before [] ys h = refl
none_before (x ∷ xs) ys h = cc

-- What has failed stays.
call_back-failed : (d : Traversal) (c : Callback) → (call_back d c).failed ≡ [] → d.failed ≡ []
unfolding call_back
call_back-failed d (came i) h = h
call_back-failed d (broke_off i) h = none_before d.failed (failures_at d.tasks i) h

call_backs-failed :
    (d : Traversal) (cs : List Callback) → (call_backs d cs).failed ≡ [] → d.failed ≡ []
unfolding call_backs
call_backs-failed d [] h = h
call_backs-failed d (c ∷ cs) h = call_back-failed d c (call_backs-failed (call_back d c) cs h)

none_behind : (xs ys : List Failure) → xs ++ ys ≡ [] → ys ≡ []
none_behind [] ys h = h
none_behind (x ∷ xs) ys h = cc

-- A failure that leaves no trace is of a place where nothing was waited for.
no_failure :
    (ts : List Task) (i : ℕ) → failures_at ts i ≡ [] → (tasks_without ts i ≡ ts) × (length ts ≤ i)
unfolding failures_at tasks_without
no_failure [] i h = (refl, omega arith)
no_failure (t ∷ ts) zero h = cc
no_failure (t ∷ ts) (suc i) h = let (same, out) = no_failure ts i h in (ap (t ∷◌) same, omega arith)

call_back-count :
    (d : Traversal) (c : Callback)
    → place c < length d.tasks
    → (call_back d c).failed ≡ []
    → suc (waits_for (call_back d c).tasks) ≡ waits_for d.tasks
unfolding call_back
call_back-count d (came i) h good = waits_for-after d.tasks i h
call_back-count d (broke_off i) h good =
    let out = (no_failure d.tasks i (none_behind d.failed (failures_at d.tasks i) good)).1 in
    omega arith

call_backs-count :
    (d : Traversal) (cs : List Callback)
    → IsWaited d cs
    → (call_backs d cs).failed ≡ []
    → length cs + waits_for (call_backs d cs).tasks ≡ waits_for d.tasks
unfolding call_backs
call_backs-count d [] w good = omega arith
call_backs-count d (c ∷ cs) w good = omega (
  arith,
  call_backs-count (call_back d c) cs w.1 good,
  call_back-count d c w.0 (call_backs-failed (call_back d c) cs good),
)

call_back-sum :
    (v : ChosenFile → ℕ) (d : Traversal) (c : Callback)
    → (call_back d c).failed ≡ []
    → files_sum v 0 (call_back d c).file_array + tasks_sum v 0 (call_back d c).tasks
      ≡ files_sum v 0 d.file_array + tasks_sum v 0 d.tasks
unfolding call_back
call_back-sum v d (came i) good = omega (
  arith,
  cost_at-zero v d.tasks i,
  tasks_after-sum v 0 d.tasks i,
  files_sum-append v 0 d.file_array (pushed_at d.tasks i),
)
call_back-sum v d (broke_off i) good =
    let same = (no_failure d.tasks i (none_behind d.failed (failures_at d.tasks i) good)).0 in
    omega (arith, ap (tasks_sum v 0) same)

call_backs-sum :
    (v : ChosenFile → ℕ) (d : Traversal) (cs : List Callback)
    → (call_backs d cs).failed ≡ []
    → files_sum v 0 (call_backs d cs).file_array + tasks_sum v 0 (call_backs d cs).tasks
      ≡ files_sum v 0 d.file_array + tasks_sum v 0 d.tasks
unfolding call_backs
call_backs-sum v d [] good = refl
call_backs-sum v d (c ∷ cs) good = omega (
  arith,
  call_backs-sum v (call_back d c) cs good,
  call_back-sum v d c (call_backs-failed (call_back d c) cs good),
)

-- The callbacks of a drop come to an end: in whatever order they come and fail, there are at most
-- as many as the items have files, directories and batches. With none that has failed, nothing is
-- waited for exactly when that many have come.
pub call_backs-ends :
    (items : List (Option DropEntry)) (cs : List Callback)
    → IsWaited (drop_items items) cs
    → (length cs ≤ callbacks_of items)
      × (((call_backs (drop_items items) cs).failed ≡ [])
            × ((call_backs (drop_items items) cs).tasks ≡ [])
          ↔ ((call_backs (drop_items items) cs).failed ≡ []) × (length cs ≡ callbacks_of items))
call_backs-ends items cs w =
    let bound = call_backs-bound (drop_items items) cs w in
    let count = call_backs-count (drop_items items) cs w in
    let start = drop_items-sum (λ _. 1) 1 items in
    let none_left = tasks_sum-none (call_backs (drop_items items) cs).tasks in
    (
      omega (arith, bound, start),
      (
        λ h. (h.0, omega (arith, count h.0, start, none_left.0 h.1)),
        λ h. (h.0, none_left.1 (omega (arith, count h.0, start))),
      ),
    )

drop_items-empty : (items : List (Option DropEntry)) → (drop_items items).file_array ≡ []
unfolding drop_items
drop_items-empty [] = refl
drop_items-empty (none ∷ items) = drop_items-empty items
drop_items-empty (some e ∷ items) = drop_items-empty items

-- When nothing is waited for and nothing has failed, which is when the handler goes on, the array
-- has each file of the dropped trees as often as they have it, in whatever order the callbacks
-- came: for any weights of the files under their paths the sums agree.
pub call_backs-files :
    (v : ChosenFile → ℕ) (items : List (Option DropEntry)) (cs : List Callback)
    → (call_backs (drop_items items) cs).tasks ≡ []
    → (call_backs (drop_items items) cs).failed ≡ []
    → files_sum v 0 (call_backs (drop_items items) cs).file_array ≡ items_sum v 0 items
unfolding files_sum tasks_sum
call_backs-files v items cs done good = omega (
  arith,
  call_backs-sum v (drop_items items) cs good,
  drop_items-sum v 0 items,
  ap (tasks_sum v 0) done,
  ap (files_sum v 0) (drop_items-empty items),
)
