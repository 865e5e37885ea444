-- ===== src/Upload/Drop/Sums.antt =====
-- Sums over the files, directories and batches of a drop.
use streaming_service.Base.{
  List, Option, [], arith, map, none, some, suc, zero, ℕ, ◌++◌, ◌+◌, ◌∷◌, ◌≡◌,
}
use streaming_service.Upload.Choose.{ChosenFile}
use streaming_service.Upload.Drop.{
  Batches, DropEntry, Entries, Task, batch_then, dir_entry, drop_items, entry_then, file_entry,
  file_task, last_batch, listed_entries, no_entries, pushed, pushed_at, read_task, tasks_after,
  traverse_entry, waited_next, with_path,
}

-- A sum over a tree: each file by its own weight under its path, each directory and each batch `k`.
module _ (v : ChosenFile → ℕ) (k : ℕ) where
  mutual
    entry_sum : DropEntry → ℕ
    entry_sum (file_entry path f) = v (with_path path f)
    entry_sum (dir_entry bs) = k + batches_sum bs

    batches_sum : Batches → ℕ
    batches_sum last_batch = 0
    batches_sum (batch_then e es bs) = k + (entry_sum e + entries_sum es) + batches_sum bs

    entries_sum : Entries → ℕ
    entries_sum no_entries = 0
    entries_sum (entry_then e es) = entry_sum e + entries_sum es

  unfoldable pub files_sum : List ChosenFile → ℕ
  files_sum [] = 0
  files_sum (f ∷ fs) = v f + files_sum fs

  unfoldable pub got_sum : List DropEntry → ℕ
  unfolding entry_sum
  got_sum [] = 0
  got_sum (e ∷ es) = entry_sum e + got_sum es

  -- The sum over what a callback has still to come to.
  unfoldable pub task_sum : Task → ℕ
  unfolding got_sum batches_sum
  task_sum (file_task path f) = v (with_path path f)
  task_sum (read_task got bs) = k + got_sum got + batches_sum bs

  unfoldable pub tasks_sum : List Task → ℕ
  unfolding task_sum
  tasks_sum [] = 0
  tasks_sum (t ∷ ts) = task_sum t + tasks_sum ts

  unfoldable pub items_sum : List (Option DropEntry) → ℕ
  unfolding entry_sum
  items_sum [] = 0
  items_sum (none ∷ items) = items_sum items
  items_sum (some e ∷ items) = entry_sum e + items_sum items

  unfoldable pub read_cost : Task → ℕ
  read_cost (file_task path f) = 0
  read_cost (read_task got bs) = k

  unfoldable pub cost_at : List Task → ℕ → ℕ
  unfolding read_cost
  cost_at [] i = 0
  cost_at (t ∷ ts) zero = read_cost t
  cost_at (t ∷ ts) (suc i) = cost_at ts i

  pub files_sum-append :
      (fs gs : List ChosenFile) → files_sum (fs ++ gs) ≡ files_sum fs + files_sum gs
  unfolding files_sum
  files_sum-append [] gs = omega arith
  files_sum-append (f ∷ fs) gs = omega (arith, files_sum-append fs gs)

  got_sum-append : (es ds : List DropEntry) → got_sum (es ++ ds) ≡ got_sum es + got_sum ds
  unfolding got_sum
  got_sum-append [] ds = omega arith
  got_sum-append (e ∷ es) ds = omega (arith, got_sum-append es ds)

  tasks_sum-append : (ts us : List Task) → tasks_sum (ts ++ us) ≡ tasks_sum ts + tasks_sum us
  unfolding tasks_sum
  tasks_sum-append [] us = omega arith
  tasks_sum-append (t ∷ ts) us = omega (arith, tasks_sum-append ts us)

  got_sum-listed_entries : (es : Entries) → got_sum (listed_entries es) ≡ entries_sum es
  unfolding got_sum entries_sum
  got_sum-listed_entries no_entries = omega arith
  got_sum-listed_entries (entry_then e es) = omega (arith, got_sum-listed_entries es)

  task_sum-traverse_entry : (e : DropEntry) → task_sum (traverse_entry e) ≡ entry_sum e
  unfolding task_sum entry_sum got_sum
  task_sum-traverse_entry (file_entry path f) = omega arith
  task_sum-traverse_entry (dir_entry bs) = omega arith

  tasks_sum-map : (es : List DropEntry) → tasks_sum (map traverse_entry es) ≡ got_sum es
  unfolding tasks_sum got_sum
  tasks_sum-map [] = omega arith
  tasks_sum-map (e ∷ es) = omega (arith, tasks_sum-map es, task_sum-traverse_entry e)

  waited_next-sum :
      (t : Task) → task_sum t ≡ files_sum (pushed t) + read_cost t + tasks_sum (waited_next t)
  unfolding task_sum pushed read_cost waited_next tasks_sum files_sum batches_sum got_sum
  waited_next-sum (file_task path f) = omega arith
  waited_next-sum (read_task got last_batch) = omega (arith, tasks_sum-map got)
  waited_next-sum (read_task got (batch_then e es bs)) =
      omega (arith, got_sum-append got (e ∷ listed_entries es), got_sum-listed_entries es)

  pub tasks_after-sum :
      (ts : List Task) (i : ℕ)
      → tasks_sum ts ≡ files_sum (pushed_at ts i) + cost_at ts i + tasks_sum (tasks_after ts i)
  unfolding tasks_sum pushed_at cost_at tasks_after files_sum
  tasks_after-sum [] i = omega arith
  tasks_after-sum (t ∷ ts) zero =
      omega (arith, waited_next-sum t, tasks_sum-append (waited_next t) ts)
  tasks_after-sum (t ∷ ts) (suc i) = omega (arith, tasks_after-sum ts i)

  pub drop_items-sum :
      (items : List (Option DropEntry)) → tasks_sum (drop_items items).tasks ≡ items_sum items
  unfolding drop_items items_sum tasks_sum
  drop_items-sum [] = omega arith
  drop_items-sum (none ∷ items) = drop_items-sum items
  drop_items-sum (some e ∷ items) = omega (arith, drop_items-sum items, task_sum-traverse_entry e)
