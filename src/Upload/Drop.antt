-- ===== src/Upload/Drop.antt =====
-- The files of a drop in manage-upload-file.js: the traversal of dropped folders. The entries are
-- read by callbacks that come, or fail, in any order.
pub mod Gathered
pub mod Sums
use streaming_service.Base.{
  Bool, List, Option, [], any_of, false, if◌then◌else◌, is_empty, map, none, some, suc, true, zero,
  ℕ, ◌&&◌, ◌++◌, ◌==◌, ◌∷◌,
}
use streaming_service.Base.Text.{Text}
use streaming_service.FileManager.Fields.{Sign}
use streaming_service.Upload.Choose.{Choice, ChosenFile, handle_files}

mutual
  -- An entry of the file system: a file with its `fullPath`, or a directory with the batches that
  -- `readEntries` gives, the last one, which is empty, being the end.
  pub data DropEntry : Type 0 where
    file_entry : Text → ChosenFile → DropEntry
    dir_entry : Batches → DropEntry

  pub data Batches : Type 0 where
    last_batch : Batches
    batch_then : DropEntry → Entries → Batches → Batches

  pub data Entries : Type 0 where
    no_entries : Entries
    entry_then : DropEntry → Entries → Entries

abbrev pub listed_entries : Entries → List DropEntry
listed_entries no_entries = []
listed_entries (entry_then e es) = e ∷ listed_entries es

-- A callback that is waited for: of a file, or of the next batch, with `allEntries`.
pub data Task : Type 0 where
  file_task : Text → ChosenFile → Task
  read_task : List DropEntry → Batches → Task

-- `traverseEntry`, up to its first callback.
abbrev pub traverse_entry : DropEntry → Task
traverse_entry (file_entry path f) = file_task path f
traverse_entry (dir_entry bs) = read_task [] bs

-- The file under its path without the slash in front.
unfoldable pub with_path : Text → ChosenFile → ChosenFile
with_path [] f = record f { listed_name = [] }
with_path (c ∷ path) f = record f { listed_name = if c == 47 then path else c ∷ path }

-- What a callback pushes to `fileArray`, and the callbacks that are waited for behind it.
unfoldable pub pushed : Task → List ChosenFile
unfolding with_path
pushed (file_task path f) = with_path path f ∷ []
pushed (read_task got bs) = []

unfoldable pub waited_next : Task → List Task
waited_next (file_task path f) = []
waited_next (read_task got last_batch) = map traverse_entry got
waited_next (read_task got (batch_then e es bs)) = read_task (got ++ e ∷ listed_entries es) bs ∷ []

-- What the failure of a callback does to the promise of its entry. `entry.file` has no callback for
-- an error, so the promise is never settled; `readEntries` rejects at the first batch, and at a
-- later one only an inner promise, which leaves the outer one pending.
pub data Failure : Type 0 where
  never_settled : Failure
  read_rejected : Failure

unfoldable pub failure_of : Task → Failure
failure_of (file_task path f) = never_settled
failure_of (read_task [] bs) = read_rejected
failure_of (read_task (e ∷ got) bs) = never_settled

-- `fileArray`, all callbacks that are waited for, and what has failed.
pub record Traversal : Type 0 where
  pub file_array : List ChosenFile
  pub tasks : List Task
  pub failed : List Failure

unfoldable pub pushed_at : List Task → ℕ → List ChosenFile
unfolding pushed
pushed_at [] i = []
pushed_at (t ∷ ts) zero = pushed t
pushed_at (t ∷ ts) (suc i) = pushed_at ts i

unfoldable pub tasks_after : List Task → ℕ → List Task
unfolding waited_next
tasks_after [] i = []
tasks_after (t ∷ ts) zero = waited_next t ++ ts
tasks_after (t ∷ ts) (suc i) = t ∷ tasks_after ts i

unfoldable pub failures_at : List Task → ℕ → List Failure
unfolding failure_of
failures_at [] i = []
failures_at (t ∷ ts) zero = failure_of t ∷ []
failures_at (t ∷ ts) (suc i) = failures_at ts i

unfoldable pub tasks_without : List Task → ℕ → List Task
tasks_without [] i = []
tasks_without (t ∷ ts) zero = ts
tasks_without (t ∷ ts) (suc i) = t ∷ tasks_without ts i

-- The callback at a place comes, or fails.
pub data Callback : Type 0 where
  came : ℕ → Callback
  broke_off : ℕ → Callback

abbrev pub place : Callback → ℕ
place (came i) = i
place (broke_off i) = i

unfoldable pub call_back : Traversal → Callback → Traversal
unfolding pushed_at tasks_after failures_at tasks_without
call_back d (came i) = record d {
  file_array = d.file_array ++ pushed_at d.tasks i;
  tasks = tasks_after d.tasks i;
}
call_back d (broke_off i) = record d {
  tasks = tasks_without d.tasks i;
  failed = d.failed ++ failures_at d.tasks i;
}

-- A drop of items, those that are no entry left out.
unfoldable pub drop_items : List (Option DropEntry) → Traversal
drop_items [] = record { file_array = []; tasks = []; failed = [] }
drop_items (none ∷ items) = drop_items items
drop_items (some e ∷ items) =
    let d = drop_items items in record d { tasks = traverse_entry e ∷ d.tasks }

-- How far the handler of a drop is: through, at its `Promise.all`, or left by a rejection.
pub data DropEnd : Type 0 where
  drop_handled : Choice → DropEnd
  drop_waits : DropEnd
  drop_rejected : DropEnd

is_rejection : Failure → Bool
is_rejection never_settled = false
is_rejection read_rejected = true

module _ (locale_compare : Text → Text → Sign) where
  -- The handler goes on when every promise is resolved.
  unfoldable pub finish_drop : Text → Choice → Traversal → DropEnd
  unfolding handle_files is_rejection
  finish_drop selected c d =
      if any_of is_rejection d.failed
      then drop_rejected
      else if is_empty d.tasks && is_empty d.failed
      then drop_handled
          (if is_empty d.file_array then c else handle_files locale_compare selected c d.file_array)
      else drop_waits
