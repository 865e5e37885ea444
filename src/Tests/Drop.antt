-- ===== src/Tests/Drop.antt =====
-- Runs of the traversal of dropped folders.
use streaming_service.Base.{
  List, Option, [], arith, if◌then◌else◌, length, map, none, refl, some, ℕ, ◌↔◌, ◌∷◌, ◌≡◌, ◌≤◌,
}
use streaming_service.Base.Text.{Text, codes, text_eq}
use streaming_service.Upload.Choose.{ChosenFile}
use streaming_service.Upload.Drop.{
  Callback, DropEntry, batch_then, broke_off, call_back, came, dir_entry, drop_items, entry_then,
  failure_of, failures_at, file_entry, last_batch, never_settled, no_entries, pushed, pushed_at,
  read_rejected, tasks_after, tasks_without, waited_next, with_path,
}
use streaming_service.Upload.Drop.Gathered.{
  IsWaited, call_backs, call_backs-ends, call_backs-files, callbacks_of,
}
use streaming_service.Upload.Drop.Sums.{files_sum, items_sum}

abbrev picture : Text → ChosenFile
picture name = record {
  own_name = name;
  media_type = codes "image/png";
  listed_name = [];
  size = 10;
  last_modified = 0;
}

-- A file, an item that is no entry, and a folder with two batches.
abbrev dropped : List (Option DropEntry)
dropped =
    some (file_entry (codes "/a.png") (picture (codes "a.png")))
    ∷ none
    ∷ some (
        dir_entry (
          batch_then (file_entry (codes "/d/b.png") (picture (codes "b.png"))) no_entries (
            batch_then (dir_entry last_batch)
              (entry_then (file_entry (codes "/d/c.png") (picture (codes "c.png"))) no_entries)
              last_batch)))
    ∷ []

abbrev order : List Callback
order = came 1 ∷ came 1 ∷ came 1 ∷ came 3 ∷ came 0 ∷ came 1 ∷ came 0 ∷ []

abbrev path_of : ChosenFile → Text
path_of f = f.listed_name

-- The files come in the order of their callbacks.
order-paths :
    map path_of (call_backs (drop_items dropped) order).file_array
    ≡ codes "d/c.png" ∷ codes "a.png" ∷ codes "d/b.png" ∷ []
unfolding call_backs call_back drop_items pushed_at tasks_after pushed waited_next with_path
order-paths = refl

order-IsWaited : IsWaited (drop_items dropped) order
unfolding call_backs call_back drop_items pushed_at tasks_after pushed waited_next with_path
order-IsWaited = (
  omega arith,
  (omega arith, (omega arith, (omega arith, (omega arith, (omega arith, (omega arith, tt)))))),
)

call_backs-ends_example :
    (length order ≤ callbacks_of dropped)
    × (((call_backs (drop_items dropped) order).failed ≡ [])
          × ((call_backs (drop_items dropped) order).tasks ≡ [])
        ↔ ((call_backs (drop_items dropped) order).failed ≡ [])
          × (length order ≡ callbacks_of dropped))
call_backs-ends_example = call_backs-ends dropped order order-IsWaited

-- A directory that cannot be read rejects the drop at its first batch, and leaves it pending at a
-- later one; so does a file that cannot be read.
order-fails :
    ((call_backs (drop_items dropped) (broke_off 1 ∷ [])).failed ≡ read_rejected ∷ [])
    × ((call_backs (drop_items dropped) (came 1 ∷ broke_off 1 ∷ broke_off 0 ∷ [])).failed
        ≡ never_settled ∷ never_settled ∷ [])
unfolding call_backs call_back drop_items pushed_at tasks_after pushed waited_next with_path
    failures_at failure_of tasks_without
order-fails = (refl, refl)

abbrev is_b : ChosenFile → ℕ
is_b f = if text_eq f.listed_name (codes "d/b.png") then 1 else 0

call_backs-files_example :
    files_sum is_b 0 (call_backs (drop_items dropped) order).file_array ≡ items_sum is_b 0 dropped
unfolding call_backs call_back drop_items pushed_at tasks_after pushed waited_next with_path
call_backs-files_example = call_backs-files is_b dropped order refl refl
