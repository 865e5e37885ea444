-- ===== src/Tests/Files.antt =====
-- Runs of the model of FileManager.js.
use streaming_service.Base.JsMap
use streaming_service.Base.{List, [], arith, false, map, none, refl, some, true, ℕ, ◌∷◌, ◌≡◌}
use streaming_service.Base.JsMap.{JsMap}
use streaming_service.Base.Text.{Text, codes, text_eq}
use streaming_service.FileManager.{FileItem, FileManager, add_item, item_by_id, loop_all, new}
use streaming_service.FileManager.Fields.{get_value}
use streaming_service.FileManager.Invariant.{IsValid, add_item-IsValid, new-IsValid}
use streaming_service.FileManager.Refined.{
  AllAllowed, Operation, added, removed, removed_all, run_operations, run_operations-refines,
}
use streaming_service.FileManager.Sorting.{
  Down, Sorted, Up, rank, sort_file_items, sort_file_items-Sorted,
}

abbrev item_of : Text → Text → ℕ → FileItem
item_of id name size = record {
  id = id;
  name = name;
  file_type = codes "FILE";
  media_id = none;
  parent_id = none;
  size = some size;
  len = none;
  resolution = none;
  upload_date = none;
  thumbnail = none;
}

abbrev two_items : FileManager
two_items = record {
  items =
      (codes "1", item_of (codes "1") (codes "b.txt") 9)
      ∷ (codes "2", item_of (codes "2") (codes "a.txt") 4)
      ∷ [];
  ids = codes "1" ∷ codes "2" ∷ [];
  page = none;
}

one_item : IsValid (add_item new (item_of (codes "1") (codes "b.txt") 9))
unfolding JsMap.get
one_item = add_item-IsValid new (item_of (codes "1") (codes "b.txt") 9) new-IsValid refl

pub two_items-IsValid : IsValid two_items
unfolding add_item JsMap.get JsMap.set text_eq
two_items-IsValid =
    add_item-IsValid (add_item new (item_of (codes "1") (codes "b.txt") 9))
      (item_of (codes "2") (codes "a.txt") 4) one_item refl

sort_file_items-Sorted_example :
    Sorted Up
      (map (rank two_items (codes "size")) (sort_file_items two_items (codes "size") false).ids)
    × Sorted Down
        (map (rank two_items (codes "size")) (sort_file_items two_items (codes "size") true).ids)
unfolding rank get_value JsMap.get text_eq
sort_file_items-Sorted_example =
    sort_file_items-Sorted two_items (codes "size") (omega arith, (omega arith, tt))

-- Two items are added, the second is removed, a third is added, and the first is deleted.
abbrev history : List Operation
history =
    added (item_of (codes "1") (codes "b.txt") 9)
    ∷ added (item_of (codes "2") (codes "a.txt") 4)
    ∷ removed (codes "2")
    ∷ added (item_of (codes "3") (codes "c.txt") 5)
    ∷ removed_all (codes "1" ∷ codes "8" ∷ [])
    ∷ []

history-AllAllowed : AllAllowed [] history
unfolding text_eq
history-AllAllowed = (refl, (refl, (refl, (refl, (tt, tt)))))

run_operations-refines_example :
    (loop_all (run_operations new history) ≡ some (item_of (codes "3") (codes "c.txt") 5) ∷ [])
    × (item_by_id (run_operations new history) (codes "2") ≡ none)
unfolding text_eq
run_operations-refines_example = run_operations-refines history (codes "2") history-AllAllowed
