-- ===== src/FileManager.antt =====
-- The class `FileManager` of frontend/src/main/resources/static/js/file-manager/FileManager.js:
-- a map from ids to file items, the list of the ids in display order, and the page cursor.
pub mod Fields
pub mod Invariant
pub mod Refined
pub mod Search
pub mod Sorting
use streaming_service.Base.JsMap
use streaming_service.Base.{
  Bool, List, Option, [], any_of, if◌then◌else◌, keep, map, none, not, some, suc, zero, ℕ, ◌++◌,
  ◌∷◌,
}
use streaming_service.Base.JsMap.{JsMap}
use streaming_service.Base.Text.{Text, text_eq}

pub record Resolution : Type 0 where
  pub width : ℕ
  pub height : ℕ
  pub area : ℕ

-- A file item, as the server sends it; null and missing fields are `none`.
pub record FileItem : Type 0 where
  pub id : Text
  pub name : Text
  pub file_type : Text
  pub media_id : Option Text
  pub parent_id : Option Text
  pub size : Option ℕ
  pub len : Option ℕ
  pub resolution : Option Resolution
  pub upload_date : Option Text
  pub thumbnail : Option Text

pub record FileManager : Type 0 where
  pub items : JsMap FileItem
  pub ids : List Text
  pub page : Option Text

abbrev pub new : FileManager
new = record { items = []; ids = []; page = none }

unfoldable pub set_page : FileManager → Option Text → FileManager
set_page m p = record m { page = p }

unfoldable pub add_item : FileManager → FileItem → FileManager
add_item m item = record m { items = JsMap.set m.items item.id item; ids = m.ids ++ item.id ∷ [] }

-- `ids.includes(k)`, `ids.indexOf(k)`
abbrev pub contains : List Text → Text → Bool
contains ids k = any_of (λ j. text_eq j k) ids

pub index_in : List Text → Text → Option ℕ
index_in [] k = none
index_in (j ∷ ids) k =
    if text_eq j k then some 0 else elim (index_in ids k) [ none ↦ none | some i ↦ some (suc i) ]

unfoldable pub without_last : List Text → List Text
without_last [] = []
without_last (j ∷ []) = []
without_last (j ∷ k ∷ ids) = j ∷ without_last (k ∷ ids)

pub erase_idx : List Text → ℕ → List Text
erase_idx [] i = []
erase_idx (j ∷ ids) zero = ids
erase_idx (j ∷ ids) (suc i) = j ∷ erase_idx ids i

-- `ids.splice(i, 1)`: -1, the index of a missing id, counts from the end.
pub splice_one : List Text → Option ℕ → List Text
unfolding without_last erase_idx
splice_one ids none = without_last ids
splice_one ids (some i) = erase_idx ids i

unfoldable pub remove_item : FileManager → Text → FileManager
unfolding index_in splice_one
remove_item m k = record m {
  items = JsMap.delete m.items k;
  ids = splice_one m.ids (index_in m.ids k);
}

unfoldable pub remove_in_map_only : FileManager → Text → FileManager
remove_in_map_only m k = record m { items = JsMap.delete m.items k }

unfoldable pub remove_in_id_list_only : FileManager → List Text → FileManager
remove_in_id_list_only m gone = record m { ids = keep (λ k. not (contains gone k)) m.ids }

unfoldable pub remove_all : FileManager → FileManager
remove_all m = record m { items = []; ids = [] }

unfoldable pub item_by_id : FileManager → Text → Option FileItem
item_by_id m k = JsMap.get m.items k

-- The items that `loopAllAndDo` and `loopAndDoWithGivenFileItemIds` hand to their callback;
-- `none` is `undefined`.
unfoldable pub loop_given : FileManager → List Text → List (Option FileItem)
loop_given m ks = map (λ k. JsMap.get m.items k) ks

unfoldable pub loop_all : FileManager → List (Option FileItem)
unfolding loop_given
loop_all m = loop_given m m.ids
