-- ===== src/FileManager/Refined.antt =====
-- What the class `FileManager` promises: a list of items in order, each under its own id.
use streaming_service.Base.JsMap
use streaming_service.Base.{
  Bool, Bool-cases, List, Option, Option-cases, [], any_of, ap, arith, false, if◌then◌else◌, inl,
  inr, keep, map, none, not, refl, some, sym, true, ◌++◌, ◌∙◌, ◌∷◌, ◌≡◌,
}
use streaming_service.Base.JsMap.{JsMap}
use streaming_service.Base.Text.{Text, text_eq, text_eq_iff, text_eq_refl}
use streaming_service.FileManager.{
  FileItem, FileManager, add_item, contains, item_by_id, loop_all, loop_given, new, remove_all,
  remove_in_id_list_only, remove_item, splice_one,
}
use streaming_service.FileManager.Invariant.{
  IsValid, NoDup, add_item-IsValid, erase_first, erase_idx-index_in, get-remove_each_in_map,
  ids-remove_each_in_map, new-IsValid, remove_each_in_map, remove_item-IsValid,
  remove_two_steps-IsValid,
}

-- The operations that the page makes on a folder, a deletion of several items being one.
pub data Operation : Type 0 where
  added : FileItem → Operation
  removed : Text → Operation
  removed_all : List Text → Operation
  cleared : Operation

run_operation : FileManager → Operation → FileManager
unfolding add_item remove_item remove_each_in_map remove_in_id_list_only remove_all
run_operation m (added f) = add_item m f
run_operation m (removed k) = remove_item m k
run_operation m (removed_all ks) = remove_in_id_list_only (remove_each_in_map m ks) ks
run_operation m cleared = remove_all m

unfoldable pub run_operations : FileManager → List Operation → FileManager
unfolding run_operation
run_operations m [] = m
run_operations m (o ∷ os) = run_operations (run_operation m o) os

-- The same on a list of items.
abbrev pub has_id : List FileItem → Text → Bool
has_id fs k = any_of (λ f. text_eq f.id k) fs

abbrev pub find_id : List FileItem → Text → Option FileItem
find_id [] k = none
find_id (f ∷ fs) k = if text_eq f.id k then some f else find_id fs k

abbrev pub abstract_operation : List FileItem → Operation → List FileItem
abstract_operation fs (added f) = fs ++ f ∷ []
abstract_operation fs (removed k) = keep (λ f. not (text_eq f.id k)) fs
abstract_operation fs (removed_all ks) = keep (λ f. not (contains ks f.id)) fs
abstract_operation fs cleared = []

abbrev pub abstract_operations : List FileItem → List Operation → List FileItem
abstract_operations fs [] = fs
abstract_operations fs (o ∷ os) = abstract_operations (abstract_operation fs o) os

-- An item is added under a new id only, and a single item is removed only if it is there.
abbrev pub IsAllowed : List FileItem → Operation → Type 0
IsAllowed fs (added f) = has_id fs f.id ≡ false
IsAllowed fs (removed k) = has_id fs k ≡ true
IsAllowed fs (removed_all ks) = Unit {0}
IsAllowed fs cleared = Unit {0}

abbrev pub AllAllowed : List FileItem → List Operation → Type 0
AllAllowed fs [] = Unit {0}
AllAllowed fs (o ∷ os) = IsAllowed fs o × AllAllowed (abstract_operation fs o) os

-- Ids and items in order: each item is in the map under its own id.
unfoldable pub Matches : JsMap FileItem → List Text → List FileItem → Type 0
Matches items [] [] = Unit {0}
Matches items [] (f ∷ fs) = ⊥
Matches items (i ∷ ids) [] = ⊥
Matches items (i ∷ ids) (f ∷ fs) = (JsMap.get items i ≡ some f) × (f.id ≡ i) × Matches items ids fs

contains-Matches :
    (items : JsMap FileItem) (ids : List Text) (fs : List FileItem) (k : Text)
    → Matches items ids fs
    → contains ids k ≡ has_id fs k
unfolding Matches
contains-Matches items [] [] k h = refl
contains-Matches items [] (f ∷ fs) k h = absurd h
contains-Matches items (i ∷ ids) [] k h = absurd h
contains-Matches items (i ∷ ids) (f ∷ fs) k (there, own, rest) =
    ground (arith, own, contains-Matches items ids fs k rest)

Matches-add :
    (items : JsMap FileItem) (ids : List Text) (fs : List FileItem) (f : FileItem)
    → Matches items ids fs
    → contains ids f.id ≡ false
    → Matches (JsMap.set items f.id f) (ids ++ f.id ∷ []) (fs ++ f ∷ [])
unfolding Matches
Matches-add items [] [] f h fresh =
    (rw (JsMap.get-set items f.id f f.id, text_eq_refl f.id) refl, refl, tt)
Matches-add items [] (g ∷ fs) f h fresh = absurd h
Matches-add items (i ∷ ids) [] f h fresh = absurd h
Matches-add items (i ∷ ids) (g ∷ fs) f (there, own, rest) fresh = (
  ground (arith, there, JsMap.get-set items f.id f i, text_eq_iff i f.id, text_eq_iff f.id i),
  own,
  Matches-add items ids fs f rest (ground arith),
)

-- Items that are left in another map, with some ids dropped.
Matches-keep :
    (items items' : JsMap FileItem) (gone : Text → Bool) (ids : List Text) (fs : List FileItem)
    → ((j : Text) → gone j ≡ false → JsMap.get items' j ≡ JsMap.get items j)
    → Matches items ids fs
    → Matches items' (keep (λ j. not (gone j)) ids) (keep (λ f. not (gone f.id)) fs)
unfolding Matches
Matches-keep items items' gone [] [] same h = tt
Matches-keep items items' gone [] (g ∷ fs) same h = absurd h
Matches-keep items items' gone (i ∷ ids) [] same h = absurd h
Matches-keep items items' gone (i ∷ ids) (f ∷ fs) same (there, own, rest) =
    elim (Bool-cases (gone i)) [
      | inl dropped ↦
          let dropped' : gone f.id ≡ true = ap gone own ∙ dropped in
          rw (dropped, dropped') (Matches-keep items items' gone ids fs same rest)
      | inr left ↦
          let left' : gone f.id ≡ false = ap gone own ∙ left in
          rw (left, left')
            (same i left ∙ there, own, Matches-keep items items' gone ids fs same rest)
    ]

keep_absent :
    (ids : List Text) (k : Text) → contains ids k ≡ false → keep (λ j. not (text_eq j k)) ids ≡ ids
keep_absent [] k h = refl
keep_absent (i ∷ ids) k h = ground (arith, keep_absent ids k)

-- Removing the first of distinct ids is dropping that id.
erase_first-keep :
    (ids : List Text) (k : Text) → NoDup ids → erase_first k ids ≡ keep (λ j. not (text_eq j k)) ids
unfolding erase_first
erase_first-keep [] k d = refl
erase_first-keep (i ∷ ids) k d =
    ground (arith, erase_first-keep ids k d.1, keep_absent ids k, text_eq_iff i k, d.0)

find-there :
    (items : JsMap FileItem) (ids : List Text) (fs : List FileItem) (k : Text)
    → Matches items ids fs
    → contains ids k ≡ true
    → JsMap.get items k ≡ find_id fs k
unfolding Matches
find-there items [] [] k h listed = cc
find-there items [] (f ∷ fs) k h listed = absurd h
find-there items (i ∷ ids) [] k h listed = absurd h
find-there items (i ∷ ids) (f ∷ fs) k (there, own, rest) listed =
    ground (arith, there, own, find-there items ids fs k rest, text_eq_iff i k)

find-absent : (fs : List FileItem) (k : Text) → has_id fs k ≡ false → find_id fs k ≡ none
find-absent [] k h = refl
find-absent (f ∷ fs) k h = ground (arith, find-absent fs k)

-- A manager stands for a list of items.
pub record StandsFor (m : FileManager) (fs : List FileItem) : Type 0 where
  pub valid : IsValid m
  pub matches : Matches m.items m.ids fs

loop-Matches :
    (items : JsMap FileItem) (ids : List Text) (fs : List FileItem)
    → Matches items ids fs
    → map (λ k. JsMap.get items k) ids ≡ map some fs
unfolding Matches
loop-Matches items [] [] h = refl
loop-Matches items [] (f ∷ fs) h = absurd h
loop-Matches items (i ∷ ids) [] h = absurd h
loop-Matches items (i ∷ ids) (f ∷ fs) (there, own, rest) =
    ground (arith, there, loop-Matches items ids fs rest)

find-StandsFor :
    (m : FileManager) (fs : List FileItem) (k : Text)
    → StandsFor m fs
    → JsMap.get m.items k ≡ find_id fs k
find-StandsFor m fs k s = elim (Bool-cases (contains m.ids k)) [
  | inl there ↦ find-there m.items m.ids fs k s.matches there
  | inr absent ↦ ground (
    arith,
    s.valid.listed k,
    find-absent fs k,
    contains-Matches m.items m.ids fs k s.matches,
    Option-cases (JsMap.get m.items k),
  )
]

operation-StandsFor :
    (m : FileManager) (fs : List FileItem) (o : Operation)
    → StandsFor m fs
    → IsAllowed fs o
    → StandsFor (run_operation m o) (abstract_operation fs o)
unfolding run_operation remove_item splice_one remove_in_id_list_only remove_all Matches JsMap.get
operation-StandsFor m fs (added f) s new_id =
    let fresh = contains-Matches m.items m.ids fs f.id s.matches ∙ new_id in
    record {
      valid = add_item-IsValid m f s.valid (sym (s.valid.listed f.id) ∙ fresh);
      matches = Matches-add m.items m.ids fs f s.matches fresh;
    }
operation-StandsFor m fs (removed k) s there =
    let listed = contains-Matches m.items m.ids fs k s.matches ∙ there in
    let (i, found, erased) = erase_idx-index_in m.ids k listed in
    record {
      valid = remove_item-IsValid m k s.valid listed;
      matches =
          rw (found, splice_one, erased, erase_first-keep m.ids k s.valid.distinct)
            (Matches-keep m.items (JsMap.delete m.items k) (λ j. text_eq j k) m.ids fs
              (λ j other.
                ground (arith, JsMap.get-delete m.items k j, text_eq_iff k j, text_eq_iff j k))
              s.matches);
    }
operation-StandsFor m fs (removed_all ks) s allowed = record {
  valid = remove_two_steps-IsValid m ks s.valid;
  matches = rw (ids-remove_each_in_map m ks) (
      Matches-keep m.items (remove_each_in_map m ks).items (contains ks) m.ids fs
        (λ j left. get-remove_each_in_map m ks j ∙ rw left refl) s.matches);
}
operation-StandsFor m fs cleared s allowed = record {
  valid = record { listed = λ k. refl; distinct = tt; keyed = λ k f h. cc };
  matches = tt;
}

operations-StandsFor :
    (m : FileManager) (fs : List FileItem) (os : List Operation)
    → StandsFor m fs
    → AllAllowed fs os
    → StandsFor (run_operations m os) (abstract_operations fs os)
unfolding run_operations
operations-StandsFor m fs [] s a = s
operations-StandsFor m fs (o ∷ os) s (allowed, rest) =
    operations-StandsFor (run_operation m o) (abstract_operation fs o) os
      (operation-StandsFor m fs o s allowed) rest

-- A new manager that has gone through additions under new ids, removals of single items that are
-- there, deletions of several items by any ids, and clearings is the list of items that these make,
-- each item added at the end: its loop hands out exactly those in order, and a lookup by an id
-- finds what the list has under it, or nothing.
pub run_operations-refines :
    (os : List Operation) (k : Text)
    → AllAllowed [] os
    → (loop_all (run_operations new os) ≡ map some (abstract_operations [] os))
      × (item_by_id (run_operations new os) k ≡ find_id (abstract_operations [] os) k)
unfolding loop_all loop_given item_by_id Matches
run_operations-refines os k a =
    let s = operations-StandsFor new [] os (record { valid = new-IsValid; matches = tt }) a in
    let m = run_operations new os in
    (
      loop-Matches m.items m.ids (abstract_operations [] os) s.matches,
      find-StandsFor m (abstract_operations [] os) k s,
    )
