-- ===== src/FileManager/Invariant.antt =====
-- The invariant that ties the id list of a `FileManager` to its map.
use streaming_service.Base.JsMap
use streaming_service.Base.{
  All, Bool-cases, List, Option-cases, [], ap, arith, false, if◌then◌else◌, inl, inr, is_some, keep,
  map, none, not, refl, some, suc, sym, true, ℕ, ◌++◌, ◌∙◌, ◌∷◌, ◌≡◌,
}
use streaming_service.Base.JsMap.{JsMap}
use streaming_service.Base.Text.{Text, text_eq, text_eq_iff, text_eq_refl}
use streaming_service.FileManager.{
  FileItem, FileManager, add_item, contains, erase_idx, index_in, loop_all, new,
  remove_in_id_list_only, remove_in_map_only, remove_item, splice_one, without_last,
}

abbrev pub NoDup : List Text → Type 0
NoDup [] = Unit {0}
NoDup (k ∷ ks) = (contains ks k ≡ false) × NoDup ks

-- The list names exactly the keys of the map, each once, and an item stands under its own id.
pub record IsValid (m : FileManager) : Type 0 where
  pub listed : (k : Text) → contains m.ids k ≡ JsMap.has m.items k
  pub distinct : NoDup m.ids
  pub keyed : (k : Text) (f : FileItem) → JsMap.get m.items k ≡ some f → f.id ≡ k

pub new-IsValid : IsValid new
unfolding JsMap.get
new-IsValid = record { listed = λ k. refl; distinct = tt; keyed = λ k f h. cc }

contains-append :
    (xs : List Text) (k j : Text)
    → contains (xs ++ k ∷ []) j ≡ (if contains xs j then true else text_eq k j)
contains-append [] k j = ground arith
contains-append (x ∷ xs) k j = ground (arith, contains-append xs k j)

NoDup-append : (xs : List Text) (k : Text) → NoDup xs → contains xs k ≡ false → NoDup (xs ++ k ∷ [])
NoDup-append [] k d h = (refl, tt)
NoDup-append (x ∷ xs) k d h =
    ground (arith, NoDup-append xs k d.1, contains-append xs k x, text_eq_iff x k, text_eq_iff k x)

-- Adding an item whose id is new keeps the invariant.
pub add_item-IsValid :
    (m : FileManager) (f : FileItem)
    → IsValid m
    → JsMap.has m.items f.id ≡ false
    → IsValid (add_item m f)
unfolding add_item
add_item-IsValid m f v fresh = record {
  listed =
      λ k. ground (arith, v.listed k, contains-append m.ids f.id k, JsMap.get-set m.items f.id f k);
  distinct = NoDup-append m.ids f.id v.distinct (v.listed f.id ∙ fresh);
  keyed = λ k g h. ground (arith, v.keyed k g, JsMap.get-set m.items f.id f k, text_eq_iff f.id k);
}

-- The list without the first occurrence of an id.
unfoldable pub erase_first : Text → List Text → List Text
erase_first k [] = []
erase_first k (j ∷ ids) = if text_eq j k then ids else j ∷ erase_first k ids

index_in-none : (ids : List Text) (k : Text) → contains ids k ≡ false → index_in ids k ≡ none
unfolding index_in
index_in-none [] k h = refl
index_in-none (j ∷ ids) k h = ground (arith, index_in-none ids k)

pub erase_idx-index_in :
    (ids : List Text) (k : Text)
    → contains ids k ≡ true
    → (i : ℕ) × (index_in ids k ≡ some i) × (erase_idx ids i ≡ erase_first k ids)
unfolding index_in erase_idx erase_first
erase_idx-index_in [] k h = cc
erase_idx-index_in (j ∷ ids) k h = elim (Bool-cases (text_eq j k)) [
  | inl e ↦ (0, rw e, rw e)
  | inr e ↦
      let (i, found, erased) = erase_idx-index_in ids k (rw e at h) in
      (suc i, rw (e, found), rw e (ap (j ∷◌) erased))
]

pub contains-erase_first :
    (ids : List Text) (k j : Text)
    → NoDup ids
    → contains (erase_first k ids) j ≡ (if text_eq k j then false else contains ids j)
unfolding erase_first
contains-erase_first [] k j d = ground arith
contains-erase_first (i ∷ ids) k j d =
    ground
      (arith, contains-erase_first ids k j d.1, text_eq_iff i k, text_eq_iff i j, text_eq_iff k j)

NoDup-erase_first : (ids : List Text) (k : Text) → NoDup ids → NoDup (erase_first k ids)
unfolding erase_first
NoDup-erase_first [] k d = tt
NoDup-erase_first (i ∷ ids) k d =
    ground (arith, NoDup-erase_first ids k d.1, contains-erase_first ids k i d.1)

-- Removing an item that is listed keeps the invariant.
pub remove_item-IsValid :
    (m : FileManager) (k : Text) → IsValid m → contains m.ids k ≡ true → IsValid (remove_item m k)
unfolding remove_item splice_one
remove_item-IsValid m k v h =
    let (i, found, erased) = erase_idx-index_in m.ids k h in
    rw (found, splice_one, erased)
      (record {
        listed = λ j. ground (
          arith,
          v.listed j,
          contains-erase_first m.ids k j v.distinct,
          JsMap.get-delete m.items k j,
        );
        distinct = NoDup-erase_first m.ids k v.distinct;
        keyed = λ j g e. ground (arith, v.keyed j g, JsMap.get-delete m.items k j);
      })

-- Removing an id that is not there drops the last id of the list, whose item stays in the map.
pub remove_item_missing :
    (m : FileManager) (k : Text)
    → IsValid m
    → contains m.ids k ≡ false
    → ((remove_item m k).ids ≡ without_last m.ids)
      × ((j : Text) → JsMap.get (remove_item m k).items j ≡ JsMap.get m.items j)
unfolding remove_item splice_one
remove_item_missing m k v h = (
  rw (index_in-none m.ids k h, splice_one),
  λ j. ground (
    arith,
    JsMap.get-delete m.items k j,
    text_eq_iff k j,
    Option-cases (JsMap.get m.items k),
    v.listed k,
  ),
)

-- A deletion in two steps, as the page makes it: each id leaves the map, and then all leave the list.
unfoldable pub remove_each_in_map : FileManager → List Text → FileManager
remove_each_in_map m [] = m
remove_each_in_map m (k ∷ ks) = remove_each_in_map (remove_in_map_only m k) ks

pub ids-remove_each_in_map :
    (m : FileManager) (ks : List Text) → (remove_each_in_map m ks).ids ≡ m.ids
unfolding remove_each_in_map remove_in_map_only
ids-remove_each_in_map m [] = refl
ids-remove_each_in_map m (k ∷ ks) = ids-remove_each_in_map (remove_in_map_only m k) ks

pub get-remove_each_in_map :
    (m : FileManager) (ks : List Text) (j : Text)
    → JsMap.get (remove_each_in_map m ks).items j
      ≡ (if contains ks j then none else JsMap.get m.items j)
unfolding remove_each_in_map remove_in_map_only
get-remove_each_in_map m [] j = refl
get-remove_each_in_map m (k ∷ ks) j =
    ground
      (arith, get-remove_each_in_map (remove_in_map_only m k) ks j, JsMap.get-delete m.items k j)

contains-keep :
    (gone ids : List Text) (j : Text)
    → contains (keep (λ k. not (contains gone k)) ids) j
      ≡ (if contains gone j then false else contains ids j)
contains-keep gone [] j = ground arith
contains-keep gone (i ∷ ids) j = ground (arith, contains-keep gone ids j, text_eq_iff i j)

NoDup-keep : (gone ids : List Text) → NoDup ids → NoDup (keep (λ k. not (contains gone k)) ids)
NoDup-keep gone [] d = tt
NoDup-keep gone (i ∷ ids) d = ground (arith, NoDup-keep gone ids d.1, contains-keep gone ids i)

-- Removing ids from the map one by one and then from the list keeps the invariant, whatever ids are
-- given.
pub remove_two_steps-IsValid :
    (m : FileManager) (gone : List Text)
    → IsValid m
    → IsValid (remove_in_id_list_only (remove_each_in_map m gone) gone)
unfolding remove_in_id_list_only
remove_two_steps-IsValid m gone v = rw (ids-remove_each_in_map m gone) (record {
  listed =
      λ j. ground (arith, v.listed j, contains-keep gone m.ids j, get-remove_each_in_map m gone j);
  distinct = NoDup-keep gone m.ids v.distinct;
  keyed = λ j f e. ground (arith, v.keyed j f, get-remove_each_in_map m gone j);
})

All-present :
    (items : JsMap FileItem) (ids : List Text)
    → ((k : Text) → contains ids k ≡ true → JsMap.has items k ≡ true)
    → All (λ o. is_some o ≡ true) (map (λ k. JsMap.get items k) ids)
All-present items [] h = tt
All-present items (i ∷ ids) h =
    (h i (rw text_eq_refl), All-present items ids (λ k c. h k (ground (arith, text_eq_iff i k))))

-- Under the invariant the loop over all ids hands no `undefined` to its callback.
pub loop_all_defined : (m : FileManager) → IsValid m → All (λ o. is_some o ≡ true) (loop_all m)
unfolding loop_all
loop_all_defined m v = All-present m.items m.ids (λ k c. sym (v.listed k) ∙ c)
