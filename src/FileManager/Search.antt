-- ===== src/FileManager/Search.antt =====
-- The two lookups by name of FileManager.js.
use streaming_service.Base.JsMap
use streaming_service.Base.{
  Bool, Bool-cases, List, Option, [], any_of, ap, arith, false, if◌then◌else◌, inl, inr, is_some,
  none, refl, some, sym, true, ◌++◌, ◌↔◌, ◌∙◌, ◌∷◌, ◌≡◌,
}
use streaming_service.Base.JsMap.{JsMap}
use streaming_service.Base.Text.{Text, includes, starts_with, text_eq, text_eq_iff, to_lower_case}
use streaming_service.FileManager.{FileItem, FileManager, contains}
use streaming_service.FileManager.Invariant.{NoDup}

first_named : Text → List FileItem → Option FileItem
first_named n [] = none
first_named n (f ∷ fs) = if text_eq f.name n then some f else first_named n fs

-- `findOneFileItemWithExactName`: the map's values in insertion order.
unfoldable pub find_one_with_exact_name : FileManager → Text → Option FileItem
unfolding first_named
find_one_with_exact_name m n = first_named n (JsMap.values m.items)

abbrev name_matches : Text → FileItem → Bool
name_matches n f = includes (to_lower_case f.name) (to_lower_case n)

matching_ids : Text → JsMap FileItem → List Text
matching_ids n [] = []
matching_ids n ((k, f) ∷ m) = if name_matches n f then k ∷ matching_ids n m else matching_ids n m

-- `findFileItemsWithNameAndReturnTheirIds`
unfoldable pub find_ids_with_name : FileManager → Text → List Text
unfolding matching_ids
find_ids_with_name m n = matching_ids n m.items

first_named_iff :
    (n : Text) (fs : List FileItem)
    → (is_some (first_named n fs) ≡ any_of (λ f. text_eq f.name n) fs)
      × ((f : FileItem) → first_named n fs ≡ some f → f.name ≡ n)
unfolding first_named
first_named_iff n [] = (refl, λ f h. cc)
first_named_iff n (g ∷ fs) = (
  ground (arith, (first_named_iff n fs).0),
  λ f h. ground (arith, (first_named_iff n fs).1 f, text_eq_iff g.name n),
)

-- An exact name is found exactly when some item of the map has it, and what is found has it.
pub find_one-exact :
    (m : FileManager) (n : Text)
    → (is_some (find_one_with_exact_name m n)
        ≡ any_of (λ f. text_eq f.name n) (JsMap.values m.items))
      × ((f : FileItem) → find_one_with_exact_name m n ≡ some f → f.name ≡ n)
unfolding find_one_with_exact_name
find_one-exact m n = first_named_iff n (JsMap.values m.items)

-- The keys of a map are listed once.
abbrev pub DistinctKeys : JsMap FileItem → Type 0
DistinctKeys m = NoDup (JsMap.keys m)

contains-matching_absent :
    (n : Text) (m : JsMap FileItem) (k : Text)
    → contains (JsMap.keys m) k ≡ false
    → (contains (matching_ids n m) k ≡ false) × (JsMap.get m k ≡ none)
unfolding matching_ids JsMap.get
contains-matching_absent n [] k h = (refl, refl)
contains-matching_absent n ((j, f) ∷ m) k h = ground (arith, contains-matching_absent n m k)

abbrev pub hit : Text → Option FileItem → Bool
hit n none = false
hit n (some f) = name_matches n f

contains-matching_ids :
    (n : Text) (m : JsMap FileItem) (k : Text)
    → DistinctKeys m
    → contains (matching_ids n m) k ≡ hit n (JsMap.get m k)
unfolding matching_ids JsMap.get
contains-matching_ids n [] k d = refl
contains-matching_ids n ((j, f) ∷ m) k d =
    ground
      (arith, contains-matching_ids n m k d.1, contains-matching_absent n m j d.0, text_eq_iff j k)

-- An id is returned exactly when the map has an item under it whose name holds the term, with the
-- case of letters ignored.
pub find_ids_iff :
    (m : FileManager) (n k : Text)
    → DistinctKeys m.items
    → contains (find_ids_with_name m n) k ≡ hit n (JsMap.get m.items k)
unfolding find_ids_with_name
find_ids_iff m n k d = contains-matching_ids n m.items k d

-- A text has another one in it.
abbrev pub HasPart : Text → Text → Type 0
HasPart s part = (before : Text) × (after : Text) × (s ≡ before ++ (part ++ after))

starts_with_sound : (s p : Text) → starts_with s p ≡ true → (after : Text) × (s ≡ p ++ after)
unfolding starts_with
starts_with_sound s [] h = (s, refl)
starts_with_sound [] (y ∷ p) h = cc
starts_with_sound (x ∷ s) (y ∷ p) h =
    let (after, same) = starts_with_sound s p (ground arith) in (after, ground arith)

starts_with_front : (p after : Text) → starts_with (p ++ after) p ≡ true
unfolding starts_with
starts_with_front [] after = refl
starts_with_front (y ∷ p) after = ground (arith, starts_with_front p after)

includes_sound : (s p : Text) → includes s p ≡ true → HasPart s p
unfolding includes
includes_sound [] p h = let (after, same) = starts_with_sound [] p h in ([], after, same)
includes_sound (x ∷ s) p h = elim (Bool-cases (starts_with (x ∷ s) p)) [
  | inl here ↦ let (after, same) = starts_with_sound (x ∷ s) p here in ([], after, same)
  | inr later ↦
      let (before, after, same) = includes_sound s p (ground arith) in
      (x ∷ before, after, ap (x ∷◌) same)
]

includes_back : (before p after : Text) → includes (before ++ (p ++ after)) p ≡ true
unfolding includes
includes_back [] [] [] = starts_with_front [] []
includes_back [] [] (x ∷ after) = ground (arith, starts_with_front [] (x ∷ after))
includes_back [] (y ∷ p) after = ground (arith, starts_with_front (y ∷ p) after)
includes_back (x ∷ before) p after = ground (arith, includes_back before p after)

includes_iff : (s p : Text) → (includes s p ≡ true) ↔ HasPart s p
includes_iff s p = (
  includes_sound s p,
  λ (before, after, same). ap (λ t. includes t p) same ∙ includes_back before p after,
)

-- The item under an id has a name with a text in it, with the case of letters ignored.
abbrev pub IsNamedWith : FileManager → Text → Text → Type 0
IsNamedWith m word k =
    (f : FileItem) × (JsMap.get m.items k ≡ some f)
    × HasPart (to_lower_case f.name) (to_lower_case word)

hit_iff :
    (m : FileManager) (word k : Text) (o : Option FileItem)
    → JsMap.get m.items k ≡ o
    → (hit word o ≡ true) ↔ IsNamedWith m word k
hit_iff m word k none here = (λ h. cc, λ (f, there, part). cc)
hit_iff m word k (some g) here = (
  λ h. (g, here, includes_sound (to_lower_case g.name) (to_lower_case word) h),
  λ (f, there, part).
      ap (hit word) (sym here ∙ there)
      ∙ (includes_iff (to_lower_case f.name) (to_lower_case word)).1 part,
)

-- The ids that are found are those of the items whose name has the text in it.
pub find_ids-IsNamedWith :
    (m : FileManager) (word k : Text)
    → DistinctKeys m.items
    → (contains (find_ids_with_name m word) k ≡ true) ↔ IsNamedWith m word k
find_ids-IsNamedWith m word k d =
    let same = find_ids_iff m word k d in
    let named = hit_iff m word k (JsMap.get m.items k) refl in
    (λ h. named.0 (sym same ∙ h), λ n. same ∙ named.1 n)
