-- ===== src/FileManager/Sorting.antt =====
-- `sortFileItems` of FileManager.js: the id list is sorted by the items that the ids stand for.
-- `Array.prototype.sort` is a stable sort; it is modelled by insertion.
use streaming_service.Base.JsMap
use mathlib.Core.List.{Perm, perm_middle}
use mathlib.Core.List.Perm
use streaming_service.Base.{
  All, Bool, Bool-cases, List, Option, [], append-nil, arith, false, if◌then◌else◌, inl, inr, ltb,
  map, none, refl, some, true, ℕ, ◌++◌, ◌<◌, ◌∙◌, ◌∷◌, ◌≡◌, ◌≤◌,
}
use streaming_service.Base.JsMap.{JsMap}
use streaming_service.Base.Text.{Text, text_eq, text_eq_iff}
use streaming_service.FileManager.{FileItem, FileManager, contains}
use streaming_service.FileManager.Fields.{
  Sign, Value, compare_values, get_value, inner_sort, lower, minus, negate, none_less, number, plus,
}
use streaming_service.FileManager.Invariant.{IsValid, NoDup}

pair : Text → Bool → Option FileItem → Option FileItem → Sign
pair key descending (some f) (some g) = inner_sort key descending f g
pair key descending (some f) none = none_less
pair key descending none _ = none_less

-- `sortIdsByMap`: the comparison of two ids. The page sorts ids that the map has; `getValue` of
-- a missing item is `undefined`, which is falsy.
unfoldable pub compare_ids : FileManager → Text → Bool → Text → Text → Sign
unfolding pair
compare_ids m key descending a b = pair key descending (JsMap.get m.items a) (JsMap.get m.items b)

is_plus : Sign → Bool
is_plus plus = true
is_plus minus = false
is_plus none_less = false

module _ {ℓ} {A : Type ℓ} (cmp : A → A → Sign) where
  -- `x` goes behind every element that does not compare as greater.
  insert_one : A → List A → List A
  unfolding is_plus
  insert_one x [] = x ∷ []
  insert_one x (y ∷ ys) =
      let rest = insert_one x ys in if is_plus (cmp y x) then x ∷ y ∷ ys else y ∷ rest

  insert_all : List A → List A → List A
  unfolding insert_one
  insert_all acc [] = acc
  insert_all acc (x ∷ xs) = insert_all (insert_one x acc) xs

  unfoldable pub sort : List A → List A
  unfolding insert_all
  sort xs = insert_all [] xs

  insert_one-perm : (x : A) (ys : List A) → Perm (insert_one x ys) (x ∷ ys)
  unfolding insert_one
  insert_one-perm x [] = Perm.refl (x ∷ [])
  insert_one-perm x (y ∷ ys) = elim (Bool-cases (is_plus (cmp y x))) [
    | inl e ↦ rw e (Perm.refl (x ∷ y ∷ ys))
    | inr e ↦ rw e (Perm.trans (Perm.cons y (insert_one-perm x ys)) (Perm.swap x y ys))
  ]

  insert_all-perm : (acc xs : List A) → Perm (insert_all acc xs) (acc ++ xs)
  unfolding insert_all
  insert_all-perm acc [] = rw append-nil (Perm.refl acc)
  insert_all-perm acc (x ∷ xs) = Perm.trans (insert_all-perm (insert_one x acc) xs) (
      Perm.trans (Perm.append (insert_one-perm x acc) (Perm.refl xs))
        (Perm.symm (perm_middle acc xs)))

  -- A sort only permutes, whatever the comparison answers.
  pub sort-perm : (xs : List A) → Perm (sort xs) xs
  unfolding sort
  sort-perm xs = insert_all-perm [] xs

-- Every element stands in a relation to all later ones.
abbrev pub Sorted : (ℕ → ℕ → Type 0) → List ℕ → Type 0
Sorted R [] = Unit {0}
Sorted R (x ∷ xs) = All (R x) xs × Sorted R xs

abbrev pub Up : ℕ → ℕ → Type 0
Up a b = a ≤ b

abbrev pub Down : ℕ → ℕ → Type 0
Down a b = b ≤ a

module _ {A : Type 0} (cmp : A → A → Sign) (rank : A → ℕ) (R : ℕ → ℕ → Type 0)
    (trans : (a b c : ℕ) → R a b → R b c → R a c)
    (greater : (a b : A) → 0 < rank a → 0 < rank b → is_plus (cmp a b) ≡ true → R (rank b) (rank a))
    (not_greater : (a b : A)
      → 0 < rank a
      → 0 < rank b
      → is_plus (cmp a b) ≡ false
      → R (rank a) (rank b)) where
  Ranked : List A → Type 0
  Ranked xs = All (λ n. 0 < n) (map rank xs)

  All-trans : (a b : ℕ) (ns : List ℕ) → R a b → All (R b) ns → All (R a) ns
  All-trans a b [] h hs = tt
  All-trans a b (n ∷ ns) h hs = (trans a b n h hs.0, All-trans a b ns h hs.1)

  All-insert_one :
      (P : ℕ → Type 0) (x : A) (ys : List A)
      → P (rank x)
      → All P (map rank ys)
      → All P (map rank (insert_one cmp x ys))
  unfolding insert_one
  All-insert_one P x [] h hs = (h, tt)
  All-insert_one P x (y ∷ ys) h hs = elim (Bool-cases (is_plus (cmp y x))) [
    | inl e ↦ rw e (h, hs)
    | inr e ↦ rw e (hs.0, All-insert_one P x ys h hs.1)
  ]

  Sorted-insert_one :
      (x : A) (ys : List A)
      → 0 < rank x
      → All (λ n. 0 < n) (map rank ys)
      → Sorted R (map rank ys)
      → Sorted R (map rank (insert_one cmp x ys))
  unfolding insert_one
  Sorted-insert_one x [] hx hys s = (tt, tt)
  Sorted-insert_one x (y ∷ ys) hx hys s = elim (Bool-cases (is_plus (cmp y x))) [
    | inl e ↦
        let first : R (rank x) (rank y) = greater y x hys.0 hx e in
        rw e ((first, All-trans (rank x) (rank y) (map rank ys) first s.0), s)
    | inr e ↦ rw e (
      All-insert_one (R (rank y)) x ys (not_greater y x hys.0 hx e) s.0,
      Sorted-insert_one x ys hx hys.1 s.1,
    )
  ]

  Sorted-insert_all :
      (acc xs : List A)
      → All (λ n. 0 < n) (map rank acc)
      → All (λ n. 0 < n) (map rank xs)
      → Sorted R (map rank acc)
      → Sorted R (map rank (insert_all cmp acc xs))
  unfolding insert_all
  Sorted-insert_all acc [] ha hx s = s
  Sorted-insert_all acc (x ∷ xs) ha hx s =
      Sorted-insert_all (insert_one cmp x acc) xs (All-insert_one (λ n. 0 < n) x acc hx.0 ha) hx.1
        (Sorted-insert_one x acc hx.0 ha s)

-- `sortFileItems`
unfoldable pub sort_file_items : FileManager → Text → Bool → FileManager
unfolding sort
sort_file_items m key descending = record m { ids = sort (compare_ids m key descending) m.ids }

-- The number in a field of the item under an id; 0 if there is none.
number_of : Value → ℕ
number_of (number n) = n
number_of _ = 0

rank_item : Text → Option FileItem → ℕ
rank_item key none = 0
rank_item key (some f) = number_of (get_value f key)

unfoldable pub rank : FileManager → Text → Text → ℕ
unfolding rank_item number_of
rank m key k = rank_item key (JsMap.get m.items k)

compare_values-number :
    (a b : Value) (descending : Bool)
    → 0 < number_of a
    → 0 < number_of b
    → is_plus (if descending then negate (compare_values a b) else compare_values a b)
      ≡ (if descending then ltb (number_of a) (number_of b) else ltb (number_of b) (number_of a))
unfolding compare_values number_of is_plus lower
compare_values-number (number a) (number b) descending ha hb = ground arith
compare_values-number _ _ descending ha hb = absurd (omega arith)

rank_item-compare :
    (key : Text) (descending : Bool) (a b : Option FileItem)
    → 0 < rank_item key a
    → 0 < rank_item key b
    → is_plus (pair key descending a b) ≡ (
        if descending
        then ltb (rank_item key a) (rank_item key b)
        else ltb (rank_item key b) (rank_item key a))
unfolding rank_item pair inner_sort
rank_item-compare key descending (some f) (some g) ha hb =
    compare_values-number (get_value f key) (get_value g key) descending ha hb
rank_item-compare key descending none b ha hb = absurd (omega arith)
rank_item-compare key descending (some f) none ha hb = absurd (omega arith)

module _ (m : FileManager) (key : Text) (descending : Bool) where
  rank-compare :
      (a b : Text)
      → 0 < rank m key a
      → 0 < rank m key b
      → is_plus (compare_ids m key descending a b) ≡ (
          if descending
          then ltb (rank m key a) (rank m key b)
          else ltb (rank m key b) (rank m key a))
  unfolding rank compare_ids
  rank-compare a b ha hb =
      rank_item-compare key descending (JsMap.get m.items a) (JsMap.get m.items b) ha hb

-- Sorting by a field that is a positive number in every listed item puts the numbers in ascending
-- order, or in descending order if that is asked for.
pub sort_file_items-Sorted :
    (m : FileManager) (key : Text)
    → All (λ n. 0 < n) (map (rank m key) m.ids)
    → Sorted Up (map (rank m key) (sort_file_items m key false).ids)
      × Sorted Down (map (rank m key) (sort_file_items m key true).ids)
unfolding sort_file_items
sort_file_items-Sorted m key h = (
  Sorted-insert_all (compare_ids m key false) (rank m key) Up (λ a b c p q. omega arith)
      (λ a b ha hb e. ground (arith, rank-compare m key false a b))
      (λ a b ha hb e. ground (arith, rank-compare m key false a b)) [] m.ids tt h tt,
  Sorted-insert_all (compare_ids m key true) (rank m key) Down (λ a b c p q. omega arith)
      (λ a b ha hb e. ground (arith, rank-compare m key true a b))
      (λ a b ha hb e. ground (arith, rank-compare m key true a b)) [] m.ids tt h tt,
)

module _ (cmp : Text → Text → Sign) where
  contains-insert_one :
      (x : Text) (ys : List Text) (j : Text)
      → contains (insert_one cmp x ys) j ≡ (if text_eq x j then true else contains ys j)
  unfolding insert_one
  contains-insert_one x [] j = ground arith
  contains-insert_one x (y ∷ ys) j = ground (arith, contains-insert_one x ys j)

  NoDup-insert_one :
      (x : Text) (ys : List Text) → NoDup ys → contains ys x ≡ false → NoDup (insert_one cmp x ys)
  unfolding insert_one
  NoDup-insert_one x [] d h = (refl, tt)
  NoDup-insert_one x (y ∷ ys) d h = ground (
    arith,
    NoDup-insert_one x ys d.1,
    contains-insert_one x ys y,
    text_eq_iff x y,
    text_eq_iff y x,
  )

  insert_all_set :
      (acc xs : List Text)
      → NoDup acc
      → NoDup xs
      → ((j : Text) → contains acc j ≡ true → contains xs j ≡ false)
      → NoDup (insert_all cmp acc xs)
        × ((j : Text)
            → contains (insert_all cmp acc xs) j ≡ (if contains acc j then true else contains xs j))
  unfolding insert_all
  insert_all_set acc [] da dx apart = (da, λ j. ground arith)
  insert_all_set acc (x ∷ xs) da dx apart =
      let fresh : contains acc x ≡ false = ground (arith, apart x, text_eq_iff x x) in
      let (d, c) =
        insert_all_set (insert_one cmp x acc) xs (NoDup-insert_one x acc da fresh) dx.1
          (λ j h. ground (arith, apart j, contains-insert_one x acc j, text_eq_iff x j)) in
      (d, λ j. ground (arith, c j, contains-insert_one x acc j))

-- Sorting keeps the invariant of the manager, and permutes the ids.
pub sort_file_items-IsValid :
    (m : FileManager) (key : Text) (descending : Bool)
    → IsValid m
    → IsValid (sort_file_items m key descending) × Perm (sort_file_items m key descending).ids m.ids
unfolding sort_file_items
sort_file_items-IsValid m key descending v =
    let (d, c) = insert_all_set (compare_ids m key descending) [] m.ids tt v.distinct (λ j h. cc) in
    (
      record { listed = λ k. c k ∙ v.listed k; distinct = d; keyed = v.keyed },
      sort-perm (compare_ids m key descending) m.ids,
    )
