-- ===== src/FileManager/Fields.antt =====
-- `dynamicSortByField` of FileManager.js: the value at a dotted path of an item, and the order of
-- two items by it.
use mathlib.Core.List.{foldl}
use streaming_service.Base.{
  Bool, List, Option, [], arith, false, if◌then◌else◌, ltb, none, refl, some, true, ℕ, ◌&&◌, ◌==◌,
  ◌||◌, ◌∷◌, ◌≡◌,
}
use streaming_service.Base.Text.{Text, codes, text_eq, to_lower_case}
use streaming_service.FileManager.{FileItem, Resolution}

-- The values that a path can meet. Those of one field all have one type.
pub data Value : Type 0 where
  undefined : Value
  number : ℕ → Value
  text : Text → Value
  object : Resolution → Value
  item : FileItem → Value

from_number : Option ℕ → Value
from_number none = undefined
from_number (some n) = number n

from_text : Option Text → Value
from_text none = undefined
from_text (some s) = text s

from_object : Option Resolution → Value
from_object none = undefined
from_object (some r) = object r

item_field : FileItem → Text → Value
unfolding from_number from_text from_object
item_field f key =
    if text_eq key (codes "name")
    then text f.name
    else (if text_eq key (codes "size")
        then from_number f.size
        else (if text_eq key (codes "length")
            then from_number f.len
            else (if text_eq key (codes "resolution")
                then from_object f.resolution
                else (if text_eq key (codes "uploadDate")
                    then from_text f.upload_date
                    else (if text_eq key (codes "id")
                        then text f.id
                        else (if text_eq key (codes "fileType")
                            then text f.file_type
                            else (if text_eq key (codes "mId")
                                then from_text f.media_id
                                else (if text_eq key (codes "parentId")
                                    then from_text f.parent_id
                                    else (if text_eq key (codes "thumbnail")
                                        then from_text f.thumbnail
                                        else undefined)))))))))

resolution_field : Resolution → Text → Value
resolution_field r key =
    if text_eq key (codes "width")
    then number r.width
    else (if text_eq key (codes "height")
        then number r.height
        else (if text_eq key (codes "area") then number r.area else undefined))

-- `acc?.[part]`
member : Value → Text → Value
unfolding item_field resolution_field
member (item f) part = item_field f part
member (object r) part = resolution_field r part
member _ part = undefined

-- `path.split('.')`
split_dot : Text → List Text
split_dot [] = [] ∷ []
split_dot (c ∷ s) =
    if c == b'.'
    then [] ∷ split_dot s
    else elim (split_dot s) [ [] ↦ (c ∷ []) ∷ [] | part ∷ rest ↦ (c ∷ part) ∷ rest ]

unfoldable pub get_value : FileItem → Text → Value
unfolding member split_dot
get_value f path = foldl member (item f) (split_dot path)

unfoldable pub is_falsy : Value → Bool
is_falsy undefined = true
is_falsy (number n) = n == 0
is_falsy (text []) = true
is_falsy (text (_ ∷ _)) = false
is_falsy (object _) = false
is_falsy (item _) = false

-- `s < t` on strings, by code units.
unfoldable pub text_lt : Text → Text → Bool
text_lt [] [] = false
text_lt [] (_ ∷ _) = true
text_lt (_ ∷ _) [] = false
text_lt (x ∷ s) (y ∷ t) = ltb x y || (x == y && text_lt s t)

-- `a < b`: objects are equal as strings, so neither is less.
unfoldable pub value_lt : Value → Value → Bool
unfolding text_lt
value_lt (number a) (number b) = ltb a b
value_lt (text s) (text t) = text_lt s t
value_lt _ _ = false

unfoldable pub lower : Value → Value
lower (text s) = text (to_lower_case s)
lower v = v

pub data Sign : Type 0 where
  minus none_less plus : Sign

abbrev pub negate : Sign → Sign
negate minus = plus
negate none_less = none_less
negate plus = minus

-- `innerSort`: falsy values compare as equal to all others.
unfoldable pub compare_values : Value → Value → Sign
unfolding value_lt is_falsy
compare_values a b =
    if is_falsy a || is_falsy b
    then none_less
    else (if value_lt (lower b) (lower a)
        then plus
        else (if value_lt (lower a) (lower b) then minus else none_less))

unfoldable pub inner_sort : Text → Bool → FileItem → FileItem → Sign
unfolding compare_values
inner_sort key descending a b =
    let c = compare_values (get_value a key) (get_value b key) in if descending then negate c else c

text_lt_asymm : (s t : Text) → text_lt s t ≡ true → text_lt t s ≡ false
unfolding text_lt
text_lt_asymm [] [] h = cc
text_lt_asymm [] (y ∷ t) h = refl
text_lt_asymm (x ∷ s) [] h = cc
text_lt_asymm (x ∷ s) (y ∷ t) h = ground (arith, text_lt_asymm s t)

value_lt_asymm : (a b : Value) → value_lt a b ≡ true → value_lt b a ≡ false
unfolding value_lt
value_lt_asymm (number a) (number b) h = ground arith
value_lt_asymm (text s) (text t) h = text_lt_asymm s t h
value_lt_asymm (number a) (text t) h = refl
value_lt_asymm (text s) (number b) h = refl
value_lt_asymm _ _ h = ground arith

compare_values-negate : (a b : Value) → compare_values a b ≡ negate (compare_values b a)
unfolding compare_values
compare_values-negate a b =
    ground (arith, value_lt_asymm (lower a) (lower b), value_lt_asymm (lower b) (lower a))

-- Swapping two items negates their order, for every key and both directions.
pub inner_sort-negate :
    (key : Text) (descending : Bool) (a b : FileItem)
    → inner_sort key descending a b ≡ negate (inner_sort key descending b a)
unfolding inner_sort
inner_sort-negate key descending a b =
    ground (arith, compare_values-negate (get_value a key) (get_value b key))

-- The order by a field is not transitive on items without it: an item whose value is falsy
-- compares as equal to two items that are not equal.
pub inner_sort_falsy :
    (key : Text) (descending : Bool) (a b : FileItem)
    → is_falsy (get_value b key) ≡ true
    → (inner_sort key descending a b ≡ none_less) × (inner_sort key descending b a ≡ none_less)
unfolding inner_sort compare_values
inner_sort_falsy key descending a b h = ground arith
