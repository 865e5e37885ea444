-- ===== src/SearchPage/Advance.antt =====
-- The submission of the advanced search in search-page.js.
pub mod Asked
pub mod Fields
pub mod Ranges
use streaming_service.Base.JsMap
use streaming_service.Base.{
  Bool, List, Option, [], false, if◌then◌else◌, is_empty, ltb, none, some, true, ℕ, ◌&&◌, ◌++◌, ◌+◌,
  ◌==◌, ◌||◌, ◌∷◌,
}
use streaming_service.Base.JsMap.{JsMap, values}
use streaming_service.Base.Text.{Text, codes, text_eq, truthy}
use streaming_service.SearchPage.Areas.{Area}
use streaming_service.SearchPage.Info.{Body, RangeField, SearchField, SearchInfo, advance, keyword}
use streaming_service.SearchPage.Send.{PageState, send_on_current_info}

-- What stands in the form: the checked options, the values of the four inputs, and the property
-- `values` of the two upper ones, which the code writes, and reads for the year only.
pub record Form : Type 0 where
  pub sort_by : Option Text
  pub sort_order : Option Text
  pub year_from : Text
  pub year_to : Text
  pub year_to_values : Option Text
  pub upload_from : Text
  pub upload_to : Text
  pub upload_to_values : Option Text

-- `array.find(field => field.field === name)`, which throws at an undefined entry.
pub data Find : Type 0 where
  found : RangeField → Find
  not_found : Find
  find_threw : Find

unfoldable pub find_range : Text → List (Option RangeField) → Find
unfolding text_eq
find_range name [] = not_found
find_range name (none ∷ rs) = find_threw
find_range name (some r ∷ rs) = if text_eq r.field name then found r else find_range name rs

restore_year : Form → Find → Form
restore_year f (found r) = record f { year_from = r.from_value; year_to_values = r.to_value }
restore_year f not_found = f
restore_year f find_threw = f

restore_upload : Form → Find → Form
restore_upload f (found r) = record f { upload_from = r.from_value; upload_to_values = r.to_value }
restore_upload f not_found = f
restore_upload f find_threw = f

-- The inputs get the ranges of the search before, if there was one; `none` is an exception.
unfoldable pub restore_form : Form → Option Body → Option Form
unfolding restore_year restore_upload find_range
restore_form f none = some f
restore_form f (some body) =
    let year = find_range (codes "year") body.range_fields in
    let upload = find_range (codes "uploadDate") body.range_fields in
    elim year [
      | find_threw ↦ none
      | not_found ↦ elim upload [
        | find_threw ↦ none
        | not_found ↦ some f
        | found u ↦ some (restore_upload f (found u))
      ]
      | found y ↦ elim upload [
        | find_threw ↦ none
        | not_found ↦ some (restore_year f (found y))
        | found u ↦ some (restore_upload (restore_year f (found y)) (found u))
      ]
    ]

-- `a > b` on texts, by code units.
text_gt : Text → Text → Bool
text_gt [] t = false
text_gt (x ∷ s) [] = true
text_gt (x ∷ s) (y ∷ t) = if x == y then text_gt s t else ltb y x

-- `from > to`; with an undefined side it is false.
unfoldable pub exceeds : Text → Option Text → Bool
unfolding text_gt
exceeds s none = false
exceeds s (some t) = text_gt s t

-- `getRangeField`: undefined after its alert.
unfoldable pub get_range_field : Text → Text → Option Text → Option RangeField
unfolding exceeds
get_range_field field from_value to_value =
    if exceeds from_value to_value
    then none
    else some (record { field = field; from_value = from_value; to_value = to_value })

unfoldable pub form_ranges : Form → List (Option RangeField)
unfolding get_range_field truthy
form_ranges f =
    (if truthy (some f.year_from) || truthy f.year_to_values
      then get_range_field (codes "year") f.year_from f.year_to_values ∷ []
      else [])
    ++ (if truthy (some f.upload_from) || truthy (some f.upload_to)
        then get_range_field (codes "uploadDate") f.upload_from (some f.upload_to) ∷ []
        else [])

-- The ids of an area with a given `included`, in order.
unfoldable pub chosen_with : Bool → JsMap Bool → List Text
chosen_with b [] = []
chosen_with true ((k, true) ∷ m) = k ∷ chosen_with true m
chosen_with true ((k, false) ∷ m) = chosen_with true m
chosen_with false ((k, true) ∷ m) = chosen_with false m
chosen_with false ((k, false) ∷ m) = k ∷ chosen_with false m

-- The two lists of fields and `keywordCount`.
pub record Keywords : Type 0 where
  pub include_fields : List SearchField
  pub exclude_fields : List SearchField
  pub keyword_count : ℕ

unfoldable pub push_field : List SearchField → Text → List Text → Bool → List SearchField
push_field fs label values match_all =
    if is_empty values
    then fs
    else fs ++ record { field = label; values = values; match_all = match_all } ∷ []

unfoldable pub add_keyword : Keywords → Text → Area → Keywords
unfolding push_field chosen_with
add_keyword ks label a = if is_empty a.added then ks else record {
  include_fields = push_field ks.include_fields label (chosen_with true a.added) a.match_all;
  exclude_fields = push_field ks.exclude_fields label (chosen_with false a.added) true;
  keyword_count = ks.keyword_count + 1;
}

-- `Object.keys(KEYWORDS).forEach(..)`; `none` is an exception, where an area is not there.
unfoldable pub collect_keywords : JsMap Area → List Text → Keywords → Option Keywords
unfolding add_keyword
collect_keywords areas [] ks = some ks
collect_keywords areas (label ∷ labels) ks = elim (JsMap.get areas label) [
  | none ↦ none
  | some a ↦ collect_keywords areas labels (add_keyword ks label a)
]

abbrev pub labels : List Text
labels = codes "universes" ∷ codes "characters" ∷ codes "authors" ∷ codes "tags" ∷ []

abbrev pub no_keywords : Keywords
no_keywords = record { include_fields = []; exclude_fields = []; keyword_count = 0 }

-- Values in an address: joined by commas.
unfoldable pub join_values : List Text → Text
join_values [] = []
join_values (v ∷ []) = v
join_values (v ∷ w ∷ vs) = v ++ codes "," ++ join_values (w ∷ vs)

-- The one field of a search for the values of a keyword, if the search can be reduced to that.
unfoldable pub simple_field : Keywords → List (Option RangeField) → Option SearchField
simple_field ks ranges = elim ks.include_fields [
  | [] ↦ none
  | (f ∷ []) ↦ if ks.keyword_count == 1 && is_empty ranges then some f else none
  | (f ∷ g ∷ fs) ↦ none
]

unfoldable pub keyword_info : SearchInfo → Form → SearchField → SearchInfo
unfolding join_values
keyword_info i f field = record i {
  search_type = some keyword;
  page = codes "0";
  sort_by = f.sort_by;
  sort_order = f.sort_order;
  keyword_field = some field.field;
  keyword_values = some (join_values field.values);
  match_all = some field.match_all;
}

unfoldable pub advance_info : SearchInfo → Form → Keywords → List (Option RangeField) → SearchInfo
advance_info i f ks ranges = record i {
  search_type = some advance;
  page = codes "0";
  sort_by = f.sort_by;
  sort_order = f.sort_order;
  advance_body = some (record {
    include_fields = ks.include_fields;
    exclude_fields = ks.exclude_fields;
    range_fields = ranges;
  });
}

-- How the handler ends: by sending, because a search is under way, or with an exception.
pub data Submitted : Type 0 where
  submitted : PageState → Form → Submitted
  ignored : Submitted
  submit_threw : Submitted

unfoldable pub finish_submit : PageState → Form → Keywords → Submitted
unfolding simple_field keyword_info advance_info send_on_current_info form_ranges
finish_submit s f ks =
    let info = elim (simple_field ks (form_ranges f)) as (λ _. SearchInfo) [
      | some field ↦ keyword_info s.info f field
      | none ↦ advance_info s.info f ks (form_ranges f)
    ] in
    submitted (send_on_current_info (record s { info = info; advance_is_submitting = true }) true) f

-- The submission of the advanced form.
unfoldable pub submit_advance : PageState → Form → Submitted
unfolding restore_form collect_keywords finish_submit
submit_advance s f =
    if s.advance_is_submitting then ignored else elim (restore_form f s.info.advance_body) [
      | none ↦ submit_threw
      | some f' ↦ elim (collect_keywords s.areas labels no_keywords) [
        | none ↦ submit_threw
        | some ks ↦ finish_submit s f' ks
      ]
    ]
