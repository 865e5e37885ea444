-- ===== src/SearchPage/Info.antt =====
-- What search-page.js searches for, `currentSearchInfo`, and the addresses that it asks for and
-- shows. An address is its path and the pairs of its query, which `URLSearchParams` writes and
-- reads back.
pub mod Reload
use streaming_service.Base.JsMap
use streaming_service.Base.{
  Bool, List, Option, [], drop, false, if◌then◌else◌, none, some, true, ℕ, ◌&&◌, ◌++◌, ◌∷◌,
}
use streaming_service.Base.JsMap.{JsMap, keys}
use streaming_service.Base.Text.{Text, codes, decimal, starts_with, text_eq, truthy}

pub data SearchType : Type 0 where
  basic : SearchType
  keyword : SearchType
  advance : SearchType

abbrev pub upload_date : Text
upload_date = codes "UPLOAD_DATE"

abbrev pub descending : Text
descending = codes "Desc"

pub record SearchField : Type 0 where
  pub field : Text
  pub values : List Text
  pub match_all : Bool

pub record RangeField : Type 0 where
  pub field : Text
  pub from_value : Text
  pub to_value : Option Text

-- The body of an advanced search. A range is undefined after an alert.
pub record Body : Type 0 where
  pub include_fields : List SearchField
  pub exclude_fields : List SearchField
  pub range_fields : List (Option RangeField)

-- `currentSearchInfo`, with `none` for a key that is missing, null or undefined. The page is kept as
-- its text, and the values of a keyword as the text that they have in an address.
pub record SearchInfo : Type 0 where
  pub page : Text
  pub sort_by : Option Text
  pub sort_order : Option Text
  pub search_string : Option Text
  pub keyword_field : Option Text
  pub keyword_values : Option Text
  pub match_all : Option Bool
  pub advance_body : Option Body
  pub search_type : Option SearchType

pub record Address : Type 0 where
  pub path : Text
  pub query : List (Text × Text)

-- `String(b)`
abbrev pub bool_text : Bool → Text
bool_text true = codes "true"
bool_text false = codes "false"

-- How a value stands in a query.
abbrev pub or_null : Option Text → Text
or_null none = codes "null"
or_null (some s) = s

abbrev pub or_undefined : Option Text → Text
or_undefined none = codes "undefined"
or_undefined (some s) = s

abbrev pub bool_or_null : Option Bool → Text
bool_or_null none = codes "null"
bool_or_null (some b) = bool_text b

-- The pairs that every search has.
abbrev pub page_pairs : SearchInfo → List (Text × Text)
page_pairs i =
    (codes "page", i.page)
    ∷ (codes "sortBy", or_undefined i.sort_by)
    ∷ (codes "sortOrder", or_undefined i.sort_order)
    ∷ []

unfoldable pub get_match_all_search_url : SearchInfo → Address
get_match_all_search_url i = record { path = codes "/api/search/match-all"; query = page_pairs i }

unfoldable pub get_basic_search_url : SearchInfo → Address
get_basic_search_url i = record {
  path = codes "/api/search";
  query = (codes "searchString", or_null i.search_string) ∷ page_pairs i;
}

unfoldable pub get_keyword_search_url : SearchInfo → Address
get_keyword_search_url i = record {
  path = codes "/api/search/keyword";
  query =
      (codes "field", or_null i.keyword_field)
      ∷ (codes "keys", or_null i.keyword_values)
      ∷ (codes "matchAll", bool_or_null i.match_all)
      ∷ page_pairs i;
}

unfoldable pub get_advance_search_url : SearchInfo → Address
get_advance_search_url i = record { path = codes "/api/search/advance"; query = page_pairs i }

-- `getSearchUrl`
unfoldable pub get_search_url : Option SearchType → SearchInfo → Address
unfolding get_match_all_search_url get_basic_search_url get_keyword_search_url
    get_advance_search_url
get_search_url (some basic) i = get_basic_search_url i
get_search_url (some keyword) i = get_keyword_search_url i
get_search_url (some advance) i = get_advance_search_url i
get_search_url none i = get_match_all_search_url i

-- `s.replace('api', 'page')`: the first one.
replace_api : Text → Text
replace_api [] = []
replace_api (c ∷ s) =
    if starts_with (c ∷ s) (codes "api") then codes "page" ++ drop 3 (c ∷ s) else c ∷ replace_api s

abbrev type_text : SearchType → Text
type_text basic = codes "search"
type_text keyword = codes "keyword"
type_text advance = codes "advance"

type_pairs : Option SearchType → List (Text × Text)
type_pairs none = []
type_pairs (some t) = (codes "searchType", type_text t) ∷ []

-- `getPageSearchUrl`
unfoldable pub get_page_search_url : Option SearchType → SearchInfo → Address
unfolding get_search_url replace_api type_pairs
get_page_search_url t i =
    let a = get_search_url t i in
    record { path = replace_api a.path; query = a.query ++ type_pairs t }

-- The link of `displaySearchResults` to a page: `keywordMatchAll` is not passed on.
unfoldable pub page_link : SearchInfo → ℕ → Address
unfolding get_page_search_url
page_link i page =
    get_page_search_url i.search_type (record i { page = decimal page; match_all = none })

-- `value || default` on a value of the query.
or_default : Option Text → Text → Text
or_default v d = if truthy v then or_null v else d

-- The type of the search by what the page's address and the storage have.
chosen_type : Option Text → Option Text → Option Text → Option Body → Option SearchType
chosen_type string field keys body =
    if truthy string
    then some basic
    else if truthy field && truthy keys
    then some keyword
    else elim body [ none ↦ none | some _ ↦ some advance ]

is_true : Option Text → Bool
is_true none = false
is_true (some s) = text_eq s (codes "true")

-- The start of `initialize`: the search of the page's address and of the session's storage.
unfoldable pub read_info : List (Text × Text) → Option Body → SearchInfo
unfolding or_default chosen_type is_true JsMap.get
read_info q saved = record {
  page = or_default (JsMap.get q (codes "page")) (codes "0");
  sort_by = some (or_default (JsMap.get q (codes "sortBy")) upload_date);
  sort_order = some (or_default (JsMap.get q (codes "sortOrder")) descending);
  search_string = JsMap.get q (codes "searchString");
  keyword_field = JsMap.get q (codes "field");
  keyword_values = JsMap.get q (codes "keys");
  match_all = some (is_true (JsMap.get q (codes "matchAll")));
  advance_body = saved;
  search_type =
      chosen_type (JsMap.get q (codes "searchString")) (JsMap.get q (codes "field"))
        (JsMap.get q (codes "keys")) saved;
}

-- A request of the page: a POST with an address, and a body for an advanced search.
pub record SearchRequest : Type 0 where
  pub address : Address
  pub body : Option Body

-- What `sendSearchRequest` asks for.
unfoldable pub request_of : SearchInfo → SearchRequest
unfolding get_search_url
request_of i = record {
  address = get_search_url i.search_type i;
  body = elim i.search_type [
    | some advance ↦ i.advance_body
    | some basic ↦ none
    | some keyword ↦ none
    | none ↦ none
  ];
}

-- `currentSearchInfo` behind `clear()` and the `set`s of `sendSearchRequest`.
unfoldable pub narrow : SearchInfo → SearchInfo
narrow i =
    let none_set = record i {
      search_string = none;
      keyword_field = none;
      keyword_values = none;
      match_all = none;
      advance_body = none;
    } in
    elim i.search_type [
      | none ↦ none_set
      | some basic ↦ record none_set { search_string = i.search_string }
      | some keyword ↦ record none_set {
        keyword_field = i.keyword_field;
        keyword_values = i.keyword_values;
        match_all = i.match_all;
      }
      | some advance ↦ record none_set { advance_body = i.advance_body }
    ]
