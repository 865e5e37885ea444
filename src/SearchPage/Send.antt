-- ===== src/SearchPage/Send.antt =====
-- The page's state in search-page.js, and `sendSearchRequestOnCurrentInfo` with what leads to it: the
-- basic search, the sort buttons, the title, the pagination.
use streaming_service.Base.{
  Bool, List, Option, [], false, if◌then◌else◌, inl, inr, length, ltb, none, some, true, ℕ, ◌++◌,
  ◌∷◌, ◌⊎◌,
}
use streaming_service.Base.JsMap.{JsMap}
use streaming_service.Base.Text.{Text, codes, decimal, text_eq, trim}
use streaming_service.SearchPage.Areas.{Area, clear_area}
use streaming_service.SearchPage.Info.{
  Address, Body, SearchInfo, SearchRequest, SearchType, advance, basic, descending,
  get_page_search_url, keyword, narrow, request_of, upload_date,
}

-- The variables of the page: the search, the four areas by their labels, the storage of the session,
-- the last address that was pushed on the history, the requests that were sent, the alert, and which
-- parts of the advanced form are hidden.
pub record PageState : Type 0 where
  pub info : SearchInfo
  pub areas : JsMap Area
  pub stored : Option Body
  pub history : List Address
  pub sent : List SearchRequest
  pub alert_text : Option Text
  pub form_hidden : Bool
  pub search_is_submitting : Bool
  pub advance_is_submitting : Bool

clear_areas : JsMap Area → JsMap Area
unfolding clear_area
clear_areas [] = []
clear_areas ((k, a) ∷ m) = (k, clear_area a) ∷ clear_areas m

is_advance : Option SearchType → Bool
is_advance (some advance) = true
is_advance (some basic) = false
is_advance (some keyword) = false
is_advance none = false

-- `sendSearchRequest` up to its `await`.
unfoldable pub send_search_request : PageState → Bool → PageState
unfolding get_page_search_url narrow request_of is_advance
send_search_request s update_page = record s {
  history =
      if update_page
      then s.history ++ get_page_search_url s.info.search_type s.info ∷ []
      else s.history;
  info = narrow s.info;
  stored = if is_advance s.info.search_type then s.info.advance_body else s.stored;
  sent = s.sent ++ request_of s.info ∷ [];
}

-- `sendSearchRequestOnCurrentInfo` up to its `await`.
unfoldable pub send_on_current_info : PageState → Bool → PageState
unfolding clear_areas is_advance send_search_request
send_on_current_info s update_page =
    let s' =
      if is_advance s.info.search_type
      then s
      else record s { areas = clear_areas s.areas; stored = none; form_hidden = true } in
    send_search_request s' update_page

-- `validateSearchString` of header.js: the text to search for, or the alert.
unfoldable pub validate_search_string : Text → Text ⊎ Text
validate_search_string s =
    let t = trim s in
    if ltb (length t) 2
    then inr (codes "Search string must be at least 2 characters")
    else if ltb 100 (length t)
    then inr (codes "Search string exceeded 200 characters")
    else inl t

-- The submission of the basic search.
unfoldable pub submit_basic : PageState → Text → PageState
unfolding send_on_current_info validate_search_string
submit_basic s typed = if s.search_is_submitting then s else elim (validate_search_string typed) [
  | inr words ↦ record s { alert_text = some words }
  | inl t ↦
      send_on_current_info
        (record s {
          info = record s.info {
            search_type = some basic;
            search_string = some t;
            page = codes "0";
          };
          search_is_submitting = true;
        })
        true
]

-- A click on the title of the page.
unfoldable pub click_title : PageState → PageState
unfolding send_on_current_info
click_title s =
    send_on_current_info
      (record s {
        info = record s.info {
          search_type = none;
          page = codes "0";
          sort_by = some upload_date;
          sort_order = some descending;
        };
      })
      true

-- `sortByClick`
unfoldable pub sort_by_click : PageState → Text → PageState
unfolding send_on_current_info
sort_by_click s by =
    send_on_current_info (record s { info = record s.info { sort_by = some by } }) true

-- A click on the button of the sort order.
unfoldable pub sort_order_click : PageState → PageState
unfolding send_on_current_info
sort_order_click s =
    let is_descending : Bool = elim s.info.sort_order [
      | none ↦ false
      | some o ↦ text_eq o descending
    ] in
    let order = if is_descending then codes "Asc" else descending in
    send_on_current_info (record s { info = record s.info { sort_order = some order } }) true

-- `pageClickHandler`
unfoldable pub page_click : PageState → ℕ → PageState
unfolding send_on_current_info
page_click s page =
    send_on_current_info (record s { info = record s.info { page = decimal page } }) true
