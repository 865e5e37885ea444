-- ===== src/BrowsePage.antt =====
-- The page that lists names: frontend/src/main/resources/static/js/browse/browse-page.js.
pub mod Tabs
use streaming_service.Base.JsMap
use streaming_service.Base.{
  Bool, List, Option, [], false, if◌then◌else◌, none, some, true, ℕ, ◌++◌, ◌+◌, ◌-◌, ◌/◌, ◌==◌, ◌∷◌,
}
use streaming_service.Base.JsMap.{JsMap}
use streaming_service.Base.Text.{Text, codes, ends_with, text_eq}

-- `NameEntry`: its keys, which the page shows, with their values, which addresses have.
pub data NameKind : Type 0 where
  characters : NameKind
  universes : NameKind
  authors : NameKind
  tags : NameKind

abbrev pub entry_key : NameKind → Text
entry_key characters = codes "Characters"
entry_key universes = codes "Universes"
entry_key authors = codes "Authors"
entry_key tags = codes "Tags"

abbrev pub entry_value : NameKind → Text
entry_value characters = codes "characters"
entry_value universes = codes "universes"
entry_value authors = codes "authors"
entry_value tags = codes "tags"

-- `getCurrentNameEntry` on a path.
unfoldable pub get_current_name_entry : Text → NameKind
unfolding ends_with
get_current_name_entry path =
    if ends_with path (entry_value characters)
    then characters
    else if ends_with path (entry_value universes)
    then universes
    else if ends_with path (entry_value authors)
    then authors
    else if ends_with path (entry_value tags)
    then tags
    else characters

-- A page of names from the server.
pub record NameItems : Type 0 where
  pub names : List Text
  pub page_number : ℕ
  pub page_size : ℕ
  pub total : ℕ

-- The address of a page of names, and the request for one.
pub record BrowseUrl : Type 0 where
  pub entry : NameKind
  pub page : ℕ
  pub by : Text
  pub order : Text

-- The variables of the page; `currentBrowseTabMap`; what is shown, with the page that the
-- pagination has selected and its number of pages; the requests; the history; the alerts.
pub record Browse : Type 0 where
  pub current_entry : NameKind
  pub current_page : ℕ
  pub sort_by : Text
  pub sort_order : Text
  pub tabs : JsMap NameItems
  pub shown : List Text
  pub shown_page : ℕ
  pub shown_pages : ℕ
  pub requests : List BrowseUrl
  pub history : List BrowseUrl
  pub alerts : ℕ

-- `getBrowsePageUrl`
abbrev pub get_browse_page_url : Browse → ℕ → BrowseUrl
get_browse_page_url b page = record {
  entry = b.current_entry;
  page = page;
  by = b.sort_by;
  order = b.sort_order;
}

-- `Math.trunc((total + pageSize - 1) / pageSize)`
unfoldable pub page_count : NameItems → ℕ
page_count items = (items.total + items.page_size - 1) / items.page_size

-- `displayItem` and the call of `displayPagination`. Without items the entry is not kept.
unfoldable pub display_items : Browse → NameItems → Browse
unfolding page_count
display_items b items = record b {
  shown = if items.total == 0 then [] else items.names;
  shown_page = items.page_number;
  shown_pages = page_count items;
  tabs = if items.total == 0 then b.tabs else JsMap.set b.tabs (entry_key b.current_entry) items;
}

push_history : Browse → Bool → Browse
push_history b push =
    if push
    then record b { history = b.history ++ get_browse_page_url b b.current_page ∷ [] }
    else b

-- `fetchNameItems` for a page, with the items that are kept, if any, and the answer if they are asked
-- for; `none` is a refused request. The result says if it was fetched.
unfoldable pub fetch_name_items :
    Browse → ℕ → Bool → Option NameItems → Option NameItems → Browse × Bool
unfolding push_history display_items
fetch_name_items b page push (some kept) answer = (display_items (push_history b push) kept, true)
fetch_name_items b page push none answer =
    let b' = record b { requests = b.requests ++ get_browse_page_url b page ∷ [] } in
    elim answer [
      | none ↦ (record b' { alerts = b'.alerts + 1 }, false)
      | some items ↦ (display_items (push_history b' push) items, true)
    ]

-- A click on another kind of name.
unfoldable pub click_tab : Browse → NameKind → Option NameItems → Browse
unfolding fetch_name_items text_eq
click_tab b e answer =
    if text_eq (entry_key b.current_entry) (entry_key e)
    then b
    else let b' = record b { current_entry = e } in
      (fetch_name_items b' b'.current_page true (JsMap.get b'.tabs (entry_key e)) answer).0

-- `pageClickHandler`
unfoldable pub click_page : Browse → ℕ → Option NameItems → Browse
unfolding fetch_name_items
click_page b page answer =
    (fetch_name_items (record b { current_page = page }) page true none answer).0

-- A click on a sort button; the button that was chosen does nothing.
unfoldable pub click_sort : Browse → Text → Option NameItems → Browse
unfolding fetch_name_items text_eq
click_sort b by answer =
    if text_eq b.sort_by by
    then b
    else (fetch_name_items (record b { sort_by = by }) b.current_page true none answer).0

-- A click on the button of the sort order.
unfoldable pub click_order : Browse → Option NameItems → Browse
unfolding fetch_name_items text_eq
click_order b answer =
    let order = if text_eq b.sort_order (codes "Asc") then codes "Desc" else codes "Asc" in
    (fetch_name_items (record b { sort_order = order }) b.current_page true none answer).0
