-- ===== src/Tests/SearchPage.antt =====
-- Runs of the search page's model: search-page.js.
mod View
use streaming_service.Base.JsMap
use streaming_service.Base.{[], false, none, refl, some, true, ◌∷◌, ◌≡◌}
use streaming_service.Base.JsMap.{JsMap, values}
use streaming_service.Base.Text.{codes, truthy}
use streaming_service.SearchPage.Advance.{Form}
use streaming_service.SearchPage.Areas.{
  Area, new_area, on_found, on_inclusion, on_remove, play_clicks,
}
use streaming_service.SearchPage.Areas.Shown.{IsListed, new_area-IsListed, play_clicks-IsListed}
use streaming_service.SearchPage.Info.{
  SearchField, SearchInfo, descending, get_page_search_url, keyword, read_info, request_of,
  upload_date,
}
use streaming_service.SearchPage.Info.Reload.{IsReadable, read_info-get_page_search_url}
use streaming_service.SearchPage.Send.{PageState}

abbrev order_by : SearchInfo
order_by = record {
  page = codes "2";
  sort_by = some upload_date;
  sort_order = some descending;
  search_string = none;
  keyword_field = some (codes "tags");
  keyword_values = some (codes "x,y");
  match_all = some true;
  advance_body = none;
  search_type = some keyword;
}

order_by-IsReadable : IsReadable order_by
unfolding truthy
order_by-IsReadable = record { page = refl; sort_by = refl; sort_order = refl; rest = (refl, refl) }

read_info-get_page_search_url_example :
    request_of (read_info (get_page_search_url (some keyword) order_by).query none)
    ≡ request_of order_by
read_info-get_page_search_url_example =
    read_info-get_page_search_url order_by true order_by-IsReadable refl

play_clicks-IsListed_example : IsListed (
    play_clicks (new_area false) (
      on_found (codes "1")
      ∷ on_found (codes "2")
      ∷ on_inclusion (codes "1")
      ∷ on_remove (codes "2")
      ∷ []))
play_clicks-IsListed_example =
    play_clicks-IsListed (new_area false)
      (on_found (codes "1")
        ∷ on_found (codes "2")
        ∷ on_inclusion (codes "1")
        ∷ on_remove (codes "2")
        ∷ [])
      (new_area-IsListed false)

-- An area with an included and an excluded item.
abbrev two_items : Area
two_items = record {
  added = (codes "1", true) ∷ (codes "2", false) ∷ [];
  match_all = false;
  lines = codes "1" ∷ codes "2" ∷ [];
  selected_count = 2;
  unselected_count = 1;
  button_hidden = false;
  list_hidden = true;
}

abbrev some_areas : JsMap Area
some_areas =
    (codes "universes", new_area false)
    ∷ (codes "characters", two_items)
    ∷ (codes "authors", new_area false)
    ∷ (codes "tags", new_area false)
    ∷ []

abbrev search : PageState
search = record {
  info = order_by;
  areas = some_areas;
  stored = none;
  history = [];
  sent = [];
  alert_text = none;
  form_hidden = false;
  search_is_submitting = false;
  advance_is_submitting = false;
}

abbrev form : Form
form = record {
  sort_by = some upload_date;
  sort_order = some descending;
  year_from = [];
  year_to = [];
  year_to_values = none;
  upload_from = [];
  upload_to = [];
  upload_to_values = none;
}

-- The field of the included item.
abbrev included_one : SearchField
included_one = record { field = codes "characters"; values = codes "1" ∷ []; match_all = false }

-- A form with a range of years.
abbrev year_form : Form
year_form = record form { year_from = codes "2020" }

-- The earlier date is to come second.
abbrev upside_down : Form
upside_down = record form { upload_from = codes "2024-05-01"; upload_to = codes "2023-05-01" }
