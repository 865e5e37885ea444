-- ===== src/BrowsePage/Tabs.antt =====
-- What the pages of names of browse-page.js show and what their addresses say.
use streaming_service.Base.JsMap
use streaming_service.Base.{
  List, Option, [], arith, false, none, refl, some, ◌*◌, ◌++◌, ◌+◌, ◌<◌, ◌∷◌, ◌≡◌, ◌≤◌,
}
use streaming_service.Base.JsMap.{JsMap}
use streaming_service.Base.Text.{text_eq}
use streaming_service.BrowsePage.{
  Browse, BrowseUrl, NameItems, NameKind, click_tab, entry_key, page_count,
}

-- The number of pages is enough for all items, and one page less is not.
pub page_count_bounds :
    (items : NameItems)
    → 0 < items.page_size
    → (items.total ≤ page_count items * items.page_size)
      × (page_count items * items.page_size < items.total + items.page_size)
unfolding page_count
page_count_bounds items h = grind arith

-- The last address in the history.
abbrev pub last_url : List BrowseUrl → Option BrowseUrl
last_url [] = none
last_url (u ∷ []) = some u
last_url (u ∷ v ∷ us) = last_url (v ∷ us)

last_url-append : (us : List BrowseUrl) (u : BrowseUrl) → last_url (us ++ u ∷ []) ≡ some u
last_url-append [] u = refl
last_url-append (v ∷ []) u = refl
last_url-append (v ∷ w ∷ us) u = last_url-append (w ∷ us) u

-- A tab whose names are kept shows them, while the address names the page and the sort order of the
-- tab that was open: they disagree whenever the kept page is not the number of the page that was
-- open.
pub click_tab_kept :
    (b : Browse) (e : NameKind) (kept : NameItems) (answer : Option NameItems)
    → text_eq (entry_key b.current_entry) (entry_key e) ≡ false
    → JsMap.get b.tabs (entry_key e) ≡ some kept
    → ((click_tab b e answer).shown_page ≡ kept.page_number)
      × ((click_tab b e answer).current_page ≡ b.current_page)
      × (last_url (click_tab b e answer).history
          ≡ some
              (record { entry = e; page = b.current_page; by = b.sort_by; order = b.sort_order }))
      × ((click_tab b e answer).requests ≡ b.requests)
unfolding click_tab
click_tab_kept b e kept answer other there = ground (
  arith,
  last_url-append b.history
      (record { entry = e; page = b.current_page; by = b.sort_by; order = b.sort_order }),
)
