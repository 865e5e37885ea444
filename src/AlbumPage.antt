-- ===== src/AlbumPage.antt =====
-- The items of an album, loaded page by page in a resolution, and the full screen over its images:
-- frontend/src/main/resources/static/js/album/album-page.js.
pub mod Filled
pub mod FullScreen
pub mod Played
pub mod Started
pub mod Stepped
pub mod Resolution
use streaming_service.Base.JsMap
use streaming_service.Base.{
  Bool, List, Option, [], false, get_elem?, if◌then◌else◌, is_some, length, min, none, not, some,
  suc, true, zero, ℕ, ◌++◌, ◌+◌, ◌∷◌,
}
use streaming_service.Base.JsMap.{JsMap}
use streaming_service.Base.Text.{Text, codes, truthy}

-- An item of the server with its address.
pub data AlbumItem : Type 0 where
  image_item : Text → AlbumItem
  video_item : Text → AlbumItem
  other_item : AlbumItem

-- An entry of `albumUrlPageMap`: the number of the last page, `none` for -1, and the cursor.
pub record Cursor : Type 0 where
  pub page : Option ℕ
  pub next_cursor : Option Text

-- A request for a page of a resolution, with the cursor if there was a page before.
pub record UrlRequest : Type 0 where
  pub resolution : Text
  pub page : ℕ
  pub cursor : Option Text

-- What the promise of `pollPlaylistUrl` settles to.
pub data UrlAnswer : Type 0 where
  urls_loaded : List AlbumItem → Option Text → UrlAnswer
  urls_failed : UrlAnswer

-- The variables of the page. `images` are the wrappers with the number in their id and their source.
pub record Album : Type 0 where
  pub url_map : JsMap (List AlbumItem)
  pub page_map : JsMap Cursor
  pub resolution : Text
  pub current_batch : ℕ
  pub images : List (ℕ × Text)
  pub videos : List Text
  pub observing : Bool
  pub full_screen : Option ℕ
  pub full_source : Option Text
  pub showing_next : Bool
  pub requests : List UrlRequest
  pub alerts : ℕ

-- How a handler ends.
pub data AlbumResult : Type 0 where
  album_ok : Album → AlbumResult
  album_threw : Album → AlbumResult

abbrev pub batch_size : ℕ
batch_size = 25

abbrev pub or_empty : Option (List AlbumItem) → List AlbumItem
or_empty none = []
or_empty (some xs) = xs

-- `albumResUrlMap.get(currentAlbumResolution)`
abbrev pub urls_of : Album → List AlbumItem
urls_of a = or_empty (JsMap.get a.url_map a.resolution)

-- No page is left: `albumUrlPageMap.get(resolution).page === -1`.
abbrev pub is_done : Option Cursor → Bool
is_done none = false
is_done (some c) = not (is_some c.page)

abbrev pub next_page : Option Cursor → ℕ
next_page none = 0
next_page (some c) = elim c.page [ none ↦ 0 | some p ↦ suc p ]

abbrev pub cursor_of : Option Cursor → Option Text
cursor_of none = none
cursor_of (some c) = c.next_cursor

-- The maps behind a page that has come.
unfoldable pub keep_page : Album → ℕ → List AlbumItem → Option Text → Album
keep_page a page items next = record a {
  url_map = JsMap.set a.url_map a.resolution (urls_of a ++ items);
  page_map =
      JsMap.set a.page_map a.resolution
        (record { page = if truthy next then some page else none; next_cursor = next });
}

-- `fetchAlbumItemUrlsByResolution` for the current resolution; no items stand for null.
unfoldable pub fetch_urls : Album → UrlAnswer → Album × Option (List AlbumItem)
unfolding keep_page
fetch_urls a answer =
    let known = JsMap.get a.page_map a.resolution in
    let asked = record a {
      requests =
          a.requests
          ++ record { resolution = a.resolution; page = next_page known; cursor = cursor_of known }
            ∷ [];
    } in
    if is_done known then (a, some []) else elim answer [
      | urls_failed ↦ (record asked { alerts = a.alerts + 1 }, none)
      | urls_loaded items next ↦ (keep_page asked (next_page known) items next, some items)
    ]

-- One round of `addMediaItem`.
unfoldable pub add_media : Album → AlbumItem → Album
add_media a (image_item url) = record a {
  images = a.images ++ (a.current_batch, url) ∷ [];
  current_batch = suc a.current_batch;
}
add_media a (video_item url) = record a {
  videos = a.videos ++ url ∷ [];
  current_batch = suc a.current_batch;
}
add_media a other_item = record a { current_batch = suc a.current_batch }

-- An index out of range gives undefined, whose `type` throws.
unfoldable pub add_or_throw : Album → Option AlbumItem → (Album → AlbumResult) → AlbumResult
unfolding add_media
add_or_throw a none rest = album_threw a
add_or_throw a (some item) rest = rest (add_media a item)

-- `addMediaItem` from a start for a number of items.
unfoldable pub add_media_items : Album → ℕ → ℕ → AlbumResult
unfolding add_or_throw
add_media_items a start zero = album_ok a
add_media_items a start (suc n) =
    add_or_throw a (get_elem? (urls_of a) start) (λ b. add_media_items b (suc start) n)

unfoldable pub observe : AlbumResult → AlbumResult
observe (album_threw a) = album_threw a
observe (album_ok a) = album_ok (record a { observing = true })

-- `displayAlbumItems`
unfoldable pub display_album_items : Album → UrlAnswer → AlbumResult
unfolding fetch_urls add_media_items observe
display_album_items a answer =
    let (a', items) = fetch_urls a answer in
    elim items [
      | none ↦ album_ok a'
      | some xs ↦
          observe (
            add_media_items (record a' { images = []; videos = [] }) 0 (min batch_size (length xs)))
    ]

-- The items of the next page are shown behind the others; if it does not come, the observer stops.
unfoldable pub show_page : Album × Option (List AlbumItem) → AlbumResult
unfolding add_media_items
show_page (a, none) = album_ok (record a { observing = false })
show_page (a, some xs) = add_media_items a a.current_batch (length xs)

-- The observer meets the end of the page, by the entry of the resolution in `albumUrlPageMap`.
unfoldable pub observe_end : Album → Option Cursor → UrlAnswer → AlbumResult
unfolding fetch_urls show_page
observe_end a none answer = album_threw a
observe_end a (some c) answer =
    if is_some c.page
    then show_page (fetch_urls a answer)
    else album_ok (record a { observing = false })

unfoldable pub reach_sentinel : Album → UrlAnswer → AlbumResult
unfolding observe_end
reach_sentinel a answer = observe_end a (JsMap.get a.page_map a.resolution) answer

abbrev pub new_album : Album
new_album = record {
  url_map = [];
  page_map = [];
  resolution = codes "p480";
  current_batch = 0;
  images = [];
  videos = [];
  observing = false;
  full_screen = none;
  full_source = none;
  showing_next = false;
  requests = [];
  alerts = 0;
}
