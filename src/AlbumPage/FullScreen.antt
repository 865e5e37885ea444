-- ===== src/AlbumPage/FullScreen.antt =====
-- The full screen over the images of an album, in album/album-page.js.
use streaming_service.Base.JsMap
use streaming_service.AlbumPage.{
  Album, AlbumItem, AlbumResult, Cursor, UrlAnswer, add_media_items, album_ok, album_threw,
  fetch_urls,
}
use streaming_service.Base.{
  List, Option, [], false, if◌then◌else◌, is_some, length, ltb, none, some, suc, true, zero, ℕ, ◌+◌,
  ◌==◌, ◌∷◌,
}
use streaming_service.Base.JsMap.{JsMap}
use streaming_service.Base.Text.{Text}

-- The source of the image wrapper with a number, `document.getElementById`.
unfoldable pub source_of : List (ℕ × Text) → ℕ → Option Text
source_of [] k = none
source_of ((j, url) ∷ nodes) k = let rest = source_of nodes k in if j == k then some url else rest

unfoldable pub show_source : Album → ℕ → Option Text → Album
show_source a k none = a
show_source a k (some url) = record a { full_screen = some k; full_source = some url }

-- `showFullScreen`
unfoldable pub show_full_screen : Album → ℕ → Album
unfolding source_of show_source
show_full_screen a k = show_source a k (source_of a.images k)

-- `isShowingNextFullScreen = false`, which an exception leaves set.
unfoldable pub free_next : AlbumResult → AlbumResult
free_next (album_ok a) = album_ok (record a { showing_next = false })
free_next (album_threw a) = album_threw a

unfoldable pub next_items : Album × Option (List AlbumItem) → AlbumResult
unfolding add_media_items
next_items (a, none) = album_ok a
next_items (a, some xs) = add_media_items a a.current_batch (length xs)

-- The next page is loaded when the last image but one is near.
unfoldable pub load_ahead : Album → ℕ → Option Cursor → UrlAnswer → AlbumResult
unfolding fetch_urls next_items
load_ahead a k none answer = album_threw a
load_ahead a k (some c) answer =
    if is_some c.page
    then if ltb (k + 2) a.current_batch then album_ok a else next_items (fetch_urls a answer)
    else album_ok a

-- `showNextFullScreen` from the image with a number.
unfoldable pub next_full_screen : Album → ℕ → UrlAnswer → AlbumResult
unfolding show_full_screen free_next load_ahead
next_full_screen a k answer =
    if a.showing_next
    then album_ok a
    else let a' = show_full_screen (record a { showing_next = true }) (suc k) in
      free_next (load_ahead a' k (JsMap.get a'.page_map a'.resolution) answer)

-- `showNextFullScreen`. Before an image has been opened, `currentFullScreen` is null: an arrow in the
-- full screen of a video player throws, and leaves `isShowingNextFullScreen` set.
unfoldable pub show_next_full_screen : Album → Option ℕ → UrlAnswer → AlbumResult
unfolding next_full_screen
show_next_full_screen a none answer =
    if a.showing_next then album_ok a else album_threw (record a { showing_next = true })
show_next_full_screen a (some k) answer = next_full_screen a k answer

-- `showPreviousFullScreen`, which throws before an image has been opened.
unfoldable pub show_previous_full_screen : Album → Option ℕ → AlbumResult
unfolding show_full_screen
show_previous_full_screen a none = album_threw a
show_previous_full_screen a (some zero) = album_ok a
show_previous_full_screen a (some (suc k)) = album_ok (show_full_screen a k)
