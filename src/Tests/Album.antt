-- ===== src/Tests/Album.antt =====
-- Runs of the model of album-page.js.
use streaming_service.Base.JsMap
use streaming_service.AlbumPage.{
  Album, AlbumItem, image_item, new_album, reach_sentinel, urls_failed, urls_loaded, video_item,
}
use streaming_service.AlbumPage.Filled.{IsFilled}
use streaming_service.AlbumPage.FullScreen.{show_next_full_screen}
use streaming_service.AlbumPage.Played.{
  AlbumEvent, end_reached, image_opened, stepped_back, stepped_on,
}
use streaming_service.AlbumPage.Resolution.{change_resolution, change_resolution-throws, is_thrown}
use streaming_service.AlbumPage.Stepped.{page_of, show_next_full_screen-step}
use streaming_service.Base.{List, Option, [], arith, none, refl, some, true, ◌∷◌, ◌≡◌}
use streaming_service.Base.JsMap.{JsMap}
use streaming_service.Base.Text.{Text, codes, text_eq, truthy}

abbrev two_images : List AlbumItem
two_images = image_item (codes "a") ∷ video_item (codes "v") ∷ image_item (codes "b") ∷ []

abbrev cursor : Option Text
cursor = some (codes "c")

-- The last image but one is opened, and the step on loads a page.
abbrev events : List AlbumEvent
events =
    image_opened 2
    ∷ stepped_on (urls_loaded (image_item (codes "d") ∷ []) none)
    ∷ end_reached urls_failed
    ∷ stepped_back
    ∷ []

abbrev first : Album
first = record new_album {
  url_map = (codes "p480", two_images) ∷ [];
  page_map = (codes "p480", record { page = none; next_cursor = none }) ∷ [];
  current_batch = 3;
  images = (0, codes "a") ∷ (2, codes "b") ∷ [];
  videos = codes "v" ∷ [];
  full_screen = some 0;
}

first-IsFilled : IsFilled first
unfolding JsMap.get text_eq
first-IsFilled = record { batch = refl; images = refl; videos = refl }

show_next_full_screen-step_example :
    (page_of (show_next_full_screen first (some 0) urls_failed)).full_screen ≡ some 0
unfolding JsMap.get text_eq
show_next_full_screen-step_example =
    show_next_full_screen-step first 0 urls_failed first-IsFilled refl refl

change_resolution-throws_example :
    is_thrown (
      reach_sentinel
        (change_resolution first (codes "p720") (urls_loaded two_images cursor))
        (urls_loaded two_images none))
    ≡ true
unfolding JsMap.get text_eq truthy
change_resolution-throws_example =
    change_resolution-throws first (codes "p720") two_images two_images cursor none refl refl
      (omega arith) refl (omega arith)
