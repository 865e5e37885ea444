-- ===== src/AlbumPage/Started.antt =====
-- An album from its first page on.
use streaming_service.Base.JsMap
use streaming_service.AlbumPage.{Album, AlbumItem, keep_page, new_album}
use streaming_service.Base.{List, Option, [], none, ◌∷◌}
use streaming_service.Base.JsMap.{JsMap}
use streaming_service.Base.Text.{Text, codes}

-- The page behind the first page of items.
abbrev first_page : List AlbumItem → Option Text → Album
first_page xs next =
    record (keep_page
      (record new_album {
        requests = record { resolution = codes "p480"; page = 0; cursor = none } ∷ [];
      })
      0 xs next) { images = []; videos = [] }
