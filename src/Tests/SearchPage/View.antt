-- ===== src/Tests/SearchPage/View.antt =====
-- Runs of the steps through the results of search-page.js.
use streaming_service.Base.{[], arith, false, none, refl, some, ◌∷◌}
use streaming_service.Base.Text.{codes, text_eq}
use streaming_service.SearchPage.View.{ViewItem, Viewer, is_grouper, view_next_media}
use streaming_service.SearchPage.View.Next.{Finds, honest, view_next_media-Finds}

abbrev video : ViewItem
video = record { id = codes "v"; media_type = codes "VIDEO" }

abbrev album : ViewItem
album = record { id = codes "a"; media_type = codes "ALBUM" }

abbrev grouper : ViewItem
grouper = record { id = codes "g"; media_type = codes "GROUPER" }

-- The video is open, on the middle one of three pages.
abbrev middle : Viewer
middle = record {
  items = grouper ∷ video ∷ [];
  displays = [];
  index = some 1;
  page = 1;
  total_pages = 3;
  asked = [];
  previous_hidden = false;
  next_hidden = false;
  opening = none;
}

view_next_media-Finds_example :
    Finds (view_next_media middle (honest 2 3 ((grouper ∷ album ∷ []) ∷ []))) (some album)
unfolding is_grouper text_eq
view_next_media-Finds_example =
    view_next_media-Finds middle 1 ((grouper ∷ album ∷ []) ∷ []) refl refl refl (omega arith, tt)
