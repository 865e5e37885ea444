-- ===== src/AlbumPage/Stepped.antt =====
-- Which image the full screen of an album steps to.
use streaming_service.Base.JsMap
use streaming_service.AlbumPage.{
  Album, AlbumItem, AlbumResult, Cursor, UrlAnswer, add_media, add_media_items, add_or_throw,
  album_ok, album_threw, fetch_urls, image_item, is_done, keep_page, other_item, urls_failed,
  urls_loaded, urls_of, video_item,
}
use streaming_service.AlbumPage.Filled.{IsFilled, image_nodes}
use streaming_service.AlbumPage.FullScreen.{
  free_next, load_ahead, next_full_screen, next_items, show_full_screen, show_next_full_screen,
  show_source, source_of,
}
use streaming_service.Base.{
  List, Option, [], ap, arith, false, get_elem?, if_either, if◌then◌else◌, is_some, length, ltb,
  none, refl, some, suc, true, zero, ℕ, ◌+◌, ◌<◌, ◌∙◌, ◌∷◌, ◌≡◌,
}
use streaming_service.Base.JsMap.{JsMap}
use streaming_service.Base.Text.{Text}

-- The address of the item at an index, if it is an image.
abbrev pub image_at : List AlbumItem → ℕ → Option Text
image_at [] j = none
image_at (image_item url ∷ xs) zero = some url
image_at (video_item url ∷ xs) zero = none
image_at (other_item ∷ xs) zero = none
image_at (x ∷ xs) (suc j) = image_at xs j

source_of-before : (xs : List AlbumItem) (i j : ℕ) → j < i → source_of (image_nodes i xs) j ≡ none
unfolding source_of
source_of-before [] i j h = refl
source_of-before (image_item url ∷ xs) i j h = ground (arith, source_of-before xs (suc i) j)
source_of-before (video_item url ∷ xs) i j h = source_of-before xs (suc i) j (omega arith)
source_of-before (other_item ∷ xs) i j h = source_of-before xs (suc i) j (omega arith)

source_of-nodes :
    (xs : List AlbumItem) (i j : ℕ) → source_of (image_nodes i xs) (j + i) ≡ image_at xs j
unfolding source_of
source_of-nodes [] i j = refl
source_of-nodes (image_item url ∷ xs) i zero = ground arith
source_of-nodes (video_item url ∷ xs) i zero = source_of-before xs (suc i) (0 + i) (omega arith)
source_of-nodes (other_item ∷ xs) i zero = source_of-before xs (suc i) (0 + i) (omega arith)
source_of-nodes (image_item url ∷ xs) i (suc j) =
    let same : suc j + i ≡ j + suc i = omega arith in
    let rest = ap (source_of (image_nodes (suc i) xs)) same ∙ source_of-nodes xs (suc i) j in
    ground (arith, rest)
source_of-nodes (video_item url ∷ xs) i (suc j) =
    let same : suc j + i ≡ j + suc i = omega arith in
    ap (source_of (image_nodes (suc i) xs)) same ∙ source_of-nodes xs (suc i) j
source_of-nodes (other_item ∷ xs) i (suc j) =
    let same : suc j + i ≡ j + suc i = omega arith in
    ap (source_of (image_nodes (suc i) xs)) same ∙ source_of-nodes xs (suc i) j

abbrev pub page_of : AlbumResult → Album
page_of (album_ok a) = a
page_of (album_threw a) = a

add_media-full : (a : Album) (x : AlbumItem) → (add_media a x).full_screen ≡ a.full_screen
unfolding add_media
add_media-full a (image_item url) = refl
add_media-full a (video_item url) = refl
add_media-full a other_item = refl

add_or_throw-full :
    (a : Album) (o : Option AlbumItem) (rest : Album → AlbumResult)
    → ((b : Album) → (page_of (rest b)).full_screen ≡ b.full_screen)
    → (page_of (add_or_throw a o rest)).full_screen ≡ a.full_screen
unfolding add_or_throw
add_or_throw-full a none rest h = refl
add_or_throw-full a (some x) rest h = h (add_media a x) ∙ add_media-full a x

add_media_items-full :
    (a : Album) (from n : ℕ) → (page_of (add_media_items a from n)).full_screen ≡ a.full_screen
unfolding add_media_items
add_media_items-full a from zero = refl
add_media_items-full a from (suc n) =
    add_or_throw-full a (get_elem? (urls_of a) from) (λ b. add_media_items b (suc from) n)
      (λ b. add_media_items-full b (suc from) n)

fetch_urls-full :
    (a : Album) (answer : UrlAnswer) → (fetch_urls a answer).0.full_screen ≡ a.full_screen
unfolding fetch_urls keep_page
fetch_urls-full a urls_failed =
    if_either (λ (r : Album × Option (List AlbumItem)). r.0.full_screen ≡ a.full_screen)
      (is_done (JsMap.get a.page_map a.resolution)) _ _ refl refl
fetch_urls-full a (urls_loaded xs next) =
    if_either (λ (r : Album × Option (List AlbumItem)). r.0.full_screen ≡ a.full_screen)
      (is_done (JsMap.get a.page_map a.resolution)) _ _ refl refl

next_items-full :
    (r : Album × Option (List AlbumItem)) → (page_of (next_items r)).full_screen ≡ r.0.full_screen
unfolding next_items
next_items-full (a, none) = refl
next_items-full (a, some xs) = add_media_items-full a a.current_batch (length xs)

load_ahead-full :
    (a : Album) (k : ℕ) (o : Option Cursor) (answer : UrlAnswer)
    → (page_of (load_ahead a k o answer)).full_screen ≡ a.full_screen
unfolding load_ahead
load_ahead-full a k none answer = refl
load_ahead-full a k (some c) answer =
    if_either (λ r. (page_of r).full_screen ≡ a.full_screen) (is_some c.page) _ _
      (if_either (λ r. (page_of r).full_screen ≡ a.full_screen) (ltb (k + 2) a.current_batch) _ _
        refl (next_items-full (fetch_urls a answer) ∙ fetch_urls-full a answer))
      refl

free_next-full : (r : AlbumResult) → (page_of (free_next r)).full_screen ≡ (page_of r).full_screen
unfolding free_next
free_next-full (album_ok a) = refl
free_next-full (album_threw a) = refl

show_source-full :
    (a : Album) (k : ℕ) (o : Option Text)
    → (show_source a k o).full_screen ≡ (if is_some o then some k else a.full_screen)
unfolding show_source
show_source-full a k none = refl
show_source-full a k (some url) = refl

source_of-filled : (a : Album) (k : ℕ) → IsFilled a → source_of a.images k ≡ image_at (urls_of a) k
source_of-filled a k f =
    let same : k ≡ k + 0 = omega arith in
    ap (λ nodes. source_of nodes k) f.images
    ∙ ap (source_of (image_nodes 0 (urls_of a))) same
    ∙ source_of-nodes (urls_of a) 0 k

-- If the page has its nodes and no step is under way, a step on from an image goes to the item
-- behind it if that is an image, and stays where it is if it is a video or the last item: a video
-- cannot be passed.
pub show_next_full_screen-step :
    (a : Album) (k : ℕ) (answer : UrlAnswer)
    → IsFilled a
    → a.full_screen ≡ some k
    → a.showing_next ≡ false
    → (page_of (show_next_full_screen a a.full_screen answer)).full_screen
      ≡ (if is_some (image_at (urls_of a) (suc k)) then some (suc k) else some k)
unfolding show_next_full_screen next_full_screen show_full_screen
show_next_full_screen-step a k answer f here free =
    let taken = record a { showing_next = true } in
    let o = source_of a.images (suc k) in
    let a' = show_source taken (suc k) o in
    let ahead = load_ahead a' k (JsMap.get a'.page_map a'.resolution) answer in
    let goes_on : next_full_screen a k answer ≡ free_next ahead =
      ap (λ b. if b then album_ok a else free_next ahead) free in
    ap (λ p. (page_of (show_next_full_screen a p answer)).full_screen) here
    ∙ ap (λ r. (page_of r).full_screen) goes_on
    ∙ free_next-full ahead
    ∙ load_ahead-full a' k (JsMap.get a'.page_map a'.resolution) answer
    ∙ show_source-full taken (suc k) o
    ∙ ap (λ s. if is_some s then some (suc k) else a.full_screen) (source_of-filled a (suc k) f)
    ∙ ap (λ p. if is_some (image_at (urls_of a) (suc k)) then some (suc k) else p) here
