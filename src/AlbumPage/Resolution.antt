-- ===== src/AlbumPage/Resolution.antt =====
-- The choice of a resolution of an album, in album/album-page.js.
use streaming_service.Base.JsMap
use streaming_service.AlbumPage.{
  Album, AlbumItem, AlbumResult, Cursor, UrlAnswer, add_media, add_media_items, add_or_throw,
  album_ok, album_threw, batch_size, cursor_of, fetch_urls, image_item, is_done, keep_page,
  next_page, observe_end, or_empty, other_item, reach_sentinel, show_page, urls_loaded, urls_of,
  video_item,
}
use streaming_service.AlbumPage.Filled.{add_media-urls}
use streaming_service.AlbumPage.Played.{get-set_self}
use streaming_service.Base.{
  Bool, List, Option, [], ap, arith, false, get_elem?, if◌then◌else◌, is_some, leb, length,
  length-append, none, refl, some, suc, true, zero, ℕ, ◌++◌, ◌+◌, ◌<◌, ◌∙◌, ◌∷◌, ◌≡◌,
}
use streaming_service.Base.JsMap.{JsMap}
use streaming_service.Base.Text.{Text, truthy}

abbrev pub image_urls : List AlbumItem → List Text
image_urls [] = []
image_urls (image_item url ∷ xs) = url ∷ image_urls xs
image_urls (video_item url ∷ xs) = image_urls xs
image_urls (other_item ∷ xs) = image_urls xs

-- The image nodes get the addresses of the new resolution in turn, and those beyond a batch go.
unfoldable pub replace_sources : ℕ → List (ℕ × Text) → List Text → List (ℕ × Text)
replace_sources n [] urls = []
replace_sources n ((k, old) ∷ nodes) [] =
    let rest = replace_sources (suc n) nodes [] in
    if leb batch_size n then rest else (k, old) ∷ rest
replace_sources n ((k, old) ∷ nodes) (url ∷ urls) =
    let rest = replace_sources (suc n) nodes urls in
    if leb batch_size n then replace_sources (suc n) nodes (url ∷ urls) else (k, url) ∷ rest

unfoldable pub show_resolution : Album × Option (List AlbumItem) → Album
unfolding replace_sources
show_resolution (a, none) = a
show_resolution (a, some xs) = record a {
  current_batch = batch_size;
  images = replace_sources 0 a.images (image_urls (urls_of a));
  observing = true;
}

-- The choice of a resolution.
unfoldable pub change_resolution : Album → Text → UrlAnswer → Album
unfolding fetch_urls show_resolution
change_resolution a chosen answer =
    show_resolution (fetch_urls (record a { resolution = chosen }) answer)

abbrev pub is_thrown : AlbumResult → Bool
is_thrown (album_ok a) = false
is_thrown (album_threw a) = true

get_elem?-less :
    (xs : List AlbumItem) (i : ℕ) (x : AlbumItem) → get_elem? xs i ≡ some x → i < length xs
get_elem?-less [] i x h = cc
get_elem?-less (y ∷ xs) zero x h = omega arith
get_elem?-less (y ∷ xs) (suc i) x h = let less = get_elem?-less xs i x h in omega arith

add_or_throw-thrown :
    (a : Album) (from : ℕ) (o : Option AlbumItem) (rest : Album → AlbumResult)
    → get_elem? (urls_of a) from ≡ o
    → ((x : AlbumItem) → from < length (urls_of a) → is_thrown (rest (add_media a x)) ≡ true)
    → is_thrown (add_or_throw a o rest) ≡ true
unfolding add_or_throw
add_or_throw-thrown a from none rest e h = refl
add_or_throw-thrown a from (some x) rest e h = h x (get_elem?-less (urls_of a) from x e)

-- Items beyond the end throw.
add_media_items-thrown :
    (a : Album) (from n : ℕ)
    → 0 < n
    → length (urls_of a) < from + n
    → is_thrown (add_media_items a from n) ≡ true
unfolding add_media_items
add_media_items-thrown a from zero h over = absurd (omega arith)
add_media_items-thrown a from (suc n) h over =
    add_or_throw-thrown a from (get_elem? (urls_of a) from) (λ b. add_media_items b (suc from) n)
      refl
      (λ x less.
        add_media_items-thrown (add_media a x) (suc from) n (omega arith)
          (rw (add_media-urls a x) (omega arith)))

-- The page behind a page of items that has come.
abbrev kept : Album → List AlbumItem → Option Text → Album
kept a xs next =
    let known = JsMap.get a.page_map a.resolution in
    keep_page
      (record a {
        requests =
            a.requests
            ++ record {
              resolution = a.resolution;
              page = next_page known;
              cursor = cursor_of known;
            }
              ∷ [];
      })
      (next_page known) xs next

fetch_urls-more :
    (a : Album) (xs : List AlbumItem) (next : Option Text)
    → is_done (JsMap.get a.page_map a.resolution) ≡ false
    → fetch_urls a (urls_loaded xs next) ≡ (kept a xs next, some xs)
unfolding fetch_urls
fetch_urls-more a xs next h = ap (λ b. if b then (a, some []) else (kept a xs next, some xs)) h

kept-urls :
    (a : Album) (xs : List AlbumItem) (next : Option Text)
    → urls_of (kept a xs next) ≡ urls_of a ++ xs
unfolding keep_page
kept-urls a xs next = ap or_empty (get-set_self a.url_map a.resolution (urls_of a ++ xs))

-- An end that is reached with the number of the next item beyond the items.
observe_end-thrown :
    (b : Album) (o : Option Cursor) (ys : List AlbumItem) (more : Option Text)
    → JsMap.get b.page_map b.resolution ≡ o
    → is_done o ≡ false
    → length (urls_of b) < b.current_batch
    → 0 < length ys
    → is_thrown (observe_end b o (urls_loaded ys more)) ≡ true
unfolding observe_end show_page keep_page
observe_end-thrown b none ys more e h few some_items = refl
observe_end-thrown b (some c) ys more e h few some_items =
    let page : is_some c.page ≡ true = ground arith in
    let open_page : is_done (JsMap.get b.page_map b.resolution) ≡ false = ap is_done e ∙ h in
    let longer : length (urls_of (kept b ys more)) ≡ length (urls_of b) + length ys =
      ap length (kept-urls b ys more) ∙ length-append (urls_of b) ys in
    ap
      (λ p. is_thrown (
        if p
        then show_page (fetch_urls b (urls_loaded ys more))
        else album_ok (record b { observing = false })))
      page
    ∙ ap (λ r. is_thrown (show_page r)) (fetch_urls-more b ys more open_page)
    ∙ add_media_items-thrown (kept b ys more) b.current_batch (length ys) some_items (omega arith)

kept-cursor :
    (a : Album) (xs : List AlbumItem) (next : Option Text)
    → truthy next ≡ true
    → is_done (JsMap.get (kept a xs next).page_map a.resolution) ≡ false
unfolding keep_page
kept-cursor a xs next h = ap is_done (get-set_self a.page_map a.resolution _) ∙ rw h refl

-- If a resolution is chosen for the first time and its first page has fewer items than a batch and is
-- not the last one, then the next page with items throws when the end of the album is reached.
pub change_resolution-throws :
    (a : Album) (chosen : Text) (xs ys : List AlbumItem) (next more : Option Text)
    → JsMap.get a.page_map chosen ≡ none
    → JsMap.get a.url_map chosen ≡ none
    → length xs < batch_size
    → truthy next ≡ true
    → 0 < length ys
    → is_thrown
        (reach_sentinel (change_resolution a chosen (urls_loaded xs next)) (urls_loaded ys more))
      ≡ true
unfolding change_resolution reach_sentinel show_resolution keep_page
change_resolution-throws a chosen xs ys next more new_page new_urls few goes_on some_items =
    let a' = record a { resolution = chosen } in
    let b = show_resolution (kept a' xs next, some xs) in
    let fresh : is_done (JsMap.get a'.page_map a'.resolution) ≡ false = ap is_done new_page in
    let all : urls_of b ≡ xs = kept-urls a' xs next ∙ ap (λ o. or_empty o ++ xs) new_urls in
    let less : length (urls_of b) < 25 = rw all few in
    ap (λ r. is_thrown (reach_sentinel (show_resolution r) (urls_loaded ys more)))
      (fetch_urls-more a' xs next fresh)
    ∙ observe_end-thrown b (JsMap.get b.page_map b.resolution) ys more refl
        (kept-cursor a' xs next goes_on) less some_items
