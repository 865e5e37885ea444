-- ===== src/AlbumPage/Filled.antt =====
-- The nodes of an album.
use streaming_service.AlbumPage.{
  Album, AlbumItem, add_media, add_media_items, add_or_throw, album_ok, image_item, other_item,
  urls_of, video_item,
}
use streaming_service.Base.{
  List, [], ap, append-nil, append_assoc, arith, get_elem?, length, length-append, refl, some, suc,
  sym, ℕ, ◌++◌, ◌+◌, ◌∙◌, ◌∷◌, ◌≡◌,
}
use streaming_service.Base.Text.{Text}

-- The image nodes and the addresses of the videos that some items make, counted from a number.
abbrev pub image_nodes : ℕ → List AlbumItem → List (ℕ × Text)
image_nodes i [] = []
image_nodes i (image_item url ∷ xs) = (i, url) ∷ image_nodes (suc i) xs
image_nodes i (video_item url ∷ xs) = image_nodes (suc i) xs
image_nodes i (other_item ∷ xs) = image_nodes (suc i) xs

abbrev pub video_urls : List AlbumItem → List Text
video_urls [] = []
video_urls (image_item url ∷ xs) = video_urls xs
video_urls (video_item url ∷ xs) = url ∷ video_urls xs
video_urls (other_item ∷ xs) = video_urls xs

-- The page has a node for each item that is loaded.
pub record IsFilled (a : Album) : Type 0 where
  pub batch : a.current_batch ≡ length (urls_of a)
  pub images : a.images ≡ image_nodes 0 (urls_of a)
  pub videos : a.videos ≡ video_urls (urls_of a)

get_elem?-middle :
    (xs : List AlbumItem) (y : AlbumItem) (ys : List AlbumItem)
    → get_elem? (xs ++ y ∷ ys) (length xs) ≡ some y
get_elem?-middle [] y ys = refl
get_elem?-middle (x ∷ xs) y ys = get_elem?-middle xs y ys

-- The page with the nodes of some items behind the others.
abbrev pub with_nodes : Album → List AlbumItem → Album
with_nodes a ys = record a {
  images = a.images ++ image_nodes a.current_batch ys;
  videos = a.videos ++ video_urls ys;
  current_batch = a.current_batch + length ys;
}

pub add_media-urls : (a : Album) (y : AlbumItem) → urls_of (add_media a y) ≡ urls_of a
unfolding add_media
add_media-urls a (image_item url) = refl
add_media-urls a (video_item url) = refl
add_media-urls a other_item = refl

with_nodes-cons :
    (a : Album) (y : AlbumItem) (ys : List AlbumItem)
    → with_nodes (add_media a y) ys ≡ with_nodes a (y ∷ ys)
unfolding add_media
with_nodes-cons a (image_item url) ys = ground (
  arith,
  append_assoc a.images ((a.current_batch, url) ∷ []) (image_nodes (suc a.current_batch) ys),
)
with_nodes-cons a (video_item url) ys =
    ground (arith, append_assoc a.videos (url ∷ []) (video_urls ys))
with_nodes-cons a other_item ys = ground arith

pub add_media_items-nodes :
    (a : Album) (xs ys : List AlbumItem)
    → urls_of a ≡ xs ++ ys
    → add_media_items a (length xs) (length ys) ≡ album_ok (with_nodes a ys)
unfolding add_media_items add_or_throw
add_media_items-nodes a xs [] e =
    ap album_ok (ground (arith, append-nil a.images, append-nil a.videos))
add_media_items-nodes a xs (y ∷ ys) e =
    let there : get_elem? (urls_of a) (length xs) ≡ some y =
      ap (λ us. get_elem? us (length xs)) e ∙ get_elem?-middle xs y ys in
    let longer : length (xs ++ y ∷ []) ≡ suc (length xs) =
      length-append xs (y ∷ []) ∙ omega arith in
    let split : urls_of (add_media a y) ≡ (xs ++ y ∷ []) ++ ys =
      add_media-urls a y ∙ e ∙ sym (append_assoc xs (y ∷ []) ys) in
    ap (λ o. add_or_throw a o (λ b. add_media_items b (suc (length xs)) (length ys))) there
    ∙ ap (λ n. add_media_items (add_media a y) n (length ys)) (sym longer)
    ∙ add_media_items-nodes (add_media a y) (xs ++ y ∷ []) ys split
    ∙ ap album_ok (with_nodes-cons a y ys)

image_nodes-append :
    (i : ℕ) (xs ys : List AlbumItem)
    → image_nodes i (xs ++ ys) ≡ image_nodes i xs ++ image_nodes (i + length xs) ys
image_nodes-append i [] ys = let same : i + 0 ≡ i = omega arith in rw same refl
image_nodes-append i (image_item url ∷ xs) ys =
    let same : i + suc (length xs) ≡ suc i + length xs = omega arith in
    rw same (ap ((i, url) ∷◌) (image_nodes-append (suc i) xs ys))
image_nodes-append i (video_item url ∷ xs) ys =
    let same : i + suc (length xs) ≡ suc i + length xs = omega arith in
    rw same (image_nodes-append (suc i) xs ys)
image_nodes-append i (other_item ∷ xs) ys =
    let same : i + suc (length xs) ≡ suc i + length xs = omega arith in
    rw same (image_nodes-append (suc i) xs ys)

video_urls-append :
    (xs ys : List AlbumItem) → video_urls (xs ++ ys) ≡ video_urls xs ++ video_urls ys
video_urls-append [] ys = refl
video_urls-append (image_item url ∷ xs) ys = video_urls-append xs ys
video_urls-append (video_item url ∷ xs) ys = ap (url ∷◌) (video_urls-append xs ys)
video_urls-append (other_item ∷ xs) ys = video_urls-append xs ys

-- The items of a page, behind those that have nodes, get theirs.
pub IsFilled-with_nodes :
    (a b : Album) (ys : List AlbumItem)
    → IsFilled a
    → b.images ≡ a.images
    → b.videos ≡ a.videos
    → b.current_batch ≡ a.current_batch
    → urls_of b ≡ urls_of a ++ ys
    → IsFilled (with_nodes b ys)
IsFilled-with_nodes a b ys f im vi ba e = record {
  batch = rw (ba, f.batch, e) (sym (length-append (urls_of a) ys));
  images =
      let from_end : 0 + length (urls_of a) ≡ length (urls_of a) = omega arith in
      rw (im, ba, f.images, f.batch, e)
        (ap (λ n. image_nodes 0 (urls_of a) ++ image_nodes n ys) (sym from_end)
          ∙ sym (image_nodes-append 0 (urls_of a) ys));
  videos = rw (vi, f.videos, e) (sym (video_urls-append (urls_of a) ys));
}
