-- ===== src/AlbumPage/Played.antt =====
-- The nodes of an album, whatever is loaded and viewed.
use mathlib.Core.Path.{subst}
use streaming_service.Base.JsMap
use streaming_service.AlbumPage.{
  Album, AlbumItem, AlbumResult, Cursor, UrlAnswer, add_media_items, album_ok, album_threw,
  fetch_urls, is_done, keep_page, observe_end, or_empty, reach_sentinel, show_page, urls_failed,
  urls_loaded, urls_of,
}
use streaming_service.AlbumPage.Filled.{IsFilled, IsFilled-with_nodes, add_media_items-nodes}
use streaming_service.AlbumPage.FullScreen.{
  free_next, load_ahead, next_full_screen, next_items, show_full_screen, show_next_full_screen,
  show_previous_full_screen, show_source, source_of,
}
use streaming_service.Base.{
  Bool-cases, List, Option, [], ap, append-nil, false, if_either, inl, inr, is_some, length, ltb,
  none, refl, some, suc, sym, true, zero, ℕ, ◌++◌, ◌+◌, ◌∙◌, ◌∷◌, ◌≡◌,
}
use streaming_service.Base.JsMap.{JsMap}
use streaming_service.Base.Text.{Text, text_eq_refl}

-- The page has its nodes, or a handler has thrown before any image was opened.
abbrev pub FilledResult : AlbumResult → Type 0
FilledResult (album_ok a) = IsFilled a × (is_some (JsMap.get a.page_map a.resolution) ≡ true)
FilledResult (album_threw a) = (a.full_screen ≡ none)

-- What a request leaves as it was, and what it adds.
abbrev SameNodes : Album → Album → Type 0
SameNodes a b =
    (b.images ≡ a.images)
    × (b.videos ≡ a.videos)
    × (b.current_batch ≡ a.current_batch)
    × (is_some (JsMap.get b.page_map b.resolution) ≡ true)

Fetched : Album → Album × Option (List AlbumItem) → Type 0
Fetched a (b, none) = SameNodes a b × (urls_of b ≡ urls_of a)
Fetched a (b, some xs) = SameNodes a b × (urls_of b ≡ urls_of a ++ xs)

pub get-set_self {ℓ} :
    {V : Type ℓ} (m : JsMap V) (k : Text) (v : V) → JsMap.get (JsMap.set m k v) k ≡ some v
get-set_self m k v = rw (JsMap.get-set m k v k, text_eq_refl k) refl

fetch_urls-Fetched :
    (a : Album) (answer : UrlAnswer)
    → is_some (JsMap.get a.page_map a.resolution) ≡ true
    → Fetched a (fetch_urls a answer)
unfolding fetch_urls Fetched keep_page
fetch_urls-Fetched a urls_failed known =
    elim (Bool-cases (is_done (JsMap.get a.page_map a.resolution))) [
      | inl done ↦ rw done ((refl, refl, refl, known), sym (append-nil (urls_of a)))
      | inr more ↦ rw more ((refl, refl, refl, known), refl)
    ]
fetch_urls-Fetched a (urls_loaded xs next) known =
    elim (Bool-cases (is_done (JsMap.get a.page_map a.resolution))) [
      | inl done ↦ rw done ((refl, refl, refl, known), sym (append-nil (urls_of a)))
      | inr more ↦ rw more (
        (refl, refl, refl, ap is_some (get-set_self a.page_map a.resolution _)),
        ap or_empty (get-set_self a.url_map a.resolution (urls_of a ++ xs)),
      )
    ]

IsFilled-same :
    (a b : Album) → IsFilled a → SameNodes a b → urls_of b ≡ urls_of a → FilledResult (album_ok b)
IsFilled-same a b f (im, vi, ba, known) e = (
  record { batch = rw (ba, e) f.batch; images = rw (im, e) f.images; videos = rw (vi, e) f.videos },
  known,
)

added-Filled :
    (a b : Album) (xs : List AlbumItem)
    → IsFilled a
    → SameNodes a b
    → urls_of b ≡ urls_of a ++ xs
    → FilledResult (add_media_items b b.current_batch (length xs))
added-Filled a b xs f (im, vi, ba, known) e =
    let nodes = add_media_items-nodes b (urls_of a) xs e in
    let from : b.current_batch ≡ length (urls_of a) = ba ∙ f.batch in
    subst FilledResult (sym (ap (λ n. add_media_items b n (length xs)) from ∙ nodes))
      (IsFilled-with_nodes a b xs f im vi ba e, known)

show_page-Filled :
    (a : Album) (r : Album × Option (List AlbumItem))
    → IsFilled a
    → Fetched a r
    → FilledResult (show_page r)
unfolding show_page Fetched
show_page-Filled a (b, none) f (same, e) = IsFilled-same a (record b { observing = false }) f same e
show_page-Filled a (b, some xs) f (same, e) = added-Filled a b xs f same e

next_items-Filled :
    (a : Album) (r : Album × Option (List AlbumItem))
    → IsFilled a
    → Fetched a r
    → FilledResult (next_items r)
unfolding next_items Fetched
next_items-Filled a (b, none) f (same, e) = IsFilled-same a b f same e
next_items-Filled a (b, some xs) f (same, e) = added-Filled a b xs f same e

observe_end-Filled :
    (a : Album) (o : Option Cursor) (answer : UrlAnswer)
    → FilledResult (album_ok a)
    → is_some o ≡ true
    → FilledResult (observe_end a o answer)
unfolding observe_end
observe_end-Filled a none answer r there = cc
observe_end-Filled a (some c) answer (f, known) there =
    if_either FilledResult (is_some c.page) _ _
      (show_page-Filled a (fetch_urls a answer) f (fetch_urls-Fetched a answer known))
      (record { batch = f.batch; images = f.images; videos = f.videos }, known)

load_ahead-Filled :
    (a : Album) (k : ℕ) (o : Option Cursor) (answer : UrlAnswer)
    → FilledResult (album_ok a)
    → is_some o ≡ true
    → FilledResult (load_ahead a k o answer)
unfolding load_ahead
load_ahead-Filled a k none answer r there = cc
load_ahead-Filled a k (some c) answer (f, known) there =
    if_either FilledResult (is_some c.page) _ _
      (if_either FilledResult (ltb (k + 2) a.current_batch) _ _ (f, known)
        (next_items-Filled a (fetch_urls a answer) f (fetch_urls-Fetched a answer known)))
      (f, known)

show_source-Filled :
    (a : Album) (k : ℕ) (o : Option Text)
    → FilledResult (album_ok a)
    → FilledResult (album_ok (show_source a k o))
unfolding show_source
show_source-Filled a k none r = r
show_source-Filled a k (some url) (f, known) =
    (record { batch = f.batch; images = f.images; videos = f.videos }, known)

free_next-Filled : (r : AlbumResult) → FilledResult r → FilledResult (free_next r)
unfolding free_next
free_next-Filled (album_threw a) n = n
free_next-Filled (album_ok a) (f, known) =
    (record { batch = f.batch; images = f.images; videos = f.videos }, known)

next_full_screen-Filled :
    (a : Album) (k : ℕ) (answer : UrlAnswer)
    → FilledResult (album_ok a)
    → FilledResult (next_full_screen a k answer)
unfolding next_full_screen show_full_screen
next_full_screen-Filled a k answer (f, known) =
    let taken = record a { showing_next = true } in
    let o = source_of a.images (suc k) in
    let shown_next =
      show_source-Filled taken (suc k) o
        (record { batch = f.batch; images = f.images; videos = f.videos }, known) in
    let a' = show_source taken (suc k) o in
    if_either FilledResult a.showing_next _ _ (f, known)
      (free_next-Filled _ (
        load_ahead-Filled a' k (JsMap.get a'.page_map a'.resolution) answer shown_next
          shown_next.1))

-- What happens to an album on the page: its end is reached, an image is opened, and the full screen
-- steps on and back.
pub data AlbumEvent : Type 0 where
  end_reached : UrlAnswer → AlbumEvent
  image_opened : ℕ → AlbumEvent
  stepped_on : UrlAnswer → AlbumEvent
  stepped_back : AlbumEvent

album_step : Album → AlbumEvent → AlbumResult
unfolding reach_sentinel show_full_screen show_next_full_screen show_previous_full_screen
album_step a (end_reached answer) = reach_sentinel a answer
album_step a (image_opened k) = album_ok (show_full_screen a k)
album_step a (stepped_on answer) = show_next_full_screen a a.full_screen answer
album_step a stepped_back = show_previous_full_screen a a.full_screen

-- The events up to an exception.
unfoldable pub play_album : AlbumResult → List AlbumEvent → AlbumResult
unfolding album_step
play_album (album_threw a) es = album_threw a
play_album (album_ok a) [] = album_ok a
play_album (album_ok a) (e ∷ es) = play_album (album_step a e) es

on-Filled :
    (a : Album) (o : Option ℕ) (answer : UrlAnswer)
    → a.full_screen ≡ o
    → FilledResult (album_ok a)
    → FilledResult (show_next_full_screen a o answer)
unfolding show_next_full_screen
on-Filled a none answer here r = if_either FilledResult a.showing_next _ _ r here
on-Filled a (some k) answer here r = next_full_screen-Filled a k answer r

back-Filled :
    (a : Album) (o : Option ℕ)
    → a.full_screen ≡ o
    → FilledResult (album_ok a)
    → FilledResult (show_previous_full_screen a o)
unfolding show_previous_full_screen show_full_screen
back-Filled a none here r = here
back-Filled a (some zero) here r = r
back-Filled a (some (suc k)) here r = show_source-Filled a k (source_of a.images k) r

album_step-Filled :
    (a : Album) (e : AlbumEvent) → FilledResult (album_ok a) → FilledResult (album_step a e)
unfolding album_step reach_sentinel show_full_screen show_next_full_screen show_previous_full_screen
album_step-Filled a (end_reached answer) r =
    observe_end-Filled a (JsMap.get a.page_map a.resolution) answer r r.1
album_step-Filled a (image_opened k) r = show_source-Filled a k (source_of a.images k) r
album_step-Filled a (stepped_on answer) r = on-Filled a a.full_screen answer refl r
album_step-Filled a stepped_back r = back-Filled a a.full_screen refl r

pub play_album-Filled :
    (r : AlbumResult) (es : List AlbumEvent) → FilledResult r → FilledResult (play_album r es)
unfolding play_album
play_album-Filled (album_threw a) es f = f
play_album-Filled (album_ok a) [] f = f
play_album-Filled (album_ok a) (e ∷ es) f =
    play_album-Filled (album_step a e) es (album_step-Filled a e f)
