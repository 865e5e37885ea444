-- ===== src/SearchPage/View/Next.antt =====
-- Which item `viewNextMedia` of search-page.js opens.
use mathlib.Core.Path.{subst}
use streaming_service.Base.{
  Bool, Bool-cases, List, Option, [], ap, append-nil, arith, drop, drop_all, false, get_elem?,
  if◌then◌else◌, inl, inr, is_some, length, ltb, none, refl, some, suc, sym, take, true, zero, ℕ,
  ◌++◌, ◌+◌, ◌<◌, ◌∷◌, ◌≡◌, ◌≤◌, ◌⊎◌,
}
use streaming_service.SearchPage.View.{
  PageAnswer, Stepped, ViewItem, Viewer, first_viewable, index_number, is_grouper, next_loop,
  opened, page_loaded, put_items, step_waits, stepped, turn_to, view_next_media,
}

-- The first item that is no grouper.
abbrev pub first_of : List ViewItem → Option ViewItem
first_of [] = none
first_of (x ∷ xs) = if is_grouper x then first_of xs else some x

-- The answers to the requests for some pages, of which the first has a number, all items in the map.
abbrev pub honest : ℕ → ℕ → List (List ViewItem) → List PageAnswer
honest page total [] = []
honest page total (xs ∷ pages) =
    page_loaded page total xs (length xs) ∷ honest (page + 1) total pages

abbrev pub concat_pages : List (List ViewItem) → List ViewItem
concat_pages [] = []
concat_pages (xs ∷ pages) = xs ++ concat_pages pages

-- No page is shorter than the one before.
abbrev pub Grows : ℕ → List (List ViewItem) → Type 0
Grows n [] = Unit {0}
Grows n (xs ∷ pages) = (n ≤ length xs) × Grows (length xs) pages

-- The search for an index finds the first item, or nothing where there is none.
look_cases :
    (xs : List ViewItem) (i : ℕ)
    → ((first_viewable xs i ≡ none) × (first_of xs ≡ none))
      ⊎ ((k : ℕ) × (first_viewable xs i ≡ some (i + k))
          × (get_elem? xs k ≡ first_of xs)
          × (is_some (first_of xs) ≡ true))
unfolding first_viewable
look_cases [] i = inl (refl, refl)
look_cases (x ∷ xs) i = elim (Bool-cases (is_grouper x)) [
  | inr plain ↦ inr (0, rw plain (ground arith), rw plain refl, rw plain refl)
  | inl grouper ↦ elim (look_cases xs (i + 1)) [
    | inl (unseen, absent) ↦ inl (rw grouper unseen, rw grouper absent)
    | inr (k, seen, same, there) ↦
        inr (suc k, rw grouper (ground arith), rw grouper same, rw grouper there)
  ]
]

pub get_elem?-drop {ℓ} :
    {A : Type ℓ} (i k : ℕ) (xs : List A) → get_elem? (drop i xs) k ≡ get_elem? xs (i + k)
get_elem?-drop zero k xs = let same : 0 + k ≡ k = omega arith in rw same refl
get_elem?-drop (suc i) k [] = refl
get_elem?-drop (suc i) k (x ∷ xs) =
    let same : suc i + k ≡ suc (i + k) = omega arith in rw same (get_elem?-drop i k xs)

first_of-append :
    (xs ys : List ViewItem)
    → first_of (xs ++ ys) ≡ (if is_some (first_of xs) then first_of xs else first_of ys)
first_of-append [] ys = refl
first_of-append (x ∷ xs) ys = ground (arith, first_of-append xs ys)

abbrev pub is_stepped : Stepped → Bool
is_stepped (stepped v) = true
is_stepped (step_waits v) = false

-- A step found an item, or there is none.
abbrev pub Finds : Stepped → Option ViewItem → Type 0
Finds r o = (is_stepped r ≡ true) × (opened r ≡ o)

-- The viewer on the next page, when no entry of an earlier one is left.
abbrev next_page : Viewer → List ViewItem → ℕ → Viewer
next_page v xs put = record v {
  page = v.page + 1;
  asked = v.asked ++ (v.page + 1) ∷ [];
  items = xs;
  displays = v.displays ++ (put, []) ∷ [];
}

pub put_items-grows : (old xs : List ViewItem) → length old ≤ length xs → put_items old xs ≡ xs
unfolding put_items
put_items-grows old xs h = rw (drop_all (length xs) old h, append-nil xs) refl

-- What is found on the open page is opened.
Finds-here :
    (v : Viewer) (start k : ℕ) (answers : List PageAnswer)
    → first_viewable (drop start v.items) start ≡ some (start + k)
    → Finds (next_loop v start answers) (get_elem? (drop start v.items) k)
unfolding next_loop
Finds-here v start k [] seen = rw (seen, next_loop) (refl, sym (get_elem?-drop start k v.items))
Finds-here v start k (a ∷ answers) seen =
    rw (seen, next_loop) (refl, sym (get_elem?-drop start k v.items))

pub take_whole {ℓ} : {A : Type ℓ} (xs : List A) → take (length xs) xs ≡ xs
take_whole [] = refl
take_whole (x ∷ xs) = ap (x ∷◌) (take_whole xs)

-- With nothing on the open page, the loop goes on with the next one.
next_loop_turn :
    (v : Viewer) (start : ℕ) (xs : List ViewItem) (answers : List PageAnswer)
    → first_viewable (drop start v.items) start ≡ none
    → v.page + 1 < v.total_pages
    → next_loop v start (page_loaded (v.page + 1) v.total_pages xs (length xs) ∷ answers)
      ≡ next_loop (next_page v (put_items v.items xs) (length xs)) 0 answers
unfolding turn_to next_loop
next_loop_turn v start xs answers unseen lt =
    let more : ltb (v.page + 1) v.total_pages ≡ true = ground arith in
    rw (unseen, next_loop, turn_to, more, take_whole xs, drop_all (length xs) xs (omega arith)) refl

next_loop-Finds :
    (v : Viewer) (start : ℕ) (pages : List (List ViewItem))
    → v.opening ≡ none
    → v.total_pages ≡ v.page + 1 + length pages
    → Grows (length v.items) pages
    → Finds
        (next_loop v start (honest (v.page + 1) v.total_pages pages))
        (first_of (drop start v.items ++ concat_pages pages))
unfolding next_loop
next_loop-Finds v start [] idle total grows = elim (look_cases (drop start v.items) start) [
  | inr (k, seen, same, there) ↦
      rw (append-nil (drop start v.items), ← same) (Finds-here v start k [] seen)
  | inl (unseen, absent) ↦
      let at_end : ltb (v.page + 1) v.total_pages ≡ false = ground arith in
      rw (append-nil (drop start v.items), absent, unseen, next_loop, at_end) (refl, rw idle refl)
]
next_loop-Finds v start (xs ∷ pages) idle total (longer, grows) =
    elim (look_cases (drop start v.items) start) [
      | inr (k, seen, same, there) ↦
          rw (first_of-append (drop start v.items) (xs ++ concat_pages pages), there, ← same)
            (Finds-here v start k (honest (v.page + 1) v.total_pages (xs ∷ pages)) seen)
      | inl (unseen, absent) ↦
          rw
            (
              first_of-append (drop start v.items) (xs ++ concat_pages pages),
              absent,
              next_loop_turn v start xs (honest (v.page + 1 + 1) v.total_pages pages) unseen
                  (omega arith),
              put_items-grows v.items xs longer,
            )
            (next_loop-Finds (next_page v xs (length xs)) 0 pages idle (omega arith) grows)
    ]

-- If the server answers every request for a page with that page and the same number of pages, the
-- items of a page are all in the map when the step goes on, and no page is shorter than the one
-- before, then a step to the next item ends, and opens the first item behind the current one, on
-- the open page and the pages behind it, that is no grouper; and nothing if there is none.
pub view_next_media-Finds :
    (v : Viewer) (i : ℕ) (pages : List (List ViewItem))
    → v.index ≡ some i
    → v.opening ≡ none
    → v.total_pages ≡ v.page + 1 + length pages
    → Grows (length v.items) pages
    → Finds
        (view_next_media v (honest (v.page + 1) v.total_pages pages))
        (first_of (drop (i + 1) v.items ++ concat_pages pages))
unfolding view_next_media
view_next_media-Finds v i pages here idle total grows =
    let at_i : i ≡ index_number v.index = sym (ap index_number here) in
    subst
      (λ n.
        Finds (next_loop v (n + 1) (honest (v.page + 1) v.total_pages pages))
          (first_of (drop (i + 1) v.items ++ concat_pages pages)))
      at_i (next_loop-Finds v (i + 1) pages idle total grows)

first_viewable-none : (xs : List ViewItem) (i : ℕ) → first_of xs ≡ none → first_viewable xs i ≡ none
first_viewable-none xs i absent = elim (look_cases xs i) [
  | inl (unseen, _) ↦ unseen
  | inr (k, _, _, there) ↦ cc
]

-- What is found from the start of the open page is opened, whatever answers there are.
Finds-start :
    (v : Viewer) (answers : List PageAnswer) (x : ViewItem)
    → first_of v.items ≡ some x
    → Finds (next_loop v 0 answers) (some x)
Finds-start v answers x there = elim (look_cases v.items 0) [
  | inl (_, absent) ↦ cc
  | inr (k, seen, same, _) ↦ rw (← there, ← same) (Finds-here v 0 k answers seen)
]

-- The entries of a longer page stay behind those of a shorter one: if the current item is the last
-- one of its page that can be opened and the next page has groupers only, then a step opens an item
-- of the page before, if one stands behind the entries of the new page.
pub view_next_media_stale :
    (v : Viewer) (i : ℕ) (xs : List ViewItem) (x : ViewItem)
    → v.index ≡ some i
    → v.page + 1 < v.total_pages
    → first_of (drop (i + 1) v.items) ≡ none
    → first_of xs ≡ none
    → first_of (drop (length xs) v.items) ≡ some x
    → Finds
        (view_next_media v (page_loaded (v.page + 1) v.total_pages xs (length xs) ∷ []))
        (some x)
unfolding view_next_media put_items
view_next_media_stale v i xs x here more last groupers left =
    let at_i : i ≡ index_number v.index = sym (ap index_number here) in
    let turned =
      next_loop_turn v (i + 1) xs [] (first_viewable-none (drop (i + 1) v.items) (i + 1) last)
        more in
    let stays : first_of (put_items v.items xs) ≡ some x =
      rw (first_of-append xs (drop (length xs) v.items), groupers) left in
    subst
      (λ n.
        Finds (next_loop v (n + 1) (page_loaded (v.page + 1) v.total_pages xs (length xs) ∷ []))
          (some x))
      at_i (rw turned (Finds-start (next_page v (put_items v.items xs) (length xs)) [] x stays))
