-- ===== src/SearchPage/View/Previous.antt =====
-- Which item `viewPreviousMedia` of search-page.js opens.
use mathlib.Core.Path.{subst}
use streaming_service.Base.{
  Bool-cases, List, Option, [], ap, arith, drop_all, false, get_elem?, if◌then◌else◌, inl, inr,
  is_some, length, ltb, none, refl, some, some_of, suc, sym, take, true, zero, ℕ, ◌++◌, ◌+◌, ◌-◌,
  ◌<◌, ◌∙◌, ◌∷◌, ◌≡◌, ◌≤◌, ◌⊎◌,
}
use streaming_service.SearchPage.View.{
  PageAnswer, ViewItem, Viewer, index_number, is_grouper, last_viewable, page_loaded, previous_loop,
  turn_to, view_previous_media,
}
use streaming_service.SearchPage.View.Next.{Finds, Grows, put_items-grows, take_whole}

-- The last item that is no grouper.
abbrev pub last_of : List ViewItem → Option ViewItem
last_of [] = none
last_of (x ∷ xs) = elim (last_of xs) [
  | some y ↦ some y
  | none ↦ if is_grouper x then none else some x
]

-- The answers to the requests for some pages, each the one before the last, all items in the map.
abbrev pub honest_back : ℕ → ℕ → List (List ViewItem) → List PageAnswer
honest_back page total [] = []
honest_back page total (xs ∷ pages) =
    page_loaded page total xs (length xs) ∷ honest_back (page - 1) total pages

-- The items of the pages, in the order of the list.
abbrev pub before : List (List ViewItem) → List ViewItem
before [] = []
before (xs ∷ pages) = before pages ++ xs

-- The search for an index finds the last item, or nothing where there is none.
look_back_cases :
    (xs : List ViewItem) (i : ℕ)
    → ((last_viewable xs i ≡ none) × (last_of xs ≡ none))
      ⊎ ((k : ℕ) × (last_viewable xs i ≡ some (i + k))
          × (get_elem? xs k ≡ last_of xs)
          × (is_some (last_of xs) ≡ true))
unfolding last_viewable
look_back_cases [] i = inl (refl, refl)
look_back_cases (x ∷ xs) i = elim (look_back_cases xs (i + 1)) [
  | inr (k, seen, same, there) ↦
      let (y, last) = some_of (last_of xs) there in
      inr (suc k, rw seen (ground arith), rw last (same ∙ last), rw last refl)
  | inl (unseen, absent) ↦ elim (Bool-cases (is_grouper x)) [
    | inl grouper ↦ inl (rw (unseen, grouper) refl, rw (absent, grouper) refl)
    | inr plain ↦
        inr (0, rw (unseen, plain) (ground arith), rw (absent, plain) refl, rw (absent, plain) refl)
  ]
]

get_elem?-take {ℓ} :
    {A : Type ℓ} (n k : ℕ) (xs : List A)
    → is_some (get_elem? (take n xs) k) ≡ true
    → get_elem? xs k ≡ get_elem? (take n xs) k
get_elem?-take zero k xs h = cc
get_elem?-take (suc n) k [] h = refl
get_elem?-take (suc n) zero (x ∷ xs) h = refl
get_elem?-take (suc n) (suc k) (x ∷ xs) h = get_elem?-take n k xs h

last_of-append :
    (xs ys : List ViewItem)
    → last_of (xs ++ ys) ≡ (if is_some (last_of ys) then last_of ys else last_of xs)
last_of-append [] ys = ground arith
last_of-append (x ∷ xs) ys = ground (arith, last_of-append xs ys)

-- What is found on the open page is opened.
Finds-back :
    (v : Viewer) (end k : ℕ) (answers : List PageAnswer)
    → last_viewable (take end v.items) 0 ≡ some (0 + k)
    → is_some (get_elem? (take end v.items) k) ≡ true
    → Finds (previous_loop v end answers) (get_elem? (take end v.items) k)
unfolding previous_loop
Finds-back v end k [] seen there =
    let same : 0 + k ≡ k = omega arith in
    rw (seen, previous_loop, same) (refl, get_elem?-take end k v.items there)
Finds-back v end k (a ∷ answers) seen there =
    let same : 0 + k ≡ k = omega arith in
    rw (seen, previous_loop, same) (refl, get_elem?-take end k v.items there)

-- The viewer on the page before, when no entry of the open one is left.
abbrev previous_page : Viewer → List ViewItem → Viewer
previous_page v xs = record v {
  page = v.page - 1;
  asked = v.asked ++ (v.page - 1) ∷ [];
  items = xs;
  displays = v.displays ++ (length xs, []) ∷ [];
}

-- With nothing below on the open page, the loop goes on with the one before.
previous_loop_turn :
    (v : Viewer) (end : ℕ) (xs : List ViewItem) (answers : List PageAnswer)
    → last_viewable (take end v.items) 0 ≡ none
    → 0 < v.page
    → length v.items ≤ length xs
    → previous_loop v end (page_loaded (v.page - 1) v.total_pages xs (length xs) ∷ answers)
      ≡ previous_loop (previous_page v xs) (length xs) answers
unfolding turn_to previous_loop
previous_loop_turn v end xs answers unseen lt longer =
    let more : ltb 0 v.page ≡ true = ground arith in
    rw
      (
        unseen,
        previous_loop,
        turn_to,
        more,
        take_whole xs,
        drop_all (length xs) xs (omega arith),
        put_items-grows v.items xs longer,
      )
      refl

previous_loop-Finds :
    (v : Viewer) (end : ℕ) (pages : List (List ViewItem))
    → v.opening ≡ none
    → v.page ≡ length pages
    → Grows (length v.items) pages
    → Finds
        (previous_loop v end (honest_back (v.page - 1) v.total_pages pages))
        (last_of (before pages ++ take end v.items))
unfolding previous_loop
previous_loop-Finds v end [] idle first grows = elim (look_back_cases (take end v.items) 0) [
  | inr (k, seen, same, there) ↦ rw (← same) (Finds-back v end k [] seen (rw same there))
  | inl (unseen, absent) ↦
      let at_start : ltb 0 v.page ≡ false = ground arith in
      rw (absent, unseen, previous_loop, at_start) (refl, rw idle refl)
]
previous_loop-Finds v end (xs ∷ pages) idle first (longer, grows) =
    elim (look_back_cases (take end v.items) 0) [
      | inr (k, seen, same, there) ↦
          rw (last_of-append (before pages ++ xs) (take end v.items), there, ← same)
            (Finds-back v end k (honest_back (v.page - 1) v.total_pages (xs ∷ pages)) seen
              (rw same there))
      | inl (unseen, absent) ↦
          rw
            (
              last_of-append (before pages ++ xs) (take end v.items),
              absent,
              previous_loop_turn v end xs (honest_back (v.page - 1 - 1) v.total_pages pages) unseen
                  (omega arith) longer,
            )
            (subst
              (λ ys.
                Finds
                  (previous_loop (previous_page v xs) (length xs)
                    (honest_back (v.page - 1 - 1) v.total_pages pages))
                  (last_of (before pages ++ ys)))
              (take_whole xs)
              (previous_loop-Finds (previous_page v xs) (length xs) pages idle (omega arith) grows))
    ]

-- If the server answers every request for a page with that page, the items of a page are all in the
-- map when the step goes on, and no page is shorter than the one that was open before, then a step to
-- the previous item ends, and opens the last item before the current one, on the open page and the
-- pages before it, that is no grouper; and nothing if there is none.
pub view_previous_media-Finds :
    (v : Viewer) (i : ℕ) (pages : List (List ViewItem))
    → v.index ≡ some i
    → v.opening ≡ none
    → v.page ≡ length pages
    → Grows (length v.items) pages
    → Finds
        (view_previous_media v (honest_back (v.page - 1) v.total_pages pages))
        (last_of (before pages ++ take i v.items))
unfolding view_previous_media
view_previous_media-Finds v i pages here idle first grows =
    subst
      (λ n.
        Finds (previous_loop v n (honest_back (v.page - 1) v.total_pages pages))
          (last_of (before pages ++ take i v.items)))
      (sym (ap index_number here)) (previous_loop-Finds v i pages idle first grows)
