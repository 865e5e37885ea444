-- ===== src/SearchPage/Info/Reload.antt =====
-- What a reload of the search page, or a link of its pagination, searches for.
use mathlib.Core.Path.{subst}
use streaming_service.Base.{
  Bool, Option, [], ap, arith, false, is_some, none, refl, some, some_of, suc, sym, true, zero, ℕ,
  ◌%◌, ◌+◌, ◌/◌, ◌∙◌, ◌∷◌, ◌≡◌,
}
use streaming_service.Base.Text.{Text, decimal, decimal_loop, starts_with, text_eq, truthy}
use streaming_service.SearchPage.Info.{
  Body, SearchInfo, SearchType, advance, basic, get_page_search_url, keyword, page_link, read_info,
  request_of,
}

-- What the storage holds after a search has been sent.
abbrev pub stored_of : SearchInfo → Option Body
stored_of i = elim i.search_type [
  | some advance ↦ i.advance_body
  | some basic ↦ none
  | some keyword ↦ none
  | none ↦ none
]

-- The values of a search that stand in an address are there, and none is the empty text.
abbrev pub Full : Option Text → Type 0
Full v = truthy v ≡ true

abbrev pub TypeIsFull : Option SearchType → SearchInfo → Type 0
TypeIsFull none i = Unit {0}
TypeIsFull (some basic) i = Full i.search_string
TypeIsFull (some keyword) i = Full i.keyword_field × Full i.keyword_values
TypeIsFull (some advance) i = is_some i.advance_body ≡ true

pub record IsReadable (i : SearchInfo) : Type 0 where
  pub page : Full (some i.page)
  pub sort_by : Full i.sort_by
  pub sort_order : Full i.sort_order
  pub rest : TypeIsFull i.search_type i

abbrev is_yes : Option Bool → Bool
is_yes none = false
is_yes (some b) = b

full_cases : (v : Option Text) → Full v → (c : ℕ) × (s : Text) × (v ≡ some (c ∷ s))
unfolding truthy
full_cases none h = cc
full_cases (some []) h = cc
full_cases (some (c ∷ s)) h = (c, s, refl)

-- The page's address of a search in which the flag for all values stands as given, read back, asks
-- for the same, with the flag set only if it was given and true.
abbrev Opens : Option Bool → SearchInfo → Type 0
Opens m i =
    request_of (
      read_info (get_page_search_url i.search_type (record i { match_all = m })).query
        (stored_of i))
    ≡ request_of (record i { match_all = some (is_yes m) })

-- A search with its values in the open.
abbrev info_of : Text → Text → Text → SearchInfo → SearchInfo
info_of page by order i = record i { page = page; sort_by = some by; sort_order = some order }

-- Reading computes once the values are in the open.
module _ (c d e : ℕ) (page by order : Text) (m : Option Bool) (i : SearchInfo) where
  Opens-match_all :
      Opens m (info_of (c ∷ page) (d ∷ by) (e ∷ order) (record i { search_type = none }))
  unfolding request_of read_info get_page_search_url text_eq starts_with truthy
  Opens-match_all = refl

  Opens-basic :
      (u : ℕ) (s : Text)
      → Opens m (
          info_of
            (c ∷ page)
            (d ∷ by)
            (e ∷ order)
            (record i { search_type = some basic; search_string = some (u ∷ s) }))
  unfolding request_of read_info get_page_search_url text_eq starts_with truthy
  Opens-basic u s = refl

  Opens-keyword :
      (u v : ℕ) (s t : Text)
      → Opens m (
          info_of (c ∷ page) (d ∷ by) (e ∷ order) (record i {
            search_type = some keyword;
            keyword_field = some (u ∷ s);
            keyword_values = some (v ∷ t);
          }))
  unfolding request_of read_info get_page_search_url text_eq starts_with truthy
  Opens-keyword u v s t =
      elim m
        as (λ k. Opens k (
          info_of (c ∷ page) (d ∷ by) (e ∷ order) (record i {
            search_type = some keyword;
            keyword_field = some (u ∷ s);
            keyword_values = some (v ∷ t);
          }))) [ none ↦ refl | some true ↦ refl | some false ↦ refl ]

  Opens-advance :
      (b : Body)
      → Opens m (
          info_of
            (c ∷ page)
            (d ∷ by)
            (e ∷ order)
            (record i { search_type = some advance; advance_body = some b }))
  unfolding request_of read_info get_page_search_url text_eq starts_with truthy
  Opens-advance b = refl

Opens-at :
    (t : Option SearchType) (i : SearchInfo) (m : Option Bool)
    → i.search_type ≡ t
    → (c d e : ℕ) (page by order : Text) → some i.page ≡ some (c ∷ page)
    → i.sort_by ≡ some (d ∷ by)
    → i.sort_order ≡ some (e ∷ order)
    → TypeIsFull t i
    → Opens m i
Opens-at none i m typed c d e page by order ep eb eo full =
    let same : i ≡ info_of (c ∷ page) (d ∷ by) (e ∷ order) (record i { search_type = none }) =
      ground arith in
    subst (Opens m) (sym same) (Opens-match_all c d e page by order m i)
Opens-at (some basic) i m typed c d e page by order ep eb eo full =
    let (u, s, es) = full_cases i.search_string full in
    let same : i
        ≡ info_of (c ∷ page) (d ∷ by) (e ∷ order)
            (record i { search_type = some basic; search_string = some (u ∷ s) }) =
      ground arith in
    subst (Opens m) (sym same) (Opens-basic c d e page by order m i u s)
Opens-at (some keyword) i m typed c d e page by order ep eb eo (f, k) =
    let (u, s, ef) = full_cases i.keyword_field f in
    let (v, t, ek) = full_cases i.keyword_values k in
    let same : i
        ≡ info_of (c ∷ page) (d ∷ by) (e ∷ order) (record i {
          search_type = some keyword;
          keyword_field = some (u ∷ s);
          keyword_values = some (v ∷ t);
        }) =
      ground arith in
    subst (Opens m) (sym same) (Opens-keyword c d e page by order m i u v s t)
Opens-at (some advance) i m typed c d e page by order ep eb eo full =
    let (b, eq) = some_of i.advance_body full in
    let same : i
        ≡ info_of (c ∷ page) (d ∷ by) (e ∷ order)
            (record i { search_type = some advance; advance_body = some b }) =
      ground arith in
    subst (Opens m) (sym same) (Opens-advance c d e page by order m i b)

Opens_lem : (i : SearchInfo) (m : Option Bool) → IsReadable i → Opens m i
Opens_lem i m r =
    let (c, page, ep) = full_cases (some i.page) r.page in
    let (d, by, eb) = full_cases i.sort_by r.sort_by in
    let (e, order, eo) = full_cases i.sort_order r.sort_order in
    Opens-at i.search_type i m refl c d e page by order ep eb eo r.rest

-- Reloading the page repeats the search: the address that a search puts in the history, read back
-- with what the search has left in the storage, asks for the same address with the same body, if
-- the flag for all values is there.
pub read_info-get_page_search_url :
    (i : SearchInfo) (b : Bool)
    → IsReadable i
    → i.match_all ≡ some b
    → request_of (read_info (get_page_search_url i.search_type i).query (stored_of i))
      ≡ request_of i
read_info-get_page_search_url i b r flag =
    let same : i ≡ record i { match_all = some (is_yes i.match_all) } = ground arith in
    Opens_lem i i.match_all r ∙ ap request_of (sym same)

decimal_loop-full : (fuel n c : ℕ) (acc : Text) → Full (some (decimal_loop fuel n (c ∷ acc)))
unfolding decimal_loop truthy
decimal_loop-full zero n c acc = refl
decimal_loop-full (suc fuel) n c acc =
    ground (arith, decimal_loop-full fuel (n / 10) (48 + n % 10) (c ∷ acc))

TypeIsFull-page :
    (t : Option SearchType) (i : SearchInfo) (page : Text)
    → TypeIsFull t i
    → TypeIsFull t (record i { page = page })
TypeIsFull-page none i page h = h
TypeIsFull-page (some basic) i page h = h
TypeIsFull-page (some keyword) i page h = h
TypeIsFull-page (some advance) i page h = h

decimal-full : (n : ℕ) → Full (some (decimal n))
unfolding decimal decimal_loop truthy
decimal-full n = ground (arith, decimal_loop-full n (n / 10) (48 + n % 10) [])

-- A link of the pagination opens the page that it names of the same search, but one that asks for any
-- of a keyword's values, also where the search asks for all of them.
pub read_info-page_link :
    (i : SearchInfo) (n : ℕ)
    → IsReadable i
    → request_of (read_info (page_link i n).query (stored_of i))
      ≡ request_of (record i { page = decimal n; match_all = some false })
unfolding page_link
read_info-page_link i n r =
    Opens_lem (record i { page = decimal n }) none
      (record {
        page = decimal-full n;
        sort_by = r.sort_by;
        sort_order = r.sort_order;
        rest = TypeIsFull-page i.search_type i (decimal n) r.rest;
      })
