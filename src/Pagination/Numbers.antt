-- ===== src/Pagination/Numbers.antt =====
-- The row of numbers of pagination.js.
use streaming_service.Base.{
  Bool-cases, List, [], ap, arith, false, if◌then◌else◌, inl, inr, ltb, ltb→lt, min, refl, suc,
  true, zero, ℕ, ◌++◌, ◌+◌, ◌-◌, ◌<◌, ◌==◌, ◌∷◌, ◌≡◌,
}
use streaming_service.Base.Text.{Text}
use streaming_service.Pagination.{PageLink, dots, entry, number_loop, page_numbers}

-- The entries for so many pages from a page on.
unfoldable pub window : (ℕ → Text) → ℕ → ℕ → ℕ → List PageLink
window url page zero i = []
window url page (suc n) i = entry url page i ∷ window url page n (i + 1)

-- What follows the window: the last page, behind dots if pages are left out.
unfoldable pub ending : (ℕ → Text) → ℕ → ℕ → ℕ → List PageLink
ending url page total end =
    if ltb end total
    then (if ltb (end + 1) total then dots ∷ [] else []) ++ entry url page (total - 1) ∷ []
    else []

number_loop-window :
    (url : ℕ → Text) (page total rest i gap : ℕ)
    → i + rest ≡ total
    → number_loop url page total (i + gap) rest i
      ≡ window url page (min gap rest) i ++ ending url page total (i + gap)
unfolding number_loop window ending
number_loop-window url page total zero i gap h =
    let none_left : ltb (i + gap) total ≡ false = ground arith in
    let m : min gap 0 ≡ 0 = omega arith in rw (m, none_left) refl
number_loop-window url page total (suc rest) i zero h =
    let here : (i == i + 0) ≡ true = ground arith in
    let m : min 0 (suc rest) ≡ 0 = omega arith in
    let n : i + 0 ≡ i = omega arith in
    let some_left : ltb i total ≡ true = ground arith in
    rw (here, m, n, some_left)
      (elim (Bool-cases (ltb i (total - 1))) [
        | inl hb ↦
            let lt = ltb→lt i (total - 1) hb in
            let more : ltb (i + 1) total ≡ true = ground arith in rw (hb, more) refl
        | inr hb ↦
            let no_more : ltb (i + 1) total ≡ false = ground arith in
            let last : total - 1 ≡ i = ground arith in rw (hb, no_more, last) refl
      ])
number_loop-window url page total (suc rest) i (suc gap) h =
    let n : i + suc gap ≡ i + 1 + gap = omega arith in
    let far : (i == i + suc gap) ≡ false = ground arith in
    let m : min (suc gap) (suc rest) ≡ suc (min gap rest) = omega arith in
    let back = number_loop-window url page total rest (i + 1) gap (omega arith) in
    let back' : number_loop url page total (i + suc gap) rest (i + 1)
        ≡ window url page (min gap rest) (i + 1) ++ ending url page total (i + suc gap) =
      rw n back in
    rw (far, m) (ap (λ es. entry url page i ∷ es) back')

-- For a page of the list, the row shows the pages from two before it on, at most five of them, and
-- behind them the last page, after dots if a page is left out between.
pub page_numbers-window :
    (url : ℕ → Text) (page total : ℕ)
    → page < total
    → page_numbers url page total
      ≡ window url page (min 5 (total - (page - 2))) (page - 2)
        ++ ending url page total (page - 2 + 5)
unfolding page_numbers
page_numbers-window url page total h =
    number_loop-window url page total (total - (page - 2)) (page - 2) 5 (omega arith)
