-- ===== src/Pagination/Arrows.antt =====
-- The four arrows of pagination.js.
use streaming_service.Base.{
  Bool, Bool-cases, arith, false, inl, inr, ltb, ltb→lt, not, refl, some, true, ℕ, ◌&&◌, ◌+◌, ◌-◌,
  ◌<◌, ◌==◌, ◌≡◌,
}
use streaming_service.Base.Text.{Text}
use streaming_service.Pagination.{
  Anchor, Arrow, Bar, Panel, arrow_of, display_pagination, panel_of, press, set_back, set_forward,
  to_first, to_last, to_next, to_previous,
}
use streaming_service.Upload.Workers.{finish}

-- An arrow that leads to a page, or is hidden.
abbrev pub Leads : Anchor → Bool → ℕ → Type 0
Leads a shown i = (a.invisible ≡ not shown) × (shown ≡ true → a.target ≡ some i)

-- The panel shows a page of a list of pages: an arrow is shown exactly if there is a page in its
-- direction, and then it asks for the page it stands for.
abbrev pub Fits : Panel → ℕ → ℕ → Type 0
Fits p page total =
    (page < total)
    × Leads p.previous (ltb 0 page) (page - 1)
    × Leads p.first (ltb 0 page) 0
    × Leads p.next (ltb (page + 1) total) (page + 1)
    × Leads p.last (ltb (page + 1) total) (total - 1)

-- What the display needs of the panel of before: the arrows to the two ends are not hidden if there
-- is a page in their direction.
panel_of-Fits :
    (url : ℕ → Text) (page total : ℕ) (p : Panel)
    → page < total
    → (ltb 0 page ≡ true → p.first.invisible ≡ false)
    → (ltb (page + 1) total ≡ true → p.last.invisible ≡ false)
    → Fits (panel_of url page total p) page total
unfolding panel_of set_back set_forward
panel_of-Fits url page total p h hf hl = elim (Bool-cases (ltb 0 page)) [
  | inl a ↦ elim (Bool-cases (ltb (page + 1) total)) [
    | inl b ↦
        rw (a, b) (h, (refl, λ _. refl), (hf a, λ _. refl), (refl, λ _. refl), (hl b, λ _. refl))
    | inr b ↦
        rw (a, b)
          (
            h,
            (refl, λ _. refl),
            (hf a, λ _. refl),
            (refl, λ e. absurd (cc e)),
            (refl, λ e. absurd (cc e)),
          )
  ]
  | inr a ↦ elim (Bool-cases (ltb (page + 1) total)) [
    | inl b ↦
        rw (a, b)
          (
            h,
            (refl, λ e. absurd (cc e)),
            (refl, λ e. absurd (cc e)),
            (refl, λ _. refl),
            (hl b, λ _. refl),
          )
    | inr b ↦
        rw (a, b)
          (
            h,
            (refl, λ e. absurd (cc e)),
            (refl, λ e. absurd (cc e)),
            (refl, λ e. absurd (cc e)),
            (refl, λ e. absurd (cc e)),
          )
  ]
]

abbrev display_of : (ℕ → Text) → ℕ → ℕ → Bar → Panel
display_of url page total b = (display_pagination url page total b).panel

-- The display of a list that has pages.
display-panel :
    (url : ℕ → Text) (page total : ℕ) (b : Bar)
    → page < total
    → display_of url page total b ≡ panel_of url page total b.panel
unfolding display_pagination
display-panel url page total b h =
    let shown : (page == 0 && page == total) ≡ false = ground arith in rw (display_of, shown) refl

-- The state of the arrows after a display.
display-Fits :
    (url : ℕ → Text) (page total : ℕ) (b : Bar)
    → page < total
    → (ltb 0 page ≡ true → b.panel.first.invisible ≡ false)
    → (ltb (page + 1) total ≡ true → b.panel.last.invisible ≡ false)
    → Fits (display_of url page total b) page total
display-Fits url page total b h hf hl =
    rw (display-panel url page total b h) (panel_of-Fits url page total b.panel h hf hl)

-- The page that an arrow stands for on a page of the list.
abbrev destination : Arrow → ℕ → ℕ → ℕ
destination to_previous page total = page - 1
destination to_next page total = page + 1
destination to_first page total = 0
destination to_last page total = total - 1

shown-true : {x : Bool} (s : Bool) → x ≡ not s → x ≡ false → s ≡ true
shown-true s e h = ground arith

shown-visible : {x : Bool} (s : Bool) → x ≡ not s → s ≡ true → x ≡ false
shown-visible s e h = ground arith

-- If the arrows fit to a page, then a click on an arrow that is shown asks for the page that it
-- stands for; and when that page has come, of the same list, the arrows fit to it.
pub press-Fits :
    (url : ℕ → Text) (page total : ℕ) (b : Bar) (a : Arrow)
    → Fits b.panel page total
    → (arrow_of a b.panel).invisible ≡ false
    → ((arrow_of a b.panel).target ≡ some (destination a page total))
      × Fits
          (display_pagination url (destination a page total) total (press a b)).panel
          (destination a page total)
          total
unfolding press
press-Fits url page total b to_previous (h, back, start, ahead, finish) shown =
    let more = shown-true (ltb 0 page) back.0 shown in
    let lt = ltb→lt 0 page more in
    (
      back.1 more,
      display-Fits url (page - 1) total (press to_previous b) (omega arith)
          (λ _. shown-visible (ltb 0 page) start.0 more) (λ _. refl),
    )
press-Fits url page total b to_next (h, back, start, ahead, finish) shown =
    let more = shown-true (ltb (page + 1) total) ahead.0 shown in
    (
      ahead.1 more,
      display-Fits url (page + 1) total (press to_next b) (ltb→lt (page + 1) total more) (λ _. refl)
          (λ _. shown-visible (ltb (page + 1) total) finish.0 more),
    )
press-Fits url page total b to_first (h, back, start, ahead, finish) shown =
    let more = shown-true (ltb 0 page) start.0 shown in
    (
      start.1 more,
      display-Fits url 0 total (press to_first b) (omega arith)
          (λ _. shown-visible (ltb 0 page) start.0 more) (λ _. refl),
    )
press-Fits url page total b to_last (h, back, start, ahead, finish) shown =
    let more = shown-true (ltb (page + 1) total) finish.0 shown in
    (
      finish.1 more,
      display-Fits url (total - 1) total (press to_last b) (omega arith) (λ _. refl)
          (λ _. shown-visible (ltb (page + 1) total) finish.0 more),
    )

-- The display never shows the arrow to the first page again.
panel_of-first_hidden :
    (url : ℕ → Text) (page total : ℕ) (p : Panel)
    → p.first.invisible ≡ true
    → (panel_of url page total p).first.invisible ≡ true
unfolding panel_of set_back set_forward
panel_of-first_hidden url page total p hidden = ground arith

panel_of-last_hidden :
    (url : ℕ → Text) (page total : ℕ) (p : Panel)
    → p.last.invisible ≡ true
    → (panel_of url page total p).last.invisible ≡ true
unfolding panel_of set_back set_forward
panel_of-last_hidden url page total p hidden = ground arith

panel_of-first :
    (url : ℕ → Text) (total : ℕ) (p : Panel) → (panel_of url 0 total p).first.invisible ≡ true
unfolding panel_of set_back set_forward
panel_of-first url total p = ground arith

panel_of-last :
    (url : ℕ → Text) (total : ℕ) (p : Panel)
    → 0 < total
    → (panel_of url (total - 1) total p).last.invisible ≡ true
unfolding panel_of set_back set_forward
panel_of-last url total p h = ground arith

-- A click on a number unhides nothing: whatever page is shown right after the first one, the arrow to
-- the first page stays hidden, and right after the last one the arrow to the last page.
pub number-ends_hidden :
    (url : ℕ → Text) (page total : ℕ) (b : Bar)
    → page < total
    → ((display_pagination url page total (display_pagination url 0 total b)).panel.first.invisible
        ≡ true)
      × ((display_pagination url page total
            (display_pagination url (total - 1) total b)).panel.last.invisible
          ≡ true)
number-ends_hidden url page total b h = (
  rw (display-panel url page total (display_pagination url 0 total b) h) (
      panel_of-first_hidden url page total (display_pagination url 0 total b).panel
        (rw (display-panel url 0 total b (omega arith)) (panel_of-first url total b.panel))),
  rw (display-panel url page total (display_pagination url (total - 1) total b) h) (
      panel_of-last_hidden url page total (display_pagination url (total - 1) total b).panel (
        rw (display-panel url (total - 1) total b (omega arith))
          (panel_of-last url total b.panel (omega arith)))),
)
