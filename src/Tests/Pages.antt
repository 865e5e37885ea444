-- ===== src/Tests/Pages.antt =====
-- Runs of the model of the page links: pagination.js.
use streaming_service.Base.{
  Bool, [], arith, false, min, none, refl, some, true, ℕ, ◌++◌, ◌+◌, ◌-◌, ◌∷◌, ◌≡◌,
}
use streaming_service.Base.Text.{Text, codes}
use streaming_service.Pagination.{
  Anchor, Bar, display_pagination, dots, link, page_numbers, press, selected, to_next,
}
use streaming_service.Pagination.Arrows.{Fits, press-Fits}
use streaming_service.Pagination.Numbers.{ending, page_numbers-window, window}

abbrev no_address : ℕ → Text
no_address i = codes "#"

abbrev arrow_hidden : Bool → Anchor
arrow_hidden h = record { href = codes "#"; target = none; invisible = h }

-- The bar of the template.
abbrev template : Bar
template = record {
  hidden = true;
  panel = record {
    previous = arrow_hidden false;
    next = arrow_hidden false;
    first = arrow_hidden false;
    last = arrow_hidden false;
    copies = [];
    numbers = [];
  };
  top = some (record { hidden = true; content = none });
}

-- The first of nine pages is shown.
on_first : Bar
unfolding display_pagination
on_first = display_pagination no_address 0 9 template

-- The numbers that are shown for the fifth of nine pages and for the first of six.
numbers_five :
    page_numbers no_address 4 9
    ≡ link 2 (codes "#")
      ∷ link 3 (codes "#")
      ∷ selected 4 (codes "#")
      ∷ link 5 (codes "#")
      ∷ link 6 (codes "#")
      ∷ dots
      ∷ link 8 (codes "#")
      ∷ []
unfolding page_numbers
numbers_five = refl

page_numbers-window_example :
    page_numbers no_address 4 9
    ≡ window no_address 4 (min 5 (9 - (4 - 2))) (4 - 2) ++ ending no_address 4 9 (4 - 2 + 5)
page_numbers-window_example = page_numbers-window no_address 4 9 (omega arith)

on_first-Fits : Fits on_first.panel 0 9
unfolding on_first
on_first-Fits = (
  omega arith,
  (refl, λ e. absurd (cc e)),
  (refl, λ e. absurd (cc e)),
  (refl, λ _. refl),
  (refl, λ _. refl),
)

press-Fits_example :
    (on_first.panel.next.target ≡ some 1)
    × Fits (display_pagination no_address 1 9 (press to_next on_first)).panel 1 9
unfolding on_first
press-Fits_example = press-Fits no_address 0 9 on_first to_next on_first-Fits refl
