-- ===== src/Pagination.antt =====
-- The links to the pages of a list: `displayPagination` of
-- frontend/src/main/resources/static/js/pagination.js.
pub mod Numbers
pub mod Arrows
use streaming_service.Base.{
  Bool, List, Option, [], false, if◌then◌else◌, ltb, none, some, suc, true, zero, ℕ, ◌&&◌, ◌++◌,
  ◌+◌, ◌-◌, ◌==◌, ◌∷◌,
}
use streaming_service.Base.Text.{Text}

-- An `a` element: its address, the page that a click asks for, and its class `invisible`.
pub record Anchor : Type 0 where
  pub href : Text
  pub target : Option ℕ
  pub invisible : Bool

-- A child of the row of numbers. A link has its page, from 0, and its address; its text is the page
-- counted from 1. A click on the selected one does nothing.
pub data PageLink : Type 0 where
  dots : PageLink
  link : ℕ → Text → PageLink
  selected : ℕ → Text → PageLink

-- The four arrows, the copies on the right side, and the numbers.
pub record Panel : Type 0 where
  pub previous : Anchor
  pub next : Anchor
  pub first : Anchor
  pub last : Anchor
  pub copies : List Anchor
  pub numbers : List PageLink

-- The node above the list, if the page has one, with the copy in it.
pub record Top : Type 0 where
  pub hidden : Bool
  pub content : Option Panel

pub record Bar : Type 0 where
  pub hidden : Bool
  pub panel : Panel
  pub top : Option Top

pub data Arrow : Type 0 where
  to_previous : Arrow
  to_next : Arrow
  to_first : Arrow
  to_last : Arrow

-- A link with an address and a handler of its own, shown.
abbrev pub anchor_to : (ℕ → Text) → ℕ → Anchor
anchor_to url i = record { href = url i; target = some i; invisible = false }

abbrev pub hide_anchor : Anchor → Anchor
hide_anchor a = record a { invisible = true }

abbrev pub unhide_anchor : Anchor → Anchor
unhide_anchor a = record a { invisible = false }

-- The first and the last arrow get an address, but not their class.
abbrev pub aim : (ℕ → Text) → ℕ → Anchor → Anchor
aim url i a = record a { href = url i; target = some i }

-- `prev / first`
unfoldable pub set_back : (ℕ → Text) → ℕ → Panel → Panel
set_back url page p =
    if ltb 0 page
    then record p {
      previous = anchor_to url (page - 1);
      copies = p.copies ++ anchor_to url (page - 1) ∷ [];
      first = aim url 0 p.first;
    }
    else record p { previous = hide_anchor p.previous; first = hide_anchor p.first }

-- `next / last`
unfoldable pub set_forward : (ℕ → Text) → ℕ → ℕ → Panel → Panel
set_forward url page total p =
    if ltb (page + 1) total
    then record p {
      next = anchor_to url (page + 1);
      copies = p.copies ++ anchor_to url (page + 1) ∷ [];
      last = aim url (total - 1) p.last;
    }
    else record p { next = hide_anchor p.next; last = hide_anchor p.last }

abbrev pub entry : (ℕ → Text) → ℕ → ℕ → PageLink
entry url page i = if i == page then selected i (url i) else link i (url i)

-- The loop over the pages from `i` on, of which `rest` are left.
unfoldable pub number_loop : (ℕ → Text) → ℕ → ℕ → ℕ → ℕ → ℕ → List PageLink
number_loop url page total max_show zero i = []
number_loop url page total max_show (suc rest) i =
    let more = number_loop url page total max_show rest (i + 1) in
    if i == max_show
    then if ltb max_show (total - 1)
      then dots ∷ entry url page (total - 1) ∷ []
      else entry url page i ∷ []
    else entry url page i ∷ more

-- `numbered pages`
unfoldable pub page_numbers : (ℕ → Text) → ℕ → ℕ → List PageLink
unfolding number_loop
page_numbers url page total =
    let start = page - 2 in number_loop url page total (start + 5) (total - start) start

-- The node on top becomes a copy of the one at the bottom.
copy_top : Panel → Option Top → Option Top
copy_top p none = none
copy_top p (some t) = some (record { hidden = false; content = some p })

hide_top : Option Top → Option Top
hide_top none = none
hide_top (some t) = some (record t { hidden = true })

unfoldable pub panel_of : (ℕ → Text) → ℕ → ℕ → Panel → Panel
unfolding set_back set_forward page_numbers
panel_of url page total p =
    record (set_forward url page total (set_back url page (record p { copies = [] }))) {
      numbers = page_numbers url page total;
    }

-- `displayPagination`
unfoldable pub display_pagination : (ℕ → Text) → ℕ → ℕ → Bar → Bar
unfolding panel_of copy_top hide_top
display_pagination url page total b =
    if page == 0 && page == total
    then record b { hidden = true; top = hide_top b.top }
    else let p = panel_of url page total b.panel in
      record { hidden = false; panel = p; top = copy_top p b.top }

abbrev pub arrow_of : Arrow → Panel → Anchor
arrow_of to_previous p = p.previous
arrow_of to_next p = p.next
arrow_of to_first p = p.first
arrow_of to_last p = p.last

-- What the handler of an arrow does after `await pageClickHandler(..)`: the arrow to the other end
-- gets visible. The page's handler has sent its request, the answer is not there yet.
unfoldable pub press : Arrow → Bar → Bar
press to_previous b = record b { panel = record b.panel { last = unhide_anchor b.panel.last } }
press to_next b = record b { panel = record b.panel { first = unhide_anchor b.panel.first } }
press to_first b = record b { panel = record b.panel { last = unhide_anchor b.panel.last } }
press to_last b = record b { panel = record b.panel { first = unhide_anchor b.panel.first } }
