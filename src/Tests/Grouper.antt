-- ===== src/Tests/Grouper.antt =====
-- Runs of the model of album-grouper-page.js.
use streaming_service.Base.{[], arith, length, refl, some, true, ◌∷◌, ◌≡◌}
use streaming_service.Base.Text.{codes}
use streaming_service.GrouperPage.{
  ContentAnswer, Grouper, SliceAnswer, click_sort_order, content_loaded, display_list, id_index,
  new_grouper, pos, pred, slice_refused, state_of, sub, succ,
}
use streaming_service.GrouperPage.Numbers.{IsNumbered}
use streaming_service.GrouperPage.Reached.{display_list-IsNumbered, reached, step_on, turn}
use streaming_service.GrouperPage.Stepped.{Shows, view_steps-number}
use streaming_service.GrouperPage.View.{
  content_of, get_content, view_next_album, view_prev_album, viewed_index,
}

-- Three of three ids, from the newest down, with the middle one in the overlay.
abbrev listed : Grouper
listed = record (display_list new_grouper 3 (9 ∷ 7 ∷ 4 ∷ [])) { viewing = some 7 }

abbrev slice : SliceAnswer
slice = slice_refused

abbrev media : ContentAnswer
media = content_loaded (codes "VIDEO")

abbrev all_items : Grouper
all_items = display_list new_grouper 3 (9 ∷ 7 ∷ 4 ∷ [])

all_items-full : length all_items.child_ids ≡ all_items.total
unfolding display_list id_index
all_items-full = refl

display_list-IsNumbered_example :
    IsNumbered
      (state_of (view_next_album (state_of (click_sort_order all_items slice)) slice media))
display_list-IsNumbered_example =
    display_list-IsNumbered 3 9 (7 ∷ 4 ∷ [])
      (state_of (view_next_album (state_of (click_sort_order all_items slice)) slice media))
      (step_on slice media (turn slice all_items-full reached))

view_steps-number_example :
    Shows (state_of (view_next_album listed slice media)) 9 (pos 3)
    × Shows (view_prev_album listed media) 4 (pos 1)
unfolding display_list id_index viewed_index get_content sub succ pred content_of
view_steps-number_example =
    view_steps-number listed slice media 1 0 9 2 4 refl (λ id. refl) refl (refl, omega arith) refl
      (refl, omega arith) refl

abbrev upwards : Grouper
upwards = record new_grouper { total = 2; child_ids = 4 ∷ 7 ∷ []; count = pos 2; ascending = true }

abbrev half : Grouper
half = record upwards { total = 4; shown = (4, pos 1) ∷ (7, pos 2) ∷ [] }
