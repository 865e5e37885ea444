-- ===== src/SearchPage/Advance/Ranges.antt =====
-- What a range that is upside down does to the advanced search of search-page.js.
use streaming_service.Base.{
  Bool, List, Option, [], arith, false, is_empty, none, refl, some, true, ◌∷◌, ◌≡◌,
}
use streaming_service.Base.Text.{Text, codes, text_eq, truthy}
use streaming_service.SearchPage.Advance.{
  Form, Keywords, advance_info, exceeds, find_range, find_threw, finish_submit, form_ranges,
  get_range_field, restore_form, simple_field, submit_advance, submit_threw, submitted, text_gt,
}
use streaming_service.SearchPage.Info.{Body, RangeField, advance, narrow}
use streaming_service.SearchPage.Send.{PageState, send_on_current_info, send_search_request}

-- The range of the uploads in a form goes from a later date to an earlier one.
abbrev pub IsUpsideDown : Form → Type 0
IsUpsideDown f = (exceeds f.upload_from (some f.upload_to) ≡ true)

exceeds-truthy : (s : Text) (t : Option Text) → exceeds s t ≡ true → truthy (some s) ≡ true
unfolding exceeds text_gt truthy
exceeds-truthy [] none h = cc
exceeds-truthy [] (some t) h = cc
exceeds-truthy (x ∷ s) t h = refl

-- Looking for the range of the uploads meets the undefined range, whatever range of years is before
-- it.
form_ranges-threw :
    (f : Form) → IsUpsideDown f → find_range (codes "uploadDate") (form_ranges f) ≡ find_threw
unfolding form_ranges get_range_field find_range text_eq
form_ranges-threw f h =
    let there = exceeds-truthy f.upload_from (some f.upload_to) h in ground arith

restore_form-threw :
    (f : Form) (b : Body)
    → find_range (codes "uploadDate") b.range_fields ≡ find_threw
    → restore_form f (some b) ≡ none
unfolding restore_form
restore_form-threw f b h = ground arith

simple_field-ranges :
    (ks : Keywords) (ranges : List (Option RangeField))
    → is_empty ranges ≡ false
    → simple_field ks ranges ≡ none
unfolding simple_field
simple_field-ranges ks ranges h = ground arith

not_empty-threw :
    (name : Text) (rs : List (Option RangeField))
    → find_range name rs ≡ find_threw
    → is_empty rs ≡ false
unfolding find_range
not_empty-threw name [] h = cc
not_empty-threw name (r ∷ rs) h = refl

send-advance_body :
    (s : PageState) (u : Bool)
    → s.info.search_type ≡ some advance
    → (send_on_current_info s u).info.advance_body ≡ s.info.advance_body
unfolding send_on_current_info send_search_request narrow
send-advance_body s u h = ground arith

-- The body that a form with such dates is sent with.
abbrev pub body_of : Form → Keywords → Body
body_of f ks = record {
  include_fields = ks.include_fields;
  exclude_fields = ks.exclude_fields;
  range_fields = form_ranges f;
}

abbrev pub sent_from : PageState → Form → Keywords → PageState
sent_from s f ks =
    send_on_current_info
      (record s { info = advance_info s.info f ks (form_ranges f); advance_is_submitting = true })
      true

pub finish_submit-advance :
    (s : PageState) (f : Form) (ks : Keywords)
    → simple_field ks (form_ranges f) ≡ none
    → finish_submit s f ks ≡ submitted (sent_from s f ks) f
unfolding finish_submit
finish_submit-advance s f ks h = ground arith

finish_submit-body :
    (s s' : PageState) (f f' : Form) (ks : Keywords)
    → IsUpsideDown f
    → finish_submit s f ks ≡ submitted s' f'
    → s'.info.advance_body ≡ some (body_of f ks)
unfolding advance_info
finish_submit-body s s' f f' ks h e =
    let bad = form_ranges-threw f h in
    let no_simple =
      simple_field-ranges ks (form_ranges f)
        (not_empty-threw (codes "uploadDate") (form_ranges f) bad) in
    let same : sent_from s f ks ≡ s' = cc (finish_submit-advance s f ks no_simple) in
    rw (← same) (
      send-advance_body
        (record s { info = advance_info s.info f ks (form_ranges f); advance_is_submitting = true })
        true refl)

-- A form whose upload dates are upside down is sent all the same, as an advanced search; and while
-- that is the page's search, every further submission throws, whatever stands in the form.
pub submit_advance-jammed :
    (s s' : PageState) (f f' g : Form) (ks : Keywords)
    → IsUpsideDown f
    → finish_submit s f ks ≡ submitted s' f'
    → (s'.info.advance_body ≡ some (body_of f ks))
      × (submit_advance (record s' { advance_is_submitting = false }) g ≡ submit_threw)
unfolding submit_advance
submit_advance-jammed s s' f f' g ks h e =
    let sent = finish_submit-body s s' f f' ks h e in
    (
      sent,
      rw (sent, restore_form-threw g (body_of f ks) (form_ranges-threw f h), submit_advance) refl,
    )
