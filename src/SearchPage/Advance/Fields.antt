-- ===== src/SearchPage/Advance/Fields.antt =====
-- What the advanced search of search-page.js asks for.
use streaming_service.Base.JsMap
use streaming_service.Base.{
  All, Bool, Bool-cases, List, Option, [], any_of, append-nil, append_assoc, arith, false,
  if◌then◌else◌, inl, inr, is_empty, none, refl, some, some_of, sym, true, ℕ, ◌++◌, ◌+◌, ◌↔◌, ◌∙◌,
  ◌∷◌, ◌≡◌,
}
use streaming_service.Base.JsMap.{JsMap}
use streaming_service.Base.Text.{Text, text_eq, text_eq_iff}
use streaming_service.SearchPage.Advance.{
  Form, Keywords, Submitted, add_keyword, chosen_with, collect_keywords, finish_submit, form_ranges,
  ignored, keyword_info, labels, no_keywords, push_field, restore_form, simple_field,
  submit_advance, submit_threw, submitted,
}
use streaming_service.SearchPage.Areas.{Area}
use streaming_service.SearchPage.Areas.Shown.{HasOnce}
use streaming_service.SearchPage.Info.{
  SearchField, SearchInfo, SearchRequest, get_keyword_search_url, request_of,
}
use streaming_service.SearchPage.Send.{PageState, send_on_current_info, send_search_request}

-- The fields of a search by the included, or by the excluded, items of the areas with some labels:
-- one for each area that has such items, in the order of the labels.
abbrev pub field_of : Bool → Text → Option Area → List SearchField
field_of b label none = []
field_of b label (some a) =
    if is_empty (chosen_with b a.added)
    then []
    else record {
      field = label;
      values = chosen_with b a.added;
      match_all = if b then a.match_all else true;
    }
      ∷ []

abbrev pub fields_of : Bool → JsMap Area → List Text → List SearchField
fields_of b areas [] = []
fields_of b areas (l ∷ ls) = field_of b l (JsMap.get areas l) ++ fields_of b areas ls

abbrev pub used : Option Area → ℕ
used none = 0
used (some a) = if is_empty a.added then 0 else 1

abbrev pub count_used : JsMap Area → List Text → ℕ
count_used areas [] = 0
count_used areas (l ∷ ls) = used (JsMap.get areas l) + count_used areas ls

abbrev pub AllThere : JsMap Area → List Text → Type 0
AllThere areas ls = All (λ l. JsMap.has areas l ≡ true) ls

push_field_lem :
    (fs : List SearchField) (label : Text) (vs : List Text) (m : Bool)
    → push_field fs label vs m
      ≡ fs
        ++ (if is_empty vs then [] else record { field = label; values = vs; match_all = m } ∷ [])
unfolding push_field
push_field_lem fs label [] m = sym (append-nil fs)
push_field_lem fs label (v ∷ vs) m = refl

chosen_with-empty : (b : Bool) (m : JsMap Bool) → is_empty m ≡ true → chosen_with b m ≡ []
unfolding chosen_with
chosen_with-empty true [] h = refl
chosen_with-empty false [] h = refl
chosen_with-empty b (x ∷ m) h = cc

add_keyword_lem :
    (ks : Keywords) (label : Text) (a : Area)
    → add_keyword ks label a ≡ record {
      include_fields = ks.include_fields ++ field_of true label (some a);
      exclude_fields = ks.exclude_fields ++ field_of false label (some a);
      keyword_count = ks.keyword_count + used (some a);
    }
unfolding add_keyword
add_keyword_lem ks label a = elim (Bool-cases (is_empty a.added)) [
  | inl none_there ↦
      rw
        (
          none_there,
          chosen_with-empty true a.added none_there,
          chosen_with-empty false a.added none_there,
          append-nil ks.include_fields,
          append-nil ks.exclude_fields,
        )
        (ground arith)
  | inr there ↦
      rw
        (
          there,
          push_field_lem ks.include_fields label (chosen_with true a.added) a.match_all,
          push_field_lem ks.exclude_fields label (chosen_with false a.added) true,
        )
        refl
]

collect_keywords_lem :
    (areas : JsMap Area) (ls : List Text) (ks : Keywords)
    → AllThere areas ls
    → collect_keywords areas ls ks
      ≡ some (record {
        include_fields = ks.include_fields ++ fields_of true areas ls;
        exclude_fields = ks.exclude_fields ++ fields_of false areas ls;
        keyword_count = ks.keyword_count + count_used areas ls;
      })
unfolding collect_keywords
collect_keywords_lem areas [] ks t =
    rw (append-nil ks.include_fields, append-nil ks.exclude_fields) (ground arith)
collect_keywords_lem areas (l ∷ ls) ks (here, more) =
    let (a, there) = some_of (JsMap.get areas l) here in
    rw (there, collect_keywords)
      (collect_keywords_lem areas ls (add_keyword ks l a) more
        ∙ rw
            (
              add_keyword_lem ks l a,
              append_assoc ks.include_fields (field_of true l (some a)) (fields_of true areas ls),
              append_assoc ks.exclude_fields (field_of false l (some a)) (fields_of false areas ls),
            )
            (ground arith))

-- An id is among those with a flag exactly if it is chosen with that flag.
pub chosen_with_iff :
    (b : Bool) (m : JsMap Bool) (id : Text)
    → HasOnce m
    → any_of (text_eq id) (chosen_with b m) ≡ true ↔ (JsMap.get m id ≡ some b)
unfolding chosen_with JsMap.get
chosen_with_iff b [] id o = ground arith
chosen_with_iff true ((k, true) ∷ m) id o =
    ground (arith, chosen_with_iff true m id o.1, text_eq_iff id k, text_eq_iff k id)
chosen_with_iff true ((k, false) ∷ m) id o =
    ground (arith, chosen_with_iff true m id o.1, text_eq_iff id k, text_eq_iff k id)
chosen_with_iff false ((k, true) ∷ m) id o =
    ground (arith, chosen_with_iff false m id o.1, text_eq_iff id k, text_eq_iff k id)
chosen_with_iff false ((k, false) ∷ m) id o =
    ground (arith, chosen_with_iff false m id o.1, text_eq_iff id k, text_eq_iff k id)

-- If the four areas are there, the fields that are collected are one for each area with included
-- items, and one for each with excluded items, in the order of the labels; and an item is among the
-- values by a flag exactly if it is chosen with that flag, in an area that has each item once.
pub collect_keywords-fields :
    (areas : JsMap Area) (b : Bool) (m : JsMap Bool) (id : Text)
    → AllThere areas labels
    → HasOnce m
    → (collect_keywords areas labels no_keywords
        ≡ some (record {
          include_fields = fields_of true areas labels;
          exclude_fields = fields_of false areas labels;
          keyword_count = count_used areas labels;
        }))
      × ((any_of (text_eq id) (chosen_with b m) ≡ true) ↔ (JsMap.get m id ≡ some b))
collect_keywords-fields areas b m id t once =
    (collect_keywords_lem areas labels no_keywords t ∙ ground arith, chosen_with_iff b m id once)

-- The state that a submission sends from, and what it has sent.
abbrev pub SentLast : Submitted → PageState → SearchRequest → Type 0
SentLast (submitted s' f) s r = s'.sent ≡ s.sent ++ r ∷ []
SentLast ignored s r = ⊥
SentLast submit_threw s r = ⊥

pub send-sent :
    (s : PageState) (u : Bool) → (send_on_current_info s u).sent ≡ s.sent ++ request_of s.info ∷ []
unfolding send_on_current_info send_search_request
send-sent s u = ground arith

-- What is collected is sent, when nothing stops the handler.
pub submit_advance_step :
    (s : PageState) (f : Form) (ks : Keywords)
    → s.advance_is_submitting ≡ false
    → s.info.advance_body ≡ none
    → collect_keywords s.areas labels no_keywords ≡ some ks
    → submit_advance s f ≡ finish_submit s f ks
unfolding submit_advance restore_form
submit_advance_step s f ks free fresh all = rw (free, fresh, submit_advance, restore_form, all) refl

finish_submit-simple :
    (s : PageState) (f : Form) (field : SearchField) (excluded : List SearchField)
    → form_ranges f ≡ []
    → finish_submit s f
        (record { include_fields = field ∷ []; exclude_fields = excluded; keyword_count = 1 })
      ≡ submitted
          (send_on_current_info
            (record s { info = keyword_info s.info f field; advance_is_submitting = true })
            true)
          f
unfolding finish_submit simple_field
finish_submit-simple s f field excluded no_range = rw no_range refl

request_of-keyword_info :
    (i : SearchInfo) (f : Form) (field : SearchField)
    → request_of (keyword_info i f field)
      ≡ record { address = get_keyword_search_url (keyword_info i f field); body = none }
unfolding request_of keyword_info
request_of-keyword_info i f field = refl

-- If just one area has chosen items, some of them included, and no range is given, then the search is
-- reduced to one for the included values of a keyword, also where the area has excluded items: the
-- request has no body, and its address does not name them.
pub submit_advance-no_exclusion :
    (s : PageState) (f : Form) (field : SearchField)
    → s.advance_is_submitting ≡ false
    → s.info.advance_body ≡ none
    → AllThere s.areas labels
    → count_used s.areas labels ≡ 1
    → fields_of true s.areas labels ≡ field ∷ []
    → form_ranges f ≡ []
    → SentLast
        (submit_advance s f)
        s
        (record { address = get_keyword_search_url (keyword_info s.info f field); body = none })
submit_advance-no_exclusion s f field free fresh t one included no_range =
    rw
      (
        submit_advance_step s f
            (record {
              include_fields = fields_of true s.areas labels;
              exclude_fields = fields_of false s.areas labels;
              keyword_count = count_used s.areas labels;
            })
            free fresh ((collect_keywords-fields s.areas true [] [] t tt).0),
        included,
        one,
        finish_submit-simple s f field (fields_of false s.areas labels) no_range,
        ← request_of-keyword_info s.info f field,
      )
      (send-sent (record s { info = keyword_info s.info f field; advance_is_submitting = true })
        true)
