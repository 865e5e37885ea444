-- ===== src/NamePage/Saved.antt =====
-- Which requests the page of names sends.
use mathlib.Core.List.{map-append}
use streaming_service.Base.{
  Bool, List, Option, Option-cases, [], ap, arith, false, get_elem?, inl, inr, is_empty, is_some,
  length, map, none, some, sym, true, ℕ, ◌++◌, ◌↔◌, ◌∙◌, ◌∷◌, ◌≡◌, ◌≤◌, ◌⊎◌,
}
use streaming_service.Base.Text.{Text, codes, trim}
use streaming_service.NamePage.{
  NameEntity, NamePage, NameRequest, add_option, clear_name, click_entity_tab, click_entry,
  entity_value, image_warning, is_image, is_plain, name_request, name_url, name_warning,
  option_warning, same_entity, save_by, save_name, send_name, update_option,
}

-- No file, or an image.
abbrev pub no_other : Option Text → Bool
no_other none = true
no_other (some t) = is_image t

-- A page that can be saved: the trimmed name has 2 to 200 units, an update has an id, an added
-- character or universe has an image, and a file that is chosen is an image.
pub record IsSavable (p : NamePage) : Type 0 where
  pub long : 2 ≤ length (trim p.entity_name)
  pub short : length (trim p.entity_name) ≤ 200
  pub id : p.option ≡ update_option → is_empty p.entity_id ≡ false
  pub pictured : p.option ≡ add_option → is_plain p.entity ≡ false → is_some p.image ≡ true
  pub image : no_other p.image ≡ true

option_warning_sound :
    (p : NamePage)
    → option_warning p ≡ none
    → (p.option ≡ update_option → is_empty p.entity_id ≡ false)
      × (p.option ≡ add_option → is_plain p.entity ≡ false → is_some p.image ≡ true)
      × (no_other p.image ≡ true)
unfolding option_warning image_warning
option_warning_sound p h = ground arith

name_warning-IsSavable : (p : NamePage) → name_warning p ≡ none → IsSavable p
unfolding name_warning
name_warning-IsSavable p h =
    let s = option_warning_sound p (ground arith) in
    record { long = ground arith; short = ground arith; id = s.0; pictured = s.1; image = s.2 }

name_warning-savable : (p : NamePage) → IsSavable p → name_warning p ≡ none
unfolding name_warning option_warning image_warning
name_warning-savable p s = ground (arith, s.image, s.pictured, s.id)

save_name-sent :
    (p : NamePage) (status : ℕ)
    → IsSavable p
    → (save_name p status).sent ≡ p.sent ++ name_request p ∷ []
unfolding save_name save_by send_name clear_name
save_name-sent p status s = ground (arith, name_warning-savable p)

save_name-kept :
    (p : NamePage) (status : ℕ)
    → ¬ IsSavable p
    → ((save_name p status).sent ≡ p.sent) × (is_some (save_name p status).warned ≡ true)
unfolding save_name save_by
save_name-kept p status s = ground (arith, name_warning-IsSavable p)

append-longer : (rs : List NameRequest) (r : NameRequest) → rs ≡ rs ++ r ∷ [] → ⊥
append-longer [] r h = cc
append-longer (q ∷ rs) r h = append-longer rs r (ground arith)

none-not-some : (t : Text) → none ≡ some t → ⊥
none-not-some t h = cc

IsSavable-cases : (p : NamePage) → IsSavable p ⊎ (¬ IsSavable p)
IsSavable-cases p = elim (Option-cases (name_warning p)) [
  | inl h ↦ inl (name_warning-IsSavable p h)
  | inr (t, h) ↦ inr (λ s. none-not-some t (sym (name_warning-savable p s) ∙ h))
]

-- A save adds the request for the option, the entity and the name, whatever the status of the answer,
-- exactly if the page can be saved, and otherwise it sends nothing.
pub save_name-sends :
    (p : NamePage) (status : ℕ)
    → (((save_name p status).sent ≡ p.sent ++ name_request p ∷ []) ↔ IsSavable p)
      × (((save_name p status).sent ≡ p.sent) ↔ (¬ IsSavable p))
save_name-sends p status = elim (IsSavable-cases p) [
  | inl s ↦ (
    (λ _. s, λ _. save_name-sent p status s),
    (
      λ h _. append-longer p.sent (name_request p) (sym h ∙ save_name-sent p status s),
      λ n. elim (n s) [ ],
    ),
  )
  | inr n ↦ (
    (
      λ h. elim (append-longer p.sent (name_request p) (sym (save_name-kept p status n).0 ∙ h)) [ ],
      λ s. elim (n s) [ ],
    ),
    (λ _. n, λ _. (save_name-kept p status n).0),
  )
]

-- The addresses of all requests.
abbrev pub all_urls : NamePage → List Text
all_urls p = map (λ (r : NameRequest). r.url) p.sent

save_name-url :
    (p : NamePage) (status : ℕ)
    → IsSavable p
    → all_urls (save_name p status) ≡ all_urls p ++ (name_request p).url ∷ []
save_name-url p status s =
    ap (map (λ (r : NameRequest). r.url)) (save_name-sent p status s)
    ∙ map-append (λ (r : NameRequest). r.url) p.sent (name_request p ∷ [])

-- The page behind a change of the tab and a click on an entry.
abbrev switched : NamePage → NameEntity → Text → Text → NamePage
switched p e id name = record (click_entity_tab p e) { entity_id = id; entity_name = name }

click_entity_tab-fields :
    (p : NamePage) (e : NameEntity)
    → same_entity p.entity e ≡ false
    → ((click_entity_tab p e).entity ≡ e)
      × ((click_entity_tab p e).option ≡ p.option)
      × ((click_entity_tab p e).image ≡ p.image)
      × ((click_entity_tab p e).sent ≡ p.sent)
      × ((click_entity_tab p e).entries ≡ p.entries)
unfolding click_entity_tab
click_entity_tab-fields p e other = ground arith

switched-IsSavable :
    (p : NamePage) (e : NameEntity) (id name : Text)
    → p.option ≡ update_option
    → same_entity p.entity e ≡ false
    → p.image ≡ none
    → is_empty id ≡ false
    → 2 ≤ length (trim name)
    → length (trim name) ≤ 200
    → IsSavable (switched p e id name)
switched-IsSavable p e id name update other bare given long short =
    let f = click_entity_tab-fields p e other in
    record {
      long = long;
      short = short;
      id = λ _. given;
      pictured = λ add _. ground (arith, f.1);
      image = ap no_other (f.2 ∙ bare);
    }

switched-url :
    (p : NamePage) (e : NameEntity) (id name : Text)
    → p.option ≡ update_option
    → same_entity p.entity e ≡ false
    → (name_request (switched p e id name)).url ≡ name_url update_option e id
unfolding name_request name_url
switched-url p e id name update other =
    let f = click_entity_tab-fields p e other in
    ap (λ o. name_url o (click_entity_tab p e).entity id) (f.1 ∙ update)
    ∙ ap (λ k. name_url update_option k id) f.0

-- If the tab is changed, an entry that the search found for the entity before, with an id and a
-- name of good length, is clicked, and an update is saved without an image, then the id of that
-- entry goes to the address of the new entity.
pub click_entity_tab-stale :
    (p : NamePage) (e : NameEntity) (i : ℕ) (id name : Text) (status : ℕ)
    → p.option ≡ update_option
    → same_entity p.entity e ≡ false
    → get_elem? p.entries i ≡ some (some (id, name))
    → p.image ≡ none
    → is_empty id ≡ false
    → 2 ≤ length (trim name)
    → length (trim name) ≤ 200
    → all_urls (
        save_name
          (click_entry (click_entity_tab p e) (get_elem? (click_entity_tab p e).entries i))
          status)
      ≡ all_urls p ++ ((codes "/api/modify/name/" ++ entity_value e) ++ codes "/" ++ id) ∷ []
unfolding click_entry name_url
click_entity_tab-stale p e i id name status update other found bare given long short =
    let savable = switched-IsSavable p e id name update other bare given long short in
    let kept = ap (λ l. get_elem? l i) (click_entity_tab-fields p e other).4 in
    ap (λ o. all_urls (save_name (click_entry (click_entity_tab p e) o) status)) (kept ∙ found)
    ∙ save_name-url (switched p e id name) status savable
    ∙ ap (λ u. all_urls (switched p e id name) ++ u ∷ []) (switched-url p e id name update other)
    ∙ ap (λ l. map (λ (r : NameRequest). r.url) l ++ name_url update_option e id ∷ [])
        (click_entity_tab-fields p e other).3
