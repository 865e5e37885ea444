-- ===== src/NamePage.antt =====
-- The page that adds and updates names, in
-- frontend/src/main/resources/static/js/upload/modify-name-page.js.
pub mod Marked
pub mod Saved
use streaming_service.Base.{
  Bool, List, Option, [], false, if◌then◌else◌, is_empty, length, ltb, map, none, some, suc, true,
  zero, ℕ, ◌++◌, ◌+◌, ◌==◌, ◌∷◌,
}
use streaming_service.Base.Text.{Text, codes, starts_with, trim}

-- `nameEntity` and `modifyOption`
pub data NameEntity : Type 0 where
  authors : NameEntity
  characters : NameEntity
  universes : NameEntity
  tags : NameEntity

pub data ModifyOption : Type 0 where
  add_option : ModifyOption
  update_option : ModifyOption

abbrev pub entity_value : NameEntity → Text
entity_value authors = codes "authors"
entity_value characters = codes "characters"
entity_value universes = codes "universes"
entity_value tags = codes "tags"

abbrev pub same_entity : NameEntity → NameEntity → Bool
same_entity authors authors = true
same_entity characters characters = true
same_entity universes universes = true
same_entity tags tags = true
same_entity _ _ = false

-- Authors and tags have no image.
abbrev pub is_plain : NameEntity → Bool
is_plain authors = true
is_plain tags = true
is_plain characters = false
is_plain universes = false

abbrev pub is_add : ModifyOption → Bool
is_add add_option = true
is_add update_option = false

-- The body of a request: a form with the name and the type of the image, or the name alone.
pub data NameBody : Type 0 where
  name_form : Text → Option Text → NameBody
  plain_name : Text → NameBody

pub record NameRequest : Type 0 where
  pub method : Text
  pub url : Text
  pub body : NameBody

-- The variables of the page; which buttons are lit; the inputs, an image by its type; what is
-- hidden, with the number of readers at work; the entries of the search, the one without a name
-- being that nothing matches, and the text that its timer waits with; the last warning and the last
-- message; the alerts and the requests.
pub record NamePage : Type 0 where
  pub option : ModifyOption
  pub option_button : ModifyOption
  pub add_lit : Bool
  pub update_lit : Bool
  pub entity : NameEntity
  pub tab_button : NameEntity
  pub lit : NameEntity → Bool
  pub entity_type : NameEntity
  pub entity_id : Text
  pub entity_name : Text
  pub image : Option Text
  pub id_hidden : Bool
  pub image_hidden : Bool
  pub preview_hidden : Bool
  pub readers : ℕ
  pub entries : List (Option (Text × Text))
  pub waiting : Option Text
  pub warned : Option Text
  pub told : Option ModifyOption
  pub alerts : ℕ
  pub searched : List (NameEntity × Text)
  pub sent : List NameRequest

-- `initialize`
abbrev pub new_name_page : NamePage
new_name_page = record {
  option = add_option;
  option_button = add_option;
  add_lit = true;
  update_lit = false;
  entity = characters;
  tab_button = characters;
  lit = same_entity characters;
  entity_type = characters;
  entity_id = [];
  entity_name = [];
  image = none;
  id_hidden = true;
  image_hidden = false;
  preview_hidden = true;
  readers = 0;
  entries = [];
  waiting = none;
  warned = none;
  told = none;
  alerts = 0;
  searched = [];
  sent = [];
}

-- A button of an option lit or not.
unfoldable pub light_option : NamePage → ModifyOption → Bool → NamePage
light_option p add_option b = record p { add_lit = b }
light_option p update_option b = record p { update_lit = b }

-- A click on the button that adds.
unfoldable pub click_add_option : NamePage → NamePage
unfolding light_option
click_add_option p = elim p.option [
  | add_option ↦ p
  | update_option ↦ record (light_option (light_option p add_option true) p.option_button false) {
    option = add_option;
    option_button = add_option;
    id_hidden = true;
  }
]

-- A click on the button that updates.
unfoldable pub click_update_option : NamePage → NamePage
unfolding light_option
click_update_option p = elim p.option [
  | update_option ↦ p
  | add_option ↦ record (light_option (light_option p update_option true) p.option_button false) {
    option = update_option;
    option_button = update_option;
    id_hidden = false;
  }
]

abbrev light_tab : (NameEntity → Bool) → NameEntity → Bool → NameEntity → Bool
light_tab lit e b k = if same_entity e k then b else lit k

-- A click on the tab of an entity.
unfoldable pub click_entity_tab : NamePage → NameEntity → NamePage
click_entity_tab p e = if same_entity p.entity e then p else record p {
  entity = e;
  entity_type = e;
  lit = light_tab (light_tab p.lit e true) p.tab_button false;
  tab_button = e;
  entity_id = [];
  entity_name = [];
  image_hidden = is_plain e;
}

-- A change of the image, by its type; an image is read by a reader of its own.
unfoldable pub change_image : NamePage → Option Text → NamePage
change_image p none = record p { image = none; preview_hidden = true }
change_image p (some t) = record p { image = some t; readers = p.readers + 1 }

-- A reader ends: `onload` shows the preview, and an error, for which there is no handler, does
-- nothing.
unfoldable pub end_reader : NamePage → Bool → NamePage
end_reader p loaded = elim p.readers [
  | zero ↦ p
  | suc n ↦ record p { readers = n; preview_hidden = if loaded then false else p.preview_hidden }
]

-- An input of the search, which leaves one entry, the hidden template, or starts the timer.
unfoldable pub search_input : NamePage → Text → NamePage
unfolding trim
search_input p typed =
    let text = trim typed in
    if ltb (length text) 2
    then record p { waiting = none; entries = [] }
    else record p { waiting = some text }

-- `searchName` and `addSearchEntry`, when the timer fires; no names are a refused request.
unfoldable pub search_name : NamePage → Option (List (Text × Text)) → NamePage
search_name p answer = elim p.waiting [
  | none ↦ p
  | some text ↦
      let asked = record p { waiting = none; searched = p.searched ++ (p.entity, text) ∷ [] } in
      elim answer as (λ _. NamePage) [
        | none ↦ record asked { alerts = p.alerts + 1 }
        | some names ↦ record asked {
          entries = if is_empty names then none ∷ [] else map some names;
        }
      ]
]

-- A click on an entry of the search.
unfoldable pub click_entry : NamePage → Option (Option (Text × Text)) → NamePage
click_entry p none = p
click_entry p (some none) = p
click_entry p (some (some (id, name))) = record p { entity_id = id; entity_name = name }

-- A click on the button that clears.
unfoldable pub clear_name : NamePage → NamePage
clear_name p = record p { entity_id = []; entity_name = []; image = none; preview_hidden = true }

abbrev pub is_image : Text → Bool
is_image t = starts_with t (codes "image/")

abbrev pub too_short : Text
too_short = codes "Name must be at least 2 characters"

abbrev pub too_long : Text
too_long = codes "Name exceeded 200 characters"

abbrev pub no_image : Text
no_image = codes "Please upload an image for new name entry"

abbrev pub no_entry : Text
no_entry = codes "Please select an existing name entry to update"

abbrev pub not_an_image : Text
not_an_image = codes "Uploaded file is not an image type."

unfoldable pub image_warning : Option Text → Option Text
unfolding starts_with
image_warning none = none
image_warning (some t) = if is_image t then none else some not_an_image

-- The warning of a page whose name has a good length.
unfoldable pub option_warning : NamePage → Option Text
unfolding starts_with image_warning
option_warning p = elim p.option as (λ _. Option Text) [
  | add_option ↦
      if is_plain p.entity then image_warning p.image else elim p.image as (λ _. Option Text) [
        | none ↦ some no_image
        | some t ↦ if is_image t then image_warning (some t) else some no_image
      ]
  | update_option ↦ if is_empty p.entity_id then some no_entry else image_warning p.image
]

-- The warning, if any, of a save.
unfoldable pub name_warning : NamePage → Option Text
unfolding trim option_warning
name_warning p =
    let name = trim p.entity_name in
    if ltb (length name) 2
    then some too_short
    else if ltb 200 (length name)
    then some too_long
    else option_warning p

-- The address of a save.
unfoldable pub name_url : ModifyOption → NameEntity → Text → Text
name_url add_option e id = codes "/api/modify/name/" ++ entity_value e
name_url update_option e id = (codes "/api/modify/name/" ++ entity_value e) ++ codes "/" ++ id

-- The request of a save.
unfoldable pub name_request : NamePage → NameRequest
unfolding trim name_url
name_request p =
    let name = trim p.entity_name in
    record {
      method = if is_add p.option then codes "POST" else codes "PUT";
      url = name_url p.option p.entity p.entity_id;
      body = if is_plain p.entity then plain_name name else name_form name p.image;
    }

-- A save without a warning, by whether the status of the answer is the one that is hoped for.
unfoldable pub send_name : NamePage → Bool → NamePage
unfolding name_request clear_name
send_name p answered =
    let asked = record p { sent = p.sent ++ name_request p ∷ [] } in
    if answered
    then clear_name (record asked { told = some p.option })
    else record asked { alerts = p.alerts + 1 }

-- A save by its warning.
unfoldable pub save_by : NamePage → ℕ → Option Text → NamePage
unfolding send_name
save_by p status (some w) = record p { warned = some w }
save_by p status none = send_name p (status == (if is_add p.option then 201 else 200))

-- A click on the button that saves, with the status of the answer.
unfoldable pub save_name : NamePage → ℕ → NamePage
unfolding name_warning save_by
save_name p status = save_by p status (name_warning p)
