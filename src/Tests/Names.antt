-- ===== src/Tests/Names.antt =====
-- Runs of the model of modify-media-metadata.js and modify-name-page.js.
use streaming_service.Base.JsMap
use streaming_service.Base.{
  List, Option, [], arith, get_elem?, none, refl, some, true, ◌↔◌, ◌∷◌, ◌≡◌,
}
use streaming_service.Base.JsMap.{JsMap}
use streaming_service.Base.Text.{Text, codes, is_space, text_eq, trim, trim_start}
use streaming_service.NameEditor.{
  Editor, add_to_current, add_to_removing, click_current, click_removing, draw_current, draw_others,
  fetch_for, fetch_names, remove_at, save_edit, set_each, set_name_entity, start_edit, with_edits,
}
use streaming_service.NameEditor.Listed.{IsListed}
use streaming_service.NameEditor.Mixed.{Mixes, start_edit-refused}
use streaming_service.NameEditor.Played.{
  NameClick, adding_at, current_at, name_clicks, name_clicks-start_edit-IsListed, removing_at,
  searched,
}
use streaming_service.NamePage.{
  NamePage, change_image, clear_name, click_add_option, click_entity_tab, click_entry,
  click_update_option, image_warning, light_option, name_request, name_url, name_warning,
  new_name_page, option_warning, plain_name, save_by, save_name, search_input, search_name,
  send_name, tags, update_option,
}
use streaming_service.NamePage.Marked.{
  IsMarked, NameAction, choose_tab, choose_update, entry_at, name_action, name_actions,
  name_actions-new_name_page-IsMarked, press_save, timer_fires, type_search,
}
use streaming_service.NamePage.Saved.{IsSavable, all_urls, click_entity_tab-stale, save_name-sends}

-- The editor before it is opened, and two authors.
abbrev closed : Editor
closed = record {
  kind = [];
  all = [];
  current_nodes = [];
  adding_nodes = [];
  removing_nodes = [];
  removing_hidden = true;
  hidden = true;
  alerts = 0;
  sent = [];
}

abbrev authors : List (Text × Text)
authors = (codes "1", codes "Ann") ∷ (codes "2", codes "Bob") ∷ []

abbrev clicks : List NameClick
clicks = current_at 1 ∷ searched (codes "2") (codes "Bob") ∷ removing_at 0 ∷ adding_at 0 ∷ []

abbrev opened : Editor
opened = start_edit closed (codes "authors") (some authors)

-- A name that is clicked away and back is behind the others.
opened-back :
    (name_clicks opened (current_at 0 ∷ removing_at 0 ∷ [])).current_nodes
    ≡ (codes "2", codes "Bob") ∷ (codes "1", codes "Ann") ∷ []
unfolding name_clicks start_edit click_current click_removing add_to_current add_to_removing
    with_edits remove_at set_name_entity fetch_names fetch_for set_each draw_current draw_others
    JsMap.get JsMap.set JsMap.delete text_eq
opened-back = refl

-- A save sends what was clicked away, with the kind in capitals, and clears the edits.
opened-saved :
    (save_edit (name_clicks opened (current_at 0 ∷ [])) none).sent
    ≡ record { kind = codes "AUTHORS"; adding = []; removing = (codes "1", codes "Ann") ∷ [] } ∷ []
unfolding save_edit name_clicks start_edit click_current add_to_removing with_edits remove_at
    set_name_entity fetch_names fetch_for set_each draw_current draw_others JsMap.get JsMap.set
    JsMap.delete text_eq
opened-saved = refl

name_clicks-start_edit-IsListed_example : IsListed (name_clicks opened clicks)
unfolding JsMap.get
name_clicks-start_edit-IsListed_example =
    name_clicks-start_edit-IsListed closed (codes "authors") authors clicks refl

start_edit-refused_example :
    Mixes opened (start_edit opened (codes "tags") none) (codes "tags") (codes "1") (codes "Ann") 0
unfolding start_edit with_edits set_name_entity fetch_names fetch_for set_each draw_current
    draw_others JsMap.get JsMap.set text_eq
start_edit-refused_example =
    start_edit-refused opened (codes "tags") (codes "1") (codes "Ann") 0 refl refl

abbrev found : Option (List (Text × Text))
found = some ((codes "7", codes "Ann") ∷ [])

abbrev actions : List NameAction
actions =
    choose_update
    ∷ type_search (codes " Ann ")
    ∷ timer_fires found
    ∷ choose_tab tags
    ∷ entry_at 0
    ∷ press_save 200
    ∷ []

-- The id of a character is sent as that of a tag.
actions-sent :
    (name_actions new_name_page actions).sent
    ≡ record {
      method = codes "PUT";
      url = codes "/api/modify/name/tags/7";
      body = plain_name (codes "Ann");
    }
      ∷ []
unfolding name_actions click_add_option click_update_option light_option click_entity_tab
    change_image search_input search_name click_entry clear_name save_name save_by send_name
    name_warning option_warning image_warning name_request name_url trim trim_start is_space
    name_action
actions-sent = refl

name_actions-new_name_page-IsMarked_example : IsMarked (name_actions new_name_page actions)
name_actions-new_name_page-IsMarked_example = name_actions-new_name_page-IsMarked actions

abbrev named : NamePage
named = record new_name_page { entity_name = codes "Ann"; image = some (codes "image/png") }

save_name-sends_example :
    (((save_name named 201).sent ≡ name_request named ∷ []) ↔ IsSavable named)
    × (((save_name named 201).sent ≡ []) ↔ (¬ IsSavable named))
save_name-sends_example = save_name-sends named 201

-- A page for an update, with what a search has found.
abbrev updating : NamePage
updating = record new_name_page {
  option = update_option;
  entries = some (codes "7", codes "Ann") ∷ [];
}

click_entity_tab-stale_example :
    all_urls (
      save_name
        (click_entry
          (click_entity_tab updating tags)
          (get_elem? (click_entity_tab updating tags).entries 0))
        200)
    ≡ codes "/api/modify/name/tags/7" ∷ []
unfolding trim trim_start is_space
click_entity_tab-stale_example =
    click_entity_tab-stale updating tags 0 (codes "7") (codes "Ann") 200 refl refl refl refl refl
      (omega arith) (omega arith)
