-- ===== src/NamePage/Marked.antt =====
-- What the page of names marks and hides, under any actions.
use streaming_service.Base.{
  Bool, List, Option, [], arith, false, get_elem?, if◌then◌else◌, none, not, refl, some, true, ℕ,
  ◌==◌, ◌∷◌, ◌≡◌,
}
use streaming_service.Base.Text.{Text}
use streaming_service.NamePage.{
  NameEntity, NamePage, change_image, clear_name, click_add_option, click_entity_tab, click_entry,
  click_update_option, end_reader, is_add, is_plain, light_option, name_warning, new_name_page,
  same_entity, save_by, save_name, search_input, search_name, send_name,
}

-- Exactly the button of the option and the tab of the entity are lit; the id is hidden exactly for an
-- addition, and the choice of an image exactly for authors and tags.
pub record IsMarked (p : NamePage) : Type 0 where
  pub option_button : p.option_button ≡ p.option
  pub add_lit : p.add_lit ≡ is_add p.option
  pub update_lit : p.update_lit ≡ not (is_add p.option)
  pub id_hidden : p.id_hidden ≡ is_add p.option
  pub tab_button : p.tab_button ≡ p.entity
  pub lit : (k : NameEntity) → p.lit k ≡ same_entity p.entity k
  pub entity_type : p.entity_type ≡ p.entity
  pub image_hidden : p.image_hidden ≡ is_plain p.entity

pub data NameAction : Type 0 where
  choose_add : NameAction
  choose_update : NameAction
  choose_tab : NameEntity → NameAction
  choose_image : Option Text → NameAction
  reader_ends : Bool → NameAction
  type_name : Text → NameAction
  type_search : Text → NameAction
  timer_fires : Option (List (Text × Text)) → NameAction
  entry_at : ℕ → NameAction
  press_clear : NameAction
  press_save : ℕ → NameAction

-- The name is an input of its own.
unfoldable pub name_action : NamePage → NameAction → NamePage
unfolding click_add_option click_update_option click_entity_tab change_image end_reader search_input
    search_name click_entry clear_name save_name
name_action p choose_add = click_add_option p
name_action p choose_update = click_update_option p
name_action p (choose_tab e) = click_entity_tab p e
name_action p (choose_image image) = change_image p image
name_action p (reader_ends loaded) = end_reader p loaded
name_action p (type_name text) = record p { entity_name = text }
name_action p (type_search text) = search_input p text
name_action p (timer_fires answer) = search_name p answer
name_action p (entry_at i) = click_entry p (get_elem? p.entries i)
name_action p press_clear = clear_name p
name_action p (press_save status) = save_name p status

unfoldable pub name_actions : NamePage → List NameAction → NamePage
unfolding name_action
name_actions p [] = p
name_actions p (a ∷ rest) = name_actions (name_action p a) rest

click_add_option-IsMarked : (p : NamePage) → IsMarked p → IsMarked (click_add_option p)
unfolding click_add_option light_option
click_add_option-IsMarked p m = ground arith

click_update_option-IsMarked : (p : NamePage) → IsMarked p → IsMarked (click_update_option p)
unfolding click_update_option light_option
click_update_option-IsMarked p m = ground arith

click_entity_tab-IsMarked :
    (p : NamePage) (e : NameEntity) → IsMarked p → IsMarked (click_entity_tab p e)
unfolding click_entity_tab
click_entity_tab-IsMarked p e m = ground (arith, m.lit)

change_image-IsMarked :
    (p : NamePage) (image : Option Text) → IsMarked p → IsMarked (change_image p image)
unfolding change_image
change_image-IsMarked p image m = ground (arith, m.lit)

end_reader-IsMarked : (p : NamePage) (loaded : Bool) → IsMarked p → IsMarked (end_reader p loaded)
unfolding end_reader
end_reader-IsMarked p loaded m = ground (arith, m.lit)

search_input-IsMarked : (p : NamePage) (text : Text) → IsMarked p → IsMarked (search_input p text)
unfolding search_input
search_input-IsMarked p text m = ground (arith, m.lit)

search_name-IsMarked :
    (p : NamePage) (answer : Option (List (Text × Text)))
    → IsMarked p
    → IsMarked (search_name p answer)
unfolding search_name
search_name-IsMarked p answer m = ground (arith, m.lit)

click_entry-IsMarked :
    (p : NamePage) (o : Option (Option (Text × Text))) → IsMarked p → IsMarked (click_entry p o)
unfolding click_entry
click_entry-IsMarked p none m = m
click_entry-IsMarked p (some none) m = m
click_entry-IsMarked p (some (some (id, name))) m = ground (arith, m.lit)

send_name-IsMarked : (p : NamePage) (b : Bool) → IsMarked p → IsMarked (send_name p b)
unfolding send_name clear_name
send_name-IsMarked p true m = ground (arith, m.lit)
send_name-IsMarked p false m = ground (arith, m.lit)

save_by-IsMarked :
    (p : NamePage) (status : ℕ) (w : Option Text) → IsMarked p → IsMarked (save_by p status w)
unfolding save_by
save_by-IsMarked p status (some w) m = ground (arith, m.lit)
save_by-IsMarked p status none m =
    send_name-IsMarked p (status == (if is_add p.option then 201 else 200)) m

name_action-IsMarked : (p : NamePage) (a : NameAction) → IsMarked p → IsMarked (name_action p a)
unfolding name_action clear_name save_name
name_action-IsMarked p choose_add m = click_add_option-IsMarked p m
name_action-IsMarked p choose_update m = click_update_option-IsMarked p m
name_action-IsMarked p (choose_tab e) m = click_entity_tab-IsMarked p e m
name_action-IsMarked p (choose_image image) m = change_image-IsMarked p image m
name_action-IsMarked p (reader_ends loaded) m = end_reader-IsMarked p loaded m
name_action-IsMarked p (type_name text) m = ground (arith, m.lit)
name_action-IsMarked p (type_search text) m = search_input-IsMarked p text m
name_action-IsMarked p (timer_fires answer) m = search_name-IsMarked p answer m
name_action-IsMarked p (entry_at i) m = click_entry-IsMarked p (get_elem? p.entries i) m
name_action-IsMarked p press_clear m = ground (arith, m.lit)
name_action-IsMarked p (press_save status) m = save_by-IsMarked p status (name_warning p) m

name_actions-IsMarked :
    (p : NamePage) (actions : List NameAction) → IsMarked p → IsMarked (name_actions p actions)
unfolding name_actions
name_actions-IsMarked p [] m = m
name_actions-IsMarked p (a ∷ rest) m =
    name_actions-IsMarked (name_action p a) rest (name_action-IsMarked p a m)

-- Whatever is clicked, typed, found and saved on the page: exactly the button of the option and the
-- tab of the entity are lit; the id is hidden exactly for an addition, and the choice of an image
-- exactly for authors and tags.
pub name_actions-new_name_page-IsMarked :
    (actions : List NameAction) → IsMarked (name_actions new_name_page actions)
name_actions-new_name_page-IsMarked actions = name_actions-IsMarked new_name_page actions (record {
  option_button = refl;
  add_lit = refl;
  update_lit = refl;
  id_hidden = refl;
  tab_button = refl;
  lit = λ k. refl;
  entity_type = refl;
  image_hidden = refl;
})
