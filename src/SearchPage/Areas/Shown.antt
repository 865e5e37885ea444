-- ===== src/SearchPage/Areas/Shown.antt =====
-- What an area of search-page.js shows of its chosen items.
use streaming_service.Base.JsMap
use streaming_service.Base.{
  Bool, Bool-cases, List, Option-cases, [], any_of, ap, arith, false, if◌then◌else◌, inl, inr,
  is_empty, length, length-append, not, refl, some, suc, sym, true, ◌++◌, ◌+◌, ◌∙◌, ◌∷◌, ◌≡◌,
}
use streaming_service.Base.JsMap.{JsMap}
use streaming_service.Base.Text.{Text, text_eq, text_eq_iff}
use streaming_service.SearchPage.Areas.{
  Area, Click, add_each, add_selected_item, click_found, count_false, drop_item, drop_last_line,
  new_area, on_button, on_found, on_inclusion, on_remove, play_clicks, remove_chosen,
  restore_values, toggle_inclusion, toggle_list, undefined_key,
}

-- No key stands twice in a map.
abbrev pub HasOnce : JsMap Bool → Type 0
HasOnce [] = Unit {0}
HasOnce ((k, _) ∷ m) = (JsMap.has m k ≡ false) × HasOnce m

any_of-keys : (m : JsMap Bool) (k : Text) → any_of (text_eq k) (JsMap.keys m) ≡ JsMap.has m k
unfolding JsMap.get
any_of-keys [] k = refl
any_of-keys ((j, b) ∷ m) k = ground (arith, any_of-keys m k, text_eq_iff k j, text_eq_iff j k)

keys-set :
    (m : JsMap Bool) (k : Text) (b : Bool)
    → JsMap.keys (JsMap.set m k b)
      ≡ (if JsMap.has m k then JsMap.keys m else JsMap.keys m ++ k ∷ [])
unfolding JsMap.get JsMap.set
keys-set [] k b = refl
keys-set ((j, c) ∷ m) k b = ground (arith, keys-set m k b)

delete_absent : (m : JsMap Bool) (k : Text) → JsMap.has m k ≡ false → JsMap.delete m k ≡ m
unfolding JsMap.get JsMap.delete
delete_absent [] k h = refl
delete_absent ((j, c) ∷ m) k h = ground (arith, delete_absent m k)

has-set :
    (m : JsMap Bool) (k j : Text) (b : Bool)
    → JsMap.has (JsMap.set m k b) j ≡ (if text_eq k j then true else JsMap.has m j)
has-set m k j b = ground (arith, JsMap.get-set m k b j)

has-delete :
    (m : JsMap Bool) (k j : Text)
    → JsMap.has (JsMap.delete m k) j ≡ (if text_eq k j then false else JsMap.has m j)
has-delete m k j = ground (arith, JsMap.get-delete m k j)

HasOnce-set : (m : JsMap Bool) (k : Text) (b : Bool) → HasOnce m → HasOnce (JsMap.set m k b)
unfolding JsMap.get JsMap.set
HasOnce-set [] k b o = (refl, tt)
HasOnce-set ((j, c) ∷ m) k b o =
    ground (arith, HasOnce-set m k b o.1, has-set m k j b, text_eq_iff k j, text_eq_iff j k)

HasOnce-delete : (m : JsMap Bool) (k : Text) → HasOnce m → HasOnce (JsMap.delete m k)
unfolding JsMap.delete
HasOnce-delete [] k o = tt
HasOnce-delete ((j, c) ∷ m) k o = ground (arith, HasOnce-delete m k o.1, has-delete m k j)

-- Dropping the line of an entry leaves the lines of the other entries.
drop_last_line-keys :
    (m : JsMap Bool) (k : Text)
    → HasOnce m
    → drop_last_line k (JsMap.keys m) ≡ JsMap.keys (JsMap.delete m k)
unfolding drop_last_line JsMap.delete
drop_last_line-keys [] k o = refl
drop_last_line-keys ((j, c) ∷ m) k o = ground (
  arith,
  drop_last_line-keys m k o.1,
  any_of-keys m k,
  delete_absent m k,
  text_eq_iff j k,
  text_eq_iff k j,
)

is_empty-set : (m : JsMap Bool) (k : Text) (b : Bool) → is_empty (JsMap.set m k b) ≡ false
unfolding JsMap.set
is_empty-set [] k b = refl
is_empty-set ((j, c) ∷ m) k b = ground arith

not_empty : (m : JsMap Bool) (k : Text) (b : Bool) → JsMap.get m k ≡ some b → is_empty m ≡ false
unfolding JsMap.get
not_empty [] k b h = cc
not_empty (_ ∷ m) k b h = refl

still_empty : (m : JsMap Bool) (k : Text) → is_empty m ≡ true → is_empty (JsMap.delete m k) ≡ true
unfolding JsMap.delete
still_empty [] k h = refl
still_empty ((j, c) ∷ m) k h = cc

count_false-delete :
    (m : JsMap Bool) (k : Text)
    → HasOnce m
    → JsMap.get m k ≡ some false
    → count_false (JsMap.values m) ≡ suc (count_false (JsMap.values (JsMap.delete m k)))
unfolding JsMap.get JsMap.delete
count_false-delete [] k o h = cc
count_false-delete ((j, true) ∷ m) k o h =
    ground (arith, count_false-delete m k o.1, text_eq_iff j k)
count_false-delete ((j, false) ∷ m) k o h =
    ground (arith, count_false-delete m k o.1, text_eq_iff j k, delete_absent m k)

-- The lines are those of the entries, in order and each once; the count is their number; and the
-- button is there exactly if there is an entry.
pub record IsListed (a : Area) : Type 0 where
  pub lined : a.lines ≡ JsMap.keys a.added
  pub once : HasOnce a.added
  pub counted : a.selected_count ≡ length a.added
  pub button : a.button_hidden ≡ is_empty a.added

drop_item-IsListed :
    (a : Area) (k : Text)
    → IsListed a
    → IsListed (record (drop_item a k) { selected_count = length (JsMap.delete a.added k) })
unfolding drop_item
drop_item-IsListed a k s = record {
  lined = rw s.lined (drop_last_line-keys a.added k s.once);
  once = HasOnce-delete a.added k s.once;
  counted = refl;
  button = ground (arith, still_empty a.added k);
}

remove_chosen-IsListed : (a : Area) (k : Text) → IsListed a → IsListed (remove_chosen a k)
unfolding remove_chosen
remove_chosen-IsListed a k s = elim (Bool-cases (JsMap.has a.added k)) [
  | inl there ↦ rw there (drop_item-IsListed a k s)
  | inr gone ↦ rw gone s
]

add_selected_item-IsListed :
    (a : Area) (k : Text)
    → IsListed a
    → JsMap.has a.added k ≡ false
    → let b = add_selected_item (record a { button_hidden = false }) k false in
      IsListed (record b { selected_count = length b.added })
unfolding add_selected_item
add_selected_item-IsListed a k s fresh = record {
  lined = ground (arith, keys-set a.added k true);
  once = HasOnce-set a.added k true s.once;
  counted = refl;
  button = sym (is_empty-set a.added k true);
}

click_found-IsListed : (a : Area) (k : Text) → IsListed a → IsListed (click_found a k)
unfolding click_found
click_found-IsListed a k s = elim (Bool-cases (JsMap.has a.added k)) [
  | inl there ↦ rw there (drop_item-IsListed a k s)
  | inr fresh ↦ rw fresh (add_selected_item-IsListed a k s fresh)
]

toggle_inclusion-IsListed : (a : Area) (k : Text) → IsListed a → IsListed (toggle_inclusion a k)
unfolding toggle_inclusion
toggle_inclusion-IsListed a k s = elim (Option-cases (JsMap.get a.added k)) [
  | inl gone ↦ rw (gone, toggle_inclusion) s
  | inr (b, there) ↦
      rw (there, toggle_inclusion)
        (record {
          lined = ground (arith, keys-set a.added k (not b));
          once = HasOnce-set a.added k (not b) s.once;
          counted = ground (arith, JsMap.length-set a.added k (not b));
          button = ground (arith, is_empty-set a.added k (not b), not_empty a.added k b there);
        })
]

-- An area that shows what is chosen, as a new one does, still does so whatever is clicked: the
-- lines of the list are the chosen items, each once; the count beside the button is their number;
-- and the button is hidden exactly if there are none.
pub play_clicks-IsListed : (a : Area) (cs : List Click) → IsListed a → IsListed (play_clicks a cs)
unfolding play_clicks
play_clicks-IsListed a [] s = s
play_clicks-IsListed a (on_found id ∷ cs) s =
    play_clicks-IsListed (click_found a id) cs (click_found-IsListed a id s)
play_clicks-IsListed a (on_remove id ∷ cs) s =
    play_clicks-IsListed (remove_chosen a id) cs (remove_chosen-IsListed a id s)
play_clicks-IsListed a (on_inclusion id ∷ cs) s =
    play_clicks-IsListed (toggle_inclusion a id) cs (toggle_inclusion-IsListed a id s)
play_clicks-IsListed a (on_button ∷ cs) s =
    play_clicks-IsListed (toggle_list a) cs
      (record { lined = s.lined; once = s.once; counted = s.counted; button = s.button })

pub new_area-IsListed : (b : Bool) → IsListed (new_area b)
new_area-IsListed b = record { lined = refl; once = tt; counted = refl; button = refl }

-- Removing an excluded item leaves the count of the excluded items as it was, though there is one
-- less.
pub remove_chosen-stale :
    (a : Area) (id : Text)
    → HasOnce a.added
    → JsMap.get a.added id ≡ some false
    → a.unselected_count ≡ count_false (JsMap.values a.added)
    → (remove_chosen a id).unselected_count
      ≡ suc (count_false (JsMap.values (remove_chosen a id).added))
unfolding remove_chosen drop_item
remove_chosen-stale a id once excluded right = ground (arith, count_false-delete a.added id once)

add_each_undefined :
    (a : Area) (vs : List Text)
    → a.added ≡ (undefined_key, true) ∷ []
    → ((add_each a vs false).added ≡ (undefined_key, true) ∷ [])
      × (length (add_each a vs false).lines ≡ length a.lines + length vs)
unfolding add_each add_selected_item JsMap.set text_eq
add_each_undefined a [] one = (one, omega arith)
add_each_undefined a (v ∷ vs) one =
    let b = add_selected_item a undefined_key false in
    let kept : b.added ≡ (undefined_key, true) ∷ [] = rw one refl in
    let (added, lines) = add_each_undefined b vs kept in
    (added, lines ∙ omega (arith, length-append a.lines (undefined_key ∷ [])))

-- The values of a search that is restored are lost: whatever they are, a new area has a single entry
-- under the key undefined behind them, and one line for each of them.
pub restore_values_undefined :
    (checked : Bool) (v : Text) (vs : List Text)
    → ((restore_values (new_area checked) (v ∷ vs)).added ≡ (undefined_key, true) ∷ [])
      × (length (restore_values (new_area checked) (v ∷ vs)).lines ≡ suc (length vs))
      × ((restore_values (new_area checked) (v ∷ vs)).selected_count ≡ 1)
unfolding restore_values add_each add_selected_item JsMap.set
restore_values_undefined checked v vs =
    let (added, lines) =
      add_each_undefined (add_selected_item (new_area checked) undefined_key false) vs refl in
    (added, lines ∙ omega arith, ap length added)
