-- ===== src/NameEditor.antt =====
-- The editing of the names of a media item, of its characters, universes, authors and tags, in
-- frontend/src/main/resources/static/js/upload/modify-media-metadata.js.
pub mod Listed
pub mod Mixed
pub mod Played
use streaming_service.Base.JsMap
use streaming_service.Base.{
  Bool, List, Option, [], false, if◌then◌else◌, is_empty, leb, none, some, suc, true, zero, ℕ, ◌&&◌,
  ◌++◌, ◌+◌, ◌-◌, ◌||◌, ◌∷◌,
}
use streaming_service.Base.JsMap.{JsMap}
use streaming_service.Base.Text.{Text}

-- The maps `current`, `adding` and `removing` of a kind of names: the name by its id.
pub record Edits : Type 0 where
  pub current : JsMap Text
  pub adding : JsMap Text
  pub removing : JsMap Text

abbrev pub no_edits : Edits
no_edits = record { current = []; adding = []; removing = [] }

-- `toUpperCase` of ASCII letters.
abbrev pub to_upper_case : Text → Text
to_upper_case [] = []
to_upper_case (c ∷ s) = (if leb 97 c && leb c 122 then c - 32 else c) ∷ to_upper_case s

-- The body of a save.
pub record SaveBody : Type 0 where
  pub kind : Text
  pub adding : JsMap Text
  pub removing : JsMap Text

-- `currentNameEntity`, `allNameEntityMap`, the nodes of the three areas with the id and the name that
-- their handlers have, what is hidden, the alerts, and the bodies that were sent.
pub record Editor : Type 0 where
  pub kind : Text
  pub all : JsMap Edits
  pub current_nodes : List (Text × Text)
  pub adding_nodes : List (Text × Text)
  pub removing_nodes : List (Text × Text)
  pub removing_hidden : Bool
  pub hidden : Bool
  pub alerts : ℕ
  pub sent : List SaveBody

abbrev pub or_no_edits : Option Edits → Edits
or_no_edits none = no_edits
or_no_edits (some x) = x

-- `currentNameEntityEditMap`
abbrev pub edits_of : Editor → Edits
edits_of e = or_no_edits (JsMap.get e.all e.kind)

unfoldable pub with_edits : Editor → Edits → Editor
with_edits e x = record e { all = JsMap.set e.all e.kind x }

unfoldable pub remove_at {ℓ} : {A : Type ℓ} → ℕ → List A → List A
remove_at i [] = []
remove_at zero (x ∷ xs) = xs
remove_at (suc i) (x ∷ xs) = x ∷ remove_at i xs

-- `addToCurrent`
unfoldable pub add_to_current : Editor → Text → Text → Editor
unfolding with_edits
add_to_current e id name =
    let x = edits_of e in
    record (with_edits e (record x { current = JsMap.set x.current id name })) {
      current_nodes = e.current_nodes ++ (id, name) ∷ [];
    }

-- `addToAdding`
unfoldable pub add_to_adding : Editor → Text → Text → Editor
unfolding with_edits
add_to_adding e id name =
    let x = edits_of e in
    record (with_edits e (record x { adding = JsMap.set x.adding id name })) {
      adding_nodes = e.adding_nodes ++ (id, name) ∷ [];
    }

-- `addToRemoving`
unfoldable pub add_to_removing : Editor → Text → Text → Editor
unfolding with_edits
add_to_removing e id name =
    let x = edits_of e in
    record (with_edits e (record x { removing = JsMap.set x.removing id name })) {
      removing_nodes = e.removing_nodes ++ (id, name) ∷ [];
      removing_hidden = false;
    }

-- A click on a node of the current names, at a place.
unfoldable pub click_current : Editor → ℕ → Option (Text × Text) → Editor
unfolding with_edits add_to_removing remove_at
click_current e i none = e
click_current e i (some (id, name)) =
    let x = edits_of e in
    add_to_removing
      (record (with_edits e (record x { current = JsMap.delete x.current id })) {
        current_nodes = remove_at i e.current_nodes;
      })
      id name

-- A click on a node of the names to add.
unfoldable pub click_adding : Editor → ℕ → Option (Text × Text) → Editor
unfolding with_edits remove_at
click_adding e i none = e
click_adding e i (some (id, name)) =
    let x = edits_of e in
    record (with_edits e (record x { adding = JsMap.delete x.adding id })) {
      adding_nodes = remove_at i e.adding_nodes;
    }

-- A click on a node of the names to remove.
unfoldable pub click_removing : Editor → ℕ → Option (Text × Text) → Editor
unfolding with_edits add_to_current remove_at
click_removing e i none = e
click_removing e i (some (id, name)) =
    let x = edits_of e in
    let left = JsMap.delete x.removing id in
    add_to_current
      (record (with_edits e (record x { removing = left })) {
        removing_nodes = remove_at i e.removing_nodes;
        removing_hidden = if is_empty left then true else e.removing_hidden;
      })
      id name

-- A click on a name that the search has found.
unfoldable pub click_searched : Editor → Text → Text → Editor
unfolding add_to_adding
click_searched e id name =
    let x = edits_of e in
    if JsMap.has x.adding id || JsMap.has x.current id then e else add_to_adding e id name

-- `setNameEntityEditMap`
unfoldable pub set_name_entity : Editor → Text → Editor
unfolding with_edits
set_name_entity e kind =
    let e' = record e { kind = kind } in if JsMap.has e.all kind then e' else with_edits e' no_edits

-- The names of the server, put under their ids.
unfoldable pub set_each : JsMap Text → List (Text × Text) → JsMap Text
set_each m [] = m
set_each m ((id, name) ∷ names) = set_each (JsMap.set m id name) names

-- The areas drawn from the maps. `addToCurrent` and the others set each entry to what it is.
unfoldable pub draw_current : Editor → Editor
draw_current e = record e { current_nodes = (edits_of e).current }

unfoldable pub draw_others : Editor → Editor
draw_others e =
    let x = edits_of e in
    record e {
      adding_nodes = x.adding;
      removing_nodes = x.removing;
      removing_hidden = is_empty x.removing;
      hidden = false;
    }

-- `fetchNameEntityInfoAndAddToCurrent`, by the maps of the kind; no names are a refused request.
unfoldable pub fetch_for : Editor → Edits → Option (List (Text × Text)) → Editor
unfolding with_edits set_each draw_current
fetch_for e x answer =
    if is_empty x.current && is_empty x.removing
    then elim answer as (λ _. Editor) [
      | none ↦ record e { alerts = e.alerts + 1 }
      | some names ↦ draw_current (with_edits e (record x { current = set_each x.current names }))
    ]
    else draw_current e

unfoldable pub fetch_names : Editor → Option (List (Text × Text)) → Editor
unfolding fetch_for
fetch_names e answer = fetch_for e (edits_of e) answer

-- `startEdit`
unfoldable pub start_edit : Editor → Text → Option (List (Text × Text)) → Editor
unfolding set_name_entity fetch_names draw_others
start_edit e kind answer = draw_others (fetch_names (set_name_entity e kind) answer)

-- A click on the button that saves, with the names that the server answers; none are a refused
-- request.
unfoldable pub save_edit : Editor → Option (List (Text × Text)) → Editor
unfolding with_edits set_each
save_edit e answer =
    let x = edits_of e in
    if is_empty x.removing && is_empty x.adding
    then record e { alerts = e.alerts + 1 }
    else let body : SaveBody = record {
      kind = to_upper_case e.kind;
      adding = x.adding;
      removing = x.removing;
    } in
      let e' = record e { sent = e.sent ++ body ∷ [] } in
      elim answer as (λ _. Editor) [
        | none ↦ record e' { alerts = e.alerts + 1 }
        | some names ↦ record (with_edits e' (record no_edits { current = set_each [] names })) {
          hidden = true;
        }
      ]
