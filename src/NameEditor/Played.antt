-- ===== src/NameEditor/Played.antt =====
-- The editor of names under any clicks.
use mathlib.Core.Path.{subst}
use streaming_service.Base.JsMap
use streaming_service.Base.{
  List, [], ap, false, get_elem?, if◌then◌else◌, is_empty, refl, some, sym, ℕ, ◌∙◌, ◌∷◌, ◌≡◌,
}
use streaming_service.Base.JsMap.{JsMap}
use streaming_service.Base.Text.{Text}
use streaming_service.NameEditor.{
  Editor, Edits, click_adding, click_current, click_removing, click_searched, draw_current,
  draw_others, fetch_for, fetch_names, no_edits, set_each, set_name_entity, start_edit, with_edits,
}
use streaming_service.NameEditor.Listed.{
  AllOnce, AllOnce-set, IsListed, ListedAs, click_adding-IsListed, click_current-IsListed,
  click_removing-IsListed, click_searched-IsListed, edits-with,
}

-- A click on the node at a place of an area, or on a name that the search has found.
pub data NameClick : Type 0 where
  current_at : ℕ → NameClick
  adding_at : ℕ → NameClick
  removing_at : ℕ → NameClick
  searched : Text → Text → NameClick

name_click : Editor → NameClick → Editor
unfolding click_current click_adding click_removing click_searched
name_click e (current_at i) = click_current e i (get_elem? e.current_nodes i)
name_click e (adding_at i) = click_adding e i (get_elem? e.adding_nodes i)
name_click e (removing_at i) = click_removing e i (get_elem? e.removing_nodes i)
name_click e (searched id name) = click_searched e id name

unfoldable pub name_clicks : Editor → List NameClick → Editor
unfolding name_click
name_clicks e [] = e
name_clicks e (c ∷ cs) = name_clicks (name_click e c) cs

name_click-IsListed : (e : Editor) (c : NameClick) → IsListed e → IsListed (name_click e c)
unfolding name_click
name_click-IsListed e (current_at i) l =
    click_current-IsListed e i (get_elem? e.current_nodes i) refl l
name_click-IsListed e (adding_at i) l =
    click_adding-IsListed e i (get_elem? e.adding_nodes i) refl l
name_click-IsListed e (removing_at i) l =
    click_removing-IsListed e i (get_elem? e.removing_nodes i) refl l
name_click-IsListed e (searched id name) l = click_searched-IsListed e id name l

name_clicks-IsListed : (e : Editor) (cs : List NameClick) → IsListed e → IsListed (name_clicks e cs)
unfolding name_clicks
name_clicks-IsListed e [] l = l
name_clicks-IsListed e (c ∷ cs) l =
    name_clicks-IsListed (name_click e c) cs (name_click-IsListed e c l)

set_each-AllOnce :
    (m : JsMap Text) (names : List (Text × Text)) → AllOnce m → AllOnce (set_each m names)
unfolding set_each
set_each-AllOnce m [] once = once
set_each-AllOnce m ((id, name) ∷ names) once =
    set_each-AllOnce (JsMap.set m id name) names (AllOnce-set m id name once)

none_removed : (k : Text) → JsMap.has no_edits.removing k ≡ false
unfolding JsMap.get
none_removed k = refl

abbrev loaded : List (Text × Text) → Edits
loaded names = record no_edits { current = set_each [] names }

-- The editor behind the first answer for a kind.
pub start_edit-first :
    (e : Editor) (kind : Text) (names : List (Text × Text))
    → JsMap.has e.all kind ≡ false
    → start_edit e kind (some names)
      ≡ draw_others (
          draw_current (with_edits (with_edits (record e { kind = kind }) no_edits) (loaded names)))
unfolding start_edit set_name_entity fetch_names fetch_for
start_edit-first e kind names fresh =
    let e' = with_edits (record e { kind = kind }) no_edits in
    ap (λ b. draw_others (fetch_names (if b then record e { kind = kind } else e') (some names)))
      fresh
    ∙ ap (λ x. draw_others (fetch_for e' x (some names)))
        (edits-with (record e { kind = kind }) no_edits)

-- When the editor is opened for a kind of names for the first time and the names come, then,
-- whatever nodes of its areas and found names are clicked, with no save and no other kind between:
-- the areas have one node for each entry of their maps, in order, each id once; no current name is
-- among those to remove; and the area of those is hidden exactly if there are none.
pub name_clicks-start_edit-IsListed :
    (e : Editor) (kind : Text) (names : List (Text × Text)) (cs : List NameClick)
    → JsMap.has e.all kind ≡ false
    → IsListed (name_clicks (start_edit e kind (some names)) cs)
unfolding draw_others draw_current
name_clicks-start_edit-IsListed e kind names cs fresh =
    let e' = with_edits (record e { kind = kind }) no_edits in
    let e'' = draw_others (draw_current (with_edits e' (loaded names))) in
    let maps = edits-with e' (loaded names) in
    name_clicks-IsListed _ cs (
      subst IsListed (sym (start_edit-first e kind names fresh)) (
        subst (ListedAs e'') (sym maps) (record {
          current = ap (λ (z : Edits). z.current) maps;
          adding = ap (λ (z : Edits). z.adding) maps;
          removing = ap (λ (z : Edits). z.removing) maps;
          current_once = set_each-AllOnce [] names tt;
          adding_once = tt;
          removing_once = tt;
          apart = λ k h. none_removed k;
          empty = ap (λ (z : Edits). is_empty z.removing) maps;
        })))
