-- ===== src/NameEditor/Mixed.antt =====
-- Where the editor of names mixes things up.
use mathlib.Core.Path.{subst}
use streaming_service.Base.JsMap
use streaming_service.Base.{
  Bool-cases, [], ap, false, get_elem?, if◌then◌else◌, inl, inr, none, refl, some, sym, true, ℕ,
  ◌+◌, ◌||◌, ◌∙◌, ◌∷◌, ◌≡◌,
}
use streaming_service.Base.JsMap.{JsMap}
use streaming_service.Base.Text.{Text, text_eq_refl}
use streaming_service.NameEditor.{
  Editor, Edits, add_to_adding, click_current, click_searched, draw_others, edits_of, fetch_for,
  fetch_names, no_edits, set_name_entity, start_edit, with_edits,
}
use streaming_service.NameEditor.Listed.{edits-click_current, edits-with, has-set}

-- The editor behind a refused request for the names of a new kind.
abbrev refused : Editor → Text → Editor
refused e kind =
    let e' = with_edits (record e { kind = kind }) no_edits in
    draw_others (record e' { alerts = e'.alerts + 1 })

start_edit-none :
    (e : Editor) (kind : Text)
    → JsMap.has e.all kind ≡ false
    → start_edit e kind none ≡ refused e kind
unfolding start_edit set_name_entity fetch_names fetch_for
start_edit-none e kind fresh =
    let e' = with_edits (record e { kind = kind }) no_edits in
    ap (λ b. draw_others (fetch_names (if b then record e { kind = kind } else e') none)) fresh
    ∙ ap (λ x. draw_others (fetch_for e' x none)) (edits-with (record e { kind = kind }) no_edits)

-- An editor that shows the nodes of another one under a kind, the node at a place standing for a
-- name that a click on it puts among those to remove of that kind.
abbrev pub Mixes : Editor → Editor → Text → Text → Text → ℕ → Type 0
Mixes e e' kind id name i =
    (e'.current_nodes ≡ e.current_nodes)
    × (e'.kind ≡ kind)
    × ((edits_of (click_current e' i (get_elem? e'.current_nodes i))).removing ≡ (id, name) ∷ [])

refused-Mixes :
    (e : Editor) (kind id name : Text) (i : ℕ)
    → get_elem? e.current_nodes i ≡ some (id, name)
    → Mixes e (refused e kind) kind id name i
unfolding draw_others with_edits JsMap.set
refused-Mixes e kind id name i here = (
  refl,
  refl,
  ap (λ o. (edits_of (click_current (refused e kind) i o)).removing) here
      ∙ ap (λ (z : Edits). z.removing) (edits-click_current (refused e kind) i id name)
      ∙ ap (λ (z : Edits). JsMap.set z.removing id name)
          (edits-with (record e { kind = kind }) no_edits),
)

-- If the names of a kind that is opened for the first time are refused, the nodes of the kind that
-- was open stay, and a click on one of them puts its name among those to remove of the new kind.
pub start_edit-refused :
    (e : Editor) (kind id name : Text) (i : ℕ)
    → JsMap.has e.all kind ≡ false
    → get_elem? e.current_nodes i ≡ some (id, name)
    → Mixes e (start_edit e kind none) kind id name i
start_edit-refused e kind id name i fresh here =
    subst (λ e'. Mixes e e' kind id name i) (sym (start_edit-none e kind fresh))
      (refused-Mixes e kind id name i here)

-- An id that is to be added and to be removed.
abbrev pub IsBoth : Text → Editor → Type 0
IsBoth id e =
    (JsMap.has (edits_of e).adding id ≡ true) × (JsMap.has (edits_of e).removing id ≡ true)

-- A name that is to be removed and stands no longer among the current ones can be chosen again, and
-- is then to be added and to be removed.
pub click_searched-IsBoth :
    (e : Editor) (id name : Text)
    → JsMap.has (edits_of e).current id ≡ false
    → JsMap.has (edits_of e).removing id ≡ true
    → IsBoth id (click_searched e id name)
unfolding click_searched add_to_adding with_edits
click_searched-IsBoth e id name out going = elim (Bool-cases (JsMap.has (edits_of e).adding id)) [
  | inl there ↦
      let same : click_searched e id name ≡ e =
        ap (λ b. if b || JsMap.has (edits_of e).current id then e else add_to_adding e id name)
          there in
      subst (IsBoth id) (sym same) (there, going)
  | inr fresh ↦
      let x = edits_of e in
      let same : click_searched e id name ≡ add_to_adding e id name =
        ap (λ b. if b || JsMap.has x.current id then e else add_to_adding e id name) fresh
        ∙ ap (λ b. if b then e else add_to_adding e id name) out in
      let maps = edits-with e (record x { adding = JsMap.set x.adding id name }) in
      subst (IsBoth id) (sym same) (
        ap (λ (z : Edits). JsMap.has z.adding id) maps
            ∙ has-set x.adding id name id
            ∙ rw (text_eq_refl id) refl,
        ap (λ (z : Edits). JsMap.has z.removing id) maps ∙ going,
      )
]
