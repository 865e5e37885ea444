-- ===== src/Browser/Selection/Shown.antt =====
-- What the banner and the borders show of the selection in file-manager-page.js.
use streaming_service.Base.JsMap
use streaming_service.Base.{
  All, Bool, Bool-cases, List, [], arith, false, if_either, inl, inr, is_empty, length, refl,
  some_of, sym, true, ◌∙◌, ◌∷◌, ◌≡◌,
}
use streaming_service.Base.JsMap.{JsMap}
use streaming_service.Base.Text.{Text, codes, decimal}
use streaming_service.Browser.Selection.{
  Cached, Rect, add_selected_file, border_none, border_stored, cancel_moving, cancel_selection,
  drag_file, drag_frame, is_intersecting, remove_selected_file, same_bool, toggle_selected_file,
}
use streaming_service.Browser.Selection.Borders.{
  IsNodeOf, IsNodeOf-border, IsNodeOf-stored, OwnedBy, borders_delete_at, borders_held,
  borders_none, borders_set, cleared_borders, owned_delete_at, owned_none, owned_set, points,
}
use streaming_service.Browser.State.{Node, SelectedFile, State}

-- The count is the number of the selected files, the banner is hidden exactly if there is none,
-- exactly the selected files have a node stored, and exactly the stored nodes have a border.
pub record IsShown (s : State) : Type 0 where
  pub counted : s.count_text ≡ decimal (length s.selected)
  pub banner : s.banner_hidden ≡ is_empty s.selected
  pub stored : (k : Text) → JsMap.has s.file_nodes k ≡ JsMap.has s.selected k
  pub borders : All (λ (n : Node). n.bordered ≡ points s.file_nodes n) s.view
  pub owned : All (OwnedBy s.file_nodes) s.view

set_not_empty :
    (m : JsMap SelectedFile) (k : Text) (f : SelectedFile) → is_empty (JsMap.set m k f) ≡ false
unfolding JsMap.set
set_not_empty [] k f = refl
set_not_empty ((j, g) ∷ m) k f = ground arith

is_empty-has : (m : JsMap SelectedFile) (k : Text) → JsMap.has m k ≡ true → is_empty m ≡ false
unfolding JsMap.get
is_empty-has [] k h = absurd (cc)
is_empty-has (x ∷ m) k h = refl

stored_set :
    (s : State) (k j : Text) (f : SelectedFile)
    → JsMap.has s.file_nodes j ≡ JsMap.has s.selected j
    → JsMap.has (JsMap.set s.file_nodes k f.node) j ≡ JsMap.has (JsMap.set s.selected k f) j
stored_set s k j f h =
    ground (arith, JsMap.get-set s.file_nodes k f.node j, JsMap.get-set s.selected k f j)

stored_delete :
    (s : State) (k j : Text)
    → JsMap.has s.file_nodes j ≡ JsMap.has s.selected j
    → JsMap.has (JsMap.delete s.file_nodes k) j ≡ JsMap.has (JsMap.delete s.selected k) j
stored_delete s k j h =
    ground (arith, JsMap.get-delete s.file_nodes k j, JsMap.get-delete s.selected k j)

pub add_selected_file-IsShown :
    (s : State) (k : Text) (f : SelectedFile)
    → IsNodeOf s.view k f
    → IsShown s
    → IsShown (add_selected_file s k f).0
unfolding add_selected_file
add_selected_file-IsShown s k f o v = elim (Bool-cases (JsMap.has s.selected k)) [
  | inl there ↦ rw there v
  | inr fresh ↦ rw fresh (record {
    counted = refl;
    banner = sym (set_not_empty s.selected k f);
    stored = λ j. stored_set s k j f (v.stored j);
    borders = borders_set s.file_nodes k f s.view (v.stored k ∙ fresh) o v.borders;
    owned = owned_set s.file_nodes k f s.view o v.owned;
  })
]

pub remove_selected_file-IsShown :
    (s : State) (k : Text) → IsShown s → IsShown (remove_selected_file s k).0
unfolding remove_selected_file border_stored
remove_selected_file-IsShown s k v = elim (Bool-cases (JsMap.has s.selected k)) [
  | inl there ↦
      let (h, here) = some_of (JsMap.get s.file_nodes k) (v.stored k ∙ there) in
      rw (there, here, border_stored)
        (record {
          counted = refl;
          banner = ground (arith, v.banner, is_empty-has s.selected k there);
          stored = λ j. stored_delete s k j (v.stored j);
          borders = borders_delete_at s.file_nodes k h s.view here v.owned v.borders;
          owned = owned_delete_at s.file_nodes k h s.view v.owned;
        })
  | inr absent ↦ rw absent v
]

cancelled_IsShown :
    (s t : State)
    → IsShown s
    → t.selected ≡ []
    → t.file_nodes ≡ []
    → t.count_text ≡ codes "0"
    → t.banner_hidden ≡ true
    → t.view ≡ border_none (JsMap.values s.file_nodes) s.view
    → IsShown t
unfolding JsMap.get decimal
cancelled_IsShown s t v none_selected none_stored zero_shown hid seen =
    let off =
      borders_none (JsMap.values s.file_nodes) s.view
        (borders_held s.file_nodes s.view v.borders) in
    let ns = border_none (JsMap.values s.file_nodes) s.view in
    record {
      counted = rw (none_selected, zero_shown) refl;
      banner = rw (none_selected, hid) refl;
      stored = λ k. rw (none_selected, none_stored) refl;
      borders = rw (none_stored, seen) (cleared_borders ns off);
      owned = rw (none_stored, seen) (owned_none ns);
    }

pub cancel_selection-IsShown : (s : State) → IsShown s → IsShown (cancel_selection s)
unfolding cancel_selection cancel_moving
cancel_selection-IsShown s v = elim (Bool-cases s.moving) [
  | inl m ↦ rw m (cancelled_IsShown s _ v refl refl refl refl refl)
  | inr m ↦ rw m (cancelled_IsShown s _ v refl refl refl refl refl)
]

IsNodeOf-removed :
    (s : State) (j k : Text) (f : SelectedFile)
    → IsNodeOf s.view k f
    → IsNodeOf (remove_selected_file s j).0.view k f
unfolding remove_selected_file
IsNodeOf-removed s j k f o = elim (Bool-cases (JsMap.has s.selected j)) [
  | inl there ↦ rw there (IsNodeOf-stored s.view (JsMap.get s.file_nodes j) false k f o)
  | inr absent ↦ rw absent o
]

IsNodeOf-toggled :
    (s : State) (j k : Text) (g f : SelectedFile)
    → IsNodeOf s.view k f
    → IsNodeOf (toggle_selected_file s j g).view k f
unfolding toggle_selected_file add_selected_file
IsNodeOf-toggled s j k g f o =
    let t = (remove_selected_file s j).0 in
    let o' = IsNodeOf-removed s j k f o in
    if_either (λ (u : State). IsNodeOf u.view k f) (remove_selected_file s j).1 t
      (add_selected_file t j g).0 o'
      (if_either (λ (u : State × Bool). IsNodeOf u.0.view k f) (JsMap.has t.selected j) _ _ o'
        (IsNodeOf-border t.view g.node true k f o'))

pub toggle_selected_file-IsShown :
    (s : State) (k : Text) (f : SelectedFile)
    → IsNodeOf s.view k f
    → IsShown s
    → IsShown (toggle_selected_file s k f)
unfolding toggle_selected_file
toggle_selected_file-IsShown s k f o v =
    let t = (remove_selected_file s k).0 in
    let v' = remove_selected_file-IsShown s k v in
    if_either IsShown (remove_selected_file s k).1 t (add_selected_file t k f).0 v'
      (add_selected_file-IsShown t k f (IsNodeOf-removed s k k f o) v')

-- The nodes of a drag are nodes of their files, if they are still in the view.
abbrev pub AreNodes : List Node → List Cached → Type 0
AreNodes ns cs = All (λ (c : Cached). IsNodeOf ns c.id c.file) cs

drag_file-IsShown :
    (s : State) (c : Cached) (box : Rect)
    → IsNodeOf s.view c.id c.file
    → IsShown s
    → IsShown (drag_file s c box).0
unfolding drag_file
drag_file-IsShown s c box o v =
    if_either (λ (r : State × Cached). IsShown r.0)
      (same_bool (is_intersecting c.rect box) c.is_selected) _ _ v
      (toggle_selected_file-IsShown s c.id c.file o v)

AreNodes-drag_file :
    (s : State) (c : Cached) (box : Rect) (cs : List Cached)
    → AreNodes s.view cs
    → AreNodes (drag_file s c box).0.view cs
unfolding drag_file
AreNodes-drag_file s c box [] a = tt
AreNodes-drag_file s c box (d ∷ cs) a = (
  if_either (λ (r : State × Cached). IsNodeOf r.0.view d.id d.file)
      (same_bool (is_intersecting c.rect box) c.is_selected) _ _ a.0
      (IsNodeOf-toggled s c.id d.id c.file d.file a.0),
  AreNodes-drag_file s c box cs a.1,
)

pub drag_frame-IsShown :
    (s : State) (cs : List Cached) (box : Rect)
    → AreNodes s.view cs
    → IsShown s
    → IsShown (drag_frame s cs box).0
unfolding drag_frame
drag_frame-IsShown s [] box a v = v
drag_frame-IsShown s (c ∷ cs) box a v =
    drag_frame-IsShown (drag_file s c box).0 cs box (AreNodes-drag_file s c box cs a.1)
      (drag_file-IsShown s c box a.0 v)

-- Every change of the selection keeps what is shown of it right, if the nodes that it is given are
-- nodes of their files, or are in the view no longer: the count is the number of the selected
-- files, the banner is hidden exactly if there is none, a node is stored for exactly the selected
-- files, and exactly the stored nodes have a border.
pub selection-IsShown :
    (s : State) (k : Text) (f : SelectedFile) (cs : List Cached) (box : Rect)
    → IsNodeOf s.view k f
    → AreNodes s.view cs
    → IsShown s
    → IsShown (add_selected_file s k f).0
      × IsShown (remove_selected_file s k).0
      × IsShown (toggle_selected_file s k f)
      × IsShown (cancel_selection s)
      × IsShown (drag_frame s cs box).0
selection-IsShown s k f cs box o a v = (
  add_selected_file-IsShown s k f o v,
  remove_selected_file-IsShown s k v,
  toggle_selected_file-IsShown s k f o v,
  cancel_selection-IsShown s v,
  drag_frame-IsShown s cs box a v,
)
