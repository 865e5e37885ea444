-- ===== src/Browser/State/Kept.antt =====
-- What `displayFileItem` of file-manager-page.js leaves alone.
use streaming_service.Base.{
  Bool, Bool-cases, List, Option, [], false, inl, inr, is_some, none, refl, some, true, ◌∙◌, ◌∷◌,
  ◌≡◌,
}
use streaming_service.Base.Text.{Text}
use streaming_service.Browser.State.{
  End, End-cases, Given, Node, State, Which, aborted, append_node, cleared, close_display,
  completed, display_file_item, end_of_list, found_items, main_items, manager, picture_of,
  push_item, render_all, render_file_item, rendered, with_manager,
}
use streaming_service.FileManager.{FileItem, FileManager, add_item, remove_all}

-- The manager that a call is not about.
abbrev pub other_manager : Which → State → FileManager
other_manager main_items s = s.found
other_manager found_items s = s.main

-- What showing files of one manager leaves alone.
pub record Kept (w : Which) (s t : State) : Type 0 where
  pub path : t.path ≡ s.path
  pub processing : t.processing ≡ s.processing
  pub moving : t.moving ≡ s.moving
  pub sent : t.sent ≡ s.sent
  pub selected : t.selected ≡ s.selected
  pub searching : t.searching ≡ s.searching
  pub other : other_manager w t ≡ other_manager w s

same_other :
    (w : Which) (s t : State)
    → t.main ≡ s.main
    → t.found ≡ s.found
    → other_manager w t ≡ other_manager w s
same_other main_items s t m f = f
same_other found_items s t m f = m

Kept-refl : (w : Which) (s : State) → Kept w s s
Kept-refl w s = record {
  path = refl;
  processing = refl;
  moving = refl;
  sent = refl;
  selected = refl;
  searching = refl;
  other = refl;
}

-- A change of the view and its end only.
abbrev with_view : State → List Node → Option Text → Bool → State
with_view s v e o = record s { view = v; end_text = e; observed = o }

with_view-Kept :
    (w : Which) (s : State) (v : List Node) (e : Option Text) (o : Bool)
    → Kept w s (with_view s v e o)
with_view-Kept w s v e o = record {
  path = refl;
  processing = refl;
  moving = refl;
  sent = refl;
  selected = refl;
  searching = refl;
  other = same_other w s (with_view s v e o) refl refl;
}

with_manager-Kept : (w : Which) (s : State) (m : FileManager) → Kept w s (with_manager s w m)
with_manager-Kept main_items s m = record {
  path = refl;
  processing = refl;
  moving = refl;
  sent = refl;
  selected = refl;
  searching = refl;
  other = refl;
}
with_manager-Kept found_items s m = record {
  path = refl;
  processing = refl;
  moving = refl;
  sent = refl;
  selected = refl;
  searching = refl;
  other = refl;
}

Kept-trans : (w : Which) (s t u : State) → Kept w s t → Kept w t u → Kept w s u
Kept-trans w s t u a b = record {
  path = b.path ∙ a.path;
  processing = b.processing ∙ a.processing;
  moving = b.moving ∙ a.moving;
  sent = b.sent ∙ a.sent;
  selected = b.selected ∙ a.selected;
  searching = b.searching ∙ a.searching;
  other = b.other ∙ a.other;
}

push_item-Kept :
    (s : State) (w : Which) (push : Bool) (f : FileItem) → Kept w s (push_item s w push f)
unfolding push_item
push_item-Kept s w true f = with_manager-Kept w s (add_item (manager s w) f)
push_item-Kept s w false f = Kept-refl w s

append_node-Kept :
    (w : Which) (s : State) (f : FileItem) (p : Option Text) → Kept w s (append_node s f p).0
unfolding append_node
append_node-Kept w s f none = Kept-refl w s
append_node-Kept w s f (some p) = record {
  path = refl;
  processing = refl;
  moving = refl;
  sent = refl;
  selected = refl;
  searching = refl;
  other = same_other w s (append_node s f (some p)).0 refl refl;
}

render_file_item-Kept :
    (s : State) (w : Which) (push : Bool) (f : Option FileItem)
    → Kept w s (render_file_item s w push f).0
unfolding render_file_item
render_file_item-Kept s w push none = Kept-refl w s
render_file_item-Kept s w push (some f) =
    let t = push_item s w push f in
    Kept-trans w s t _ (push_item-Kept s w push f) (append_node-Kept w t f (picture_of f))

render_all-Kept :
    (s : State) (w : Which) (push : Bool) (fs : List (Option FileItem))
    → Kept w s (render_all s w push fs).0
unfolding render_all
render_all-Kept s w push [] = Kept-refl w s
render_all-Kept s w push (f ∷ fs) =
    let t = (render_file_item s w push f).0 in
    let first = render_file_item-Kept s w push f in
    elim (End-cases (render_file_item s w push f).1) [
      | inl ok ↦ rw (ok, render_all) (Kept-trans w s t _ first (render_all-Kept t w push fs))
      | inr bad ↦ rw (bad, render_all) first
    ]

cleared-Kept : (s : State) (w : Which) (cn cl : Bool) → Kept w s (cleared s w cn cl)
unfolding cleared
cleared-Kept s w true true =
    let s₁ = record s { view = []; observed = true } in
    let s₂ = with_manager s₁ w (remove_all (manager s₁ w)) in
    Kept-trans w s s₁ _ (with_view-Kept w s [] s.end_text true) (
      Kept-trans w s₁ s₂ _ (with_manager-Kept w s₁ _)
        (with_view-Kept w s₂ s₂.view none s₂.observed))
cleared-Kept s w true false = with_view-Kept w s [] none true
cleared-Kept s w false true =
    let s₂ = with_manager s w (remove_all (manager s w)) in
    Kept-trans w s s₂ _ (with_manager-Kept w s _) (with_view-Kept w s₂ s₂.view none s₂.observed)
cleared-Kept s w false false = with_view-Kept w s s.view none s.observed

close_display-Kept : (m : State × End) (w : Which) (g : Given) → Kept w m.0 (close_display m w g).0
unfolding close_display end_of_list
close_display-Kept (s, aborted) w g = Kept-refl w s
close_display-Kept (s, completed) w g = elim (Bool-cases (is_some (manager s w).page)) [
  | inl more ↦ rw more (Kept-refl w s)
  | inr last ↦ rw last (with_view-Kept w s s.view _ s.observed)
]

-- Showing files changes neither the path, the selection and the other manager, nor if a fetch, a move
-- or a search is going on, and sends no request.
pub display_file_item-Kept :
    (s : State) (g : Given) (w : Which) (clear_node clear_list push : Bool)
    → Kept w s (display_file_item s g w clear_node clear_list push).0
unfolding display_file_item
display_file_item-Kept s g w clear_node clear_list push =
    let t = cleared s w clear_node clear_list in
    let r = render_all t w push (rendered (manager t w) g) in
    Kept-trans w s t _ (cleared-Kept s w clear_node clear_list) (
      Kept-trans w t r.0 _ (render_all-Kept t w push (rendered (manager t w) g))
        (close_display-Kept r w g))
