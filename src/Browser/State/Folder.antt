-- ===== src/Browser/State/Folder.antt =====
-- What `displayFileItem` of file-manager-page.js shows for a new folder and when it redraws one.
use streaming_service.Base.JsMap
use streaming_service.Base.{
  All, Bool, Bool-cases, List, Option, Option-cases, [], ap, append-nil, append_assoc, arith, false,
  inl, inr, is_some, map, none, refl, some, sym, true, ◌++◌, ◌∙◌, ◌∷◌, ◌≡◌, ◌⊎◌,
}
use streaming_service.Base.JsMap.{JsMap}
use streaming_service.Base.Text.{Text, text_eq, text_eq_iff}
use streaming_service.Browser.State.{
  End, End-cases, Given, State, Which, aborted, cleared, close_display, completed,
  display_file_item, end_of_list, given_ids, given_items, main_items, manager, no_ids, render_all,
  render_file_item, rendered,
}
use streaming_service.Browser.State.Display.{
  IsDrawable, add_all, item_ids, node_ids, not_drawable, render_all-AllDrawn, somes,
}
use streaming_service.FileManager.{
  FileItem, FileManager, add_item, contains, loop_all, loop_given, remove_all,
}
use streaming_service.FileManager.Invariant.{IsValid, NoDup, add_item-IsValid}

ids-add_all : (m : FileManager) (fs : List FileItem) → (add_all m fs).ids ≡ m.ids ++ item_ids fs
unfolding add_all add_item
ids-add_all m [] = sym (append-nil m.ids)
ids-add_all m (f ∷ fs) =
    ids-add_all (add_item m f) fs ∙ append_assoc m.ids (f.id ∷ []) (item_ids fs)

somes-map : (fs : List FileItem) → somes (map some fs) ≡ fs
somes-map [] = refl
somes-map (f ∷ fs) = ap (f ∷◌) (somes-map fs)

still_fresh :
    (m : FileManager) (f : FileItem) (gs : List FileItem)
    → All (λ g. JsMap.has m.items g.id ≡ false) gs
    → contains (item_ids gs) f.id ≡ false
    → All (λ g. JsMap.has (add_item m f).items g.id ≡ false) gs
unfolding add_item
still_fresh m f [] h n = tt
still_fresh m f (g ∷ gs) h n = (
  ground
      (arith, h.0, JsMap.get-set m.items f.id f g.id, text_eq_iff f.id g.id, text_eq_iff g.id f.id),
  still_fresh m f gs h.1 (ground arith),
)

-- Items with distinct ids that are new to a manager.
add_all-IsValid :
    (m : FileManager) (fs : List FileItem)
    → IsValid m
    → NoDup (item_ids fs)
    → All (λ f. JsMap.has m.items f.id ≡ false) fs
    → IsValid (add_all m fs)
unfolding add_all
add_all-IsValid m [] v d fresh = v
add_all-IsValid m (f ∷ fs) v d fresh =
    add_all-IsValid (add_item m f) fs (add_item-IsValid m f v fresh.0) d.1
      (still_fresh m f fs fresh.1 d.0)

ids-remove_all : (m : FileManager) (ks : List Text) → (remove_all m).ids ++ ks ≡ ks
unfolding remove_all
ids-remove_all m ks = refl

remove_all-IsValid : (m : FileManager) → IsValid (remove_all m)
unfolding remove_all JsMap.get
remove_all-IsValid m = record { listed = λ k. refl; distinct = tt; keyed = λ k f h. cc }

every_new_item :
    (m : FileManager) (fs : List FileItem)
    → All (λ f. JsMap.has (remove_all m).items f.id ≡ false) fs
unfolding JsMap.get remove_all
every_new_item m [] = tt
every_new_item m (f ∷ fs) = (refl, every_new_item m fs)

-- The end of a display only writes the text at the end of the list.
record Closed (m r : State × End) : Type 0 where
  ends : r.1 ≡ m.1
  seen : r.0.view ≡ m.0.view
  kept : r.0.main ≡ m.0.main

close_display-Closed : (m : State × End) (w : Which) (g : Given) → Closed m (close_display m w g)
unfolding close_display end_of_list
close_display-Closed (s, aborted) w g = record { ends = refl; seen = refl; kept = refl }
close_display-Closed (s, completed) w g = elim (Bool-cases (is_some (manager s w).page)) [
  | inl more ↦ rw more (record { ends = refl; seen = refl; kept = refl })
  | inr last ↦ rw last (record { ends = refl; seen = refl; kept = refl })
]

-- A new folder whose items can be drawn and have distinct ids is shown in full: the view and the list
-- of the manager have the ids of the items in the order of the server, and the manager is valid.
pub display_folder :
    (s : State) (fs : List FileItem)
    → All IsDrawable (map some fs)
    → NoDup (item_ids fs)
    → let (t, e) = display_file_item s (given_items fs) main_items true true true in
      (e ≡ completed)
      × (node_ids t.view ≡ item_ids fs)
      × (t.main.ids ≡ item_ids fs)
      × IsValid t.main
unfolding display_file_item cleared rendered
display_folder s fs drawable distinct =
    let s' = cleared s main_items true true in
    let r = render_all s' main_items true (map some fs) in
    let drawn = render_all-AllDrawn s' true (map some fs) drawable in
    let shut = close_display-Closed r main_items (given_items fs) in
    let same : r.0.main ≡ add_all (remove_all s.main) fs =
      drawn.kept ∙ ap (add_all (remove_all s.main)) (somes-map fs) in
    let main = shut.kept ∙ same in
    (
      shut.ends ∙ drawn.ends,
      ap node_ids shut.seen ∙ (drawn.seen ∙ ap item_ids (somes-map fs)),
      ap (λ m. m.ids) main
          ∙ (ids-add_all (remove_all s.main) fs ∙ ids-remove_all s.main (item_ids fs)),
      rw main (
          add_all-IsValid (remove_all s.main) fs (remove_all-IsValid s.main) distinct
            (every_new_item s.main fs)),
    )

-- The ids of the items that a list of ids leads to.
loop_given_ids :
    (m : FileManager) (ks : List Text)
    → IsValid m
    → All IsDrawable (loop_given m ks)
    → item_ids (somes (loop_given m ks)) ≡ ks
unfolding loop_given
loop_given_ids m [] v d = refl
loop_given_ids m (k ∷ ks) v d =
    let rest = loop_given_ids m ks v d.1 in
    elim (Option-cases (JsMap.get m.items k)) [
      | inl gone ↦ absurd (not_drawable (rw gone at d.0))
      | inr (f, e) ↦ rw e (rw (v.keyed k f e, rest) refl)
    ]

-- Redrawing a valid manager whose items can be drawn shows the items in the order of its list, and
-- leaves it as it is.
pub redraw :
    (s : State)
    → IsValid s.main
    → All IsDrawable (loop_all s.main)
    → let (t, e) = display_file_item s (given_ids []) main_items true false false in
      (e ≡ completed) × (node_ids t.view ≡ s.main.ids) × (t.main ≡ s.main)
unfolding display_file_item cleared rendered loop_all
redraw s v drawable =
    let s' = cleared s main_items true false in
    let r = render_all s' main_items false (loop_given s.main s.main.ids) in
    let drawn = render_all-AllDrawn s' false (loop_given s.main s.main.ids) drawable in
    let shut = close_display-Closed r main_items (given_ids []) in
    (
      shut.ends ∙ drawn.ends,
      ap node_ids shut.seen ∙ (drawn.seen ∙ loop_given_ids s.main s.main.ids v drawable),
      shut.kept ∙ drawn.kept,
    )

render_none :
    (s : State) (w : Which) (push : Bool) (o : Option FileItem)
    → o ≡ none
    → (render_file_item s w push o).1 ≡ aborted
unfolding render_file_item
render_none s w push none h = refl
render_none s w push (some f) h = absurd (cc)

here_or_later :
    (m : FileManager) (j k : Text) (ks : List Text)
    → contains (j ∷ ks) k ≡ true
    → JsMap.get m.items k ≡ none
    → (JsMap.get m.items j ≡ none) ⊎ (contains ks k ≡ true)
here_or_later m j k ks h gone = elim (Bool-cases (text_eq j k)) [
  | inl e ↦ inl (rw ((text_eq_iff j k).0 e) gone)
  | inr e ↦ inr (ground arith)
]

render_all_missing :
    (s : State) (w : Which) (push : Bool) (m : FileManager) (ks : List Text) (k : Text)
    → contains ks k ≡ true
    → JsMap.get m.items k ≡ none
    → (render_all s w push (loop_given m ks)).1 ≡ aborted
unfolding render_all loop_given
render_all_missing s w push m [] k h gone = absurd (ground arith)
render_all_missing s w push m (j ∷ ks) k h gone =
    let r = render_file_item s w push (JsMap.get m.items j) in
    elim (End-cases r.1) [
      | inl ok ↦ elim (here_or_later m j k ks h gone) [
        | inl here ↦ absurd (clash r.1 (render_none s w push (JsMap.get m.items j) here) ok)
        | inr later ↦ rw (ok, render_all) (render_all_missing r.0 w push m ks k later gone)
      ]
      | inr bad ↦ rw (bad, render_all) refl
    ]
  where
    clash : (e : End) → e ≡ aborted → e ≡ completed → ⊥
    clash e a b = cc

-- If the list has an id that the map lacks, redrawing throws.
pub redraw_dangling :
    (s : State) (k : Text)
    → contains s.main.ids k ≡ true
    → JsMap.has s.main.items k ≡ false
    → (display_file_item s (given_ids []) main_items true false false).1 ≡ aborted
unfolding display_file_item cleared rendered loop_all
redraw_dangling s k h gone =
    let s' = cleared s main_items true false in
    let r = render_all s' main_items false (loop_given s.main s.main.ids) in
    (close_display-Closed r main_items (given_ids [])).ends
    ∙ render_all_missing s' main_items false s.main s.main.ids k h
        (ground (arith, Option-cases (JsMap.get s.main.items k)))

-- Showing some items of a valid manager.
pub redraw_given :
    (s : State) (k : Text) (ks : List Text)
    → IsValid s.main
    → All IsDrawable (loop_given s.main (k ∷ ks))
    → let (t, e) = display_file_item s (given_ids (k ∷ ks)) main_items true false false in
      (e ≡ completed) × (node_ids t.view ≡ k ∷ ks) × (t.main ≡ s.main)
unfolding display_file_item cleared rendered
redraw_given s k ks v drawable =
    let s' = cleared s main_items true false in
    let r = render_all s' main_items false (loop_given s.main (k ∷ ks)) in
    let drawn = render_all-AllDrawn s' false (loop_given s.main (k ∷ ks)) drawable in
    let shut = close_display-Closed r main_items (given_ids (k ∷ ks)) in
    (
      shut.ends ∙ drawn.ends,
      ap node_ids shut.seen ∙ (drawn.seen ∙ loop_given_ids s.main (k ∷ ks) v drawable),
      shut.kept ∙ drawn.kept,
    )

-- Showing nothing.
pub redraw_none :
    (s : State)
    → let (t, e) = display_file_item s no_ids main_items true false false in
      (e ≡ completed) × (node_ids t.view ≡ []) × (t.main ≡ s.main)
unfolding display_file_item cleared rendered render_all
redraw_none s =
    let shut =
      close_display-Closed (cleared s main_items true false, completed) main_items no_ids in
    (shut.ends, ap node_ids shut.seen, shut.kept)
