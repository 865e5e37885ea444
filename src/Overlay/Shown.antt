-- ===== src/Overlay/Shown.antt =====
-- Which media item the overlay of overlay.js shows.
use streaming_service.Base.JsMap
use streaming_service.Base.{
  Bool-cases, List, Option, [], ap, arith, false, inl, inr, is_some, none, not, refl, some, some_of,
  true, ◌&&◌, ◌++◌, ◌∙◌, ◌∷◌, ◌≡◌, ◌⊎◌,
}
use streaming_service.Base.JsMap.{JsMap}
use streaming_service.Base.Text.{Text, opt_eq, opt_eq_iff, text_eq_iff, text_eq_refl}
use streaming_service.Overlay.{
  LayoutAnswer, Overlay, Viewed, close_overlay, layout, layout_refused, new_overlay, press_escape,
  quick_view_content, show_layout, view_threw, viewed,
}

-- The id that the node in the overlay was initialised with.
abbrev pub shown_id : Overlay → Option Text
shown_id o = elim o.content [ none ↦ none | some t ↦ JsMap.get o.docs t ]

abbrev pub overlay_of : Viewed → Overlay
overlay_of (viewed o) = o
overlay_of (view_threw o) = o

-- The views and the ways to close the overlay.
pub data Action : Type 0 where
  quick_view : Text → LayoutAnswer → Action
  overlay_closed : Action
  escaped : Action

get-set_self : (m : JsMap Text) (k v : Text) → JsMap.get (JsMap.set m k v) k ≡ some v
get-set_self m k v = rw (JsMap.get-set m k v k, text_eq_refl k) refl

no_docs : (t : Text) → JsMap.get new_overlay.docs t ≡ none
unfolding JsMap.get
no_docs t = refl

module _ (type_of : Text → Text) where
  -- If the node for the type of the last view is kept, it was initialised with the id of that view;
  -- and there has been a view if a node is kept.
  pub record Tracked (docs : JsMap Text) (previous : Option Text) : Type 0 where
    pub last : (id x : Text) → previous ≡ some id → JsMap.get docs (type_of id) ≡ some x → x ≡ id
    pub started : (t x : Text) → JsMap.get docs t ≡ some x → is_some previous ≡ true

  abbrev pub IsTracked : Overlay → Type 0
  IsTracked o = Tracked o.docs o.previous

  -- The overlay behind an action.
  act : Overlay → Action → Overlay
  unfolding quick_view_content close_overlay press_escape
  act o (quick_view id answer) = overlay_of (quick_view_content o id (type_of id) answer)
  act o overlay_closed = close_overlay o
  act o escaped = press_escape o

  unfoldable pub play_actions : Overlay → List Action → Overlay
  unfolding act
  play_actions o [] = o
  play_actions o (a ∷ more) = play_actions (act o a) more

  Tracked-set : (docs : JsMap Text) (id : Text) → Tracked (JsMap.set docs (type_of id) id) (some id)
  Tracked-set docs id = record {
    last = λ j x prev there.
        let same : id ≡ j = cc in
        ground (
          arith,
          JsMap.get-set docs (type_of id) id (type_of j),
          text_eq_iff (type_of id) (type_of j),
          ap type_of same,
        );
    started = λ t x there. refl;
  }

  Tracked-fresh :
      (docs : JsMap Text) (id : Text) → JsMap.has docs (type_of id) ≡ false → Tracked docs (some id)
  Tracked-fresh docs id fresh = record {
    last = λ j x prev there. let same : id ≡ j = cc in ground (arith, ap type_of same);
    started = λ t x there. refl;
  }

  -- A type whose node is not kept: its layout is asked for.
  layout-Tracked :
      (o : Overlay) (id : Text) (answer : LayoutAnswer)
      → JsMap.has o.docs (type_of id) ≡ false
      → IsTracked
          (overlay_of (show_layout (record o { previous = some id }) (type_of id) id answer))
  unfolding show_layout
  layout-Tracked o id layout_refused fresh = Tracked-fresh o.docs id fresh
  layout-Tracked o id (layout l) fresh = elim (Bool-cases l.has_html) [
    | inr no_html ↦ rw no_html (Tracked-fresh o.docs id fresh)
    | inl html ↦ elim (Bool-cases l.has_module) [
      | inr no_module ↦ rw (html, no_module) (Tracked-fresh o.docs id fresh)
      | inl has_module ↦ rw (html, has_module) (Tracked-set o.docs id)
    ]
  ]

  quick_view-Tracked :
      (o : Overlay) (id : Text) (answer : LayoutAnswer)
      → IsTracked o
      → IsTracked (overlay_of (quick_view_content o id (type_of id) answer))
  unfolding quick_view_content
  quick_view-Tracked o id answer t = elim (Bool-cases (JsMap.has o.docs (type_of id))) [
    | inl kept ↦ elim (Bool-cases (is_some o.previous && not (opt_eq o.previous (some id)))) [
      | inl other ↦ rw (kept, other) (Tracked-set o.docs id)
      | inr same ↦ rw (kept, same) t
    ]
    | inr fresh ↦
        rw fresh (layout-Tracked (record o { history = o.history ++ id ∷ [] }) id answer fresh)
  ]

  press_escape-Tracked : (o : Overlay) → IsTracked o → IsTracked (press_escape o)
  unfolding press_escape
  press_escape-Tracked o t = elim (Bool-cases o.hidden) [
    | inl h ↦ rw (h, press_escape) t
    | inr h ↦ rw (h, press_escape) t
  ]

  play_actions-Tracked :
      (o : Overlay) (actions : List Action) → IsTracked o → IsTracked (play_actions o actions)
  unfolding play_actions
  play_actions-Tracked o [] t = t
  play_actions-Tracked o (quick_view id answer ∷ more) t =
      play_actions-Tracked (act o (quick_view id answer)) more (quick_view-Tracked o id answer t)
  play_actions-Tracked o (overlay_closed ∷ more) t = play_actions-Tracked (close_overlay o) more t
  play_actions-Tracked o (escaped ∷ more) t =
      play_actions-Tracked (press_escape o) more (press_escape-Tracked o t)

  -- The node of the item is kept, or its layout comes with a module.
  abbrev pub IsReady : Overlay → Text → LayoutAnswer → Type 0
  IsReady o id layout_refused = JsMap.has o.docs (type_of id) ≡ true
  IsReady o id (layout l) =
      (JsMap.has o.docs (type_of id) ≡ true) ⊎ ((l.has_html ≡ true) × (l.has_module ≡ true))

  -- A kept node of the type of an id that is not initialised again stands for that id.
  kept-shown :
      (o : Overlay) (id : Text)
      → IsTracked o
      → JsMap.has o.docs (type_of id) ≡ true
      → (is_some o.previous && not (opt_eq o.previous (some id))) ≡ false
      → JsMap.get o.docs (type_of id) ≡ some id
  kept-shown o id t kept same =
      let (x, there) = some_of (JsMap.get o.docs (type_of id)) kept in
      let (prev, last) = some_of o.previous (t.started (type_of id) x there) in
      let here : o.previous ≡ some id = ground (arith, opt_eq_iff o.previous (some id)) in
      there ∙ ap some (t.last id x here there)

  layout-shown :
      (o : Overlay) (id : Text) (answer : LayoutAnswer)
      → JsMap.has o.docs (type_of id) ≡ false
      → IsReady o id answer
      → let o' =
          overlay_of (show_layout (record o { previous = some id }) (type_of id) id answer) in
        (shown_id o' ≡ some id) × (o'.hidden ≡ false)
  unfolding show_layout
  layout-shown o id layout_refused fresh r = cc
  layout-shown o id (layout l) fresh (inl kept) = cc
  layout-shown o id (layout l) fresh (inr (html, has_module)) =
      rw (html, has_module) (get-set_self o.docs (type_of id) id, refl)

  quick_view-shown :
      (o : Overlay) (id : Text) (answer : LayoutAnswer)
      → IsTracked o
      → IsReady o id answer
      → let o' = overlay_of (quick_view_content o id (type_of id) answer) in
        (shown_id o' ≡ some id) × (o'.hidden ≡ false)
  unfolding quick_view_content
  quick_view-shown o id answer t r = elim (Bool-cases (JsMap.has o.docs (type_of id))) [
    | inl kept ↦ elim (Bool-cases (is_some o.previous && not (opt_eq o.previous (some id)))) [
      | inl other ↦ rw (kept, other) (get-set_self o.docs (type_of id) id, refl)
      | inr same ↦ rw (kept, same) (kept-shown o id t kept same, refl)
    ]
    | inr fresh ↦
        rw fresh (layout-shown (record o { history = o.history ++ id ∷ [] }) id answer fresh r)
  ]

  -- Whatever was viewed and closed before, with whatever answers for the layouts: a view of a media
  -- item whose node is kept, or whose layout comes with a module, shows that item, if an id is
  -- always viewed with the same type of media.
  pub play_actions-shown :
      (actions : List Action) (id : Text) (answer : LayoutAnswer)
      → IsReady (play_actions new_overlay actions) id answer
      → let o' =
          overlay_of
            (quick_view_content (play_actions new_overlay actions) id (type_of id) answer) in
        (shown_id o' ≡ some id) × (o'.hidden ≡ false)
  play_actions-shown actions id answer r =
      quick_view-shown (play_actions new_overlay actions) id answer
        (play_actions-Tracked new_overlay actions
          (record { last = λ j x prev there. cc; started = λ t x there. cc (no_docs t) }))
        r
