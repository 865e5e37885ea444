-- ===== src/Overlay.antt =====
-- The quick view of a media item over the page:
-- frontend/src/main/resources/static/js/overlay.js.
pub mod Shown
use streaming_service.Base.JsMap
use streaming_service.Base.{
  Bool, List, Option, [], false, if◌then◌else◌, is_some, none, not, some, true, ◌&&◌, ◌++◌, ◌∷◌,
}
use streaming_service.Base.JsMap.{JsMap}
use streaming_service.Base.Text.{Text, codes, opt_eq, text_eq}

-- A layout from the server: if it has a body, and if it has a script with an `initialize`.
pub record Layout : Type 0 where
  pub has_html : Bool
  pub has_module : Bool

-- The answer to the request for a layout. A refused one is undefined.
pub data LayoutAnswer : Type 0 where
  layout : Layout → LayoutAnswer
  layout_refused : LayoutAnswer

-- `mediaDocMap` by the type of the media, with the id that the kept node was last initialised with;
-- `previousQuickViewMediaId`; the type whose node stands in the overlay; if the overlay is hidden;
-- the alerts; and the ids in the history.
pub record Overlay : Type 0 where
  pub docs : JsMap Text
  pub previous : Option Text
  pub content : Option Text
  pub hidden : Bool
  pub at_top : Bool
  pub alerts : List Text
  pub history : List Text

pub data Viewed : Type 0 where
  viewed : Overlay → Viewed
  view_threw : Overlay → Viewed

open_overlay : Overlay → Bool → Overlay
open_overlay o scroll = record o { hidden = false; at_top = if scroll then true else o.at_top }

-- A type whose module is kept.
unfoldable pub show_kept : Overlay → Text → Text → Overlay
unfolding opt_eq open_overlay
show_kept o media_type id =
    let o' = record o { content = some media_type } in
    if is_some o.previous && not (opt_eq o.previous (some id))
    then open_overlay (record o' { docs = JsMap.set o.docs media_type id; previous = some id }) true
    else open_overlay o' false

-- The script has been loaded: its module is kept and initialised.
run_script : Overlay → Text → Text → Bool → Overlay
run_script o media_type id has_module =
    if has_module then record o { docs = JsMap.set o.docs media_type id } else o

alert_layout : Overlay → Text → Overlay
alert_layout o words = record o { alerts = o.alerts ++ words ∷ [] }

unfoldable pub show_layout : Overlay → Text → Text → LayoutAnswer → Viewed
unfolding alert_layout open_overlay run_script text_eq
show_layout o media_type id layout_refused = view_threw (
    alert_layout o (
      if text_eq media_type (codes "VIDEO")
      then codes "Failed to fetch video page layout"
      else codes "Failed to fetch album layout"))
show_layout o media_type id (layout l) =
    if l.has_html
    then viewed (
        run_script (open_overlay (record o { content = some media_type }) false) media_type id
          l.has_module)
    else viewed (alert_layout o (codes "Failed to fetch content " ++ media_type ++ codes " layout"))

-- `displayContentPageForOverlay`, with its script loaded at its end.
unfoldable pub display_content : Overlay → Text → Text → LayoutAnswer → Viewed
unfolding show_kept show_layout
display_content o media_type id answer =
    if JsMap.has o.docs media_type
    then viewed (show_kept o media_type id)
    else show_layout (record o { previous = some id }) media_type id answer

-- `quickViewContentInOverlay`
unfoldable pub quick_view_content : Overlay → Text → Text → LayoutAnswer → Viewed
unfolding display_content
quick_view_content o id media_type answer =
    display_content (record o { history = o.history ++ id ∷ [] }) media_type id answer

-- `closeOverlay`, also by a click beside the content.
unfoldable pub close_overlay : Overlay → Overlay
close_overlay o = record o { hidden = true; content = none }

-- The key `Escape` hides the overlay and leaves its content.
unfoldable pub press_escape : Overlay → Overlay
press_escape o = if o.hidden then o else record o { hidden = true }

abbrev pub new_overlay : Overlay
new_overlay = record {
  docs = [];
  previous = none;
  content = none;
  hidden = true;
  at_top = false;
  alerts = [];
  history = [];
}
