-- ===== src/Browser/Selection.antt =====
-- The selected files of file-manager-page.js: adding, removing, the cancel buttons of the two
-- banners, and the box that the mouse draws.
pub mod Borders
pub mod Shown
pub mod Drag
use streaming_service.Base.JsMap
use streaming_service.Base.{
  Bool, List, Option, [], false, if◌then◌else◌, is_empty, length, ltb, max, min, none, not, some,
  true, ℕ, ◌+◌, ◌-◌, ◌==◌, ◌||◌, ◌∷◌,
}
use streaming_service.Base.JsMap.{JsMap}
use streaming_service.Base.Text.{Text, codes, decimal}
use streaming_service.Browser.State.{Node, SelectedFile, State}

-- `classList.add` or `classList.remove` of the border on one node; a node that is not in the view is
-- not seen.
unfoldable pub border : ℕ → Bool → List Node → List Node
border h b [] = []
border h b (n ∷ ns) = (if n.handle == h then record n { bordered = b } else n) ∷ border h b ns

unfoldable pub border_stored : Option ℕ → Bool → List Node → List Node
unfolding border
border_stored none b ns = ns
border_stored (some h) b ns = border h b ns

-- The nodes that `selectedFiles` has lose their border.
unfoldable pub border_none : List ℕ → List Node → List Node
unfolding border
border_none [] ns = ns
border_none (h ∷ hs) ns = border_none hs (border h false ns)

-- `addSelectedFile`, with the node that it gets: false if the file is selected already.
unfoldable pub add_selected_file : State → Text → SelectedFile → State × Bool
unfolding border
add_selected_file s k f = if JsMap.has s.selected k then (s, false) else (
  record s {
    selected = JsMap.set s.selected k f;
    file_nodes = JsMap.set s.file_nodes k f.node;
    view = border f.node true s.view;
    count_text = decimal (length (JsMap.set s.selected k f));
    banner_hidden = false;
  },
  true,
)

-- `removeSelectedFile`: false if the file is not selected.
unfoldable pub remove_selected_file : State → Text → State × Bool
unfolding border_stored
remove_selected_file s k =
    if JsMap.has s.selected k
    then (
      record s {
        selected = JsMap.delete s.selected k;
        file_nodes = JsMap.delete s.file_nodes k;
        view = border_stored (JsMap.get s.file_nodes k) false s.view;
        count_text = decimal (length (JsMap.delete s.selected k));
        banner_hidden = if is_empty (JsMap.delete s.selected k) then true else s.banner_hidden;
      },
      true,
    )
    else (s, false)

-- The cancel button of the banner of a move.
unfoldable pub cancel_moving : State → State
cancel_moving s = record s { moving = false }

-- The cancel button of the banner of the selection, which also cancels a move.
unfoldable pub cancel_selection : State → State
unfolding border_none cancel_moving
cancel_selection s =
    let s' = if s.moving then cancel_moving s else s in
    record s' {
      view = border_none (JsMap.values s.file_nodes) s.view;
      selected = [];
      file_nodes = [];
      count_text = codes "0";
      banner_hidden = true;
    }

-- `if (!removeSelectedFile(id)) addSelectedFile(id, …)`
unfoldable pub toggle_selected_file : State → Text → SelectedFile → State
toggle_selected_file s k f =
    let (s', removed) = remove_selected_file s k in
    if removed then s' else (add_selected_file s' k f).0

-- A position of the mouse, and a rectangle on the screen.
pub record Point : Type 0 where
  pub x : ℕ
  pub y : ℕ

pub record Rect : Type 0 where
  pub left : ℕ
  pub right : ℕ
  pub top : ℕ
  pub bottom : ℕ

-- A file node in `cachedFiles`: its rectangle when the drag began, and the flag of the last frame.
pub record Cached : Type 0 where
  pub id : Text
  pub file : SelectedFile
  pub rect : Rect
  pub is_selected : Bool

-- The box between where the drag began and where the mouse is: `left + |start - current|` is the
-- larger of the two.
unfoldable pub drag_box : Point → Point → Rect
drag_box a b = record {
  left = min a.x b.x;
  right = min a.x b.x + (max a.x b.x - min a.x b.x);
  top = min a.y b.y;
  bottom = min a.y b.y + (max a.y b.y - min a.y b.y);
}

unfoldable pub is_intersecting : Rect → Rect → Bool
is_intersecting f b =
    not (ltb b.right f.left || (ltb f.right b.left || (ltb b.bottom f.top || ltb f.bottom b.top)))

unfoldable pub same_bool : Bool → Bool → Bool
same_bool true b = b
same_bool false b = not b

-- One file of a frame: only a flag that flips changes the selection.
unfoldable pub drag_file : State → Cached → Rect → State × Cached
unfolding same_bool
drag_file s c box =
    let now = is_intersecting c.rect box in
    if same_bool now c.is_selected
    then (s, c)
    else (toggle_selected_file s c.id c.file, record c { is_selected = now })

-- A frame of the drag, for the mouse at a point: `requestAnimationFrame` of `mousemove`.
unfoldable pub drag_frame : State → List Cached → Rect → State × List Cached
unfolding drag_file
drag_frame s [] box = (s, [])
drag_frame s (c ∷ cs) box =
    let (s₁, c') = drag_file s c box in let (s₂, cs') = drag_frame s₁ cs box in (s₂, c' ∷ cs')

-- `mousedown` puts every node into `cachedFiles`, with its flag off.
unfoldable pub start_drag : List (Text × SelectedFile × Rect) → List Cached
start_drag [] = []
start_drag ((k, f, r) ∷ rest) =
    record { id = k; file = f; rect = r; is_selected = false } ∷ start_drag rest

-- The frames of a drag that began at a point, one for each place of the mouse.
unfoldable pub drag : State → List Cached → Point → List Point → State × List Cached
drag s cs a [] = (s, cs)
drag s cs a (p ∷ ps) = let (s', cs') = drag_frame s cs (drag_box a p) in drag s' cs' a ps
