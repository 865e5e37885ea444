-- ===== src/Browser/Selection/Drag.antt =====
-- What the box of the mouse selects in file-manager-page.js.
use streaming_service.Base.JsMap
use streaming_service.Base.{
  Bool, List, [], ap, arith, false, if◌then◌else◌, not, refl, true, ◌∷◌, ◌≡◌,
}
use streaming_service.Base.JsMap.{JsMap}
use streaming_service.Base.Text.{Text, text_eq, text_eq_iff}
use streaming_service.Browser.Selection.{
  Cached, Point, Rect, add_selected_file, drag, drag_box, drag_file, drag_frame, is_intersecting,
  remove_selected_file, same_bool, start_drag, toggle_selected_file,
}
use streaming_service.Browser.State.{SelectedFile, State}
use streaming_service.FileManager.{contains}
use streaming_service.FileManager.Invariant.{NoDup}

abbrev pub xor : Bool → Bool → Bool
xor true b = not b
xor false b = b

abbrev cached_ids : List Cached → List Text
cached_ids [] = []
cached_ids (c ∷ cs) = c.id ∷ cached_ids cs

-- The flag of a file, and if its rectangle meets the box; false for a file that is not cached.
lit : Text → List Cached → Bool
lit j [] = false
lit j (c ∷ cs) = if text_eq c.id j then c.is_selected else lit j cs

hit : Text → List Cached → Rect → Bool
hit j [] box = false
hit j (c ∷ cs) box = if text_eq c.id j then is_intersecting c.rect box else hit j cs box

-- A toggle flips the file's own membership in the selection.
pub toggle_selected_file-has :
    (s : State) (k : Text) (f : SelectedFile) (j : Text)
    → JsMap.has (toggle_selected_file s k f).selected j ≡ xor (text_eq k j) (JsMap.has s.selected j)
unfolding toggle_selected_file remove_selected_file add_selected_file
toggle_selected_file-has s k f j =
    ground (arith, JsMap.get-set s.selected k f j, JsMap.get-delete s.selected k j, text_eq_iff k j)

drag_file-has :
    (s : State) (c : Cached) (box : Rect) (j : Text)
    → JsMap.has (drag_file s c box).0.selected j
      ≡ xor
          (if text_eq c.id j then xor c.is_selected (is_intersecting c.rect box) else false)
          (JsMap.has s.selected j)
unfolding drag_file same_bool
drag_file-has s c box j = ground (arith, toggle_selected_file-has s c.id c.file j)

drag_frame_absent :
    (s : State) (cs : List Cached) (box : Rect) (j : Text)
    → contains (cached_ids cs) j ≡ false
    → JsMap.has (drag_frame s cs box).0.selected j ≡ JsMap.has s.selected j
unfolding drag_frame
drag_frame_absent s [] box j h = refl
drag_frame_absent s (c ∷ cs) box j h =
    ground (arith, drag_frame_absent (drag_file s c box).0 cs box j, drag_file-has s c box j)

-- A frame flips exactly the files whose flag it flips.
drag_frame-has :
    (s : State) (cs : List Cached) (box : Rect) (j : Text)
    → NoDup (cached_ids cs)
    → JsMap.has (drag_frame s cs box).0.selected j
      ≡ xor (xor (lit j cs) (hit j cs box)) (JsMap.has s.selected j)
unfolding drag_frame lit hit
drag_frame-has s [] box j d = refl
drag_frame-has s (c ∷ cs) box j d = ground (
  arith,
  drag_frame-has (drag_file s c box).0 cs box j d.1,
  drag_file-has s c box j,
  drag_frame_absent (drag_file s c box).0 cs box j,
  text_eq_iff c.id j,
)

drag_frame-lit :
    (s : State) (cs : List Cached) (box : Rect) (j : Text)
    → lit j (drag_frame s cs box).1 ≡ hit j cs box
unfolding drag_frame lit hit drag_file same_bool
drag_frame-lit s [] box j = refl
drag_frame-lit s (c ∷ cs) box j = ground (arith, drag_frame-lit (drag_file s c box).0 cs box j)

drag_frame-ids :
    (s : State) (cs : List Cached) (box : Rect) → cached_ids (drag_frame s cs box).1 ≡ cached_ids cs
unfolding drag_frame drag_file
drag_frame-ids s [] box = refl
drag_frame-ids s (c ∷ cs) box = ground (arith, drag_frame-ids (drag_file s c box).0 cs box)

drag_frame-hit :
    (s : State) (cs : List Cached) (box other : Rect) (j : Text)
    → hit j (drag_frame s cs box).1 other ≡ hit j cs other
unfolding drag_frame hit drag_file
drag_frame-hit s [] box other j = refl
drag_frame-hit s (c ∷ cs) box other j =
    ground (arith, drag_frame-hit (drag_file s c box).0 cs box other j)

abbrev last_point : Point → List Point → Point
last_point p [] = p
last_point p (q ∷ qs) = last_point q qs

drag-has :
    (s : State) (cs : List Cached) (a p : Point) (ps : List Point) (j : Text)
    → NoDup (cached_ids cs)
    → JsMap.has (drag s cs a (p ∷ ps)).0.selected j
      ≡ xor (xor (lit j cs) (hit j cs (drag_box a (last_point p ps)))) (JsMap.has s.selected j)
unfolding drag
drag-has s cs a p [] j d = drag_frame-has s cs (drag_box a p) j d
drag-has s cs a p (q ∷ ps) j d =
    let s' = (drag_frame s cs (drag_box a p)).0 in
    let cs' = (drag_frame s cs (drag_box a p)).1 in
    let d' : NoDup (cached_ids cs') = rw (drag_frame-ids s cs (drag_box a p)) d in
    ground (
      arith,
      drag-has s' cs' a q ps j d',
      drag_frame-has s cs (drag_box a p) j d,
      drag_frame-lit s cs (drag_box a p) j,
      drag_frame-hit s cs (drag_box a p) (drag_box a (last_point q ps)) j,
    )

-- The ids of the nodes, and if the node of an id meets a box.
abbrev node_ids : List (Text × SelectedFile × Rect) → List Text
node_ids [] = []
node_ids ((k, f, r) ∷ ns) = k ∷ node_ids ns

abbrev pub in_box : Text → List (Text × SelectedFile × Rect) → Rect → Bool
in_box j [] box = false
in_box j ((k, f, r) ∷ ns) box = if text_eq k j then is_intersecting r box else in_box j ns box

start_drag-ids : (ns : List (Text × SelectedFile × Rect)) → cached_ids (start_drag ns) ≡ node_ids ns
unfolding start_drag
start_drag-ids [] = refl
start_drag-ids ((k, f, r) ∷ ns) = ap (k ∷◌) (start_drag-ids ns)

start_drag-lit : (ns : List (Text × SelectedFile × Rect)) (j : Text) → lit j (start_drag ns) ≡ false
unfolding start_drag lit
start_drag-lit [] j = refl
start_drag-lit ((k, f, r) ∷ ns) j = ground (arith, start_drag-lit ns j)

start_drag-hit :
    (ns : List (Text × SelectedFile × Rect)) (j : Text) (box : Rect)
    → hit j (start_drag ns) box ≡ in_box j ns box
unfolding start_drag hit
start_drag-hit [] j box = refl
start_drag-hit ((k, f, r) ∷ ns) j box = ground (arith, start_drag-hit ns j box)

-- However the mouse has moved, a drag over nodes with distinct ids ends with exactly these files
-- selected: those that were selected before and are not in the last box, and those that were not and
-- are in it.
pub drag-selected :
    (s : State) (ns : List (Text × SelectedFile × Rect)) (a p : Point) (ps : List Point) (j : Text)
    → NoDup (node_ids ns)
    → JsMap.has (drag s (start_drag ns) a (p ∷ ps)).0.selected j
      ≡ xor (in_box j ns (drag_box a (last_point p ps))) (JsMap.has s.selected j)
drag-selected s ns a p ps j d =
    let d' : NoDup (cached_ids (start_drag ns)) = rw (start_drag-ids ns) d in
    rw (drag-has s (start_drag ns) a p ps j d', start_drag-lit ns j, start_drag-hit ns j _) refl
