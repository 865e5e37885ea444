-- ===== src/Browser/Selection/Borders.antt =====
-- The borders of the selected files in file-manager-page.js, and the nodes that carry them.
use streaming_service.Base.JsMap
use streaming_service.Base.{
  All, Bool, List, Option, [], any_of, arith, false, if◌then◌else◌, none, some, true, ℕ, ◌==◌, ◌∷◌,
  ◌≡◌,
}
use streaming_service.Base.JsMap.{JsMap}
use streaming_service.Base.Text.{Text, text_eq, text_eq_iff}
use streaming_service.Browser.Selection.{border, border_none, border_stored}
use streaming_service.Browser.State.{Node, SelectedFile}

-- The node of a stored handle.
abbrev pub is_node : Option ℕ → ℕ → Bool
is_node none h = false
is_node (some j) h = j == h

-- The selection has this very node for the id of the node.
abbrev pub points : JsMap ℕ → Node → Bool
points fs n = is_node (JsMap.get fs n.id) n.handle

-- The nodes that are stored for an id are nodes of that id.
abbrev pub OwnedBy : JsMap ℕ → Node → Type 0
OwnedBy fs n = (k : Text) → is_node (JsMap.get fs k) n.handle ≡ true → text_eq k n.id ≡ true

-- A node that a file is selected by is a node of that file, if it is in the view.
abbrev pub IsNodeOf : List Node → Text → SelectedFile → Type 0
IsNodeOf ns k f =
    All (λ (n : Node). (if n.handle == f.node then text_eq k n.id else true) ≡ true) ns

pub borders_set :
    (m : JsMap ℕ) (k : Text) (f : SelectedFile) (ns : List Node)
    → JsMap.has m k ≡ false
    → IsNodeOf ns k f
    → All (λ (n : Node). n.bordered ≡ points m n) ns
    → All (λ (n : Node). n.bordered ≡ points (JsMap.set m k f.node) n) (border f.node true ns)
unfolding border
borders_set m k f [] fresh o h = tt
borders_set m k f (n ∷ ns) fresh o h = (
  ground (arith, h.0, o.0, JsMap.get-set m k f.node n.id, text_eq_iff k n.id),
  borders_set m k f ns fresh o.1 h.1,
)

pub owned_set :
    (m : JsMap ℕ) (k : Text) (f : SelectedFile) (ns : List Node)
    → IsNodeOf ns k f
    → All (OwnedBy m) ns
    → All (OwnedBy (JsMap.set m k f.node)) (border f.node true ns)
unfolding border
owned_set m k f [] o h = tt
owned_set m k f (n ∷ ns) o h = (
  λ j at_j. ground (arith, h.0 j, o.0, at_j, JsMap.get-set m k f.node j, text_eq_iff k j),
  owned_set m k f ns o.1 h.1,
)

pub borders_delete_at :
    (m : JsMap ℕ) (k : Text) (h : ℕ) (ns : List Node)
    → JsMap.get m k ≡ some h
    → All (OwnedBy m) ns
    → All (λ (n : Node). n.bordered ≡ points m n) ns
    → All (λ (n : Node). n.bordered ≡ points (JsMap.delete m k) n) (border h false ns)
unfolding border
borders_delete_at m k h [] here o b = tt
borders_delete_at m k h (n ∷ ns) here o b = (
  ground (arith, b.0, o.0 k, here, JsMap.get-delete m k n.id, text_eq_iff k n.id),
  borders_delete_at m k h ns here o.1 b.1,
)

pub owned_delete_at :
    (m : JsMap ℕ) (k : Text) (h : ℕ) (ns : List Node)
    → All (OwnedBy m) ns
    → All (OwnedBy (JsMap.delete m k)) (border h false ns)
unfolding border
owned_delete_at m k h [] o = tt
owned_delete_at m k h (n ∷ ns) o =
    (λ j at_j. ground (arith, o.0 j, at_j, JsMap.get-delete m k j), owned_delete_at m k h ns o.1)

-- What taking the border of some nodes leaves: a border only where none of them is.
border_off :
    (h : ℕ) (hs : List ℕ) (ns : List Node)
    → All
        (λ (n : Node). (if n.bordered then any_of (λ j. n.handle == j) (h ∷ hs) else true) ≡ true)
        ns
    → All
        (λ (n : Node). (if n.bordered then any_of (λ j. n.handle == j) hs else true) ≡ true)
        (border h false ns)
unfolding border
border_off h hs [] a = tt
border_off h hs (n ∷ ns) a = (ground (arith, a.0), border_off h hs ns a.1)

nothing_on :
    (ns : List Node)
    → All (λ (n : Node). (if n.bordered then false else true) ≡ true) ns
    → All (λ (n : Node). n.bordered ≡ false) ns
nothing_on [] a = tt
nothing_on (n ∷ ns) a = (ground (arith, a.0), nothing_on ns a.1)

pub borders_none :
    (hs : List ℕ) (ns : List Node)
    → All (λ (n : Node). (if n.bordered then any_of (λ j. n.handle == j) hs else true) ≡ true) ns
    → All (λ (n : Node). n.bordered ≡ false) (border_none hs ns)
unfolding border_none
borders_none [] ns a = nothing_on ns a
borders_none (h ∷ hs) ns a = borders_none hs (border h false ns) (border_off h hs ns a)

is_node-values :
    (m : JsMap ℕ) (k : Text) (h : ℕ)
    → is_node (JsMap.get m k) h ≡ true
    → any_of (λ j. h == j) (JsMap.values m) ≡ true
unfolding JsMap.get
is_node-values [] k h e = cc
is_node-values ((j, g) ∷ m) k h e = ground (arith, is_node-values m k h)

pub borders_held :
    (m : JsMap ℕ) (ns : List Node)
    → All (λ (n : Node). n.bordered ≡ points m n) ns
    → All
        (λ (n : Node).
          (if n.bordered then any_of (λ j. n.handle == j) (JsMap.values m) else true) ≡ true)
        ns
borders_held m [] b = tt
borders_held m (n ∷ ns) b =
    (ground (arith, b.0, is_node-values m n.id n.handle), borders_held m ns b.1)

pub owned_none : (ns : List Node) → All (OwnedBy []) ns
unfolding JsMap.get
owned_none [] = tt
owned_none (n ∷ ns) = (λ k h. cc, owned_none ns)

pub cleared_borders :
    (ns : List Node)
    → All (λ (n : Node). n.bordered ≡ false) ns
    → All (λ (n : Node). n.bordered ≡ points [] n) ns
unfolding JsMap.get
cleared_borders [] a = tt
cleared_borders (n ∷ ns) a = (a.0, cleared_borders ns a.1)

pub IsNodeOf-border :
    (ns : List Node) (h : ℕ) (b : Bool) (k : Text) (f : SelectedFile)
    → IsNodeOf ns k f
    → IsNodeOf (border h b ns) k f
unfolding border
IsNodeOf-border [] h b k f o = tt
IsNodeOf-border (n ∷ ns) h b k f o = (ground (arith, o.0), IsNodeOf-border ns h b k f o.1)

pub IsNodeOf-stored :
    (ns : List Node) (o : Option ℕ) (b : Bool) (k : Text) (f : SelectedFile)
    → IsNodeOf ns k f
    → IsNodeOf (border_stored o b ns) k f
unfolding border_stored
IsNodeOf-stored ns none b k f o = o
IsNodeOf-stored ns (some h) b k f o = IsNodeOf-border ns h b k f o
