-- ===== src/Browser/State/Display.antt =====
-- `displayFileItem` of file-manager-page.js: the items that it draws.
use streaming_service.Base.{
  All, Bool, List, Option, [], ap, append-nil, append_assoc, false, if◌then◌else◌, is_some, none,
  refl, some, sym, true, ◌++◌, ◌∙◌, ◌∷◌, ◌≡◌,
}
use streaming_service.Base.Text.{Text}
use streaming_service.Browser.State.{
  End, Node, State, append_node, completed, main_items, node_of, picture_of, push_item, render_all,
  render_file_item,
}
use streaming_service.FileManager.{FileItem, FileManager, add_item}

-- An item that can be drawn: it has a thumbnail or a type with an icon.
unfoldable pub IsDrawable : Option FileItem → Type 0
IsDrawable none = ⊥
IsDrawable (some f) = is_some (picture_of f) ≡ true

abbrev pub node_ids : List Node → List Text
node_ids [] = []
node_ids (n ∷ ns) = n.id ∷ node_ids ns

node_ids-append : (ns : List Node) (n : Node) → node_ids (ns ++ n ∷ []) ≡ node_ids ns ++ n.id ∷ []
node_ids-append [] n = refl
node_ids-append (m ∷ ns) n = ap (m.id ∷◌) (node_ids-append ns n)

abbrev pub somes : List (Option FileItem) → List FileItem
somes [] = []
somes (none ∷ fs) = somes fs
somes (some f ∷ fs) = f ∷ somes fs

abbrev pub item_ids : List FileItem → List Text
item_ids [] = []
item_ids (f ∷ fs) = f.id ∷ item_ids fs

-- What one item does, when it can be drawn.
record Drawn (s : State) (push : Bool) (f : FileItem) (r : State × End) : Type 0 where
  ends : r.1 ≡ completed
  seen : node_ids r.0.view ≡ node_ids s.view ++ f.id ∷ []
  kept : r.0.main ≡ (if push then add_item s.main f else s.main)

append_node-Drawn :
    (s t : State) (push : Bool) (f : FileItem) (p : Option Text)
    → is_some p ≡ true
    → t.view ≡ s.view
    → t.main ≡ (if push then add_item s.main f else s.main)
    → Drawn s push f (append_node t f p)
unfolding append_node node_of
append_node-Drawn s t push f none h same m = absurd (cc)
append_node-Drawn s t push f (some p) h same m = record {
  ends = refl;
  seen = node_ids-append t.view _ ∙ ap (λ ns. node_ids ns ++ f.id ∷ []) same;
  kept = m;
}

render_one :
    (s : State) (push : Bool) (f : FileItem)
    → IsDrawable (some f)
    → Drawn s push f (render_file_item s main_items push (some f))
unfolding render_file_item push_item IsDrawable
render_one s true f d =
    append_node-Drawn s (push_item s main_items true f) true f (picture_of f) d refl refl
render_one s false f d = append_node-Drawn s s false f (picture_of f) d refl refl

unfoldable pub add_all : FileManager → List FileItem → FileManager
add_all m [] = m
add_all m (f ∷ fs) = add_all (add_item m f) fs

pub record AllDrawn (s : State) (push : Bool) (fs : List (Option FileItem)) (r : State × End)
    : Type 0 where
  pub ends : r.1 ≡ completed
  pub seen : node_ids r.0.view ≡ node_ids s.view ++ item_ids (somes fs)
  pub kept : r.0.main ≡ (if push then add_all s.main (somes fs) else s.main)

join_main :
    (push : Bool) (m n o : FileManager) (f : FileItem) (fs : List FileItem)
    → n ≡ (if push then add_item m f else m)
    → o ≡ (if push then add_all n fs else n)
    → o ≡ (if push then add_all m (f ∷ fs) else m)
unfolding add_all
join_main true m n o f fs h k = k ∙ ap (λ x. add_all x fs) h
join_main false m n o f fs h k = k ∙ h

pub not_drawable : IsDrawable none → ⊥
unfolding IsDrawable
not_drawable d = d

pub render_all-AllDrawn :
    (s : State) (push : Bool) (fs : List (Option FileItem))
    → All IsDrawable fs
    → AllDrawn s push fs (render_all s main_items push fs)
unfolding render_all
render_all-AllDrawn s true [] d =
    unfold add_all in record { ends = refl; seen = sym (append-nil (node_ids s.view)); kept = refl }
render_all-AllDrawn s false [] d = record {
  ends = refl;
  seen = sym (append-nil (node_ids s.view));
  kept = refl;
}
render_all-AllDrawn s push (none ∷ fs) d = absurd (not_drawable d.0)
render_all-AllDrawn s push (some f ∷ fs) d =
    let r = render_file_item s main_items push (some f) in
    let one = render_one s push f d.0 in
    let rest = render_all-AllDrawn r.0 push fs d.1 in
    rw (one.ends, render_all)
      (record {
        ends = rest.ends;
        seen =
            rest.seen
            ∙ (ap (λ ks. ks ++ item_ids (somes fs)) one.seen
                ∙ append_assoc (node_ids s.view) (f.id ∷ []) (item_ids (somes fs)));
        kept = join_main push s.main r.0.main _ f (somes fs) one.kept rest.kept;
      })
