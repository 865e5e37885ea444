-- ===== src/Browser/Change/Moves.antt =====
-- Where file-manager-page.js moves a file to.
use streaming_service.Base.JsMap
use streaming_service.Base.{
  All, Bool, Bool-cases, List, Option, [], any_of, arith, false, inl, inr, is_empty, none, refl,
  some, sym, true, ◌++◌, ◌∙◌, ◌∷◌, ◌≡◌, ◌≢◌, ◌⊎◌,
}
use streaming_service.Base.JsMap.{JsMap}
use streaming_service.Base.Text.{
  Text, codes, includes, opt_eq, opt_eq_iff, starts_with, text_eq, text_eq_iff,
}
use streaming_service.Browser.Change.{
  FileReply, MoveEnd, after_move_file, broke, denied, file, has_same_name_item, move_failed,
  move_file, move_into, move_request,
}
use streaming_service.Browser.PathStack.{PathNode, current_path, full_current_path_in_ids, id_text}
use streaming_service.Browser.State.{
  End-cases, State, display_file_item, given_items, main_items, send,
}
use streaming_service.Browser.State.Kept.{display_file_item-Kept}
use streaming_service.FileManager.{FileItem}
use streaming_service.FileManager.Search.{find_one-exact}

starts_with-append : (p t : Text) → starts_with (p ++ t) p ≡ true
unfolding starts_with
starts_with-append [] t = start t
  where
    start : (t : Text) → starts_with t [] ≡ true
    start t = refl
starts_with-append (c ∷ p) t = ground (arith, starts_with-append p t)

includes_front : (s p : Text) → starts_with s p ≡ true → includes s p ≡ true
unfolding includes
includes_front [] p h = h
includes_front (c ∷ s) p h = rw h refl

includes_later : (a b p : Text) → includes b p ≡ true → includes (a ++ b) p ≡ true
unfolding includes
includes_later [] b p h = h
includes_later (c ∷ a) b p h = ground (arith, includes_later a b p h)

abbrev NotNode : Text → PathNode → Type 0
NotNode k n = n.id ≢ some k

-- An id of the path stands in the path's text.
not_in_path :
    (k : Text) (path : List PathNode)
    → includes (full_current_path_in_ids path) k ≡ false
    → All (NotNode k) path
unfolding full_current_path_in_ids
not_in_path k [] h = tt
not_in_path k (n ∷ path) h = (
  λ same. absurd (
      clash
        (includes_front _ k
          (rw same (starts_with-append k (codes "/" ++ full_current_path_in_ids path))))
        h),
  not_in_path k path (elim (Bool-cases (includes (full_current_path_in_ids path) k)) [
    | inl there ↦ absurd (
        clash
          (includes_later (id_text n.id) _ k
            (includes_later (codes "/") (full_current_path_in_ids path) k there))
          h)
    | inr absent ↦ absent
  ]),
)
  where
    clash : {b : Bool} → b ≡ true → b ≡ false → ⊥
    clash t f = cc

-- No item has a name.
abbrev pub NoneNamed : Text → List FileItem → Type 0
NoneNamed name fs = All (λ (f : FileItem). f.name ≢ name) fs

NoneNamed-none :
    (name : Text) (fs : List FileItem)
    → any_of (λ (f : FileItem). text_eq f.name name) fs ≡ false
    → NoneNamed name fs
NoneNamed-none name [] h = tt
NoneNamed-none name (f ∷ fs) h =
    (λ e. ground (arith, (text_eq_iff f.name name).1 e), NoneNamed-none name fs (ground arith))

NoneNamed-loaded :
    (s : State) (name : Text)
    → has_same_name_item s name ≡ false
    → NoneNamed name (JsMap.values s.main.items)
unfolding has_same_name_item
NoneNamed-loaded s name h =
    NoneNamed-none name (JsMap.values s.main.items) (sym (find_one-exact s.main name).0 ∙ h)

-- A move that may be asked for: no folder of the path is the file itself, so it is not moved into
-- itself or below itself; it is not in the folder yet; and no item of the folder that is loaded has
-- its name.
pub record MayMove (s : State) (f : FileItem) (folder : Text) : Type 0 where
  pub open_folder : (n : PathNode) × (current_path s.path ≡ some n) × (n.id ≡ some folder)
  pub apart : All (NotNode f.id) s.path
  pub elsewhere : f.parent_id ≢ some folder
  pub unique : NoneNamed f.name (JsMap.values s.main.items)

after_move-sent : (s : State) (r : FileReply) → (after_move_file s r).0.sent ≡ s.sent
unfolding after_move_file
after_move-sent s broke = refl
after_move-sent s (denied t) = refl
after_move-sent s (file f) =
    let d = display_file_item s (given_items (f ∷ [])) main_items false false true in
    let kept = display_file_item-Kept s (given_items (f ∷ [])) main_items false false true in
    elim (End-cases d.1) [
      | inl ok ↦ rw (ok, after_move_file) kept.sent
      | inr bad ↦ rw (bad, after_move_file) kept.sent
    ]

-- What a call asks of the server: nothing, or one move that may be made.
pub Guarded : State → FileItem → State × MoveEnd → Type 0
Guarded s f r =
    (r.0.sent ≡ s.sent)
    ⊎ ((folder : Text) × (r.0.sent ≡ s.sent ++ move_request f.id folder ∷ []) × MayMove s f folder)

move_into-Guarded :
    (s : State) (f : FileItem) (folder : Text) (reply : FileReply) (n : PathNode)
    → current_path s.path ≡ some n
    → n.id ≡ some folder
    → Guarded s f (move_into s f folder reply)
unfolding move_into Guarded
move_into-Guarded s f folder reply n here id =
    elim (Bool-cases (opt_eq f.parent_id (some folder))) [
      | inl same ↦ rw same (inl refl)
      | inr elsewhere ↦ elim (Bool-cases (text_eq f.id folder)) [
        | inl itself ↦ rw (elsewhere, itself) (inl refl)
        | inr other ↦ elim (Bool-cases (includes (full_current_path_in_ids s.path) f.id)) [
          | inl below ↦ rw (elsewhere, other, below) (inl refl)
          | inr apart ↦ elim (Bool-cases (has_same_name_item s f.name)) [
            | inl taken ↦ rw (elsewhere, other, apart, taken) (inl refl)
            | inr unique ↦
                rw (elsewhere, other, apart, unique)
                  (inr (
                    folder,
                    after_move-sent (send s (move_request f.id folder)) reply,
                    record {
                      open_folder = (n, here, id);
                      apart = not_in_path f.id s.path apart;
                      elsewhere = λ e. ground (arith, (opt_eq_iff f.parent_id (some folder)).1 e);
                      unique = NoneNamed-loaded s f.name unique;
                    },
                  ))
          ]
        ]
      ]
    ]

move_node-Guarded :
    (s : State) (f : FileItem) (reply : FileReply) (n : PathNode) (folder : Option Text)
    → current_path s.path ≡ some n
    → n.id ≡ folder
    → Guarded s f (elim folder [
      | none ↦ (s, move_failed (codes "Failed to get current folder id"))
      | some k ↦ move_into s f k reply
    ])
unfolding Guarded
move_node-Guarded s f reply n none here id = inl refl
move_node-Guarded s f reply n (some k) here id = move_into-Guarded s f k reply n here id

move_open-Guarded :
    (s : State) (f : FileItem) (reply : FileReply) (o : Option PathNode)
    → current_path s.path ≡ o
    → Guarded s f (elim o [
      | none ↦ (s, move_failed (codes "Failed to get current path"))
      | some n ↦ elim n.id [
        | none ↦ (s, move_failed (codes "Failed to get current folder id"))
        | some k ↦ move_into s f k reply
      ]
    ])
unfolding Guarded
move_open-Guarded s f reply none here = inl refl
move_open-Guarded s f reply (some n) here = move_node-Guarded s f reply n n.id here refl

-- `moveFile` asks the server for nothing, or for one move into the open folder that may be made.
pub move_file-Guarded :
    (s : State) (f : FileItem) (reply : FileReply) → Guarded s f (move_file s f reply)
unfolding move_file Guarded
move_file-Guarded s f reply = elim (Bool-cases (is_empty f.id)) [
  | inl no_id ↦ rw no_id (inl refl)
  | inr ok ↦ rw ok (move_open-Guarded s f reply (current_path s.path) refl)
]
