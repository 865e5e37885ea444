-- ===== src/GrouperPage/Redrawn.antt =====
-- The list of a grouper when it is drawn anew, sorted.
use mathlib.Core.Bool.{Bool-set}
use mathlib.Core.List.{Perm, Permᴰ}
use mathlib.Core.Logic.{∥∥₁_elim}
use mathlib.Core.Path.{subst}
use streaming_service.Base.{
  ==_iff, Bool-cases, List, [], append-nil, append_assoc, arith, false, if◌then◌else◌, inl, inr,
  is_some, length, not, refl, sym, true, ℕ, ◌++◌, ◌==◌, ◌∙◌, ◌∷◌, ◌≡◌,
}
use streaming_service.FileManager.Sorting.{sort-perm}
use streaming_service.GrouperPage.{
  Grouper, SliceAnswer, add_items, add_list_item, click_sort_order, first_count, id_index,
  redraw_list, state_of, sub,
}
use streaming_service.GrouperPage.Numbers.{IsNumbered, add_list_item-IsNumbered, all_once}
use streaming_service.Upload.Choose.{difference}

-- A permutation has the same ids, each as often.
perm_same :
    {xs ys : List ℕ}
    → Permᴰ xs ys
    → ((j : ℕ) → is_some (id_index j xs) ≡ is_some (id_index j ys)) × (all_once xs ≡ all_once ys)
unfolding id_index
perm_same Permᴰ.nil = (λ j. refl, refl)
perm_same (Permᴰ.cons {a} {b} {l₁} {l₂} e p) =
    let (same, once) = perm_same p in
    (λ j. ground (arith, e, same j), ground (arith, e, same a, once))
perm_same (Permᴰ.swap {a} {b} {a'} {b'} {l} e f) =
    (λ j. ground (arith, e, f), ground (arith, e, f, ==_iff a b, ==_iff b a))
perm_same (Permᴰ.trans p q) =
    let (same, once) = perm_same p in
    let (same', once') = perm_same q in (λ j. same j ∙ same' j, once ∙ once')

pub perm-once : {xs ys : List ℕ} → Perm xs ys → all_once ys ≡ true → all_once xs ≡ true
perm-once {xs} p once = ∥∥₁_elim p (Bool-set _ _) (λ d. (perm_same d).1 ∙ once)

has_middle :
    (xs : List ℕ) (id : ℕ) (ys : List ℕ) (x : ℕ)
    → (x == id) ≡ true
    → is_some (id_index x (xs ++ id ∷ ys)) ≡ true
unfolding id_index
has_middle [] id ys x e = ground (arith, ==_iff x id, ==_iff id x)
has_middle (y ∷ xs) id ys x e = ground (arith, has_middle xs id ys x e)

pub id_index-middle :
    (xs : List ℕ) (id : ℕ) (ys : List ℕ)
    → all_once (xs ++ id ∷ ys) ≡ true
    → is_some (id_index id xs) ≡ false
unfolding id_index
id_index-middle [] id ys once = refl
id_index-middle (x ∷ xs) id ys once =
    ground (arith, id_index-middle xs id ys, has_middle xs id ys x, ==_iff x id, ==_iff id x)

added-ids :
    (g : Grouper) (id : ℕ)
    → is_some (id_index id g.child_ids) ≡ false
    → (add_list_item g id).child_ids ≡ g.child_ids ++ id ∷ []
unfolding add_list_item
added-ids g id fresh = ground arith

add_items-ids :
    (g : Grouper) (ids : List ℕ)
    → all_once (g.child_ids ++ ids) ≡ true
    → (add_items g ids).child_ids ≡ g.child_ids ++ ids
unfolding add_items add_list_item
add_items-ids g [] once = sym (append-nil g.child_ids)
add_items-ids g (id ∷ ids) once =
    let step = added-ids g id (id_index-middle g.child_ids id ids once) in
    let joined = append_assoc g.child_ids (id ∷ []) ids in
    add_items-ids (add_list_item g id) ids (rw (step, joined) once) ∙ rw step joined

-- A page whose list is empty and whose count is set.
begun :
    (g : Grouper)
    → g.shown ≡ []
    → g.child_ids ≡ []
    → g.count ≡ first_count g.ascending g.total
    → IsNumbered g
unfolding sub
begun g s c n = elim (Bool-cases g.ascending) [
  | inl up ↦ record { titles = rw (c, s) refl; next = rw (c, n, up) refl; distinct = rw c refl }
  | inr down ↦ record { titles = rw (c, s) refl; next = rw (c, n, down) refl; distinct = rw c refl }
]

pub add_items-IsNumbered :
    (g : Grouper) (ids : List ℕ) → IsNumbered g → IsNumbered (add_items g ids)
unfolding add_items
add_items-IsNumbered g [] n = n
add_items-IsNumbered g (id ∷ ids) n =
    add_items-IsNumbered (add_list_item g id) ids (add_list_item-IsNumbered g id n)

-- The numbers of a list that is drawn from the start.
pub begun-IsNumbered :
    (g : Grouper) (ids : List ℕ)
    → g.shown ≡ []
    → g.child_ids ≡ []
    → g.count ≡ first_count g.ascending g.total
    → IsNumbered (add_items g ids)
begun-IsNumbered g ids s c n = add_items-IsNumbered g ids (begun g s c n)

pub redraw_list-IsNumbered :
    (g : Grouper) (ids : List ℕ)
    → g.count ≡ first_count g.ascending g.total
    → all_once ids ≡ true
    → IsNumbered (redraw_list g ids)
unfolding redraw_list
redraw_list-IsNumbered g ids c once =
    let empty = record g { child_ids = []; shown = [] } in
    subst (λ xs. IsNumbered (record (add_items empty ids) { child_ids = xs }))
      (add_items-ids empty ids once) (begun-IsNumbered empty ids refl refl c)

pub order-IsNumbered :
    (g : Grouper) (slice : SliceAnswer)
    → length g.child_ids ≡ g.total
    → IsNumbered g
    → IsNumbered (state_of (click_sort_order g slice))
unfolding click_sort_order
order-IsNumbered g slice all n =
    let here : (length g.child_ids == g.total) ≡ true =
      (==_iff (length g.child_ids) g.total).1 all in
    let turned = record g {
      ascending = not g.ascending;
      count = first_count (not g.ascending) g.total;
      shown = [];
    } in
    rw here (
      redraw_list-IsNumbered turned _ refl (
        perm-once
          (sort-perm (λ a b. if not g.ascending then difference a b else difference b a)
            g.child_ids)
          n.distinct))
