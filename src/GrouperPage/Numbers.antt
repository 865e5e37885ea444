-- ===== src/GrouperPage/Numbers.antt =====
-- The numbers in the titles of a grouper's list and in the overlay.
use streaming_service.Base.{
  ==_iff, Bool, Bool-cases, List, [], ap, arith, false, if◌then◌else◌, inl, inr, is_some, length,
  length-append, not, refl, suc, true, zero, ℕ, ◌&&◌, ◌++◌, ◌+◌, ◌==◌, ◌∷◌, ◌≡◌,
}
use streaming_service.GrouperPage.{Grouper, add_list_item, id_index, pos, pred, sub, succ, ℤ}

-- The number that an item has by its place in the list.
abbrev pub number_at : Bool → ℕ → ℕ → ℤ
number_at true total i = pos (suc i)
number_at false total i = sub total i

abbrev pub numbered : Bool → ℕ → ℕ → List ℕ → List (ℕ × ℤ)
numbered asc total i [] = []
numbered asc total i (id ∷ ids) = (id, number_at asc total i) ∷ numbered asc total (suc i) ids

-- The number that the next title is made from.
abbrev pub count_at : Bool → ℕ → ℕ → ℤ
count_at true total n = pos n
count_at false total n = sub total n

-- Each id is there once.
abbrev pub all_once : List ℕ → Bool
all_once [] = true
all_once (x ∷ xs) = not (is_some (id_index x xs)) && all_once xs

-- The nodes of the list stand for the ids in order, each with its number.
pub record IsNumbered (g : Grouper) : Type 0 where
  pub titles : g.shown ≡ numbered g.ascending g.total 0 g.child_ids
  pub next : g.count ≡ count_at g.ascending g.total (length g.child_ids)
  pub distinct : all_once g.child_ids ≡ true

pub pred-sub : (m n : ℕ) → pred (sub m n) ≡ sub m (suc n)
unfolding pred sub
pred-sub zero zero = refl
pred-sub (suc m) zero = refl
pred-sub zero (suc n) = refl
pred-sub (suc m) (suc n) = pred-sub m n

add_zero : (i : ℕ) → i + 0 ≡ i
add_zero i = omega arith

numbered-append :
    (asc : Bool) (total i : ℕ) (ids : List ℕ) (id : ℕ)
    → numbered asc total i (ids ++ id ∷ [])
      ≡ numbered asc total i ids ++ (id, number_at asc total (i + length ids)) ∷ []
numbered-append asc total i [] id = rw (add_zero i) refl
numbered-append asc total i (x ∷ ids) id =
    let same : i + suc (length ids) ≡ suc i + length ids = omega arith in
    rw same (ap ((x, number_at asc total i) ∷◌) (numbered-append asc total (suc i) ids id))

pub id_index-append :
    (ids : List ℕ) (id j : ℕ)
    → is_some (id_index j (ids ++ id ∷ [])) ≡ (if is_some (id_index j ids) then true else id == j)
unfolding id_index
id_index-append [] id j = ground arith
id_index-append (x ∷ ids) id j = ground (arith, id_index-append ids id j)

all_once-append :
    (ids : List ℕ) (id : ℕ)
    → all_once ids ≡ true
    → is_some (id_index id ids) ≡ false
    → all_once (ids ++ id ∷ []) ≡ true
unfolding id_index
all_once-append [] id once fresh = refl
all_once-append (x ∷ ids) id once fresh =
    ground (arith, all_once-append ids id, id_index-append ids id x, ==_iff x id, ==_iff id x)

pub add_list_item-IsNumbered :
    (g : Grouper) (id : ℕ) → IsNumbered g → IsNumbered (add_list_item g id)
unfolding add_list_item succ
add_list_item-IsNumbered g id n = elim (Bool-cases (is_some (id_index id g.child_ids))) [
  | inl there ↦ rw there n
  | inr fresh ↦ elim (Bool-cases g.ascending) [
    | inl up ↦
        rw (fresh, up)
          (record {
            titles =
                ground (arith, n.titles, n.next, numbered-append true g.total 0 g.child_ids id);
            next = ground (arith, n.next, length-append g.child_ids (id ∷ []));
            distinct = all_once-append g.child_ids id n.distinct fresh;
          })
    | inr down ↦
        rw (fresh, down)
          (record {
            titles =
                ground (arith, n.titles, n.next, numbered-append false g.total 0 g.child_ids id);
            next = ground (
              arith,
              n.next,
              length-append g.child_ids (id ∷ []),
              pred-sub g.total (length g.child_ids),
            );
            distinct = all_once-append g.child_ids id n.distinct fresh;
          })
  ]
]
