-- ===== src/GrouperPage/Stepped.antt =====
-- The numbers in the overlay's title when it steps through a grouper.
use streaming_service.Base.{
  ==_iff, Bool, Bool-cases, List, Option, [], ap, arith, false, get_elem?, inl, inr, length, ltb,
  none, not, refl, some, suc, sym, true, zero, ℕ, ◌+◌, ◌-◌, ◌<◌, ◌==◌, ◌∷◌, ◌≡◌,
}
use streaming_service.GrouperPage.{
  Content, ContentAnswer, Grouper, SliceAnswer, content, content_loaded, content_refused, grouped,
  id_index, no_content, one_more, position, pred, state_of, sub, succ, ℤ,
}
use streaming_service.GrouperPage.Numbers.{all_once, number_at, pred-sub}
use streaming_service.GrouperPage.View.{
  content_of, get_content, keep_answer, next_from, number_of, prev_from, show_content, show_found,
  show_item, show_next, show_prev, step_next, step_prev, view_next_album, view_prev_album,
  viewed_index,
}

abbrev pub is_content : Content → Bool
is_content (content t) = true
is_content no_content = false

-- The content of an item: the one that is kept, or the one that the server sends.
abbrev pub found_content : Option Content → ContentAnswer → Content
found_content (some c) answer = c
found_content none answer = content_of answer

abbrev pub Loads : Grouper → ContentAnswer → Type 0
Loads g answer = (id : ℕ) → is_content (found_content (get_content g.contents id) answer) ≡ true

succ-sub : (m n : ℕ) → succ (sub m (suc n)) ≡ sub m n
unfolding succ sub
succ-sub zero zero = refl
succ-sub (suc m) zero = refl
succ-sub zero (suc n) = refl
succ-sub (suc m) (suc n) = succ-sub m n

id_index-get :
    (ids : List ℕ) (j id : ℕ)
    → all_once ids ≡ true
    → get_elem? ids j ≡ some id
    → id_index id ids ≡ some j
unfolding id_index
id_index-get [] j id once there = cc
id_index-get (x ∷ ids) zero id once there = ground (arith, ==_iff x id)
id_index-get (x ∷ ids) (suc j) id once there = ground (arith, id_index-get ids j id, ==_iff x id)

position-get :
    (ids : List ℕ) (j id : ℕ)
    → all_once ids ≡ true
    → get_elem? ids j ≡ some id
    → position id ids ≡ suc j
unfolding position
position-get ids j id once there = ap one_more (id_index-get ids j id once there)

number_of-get :
    (g : Grouper) (j id : ℕ)
    → all_once g.child_ids ≡ true
    → get_elem? g.child_ids j ≡ some id
    → number_of g id ≡ number_at g.ascending g.total j
unfolding number_of sub
number_of-get g j id once there =
    let at_j = position-get g.child_ids j id once there in
    elim (Bool-cases g.ascending) [
      | inl up ↦ rw (up, at_j) refl
      | inr down ↦ let same : g.total + 1 ≡ suc g.total = omega arith in rw (down, at_j, same) refl
    ]

-- An item that is shown is the one in the overlay, under its number.
abbrev pub Shows : Grouper → ℕ → ℤ → Type 0
Shows g id n = (g.viewing ≡ some id) × (g.heading ≡ some n)

show_content-Shows :
    (g : Grouper) (id : ℕ) (c : Content)
    → is_content c ≡ true
    → Shows (show_content g id c) id (number_of g id)
unfolding show_content
show_content-Shows g id no_content h = cc
show_content-Shows g id (content t) h = (refl, refl)

show_found-Shows :
    (g : Grouper) (id : ℕ) (answer : ContentAnswer) (o : Option Content)
    → is_content (found_content o answer) ≡ true
    → Shows (show_found g id answer o) id (number_of g id)
unfolding show_found keep_answer number_of
show_found-Shows g id answer (some c) h = show_content-Shows g id c h
show_found-Shows g id (content_loaded t) none h =
    show_content-Shows (keep_answer g id (content_loaded t)) id (content t) refl
show_found-Shows g id content_refused none h = cc

show_next-Shows :
    (g : Grouper) (i id : ℕ) (answer : ContentAnswer)
    → Loads g answer
    → Shows (show_next g i answer (some id)) id (number_of g id)
unfolding show_next show_item
show_next-Shows g i id answer l = show_found-Shows g id answer (get_content g.contents id) (l id)

show_prev-Shows :
    (g : Grouper) (i id : ℕ) (answer : ContentAnswer)
    → Loads g answer
    → Shows (show_prev g i answer (some id)) id (number_of g id)
unfolding show_prev show_item
show_prev-Shows g i id answer l = show_found-Shows g id answer (get_content g.contents id) (l id)

-- The index of the item that a step goes to: up or down the list.
abbrev pub HasIndex : Bool → List ℕ → ℕ → ℕ → Type 0
HasIndex true ids i j = (j ≡ i + 1) × (j < length ids)
HasIndex false ids i j = (i ≡ j + 1) × (j < length ids)

number-next :
    (asc : Bool) (ids : List ℕ) (total i j : ℕ)
    → HasIndex asc ids i j
    → number_at asc total j ≡ succ (number_at asc total i)
unfolding succ
number-next true ids total i j (e, less) = let same : j ≡ suc i = omega arith in rw same refl
number-next false ids total i j (e, less) =
    let same : i ≡ suc j = omega arith in rw same (sym (succ-sub total j))

step_next-Shows :
    (g : Grouper) (j id : ℕ) (answer : ContentAnswer)
    → all_once g.child_ids ≡ true
    → Loads g answer
    → get_elem? g.child_ids j ≡ some id
    → Shows (step_next g j answer) id (number_at g.ascending g.total j)
unfolding step_next
step_next-Shows g j id answer once l there =
    rw (there, ← number_of-get g j id once there) (show_next-Shows g j id answer l)

step_prev-Shows :
    (g : Grouper) (j id : ℕ) (answer : ContentAnswer)
    → all_once g.child_ids ≡ true
    → Loads g answer
    → get_elem? g.child_ids j ≡ some id
    → Shows (step_prev g j answer) id (number_at g.ascending g.total j)
unfolding step_prev
step_prev-Shows g j id answer once l there =
    rw (there, ← number_of-get g j id once there) (show_prev-Shows g j id answer l)

next_from-index :
    (g : Grouper) (slice : SliceAnswer) (answer : ContentAnswer) (i j : ℕ) (asc : Bool)
    → g.ascending ≡ asc
    → HasIndex asc g.child_ids i j
    → next_from g slice answer (some i) ≡ grouped (step_next g j answer)
unfolding next_from
next_from-index g slice answer i j true up (e, less) =
    let there : ltb (i + 1) (length g.child_ids) ≡ true = ground arith in rw (up, there, e) refl
next_from-index g slice answer i j false down (e, less) =
    let later : (i == 0) ≡ false = ground arith in
    let before : i - 1 ≡ j = omega arith in rw (down, later, before) refl

prev_from-index :
    (g : Grouper) (answer : ContentAnswer) (i j : ℕ) (asc : Bool)
    → g.ascending ≡ asc
    → HasIndex (not asc) g.child_ids i j
    → prev_from g answer (some i) ≡ step_prev g j answer
unfolding prev_from
prev_from-index g answer i j true up (e, less) =
    let later : (i == 0) ≡ false = ground arith in
    let before : i - 1 ≡ j = omega arith in rw (up, later, before) refl
prev_from-index g answer i j false down (e, less) =
    let there : ltb (i + 1) (length g.child_ids) ≡ true = ground arith in rw (down, there, e) refl

number-prev :
    (asc : Bool) (ids : List ℕ) (total i j : ℕ)
    → HasIndex (not asc) ids i j
    → number_at asc total j ≡ pred (number_at asc total i)
unfolding pred
number-prev true ids total i j (e, less) = let same : i ≡ suc j = omega arith in rw same refl
number-prev false ids total i j (e, less) =
    let same : j ≡ suc i = omega arith in rw same (sym (pred-sub total i))

view_next_album-Shows :
    (g : Grouper) (slice : SliceAnswer) (answer : ContentAnswer) (i j id : ℕ)
    → all_once g.child_ids ≡ true
    → Loads g answer
    → viewed_index g ≡ some i
    → HasIndex g.ascending g.child_ids i j
    → get_elem? g.child_ids j ≡ some id
    → Shows (state_of (view_next_album g slice answer)) id (succ (number_at g.ascending g.total i))
unfolding view_next_album
view_next_album-Shows g slice answer i j id once l here h there =
    rw
      (
        here,
        next_from-index g slice answer i j g.ascending refl h,
        ← number-next g.ascending g.child_ids g.total i j h,
      )
      (step_next-Shows g j id answer once l there)

view_prev_album-Shows :
    (g : Grouper) (answer : ContentAnswer) (i j id : ℕ)
    → all_once g.child_ids ≡ true
    → Loads g answer
    → viewed_index g ≡ some i
    → HasIndex (not g.ascending) g.child_ids i j
    → get_elem? g.child_ids j ≡ some id
    → Shows (view_prev_album g answer) id (pred (number_at g.ascending g.total i))
unfolding view_prev_album
view_prev_album-Shows g answer i j id once l here h there =
    rw
      (
        here,
        prev_from-index g answer i j g.ascending refl h,
        ← number-prev g.ascending g.child_ids g.total i j h,
      )
      (step_prev-Shows g j id answer once l there)

-- If the contents of all items can be had, the list has each id once, and the item in the overlay
-- has a neighbour on both sides, then a step to the next item shows the neighbour whose number is
-- one higher, and a step back the neighbour whose number is one lower, in both sort orders.
pub view_steps-number :
    (g : Grouper) (slice : SliceAnswer) (answer : ContentAnswer) (i j id j' id' : ℕ)
    → all_once g.child_ids ≡ true
    → Loads g answer
    → viewed_index g ≡ some i
    → HasIndex g.ascending g.child_ids i j
    → get_elem? g.child_ids j ≡ some id
    → HasIndex (not g.ascending) g.child_ids i j'
    → get_elem? g.child_ids j' ≡ some id'
    → Shows (state_of (view_next_album g slice answer)) id (succ (number_at g.ascending g.total i))
      × Shows (view_prev_album g answer) id' (pred (number_at g.ascending g.total i))
view_steps-number g slice answer i j id j' id' once l here h there h' there' = (
  view_next_album-Shows g slice answer i j id once l here h there,
  view_prev_album-Shows g answer i j' id' once l here h' there',
)
