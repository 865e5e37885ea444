-- ===== src/NameEditor/Listed.antt =====
-- What the editor of names shows of its maps.
use mathlib.Core.Path.{subst}
use streaming_service.Base.JsMap
use streaming_service.Base.{
  Bool-cases, Option, [], ap, arith, false, get_elem?, if_either, if◌then◌else◌, inl, inr, is_empty,
  none, refl, some, suc, sym, true, zero, ℕ, ◌++◌, ◌||◌, ◌∙◌, ◌∷◌, ◌≡◌,
}
use streaming_service.Base.JsMap.{JsMap}
use streaming_service.Base.Text.{Text, text_eq, text_eq_iff, text_eq_refl}
use streaming_service.NameEditor.{
  Editor, Edits, add_to_adding, add_to_current, add_to_removing, click_adding, click_current,
  click_removing, click_searched, edits_of, remove_at, with_edits,
}

abbrev pub AllOnce : JsMap Text → Type 0
AllOnce [] = Unit {0}
AllOnce ((k, _) ∷ m) = (JsMap.has m k ≡ false) × AllOnce m

-- The areas have one node for each entry of the maps, in order, each id once; no current name is to
-- be removed; and the area of the names to remove is hidden exactly if it is empty.
pub record ListedAs (e : Editor) (x : Edits) : Type 0 where
  pub current : e.current_nodes ≡ x.current
  pub adding : e.adding_nodes ≡ x.adding
  pub removing : e.removing_nodes ≡ x.removing
  pub current_once : AllOnce x.current
  pub adding_once : AllOnce x.adding
  pub removing_once : AllOnce x.removing
  pub apart : (k : Text) → JsMap.has x.current k ≡ true → JsMap.has x.removing k ≡ false
  pub empty : e.removing_hidden ≡ is_empty x.removing

abbrev pub IsListed : Editor → Type 0
IsListed e = ListedAs e (edits_of e)

delete-absent : (m : JsMap Text) (k : Text) → JsMap.has m k ≡ false → JsMap.delete m k ≡ m
unfolding JsMap.get JsMap.delete
delete-absent [] k h = refl
delete-absent ((j, v) ∷ m) k h = ground (arith, delete-absent m k)

set-absent :
    (m : JsMap Text) (k v : Text) → JsMap.has m k ≡ false → JsMap.set m k v ≡ m ++ (k, v) ∷ []
unfolding JsMap.get JsMap.set
set-absent [] k v h = refl
set-absent ((j, w) ∷ m) k v h = ground (arith, set-absent m k v)

has-get : (m : JsMap Text) (i : ℕ) (k v : Text) → get_elem? m i ≡ some (k, v) → JsMap.has m k ≡ true
unfolding JsMap.get
has-get [] i k v h = cc
has-get ((j, w) ∷ m) zero k v h = ground (arith, text_eq_iff j k)
has-get ((j, w) ∷ m) (suc i) k v h = ground (arith, has-get m i k v h)

remove_at-delete :
    (m : JsMap Text) (i : ℕ) (k v : Text)
    → AllOnce m
    → get_elem? m i ≡ some (k, v)
    → remove_at i m ≡ JsMap.delete m k
unfolding JsMap.get JsMap.delete remove_at
remove_at-delete [] i k v once h = refl
remove_at-delete ((j, w) ∷ m) zero k v once h = ground (arith, delete-absent m k, text_eq_iff j k)
remove_at-delete ((j, w) ∷ m) (suc i) k v once h =
    ground (arith, remove_at-delete m i k v once.1, has-get m i k v h, text_eq_iff j k, once.0)

AllOnce-delete : (m : JsMap Text) (k : Text) → AllOnce m → AllOnce (JsMap.delete m k)
unfolding JsMap.delete
AllOnce-delete [] k once = tt
AllOnce-delete ((j, v) ∷ m) k once =
    ground (arith, AllOnce-delete m k once.1, JsMap.get-delete m k j)

pub AllOnce-set : (m : JsMap Text) (k v : Text) → AllOnce m → AllOnce (JsMap.set m k v)
unfolding JsMap.get JsMap.set
AllOnce-set [] k v once = (refl, tt)
AllOnce-set ((j, w) ∷ m) k v once =
    ground
      (arith, AllOnce-set m k v once.1, JsMap.get-set m k v j, text_eq_iff j k, text_eq_iff k j)

has-delete :
    (m : JsMap Text) (k j : Text)
    → JsMap.has (JsMap.delete m k) j ≡ (if text_eq k j then false else JsMap.has m j)
has-delete m k j = ground (arith, JsMap.get-delete m k j)

pub has-set :
    (m : JsMap Text) (k v j : Text)
    → JsMap.has (JsMap.set m k v) j ≡ (if text_eq k j then true else JsMap.has m j)
has-set m k v j = ground (arith, JsMap.get-set m k v j)

is_empty-set : (m : JsMap Text) (k v : Text) → is_empty (JsMap.set m k v) ≡ false
unfolding JsMap.set
is_empty-set [] k v = refl
is_empty-set ((j, w) ∷ m) k v = ground arith

has-not_empty : (m : JsMap Text) (k : Text) → JsMap.has m k ≡ true → is_empty m ≡ false
unfolding JsMap.get
has-not_empty [] k h = cc
has-not_empty ((j, w) ∷ m) k h = refl

-- The maps behind a change of those of the open kind.
pub edits-with : (e : Editor) (x : Edits) → edits_of (with_edits e x) ≡ x
unfolding with_edits
edits-with e x = rw (JsMap.get-set e.all e.kind x e.kind, text_eq_refl e.kind) refl

-- What a click makes of the maps.
abbrev pub moved_out : Edits → Text → Text → Edits
moved_out x id name = record x {
  current = JsMap.delete x.current id;
  removing = JsMap.set x.removing id name;
}

pub edits-click_current :
    (e : Editor) (i : ℕ) (id name : Text)
    → edits_of (click_current e i (some (id, name))) ≡ moved_out (edits_of e) id name
unfolding click_current add_to_removing with_edits
edits-click_current e i id name =
    let x = edits_of e in
    let y = record x { current = JsMap.delete x.current id } in
    let e' = record (with_edits e y) { current_nodes = remove_at i e.current_nodes } in
    edits-with e' _
    ∙ ap (λ (z : Edits). record z { removing = JsMap.set z.removing id name }) (edits-with e y)

pub click_current-IsListed :
    (e : Editor) (i : ℕ) (o : Option (Text × Text))
    → get_elem? e.current_nodes i ≡ o
    → IsListed e
    → IsListed (click_current e i o)
unfolding click_current add_to_removing with_edits
click_current-IsListed e i none at_i l = l
click_current-IsListed e i (some (id, name)) at_i l =
    let x = edits_of e in
    let here : get_elem? x.current i ≡ some (id, name) =
      sym (ap (λ m. get_elem? m i) l.current) ∙ at_i in
    let there = has-get x.current i id name here in
    subst (ListedAs (click_current e i (some (id, name)))) (sym (edits-click_current e i id name))
      (record {
        current =
            ap (remove_at i) l.current ∙ remove_at-delete x.current i id name l.current_once here;
        adding = l.adding;
        removing =
            ap (λ m. m ++ (id, name) ∷ []) l.removing
            ∙ sym (set-absent x.removing id name (l.apart id there));
        current_once = AllOnce-delete x.current id l.current_once;
        adding_once = l.adding_once;
        removing_once = AllOnce-set x.removing id name l.removing_once;
        apart = λ k h.
            ground (arith, h, has-delete x.current id k, has-set x.removing id name k, l.apart k);
        empty = sym (is_empty-set x.removing id name);
      })

moved_in : Edits → Text → Text → Edits
moved_in x id name = record x {
  removing = JsMap.delete x.removing id;
  current = JsMap.set x.current id name;
}

edits-click_removing :
    (e : Editor) (i : ℕ) (id name : Text)
    → edits_of (click_removing e i (some (id, name))) ≡ moved_in (edits_of e) id name
unfolding click_removing add_to_current with_edits moved_in
edits-click_removing e i id name =
    let x = edits_of e in
    let y = record x { removing = JsMap.delete x.removing id } in
    edits-with (with_edits e y) _
    ∙ ap (λ (z : Edits). record z { current = JsMap.set z.current id name }) (edits-with e y)

pub click_removing-IsListed :
    (e : Editor) (i : ℕ) (o : Option (Text × Text))
    → get_elem? e.removing_nodes i ≡ o
    → IsListed e
    → IsListed (click_removing e i o)
unfolding click_removing add_to_current with_edits moved_in
click_removing-IsListed e i none at_i l = l
click_removing-IsListed e i (some (id, name)) at_i l =
    let x = edits_of e in
    let here : get_elem? x.removing i ≡ some (id, name) =
      sym (ap (λ m. get_elem? m i) l.removing) ∙ at_i in
    let there = has-get x.removing i id name here in
    let out : JsMap.has x.current id ≡ false =
      ground (arith, l.apart id, Bool-cases (JsMap.has x.current id)) in
    subst (ListedAs (click_removing e i (some (id, name)))) (sym (edits-click_removing e i id name))
      (record {
        current = ap (λ m. m ++ (id, name) ∷ []) l.current ∙ sym (set-absent x.current id name out);
        adding = l.adding;
        removing =
            ap (remove_at i) l.removing
            ∙ remove_at-delete x.removing i id name l.removing_once here;
        current_once = AllOnce-set x.current id name l.current_once;
        adding_once = l.adding_once;
        removing_once = AllOnce-delete x.removing id l.removing_once;
        apart = λ k h.
            ground (arith, h, has-delete x.removing id k, has-set x.current id name k, l.apart k);
        empty = ground (
          arith,
          l.empty,
          has-not_empty x.removing id there,
          Bool-cases (is_empty (JsMap.delete x.removing id)),
        );
      })

pub click_adding-IsListed :
    (e : Editor) (i : ℕ) (o : Option (Text × Text))
    → get_elem? e.adding_nodes i ≡ o
    → IsListed e
    → IsListed (click_adding e i o)
unfolding click_adding with_edits
click_adding-IsListed e i none at_i l = l
click_adding-IsListed e i (some (id, name)) at_i l =
    let x = edits_of e in
    let here : get_elem? x.adding i ≡ some (id, name) =
      sym (ap (λ m. get_elem? m i) l.adding) ∙ at_i in
    subst (ListedAs (click_adding e i (some (id, name))))
      (sym (edits-with e (record x { adding = JsMap.delete x.adding id })))
      (record {
        current = l.current;
        adding = ap (remove_at i) l.adding ∙ remove_at-delete x.adding i id name l.adding_once here;
        removing = l.removing;
        current_once = l.current_once;
        adding_once = AllOnce-delete x.adding id l.adding_once;
        removing_once = l.removing_once;
        apart = l.apart;
        empty = l.empty;
      })

add_to_adding-IsListed :
    (e : Editor) (id name : Text)
    → JsMap.has (edits_of e).adding id ≡ false
    → IsListed e
    → IsListed (add_to_adding e id name)
unfolding add_to_adding with_edits
add_to_adding-IsListed e id name fresh l =
    let x = edits_of e in
    subst (ListedAs (add_to_adding e id name))
      (sym (edits-with e (record x { adding = JsMap.set x.adding id name })))
      (record {
        current = l.current;
        adding = ap (λ m. m ++ (id, name) ∷ []) l.adding ∙ sym (set-absent x.adding id name fresh);
        removing = l.removing;
        current_once = l.current_once;
        adding_once = AllOnce-set x.adding id name l.adding_once;
        removing_once = l.removing_once;
        apart = l.apart;
        empty = l.empty;
      })

pub click_searched-IsListed :
    (e : Editor) (id name : Text) → IsListed e → IsListed (click_searched e id name)
unfolding click_searched
click_searched-IsListed e id name l = elim (Bool-cases (JsMap.has (edits_of e).adding id)) [
  | inl there ↦
      let kept : click_searched e id name ≡ e =
        ap (λ b. if b || JsMap.has (edits_of e).current id then e else add_to_adding e id name)
          there in
      subst IsListed (sym kept) l
  | inr fresh ↦
      if_either IsListed (JsMap.has (edits_of e).adding id || JsMap.has (edits_of e).current id) _ _
        l (add_to_adding-IsListed e id name fresh l)
]
