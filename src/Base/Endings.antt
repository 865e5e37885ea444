-- ===== src/Base/Endings.antt =====
-- Laws of `endsWith` and of `some` on an array.
use mathlib.Core.List.{Memᴰ}
use streaming_service.Base.{
  Bool, Bool-cases, List, [], any_of, ap, arith, inl, inr, refl, true, ◌++◌, ◌∷◌, ◌≡◌,
}
use streaming_service.Base.Text.{Text, ends_with, text_eq, text_eq_iff, text_eq_refl}

ends_with_self : (e : Text) → ends_with e e ≡ true
unfolding ends_with
ends_with_self [] = text_eq_refl []
ends_with_self (c ∷ e) = ground (arith, text_eq_refl (c ∷ e))

ends_with-append : (stem e : Text) → ends_with (stem ++ e) e ≡ true
unfolding ends_with
ends_with-append [] e = ends_with_self e
ends_with-append (c ∷ stem) e = ground (arith, ends_with-append stem e)

pub ends_with_of : (s e stem : Text) → s ≡ stem ++ e → ends_with s e ≡ true
ends_with_of s e stem same = rw same (ends_with-append stem e)

pub stem_of : (s e : Text) → ends_with s e ≡ true → (stem : Text) × (s ≡ stem ++ e)
unfolding ends_with
stem_of [] e h = ([], (text_eq_iff [] e).0 h)
stem_of (c ∷ s) e h = elim (Bool-cases (text_eq (c ∷ s) e)) [
  | inl whole ↦ ([], (text_eq_iff (c ∷ s) e).0 whole)
  | inr part ↦ (let (stem, same) = stem_of s e (ground arith) in (c ∷ stem, ap (◌∷◌ c) same))
]

pub any_of-Mem :
    {A : Type 0} (p : A → Bool) (xs : List A)
    → any_of p xs ≡ true
    → (x : A) × Memᴰ x xs × (p x ≡ true)
any_of-Mem p [] h = absurd (ground arith)
any_of-Mem p (x ∷ xs) h = elim (Bool-cases (p x)) [
  | inl here ↦ (x, Memᴰ.head refl, here)
  | inr not_here ↦ (let (y, m, good) = any_of-Mem p xs (ground arith) in (y, Memᴰ.tail m, good))
]

pub any_of-of :
    {A : Type 0} (p : A → Bool) (xs : List A) (x : A) → Memᴰ x xs → p x ≡ true → any_of p xs ≡ true
any_of-of p [] y m h = elim m [ ]
any_of-of p (x ∷ xs) y (Memᴰ.head same) h = let here : p x ≡ true = rw (← same) h in ground arith
any_of-of p (x ∷ xs) y (Memᴰ.tail m) h = let rest = any_of-of p xs y m h in ground arith
