-- ===== src/Base/Text.antt =====
-- JavaScript strings: a text is the list of its UTF-16 code units.
use Prim.Native.Char.{code}
use Prim.Native.Nat.{ℕ, zero, suc, ◌+◌, ◌/◌, ◌%◌}
use Prim.Native.String.{String}
use mathlib.Core.Path.{◌≡◌, refl}
use mathlib.Core.Logic.{◌↔◌}
use mathlib.Core.Bool.{Bool, true, false, ◌&&◌, ◌||◌}
use mathlib.Core.Option.{Option, none, some}
use mathlib.Core.List.{List, [], ◌∷◌, map, reverse}
use native.Mathlib.Omega.{arith}
use streaming_service.Base.Tests.{if◌then◌else◌, ◌==◌, leb}

abbrev pub Text : Type 0
Text = List ℕ

-- An ASCII literal.
abbrev pub codes : String → Text
codes String.[] = []
codes (String.◌∷◌ c s) = code c ∷ codes s

-- `a === b`
unfoldable pub text_eq : Text → Text → Bool
text_eq [] [] = true
text_eq [] (_ ∷ _) = false
text_eq (_ ∷ _) [] = false
text_eq (x ∷ xs) (y ∷ ys) = x == y && text_eq xs ys

pub text_eq_iff : (s t : Text) → (text_eq s t ≡ true) ↔ (s ≡ t)
unfolding text_eq
text_eq_iff [] [] = (λ _. refl, λ _. refl)
text_eq_iff [] (y ∷ t) = (λ h. cc, λ h. cc)
text_eq_iff (x ∷ s) [] = (λ h. cc, λ h. cc)
text_eq_iff (x ∷ s) (y ∷ t) =
    (λ h. ground (arith, text_eq_iff s t), λ h. ground (arith, text_eq_iff s t))

pub text_eq_refl : (s : Text) → text_eq s s ≡ true
text_eq_refl s = (text_eq_iff s s).1 refl

-- `s.startsWith(prefix)`
unfoldable pub starts_with : Text → Text → Bool
starts_with s [] = true
starts_with [] (_ ∷ _) = false
starts_with (x ∷ s) (y ∷ p) = x == y && starts_with s p

-- `s.endsWith(suffix)`: the text, or one that is left when characters go from its front.
unfoldable pub ends_with : Text → Text → Bool
unfolding text_eq
ends_with [] p = text_eq [] p
ends_with (x ∷ s) p = text_eq (x ∷ s) p || ends_with s p

-- `s.includes(part)`
unfoldable pub includes : Text → Text → Bool
unfolding starts_with
includes [] p = starts_with [] p
includes (x ∷ s) p = starts_with (x ∷ s) p || includes s p

-- `s.toLowerCase()` on the ASCII range, where the program uses it for tests.
unfoldable pub lower_unit : ℕ → ℕ
lower_unit c = if leb b'A' c && leb c b'Z' then c + 32 else c

unfoldable pub to_lower_case : Text → Text
unfolding lower_unit
to_lower_case = map lower_unit

-- `s.indexOf(c)` for one code unit.
unfoldable pub index_of : ℕ → Text → Option ℕ
index_of c [] = none
index_of c (x ∷ s) =
    if x == c then some 0 else elim (index_of c s) [ none ↦ none | some i ↦ some (suc i) ]

-- `s.lastIndexOf(c)` for one code unit.
unfoldable pub last_index_of : ℕ → Text → Option ℕ
last_index_of c [] = none
last_index_of c (x ∷ s) = elim (last_index_of c s) [
  | some i ↦ some (suc i)
  | none ↦ if x == c then some 0 else none
]

-- ASCII white space, as `trim` and `\s` read it.
unfoldable pub is_space : ℕ → Bool
is_space c = c == 32 || (leb 9 c && leb c 13)

unfoldable pub trim_start : Text → Text
unfolding is_space
trim_start [] = []
trim_start (c ∷ s) = if is_space c then trim_start s else c ∷ s

-- `s.trim()`
unfoldable pub trim : Text → Text
unfolding trim_start
trim s = reverse (trim_start (reverse (trim_start s)))

unfoldable pub decimal_loop : ℕ → ℕ → Text → Text
decimal_loop zero n acc = acc
decimal_loop (suc fuel) n acc =
    let rest = decimal_loop fuel (n / 10) ((48 + n % 10) ∷ acc) in
    if leb n 9 then (48 + n) ∷ acc else rest

-- `n.toString()`: the decimal digits of a number; each round takes one off, and `n + 1` rounds
-- are enough.
unfoldable pub decimal : ℕ → Text
unfolding decimal_loop
decimal n = decimal_loop (suc n) n []

-- A value that may be null is truthy if it is there and not empty.
unfoldable pub truthy : Option Text → Bool
truthy none = false
truthy (some []) = false
truthy (some (_ ∷ _)) = true

-- Equality of values that may be null.
unfoldable pub opt_eq : Option Text → Option Text → Bool
unfolding text_eq
opt_eq none none = true
opt_eq none (some _) = false
opt_eq (some _) none = false
opt_eq (some s) (some t) = text_eq s t

pub opt_eq_iff : (a b : Option Text) → (opt_eq a b ≡ true) ↔ (a ≡ b)
unfolding opt_eq
opt_eq_iff none none = (λ _. refl, λ _. refl)
opt_eq_iff none (some t) = (λ h. cc, λ h. cc)
opt_eq_iff (some s) none = (λ h. cc, λ h. cc)
opt_eq_iff (some s) (some t) =
    (λ h. ground (arith, text_eq_iff s t), λ h. ground (arith, text_eq_iff s t))
