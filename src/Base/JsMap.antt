-- ===== src/Base/JsMap.antt =====
-- A JavaScript `Map` with text keys: an association list in insertion order. `set` on a key that
-- is there keeps its place.
use Prim.Native.Nat.{suc, ◌≤◌}
use mathlib.Core.Path.{◌≡◌, refl}
use mathlib.Core.Bool.{Bool}
use mathlib.Core.Option.{Option, none, some}
use mathlib.Core.List.{List, [], ◌∷◌}
use native.Mathlib.Omega.{arith}
use streaming_service.Base.{if◌then◌else◌, is_some, length}
use streaming_service.Base.Text.{Text, text_eq, text_eq_iff}

abbrev pub JsMap {ℓ} : Type ℓ → Type ℓ
JsMap V = List (Text × V)

module _ {ℓ} {V : Type ℓ} where
  unfoldable pub get : JsMap V → Text → Option V
  get [] k = none
  get ((j, v) ∷ m) k = if text_eq j k then some v else get m k

  unfoldable pub set : JsMap V → Text → V → JsMap V
  set [] k v = (k, v) ∷ []
  set ((j, w) ∷ m) k v = if text_eq j k then (j, v) ∷ m else (j, w) ∷ set m k v

  unfoldable pub delete : JsMap V → Text → JsMap V
  delete [] k = []
  delete ((j, w) ∷ m) k = if text_eq j k then delete m k else (j, w) ∷ delete m k

  abbrev pub has : JsMap V → Text → Bool
  has m k = is_some (get m k)

  abbrev pub keys : JsMap V → List Text
  keys [] = []
  keys ((k, _) ∷ m) = k ∷ keys m

  abbrev pub values : JsMap V → List V
  values [] = []
  values ((_, v) ∷ m) = v ∷ values m

  pub get-set :
      (m : JsMap V) (k : Text) (v : V) (j : Text)
      → get (set m k v) j ≡ (if text_eq k j then some v else get m j)
  unfolding get set
  get-set [] k v j = refl
  get-set ((i, w) ∷ m) k v j =
      ground (arith, text_eq_iff k j, text_eq_iff i k, text_eq_iff i j, get-set m k v j)

  pub get-delete :
      (m : JsMap V) (k j : Text) → get (delete m k) j ≡ (if text_eq k j then none else get m j)
  unfolding get delete
  get-delete [] k j = ground arith
  get-delete ((i, w) ∷ m) k j =
      ground (arith, text_eq_iff k j, text_eq_iff i k, text_eq_iff i j, get-delete m k j)

  pub length-set :
      (m : JsMap V) (k : Text) (v : V)
      → length (set m k v) ≡ (if is_some (get m k) then length m else suc (length m))
  unfolding get set
  length-set [] k v = refl
  length-set ((i, w) ∷ m) k v = ground (arith, length-set m k v)

  pub length-delete-le : (m : JsMap V) (k : Text) → length (delete m k) ≤ length m
  unfolding delete
  length-delete-le [] k = omega arith
  length-delete-le ((i, w) ∷ m) k = ground (arith, length-delete-le m k)
