-- ===== src/Common/Image/Signature.antt =====
-- What `validateImage` of common.js accepts.
use mathlib.Core.List.{Memᴰ}
use streaming_service.Base.{
  Bool, List, Option-cases, [], ap, arith, drop, false, get_elem?, if◌then◌else◌, inl, inr, length,
  length-drop, length-take, le→leb, ltb→lt, lt→ltb, none, not, refl, some, suc, sym, take, true,
  zero, ℕ, ◌++◌, ◌-◌, ◌<◌, ◌↔◌, ◌∙◌, ◌∷◌, ◌≡◌, ◌≢◌, ◌≤◌, ◌⊎◌,
}
use streaming_service.Base.Endings.{any_of-Mem, any_of-of, ends_with_of, stem_of}
use streaming_service.Base.Text.{Text, ends_with, text_eq, text_eq_iff, text_eq_refl, to_lower_case}
use streaming_service.Common.Image.{
  ImageFile, accepted, allowed_extensions, allowed_mime_types, byte_is, bytes_are, is_jpeg, is_png,
  is_webp, jpeg_bytes, png_bytes, riff_bytes, threw, validate_file_size, validate_image,
  validate_image_extension, validate_image_magic_bytes, validate_image_type, webp_bytes,
}

module _ {ℓ} {A : Type ℓ} where
  take-take : (n m : ℕ) (xs : List A) → n ≤ m → take n (take m xs) ≡ take n xs
  take-take zero m xs h = refl
  take-take (suc n) zero xs h = absurd (omega arith)
  take-take (suc n) (suc m) [] h = refl
  take-take (suc n) (suc m) (x ∷ xs) h = let rest = take-take n m xs (omega arith) in ground arith

  take_nil : (n : ℕ) → take {A = A} n [] ≡ []
  take_nil zero = refl
  take_nil (suc n) = refl

  drop-take : (n m : ℕ) (xs : List A) → drop n (take m xs) ≡ take (m - n) (drop n xs)
  drop-take zero m xs = let same : m - 0 ≡ m = omega arith in rw same
  drop-take (suc n) zero [] = ground arith
  drop-take (suc n) zero (x ∷ xs) = ground arith
  drop-take (suc n) (suc m) [] = sym (take_nil (suc m - suc n))
  drop-take (suc n) (suc m) (x ∷ xs) = let rest = drop-take n m xs in ground arith

  drop_at :
      (k : ℕ) (xs : List A) (x : A) → get_elem? xs k ≡ some x → drop k xs ≡ x ∷ drop (suc k) xs
  drop_at zero [] x h = ground arith
  drop_at zero (y ∷ xs) x h = ground arith
  drop_at (suc k) [] x h = ground arith
  drop_at (suc k) (y ∷ xs) x h = drop_at k xs x h

  drop-none : (k : ℕ) (xs : List A) → get_elem? xs k ≡ none → drop k xs ≡ []
  drop-none zero [] h = refl
  drop-none (suc k) [] h = refl
  drop-none zero (y ∷ xs) h = ground arith
  drop-none (suc k) (y ∷ xs) h = drop-none k xs h

  at_drop : (k : ℕ) (xs : List A) → (get_elem? xs k ≡ none) ⊎ ((x : A) × (get_elem? xs k ≡ some x))
  at_drop k xs = Option-cases (get_elem? xs k)

bytes_are-take :
    (k : ℕ) (vs bs : List ℕ) → (bytes_are k vs bs ≡ true) ↔ (take (length vs) (drop k bs) ≡ vs)
unfolding bytes_are byte_is
bytes_are-take k [] bs = (λ _. refl, λ _. refl)
bytes_are-take k (v ∷ vs) bs = elim (at_drop k bs) [
  | inl h ↦ (let gone = drop-none k bs h in (λ g. ground arith, λ g. ground arith))
  | inr (x, h) ↦
      (let rest = bytes_are-take (suc k) vs bs in
        let here = drop_at k bs x h in (λ g. ground (arith, rest), λ g. ground (arith, rest)))
]

-- The signatures of the three formats, by the bytes of the file alone.
pub HasSignature : List ℕ → Type 0
HasSignature bs =
    (take 8 bs ≡ png_bytes)
    ⊎ ((take 3 bs ≡ jpeg_bytes) ⊎ ((take 4 bs ≡ riff_bytes) × (take 4 (drop 8 bs) ≡ webp_bytes)))

length_of_take : (n : ℕ) (bs vs : List ℕ) → take n bs ≡ vs → length vs ≤ length bs
length_of_take n bs vs h = let taken = length-take n bs in let same = ap length h in omega arith

is_png_iff : (bs : List ℕ) → (is_png (take 12 bs) ≡ true) ↔ (take 8 bs ≡ png_bytes)
unfolding is_png
is_png_iff bs =
    let tests = bytes_are-take 0 png_bytes (take 12 bs) in
    let short = take-take 8 12 bs (omega arith) in
    (
      λ h. ground (arith, tests),
      λ h.
          let long = length_of_take 8 (take 12 bs) png_bytes (short ∙ h) in
          ground (arith, tests, le→leb 8 (length (take 12 bs)) long),
    )

is_jpeg_iff : (bs : List ℕ) → (is_jpeg (take 12 bs) ≡ true) ↔ (take 3 bs ≡ jpeg_bytes)
unfolding is_jpeg
is_jpeg_iff bs =
    let tests = bytes_are-take 0 jpeg_bytes (take 12 bs) in
    let short = take-take 3 12 bs (omega arith) in
    (
      λ h. ground (arith, tests),
      λ h.
          let long = length_of_take 3 (take 12 bs) jpeg_bytes (short ∙ h) in
          ground (arith, tests, le→leb 3 (length (take 12 bs)) long),
    )

is_webp_iff :
    (bs : List ℕ)
    → (is_webp (take 12 bs) ≡ true) ↔ ((take 4 bs ≡ riff_bytes) × (take 4 (drop 8 bs) ≡ webp_bytes))
unfolding is_webp
is_webp_iff bs =
    let riff = bytes_are-take 0 riff_bytes (take 12 bs) in
    let webp = bytes_are-take 8 webp_bytes (take 12 bs) in
    let short = take-take 4 12 bs (omega arith) in
    let inner : take 4 (drop 8 (take 12 bs)) ≡ take 4 (drop 8 bs) =
      ap (take 4) (drop-take 8 12 bs) ∙ take-take 4 4 (drop 8 bs) (omega arith) in
    (
      λ h. ground (arith, riff, webp),
      λ h.
          let long = length_of_take 4 (drop 8 (take 12 bs)) webp_bytes (inner ∙ h.1) in
          let tail = length-drop 8 (take 12 bs) in
          ground (arith, riff, webp, le→leb 12 (length (take 12 bs)) (omega arith)),
    )

-- The test of the first bytes finds a signature exactly if the file starts with one.
pub validate_image_magic_bytes_iff :
    (f : ImageFile) → (validate_image_magic_bytes f ≡ true) ↔ HasSignature f.bytes
unfolding validate_image_magic_bytes HasSignature
validate_image_magic_bytes_iff f =
    let png = is_png_iff f.bytes in
    let jpeg = is_jpeg_iff f.bytes in
    let webp = is_webp_iff f.bytes in (λ h. ground arith, λ h. ground arith)

guards :
    (a b c d : Bool) (r s t u : Text)
    → ((if not a
          then threw r
          else if not b
          then threw s
          else if not c
          then threw t
          else if not d
          then threw u
          else accepted)
        ≡ accepted)
      ↔ ((a ≡ true) × (b ≡ true) × (c ≡ true) × (d ≡ true))
guards true true true true r s t u = (λ h. (refl, refl, refl, refl), λ h. refl)
guards true true true false r s t u = (λ h. ground arith, λ h. ground arith)
guards true true false d r s t u = (λ h. ground arith, λ h. ground arith)
guards true false c d r s t u = (λ h. ground arith, λ h. ground arith)
guards false b c d r s t u = (λ h. ground arith, λ h. ground arith)

validate_image_tests :
    (f : ImageFile)
    → (validate_image (some f) ≡ accepted) ↔ (
        (validate_image_type f ≡ true)
        × (validate_image_extension f ≡ true)
        × (validate_image_magic_bytes f ≡ true)
        × (validate_file_size f ≡ true))
unfolding validate_image
validate_image_tests f =
    guards (validate_image_type f) (validate_image_extension f) (validate_image_magic_bytes f)
      (validate_file_size f) _ _ _ _

validate_image_type_iff :
    (f : ImageFile) → (validate_image_type f ≡ true) ↔ Memᴰ f.media_type allowed_mime_types
unfolding validate_image_type
validate_image_type_iff f = (
  λ h.
      let (m, there, same) = any_of-Mem (λ t. text_eq t f.media_type) allowed_mime_types h in
      rw (← (text_eq_iff m f.media_type).0 same) there,
  λ m.
      any_of-of (λ t. text_eq t f.media_type) allowed_mime_types f.media_type m
        (text_eq_refl f.media_type),
)

-- The name in lower case is a stem and one of the endings.
pub HasExtension : Text → Type 0
HasExtension name =
    (e : Text) × Memᴰ e allowed_extensions × ((stem : Text) × (to_lower_case name ≡ stem ++ e))

validate_image_extension_iff :
    (f : ImageFile) → (validate_image_extension f ≡ true) ↔ HasExtension f.name
unfolding validate_image_extension HasExtension
validate_image_extension_iff f =
    let ends = λ (e : Text). ends_with (to_lower_case f.name) e in
    (
      λ h.
          let (e, there, found) = any_of-Mem ends allowed_extensions h in
          (e, there, stem_of (to_lower_case f.name) e found),
      λ (e, there, (stem, same)).
          any_of-of ends allowed_extensions e there
            (ends_with_of (to_lower_case f.name) e stem same),
    )

-- `validateImage` accepts exactly the files that have one of the allowed types, whose name in lower
-- case is some stem and one of the endings, that start with the signature of a PNG, a JPEG or a WebP
-- file, and that have fewer than 5 · 2²⁰ bytes.
pub validate_image_iff :
    (f : ImageFile)
    → (validate_image (some f) ≡ accepted) ↔ (
        Memᴰ f.media_type allowed_mime_types
        × HasExtension f.name
        × HasSignature f.bytes
        × length f.bytes < 5242880)
unfolding validate_file_size
validate_image_iff f =
    let all = validate_image_tests f in
    let kind = validate_image_type_iff f in
    let ending = validate_image_extension_iff f in
    let magic = validate_image_magic_bytes_iff f in
    (
      λ h.
          let (a, b, c, d) = all.0 h in
          (kind.0 a, ending.0 b, magic.0 c, ltb→lt (length f.bytes) 5242880 d),
      λ (a, b, c, d). all.1 (kind.1 a, ending.1 b, magic.1 c, lt→ltb (length f.bytes) 5242880 d),
    )

-- No file that starts as a GIF does, with the letters GIF, is accepted, though image/gif is one of
-- the allowed types.
pub validate_image-no_gif :
    (f : ImageFile) (rest : List ℕ)
    → f.bytes ≡ 0x47 ∷ 0x49 ∷ 0x46 ∷ rest
    → validate_image (some f) ≢ accepted
unfolding HasSignature
validate_image-no_gif f rest gif ok =
    let (kind, ending, sign, size) = (validate_image_iff f).0 ok in ground arith
