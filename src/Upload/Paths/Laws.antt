-- ===== src/Upload/Paths/Laws.antt =====
-- Where an upload goes, and under what title: `getDirPath` and `endVideoMediaSession` of
-- manage-upload-file.js.
use native.Mathlib.Numerals.{add-one}
use streaming_service.Base.{
  All, All-append, Bool-cases, [], ap, append_assoc, arith, drop, false, inl, inr, length, none,
  refl, some, suc, take, true, zero, ℕ, ◌%◌, ◌++◌, ◌-◌, ◌<◌, ◌==◌, ◌^◌, ◌∙◌, ◌∷◌, ◌≡◌, ◌≤◌,
}
use streaming_service.Base.Text.{Text, codes, ends_with, index_of, last_index_of, text_eq}
use streaming_service.Upload.Paths.{
  base_name, get_dir_path, root_omitted, strip_first, strip_last, title_end, video_title,
}

abbrev Free : ℕ → Text → Type 0
Free c s = All (λ x. (x == c) ≡ false) s

index_of-append : (c : ℕ) (s t : Text) → Free c s → index_of c (s ++ c ∷ t) ≡ some (length s)
unfolding index_of
index_of-append c [] t f = ground arith
index_of-append c (x ∷ s) t f = rw (f.0, index_of-append c s t f.1)

last_index_of-none : (c : ℕ) (s : Text) → Free c s → last_index_of c s ≡ none
unfolding last_index_of
last_index_of-none c [] f = refl
last_index_of-none c (x ∷ s) f = rw (last_index_of-none c s f.1, f.0)

last_index_of-append :
    (c : ℕ) (s t : Text) → Free c t → last_index_of c (s ++ c ∷ t) ≡ some (length s)
unfolding last_index_of
last_index_of-append c [] t f = rw (last_index_of-none c t f) (ground arith)
last_index_of-append c (x ∷ s) t f = rw (last_index_of-append c s t f)

drop_past : (c : ℕ) (s t : Text) → drop (suc (length s)) (s ++ c ∷ t) ≡ t
drop_past c [] t = refl
drop_past c (x ∷ s) t = drop_past c s t

take-append : (s t : Text) → take (length s) (s ++ t) ≡ s
take-append [] t = refl
take-append (x ∷ s) t = ap (x ∷◌) (take-append s t)

take_past : (n : ℕ) (s : Text) → length s ≤ n → take n s ≡ s
take_past zero [] h = refl
take_past zero (x ∷ s) h = absurd (omega arith)
take_past (suc n) [] h = refl
take_past (suc n) (x ∷ s) h = ap (x ∷◌) (take_past n s (omega arith))

ends_with-snoc : (c : ℕ) (s : Text) → ends_with (s ++ c ∷ []) (c ∷ []) ≡ true
unfolding ends_with
ends_with-snoc c [] = ground arith
ends_with-snoc c (x ∷ s) = ground (arith, ends_with-snoc c s)

text_eq-append_nil : (s : Text) (x : ℕ) (t : Text) → text_eq (s ++ x ∷ t) [] ≡ false
unfolding text_eq
text_eq-append_nil [] x t = refl
text_eq-append_nil (y ∷ s) x t = refl

ends_with-append :
    (c : ℕ) (s : Text) (x : ℕ) (t : Text)
    → ends_with (s ++ x ∷ t) (c ∷ []) ≡ ends_with (x ∷ t) (c ∷ [])
unfolding ends_with
ends_with-append c [] x t = refl
ends_with-append c (y ∷ s) x t = rw text_eq-append_nil (ground (arith, ends_with-append c s x t))

title_end-append :
    (stem ext : Text)
    → 0 < length stem
    → length stem < 2 ^ 32
    → Free b'.' ext
    → title_end (stem ++ b'.' ∷ ext) ≡ length stem
unfolding title_end
title_end-append stem ext h k f =
    rw (last_index_of-append b'.' stem ext f) (ground (arith, small (length stem) k))
  where
    small : (n : ℕ) → n < 2 ^ 32 → n % 2 ^ 32 ≡ n
    small n h = omega arith

base_name-append : (dir s : Text) → Free b'/' s → base_name (dir ++ b'/' ∷ s) ≡ s
unfolding base_name
base_name-append dir s f =
    rw (last_index_of-append b'/' dir s f, base_name) (rw add-one (drop_past b'/' dir s))

-- The title of a video in any folder is its file name without the extension.
pub video_title-stem :
    (dir stem ext : Text)
    → 0 < length stem
    → length stem < 2 ^ 32
    → Free b'/' stem
    → Free b'/' ext
    → Free b'.' ext
    → video_title (dir ++ b'/' ∷ (stem ++ b'.' ∷ ext)) ≡ stem
unfolding video_title
video_title-stem dir stem ext h k fs fe fd =
    rw
      (
        base_name-append dir (stem ++ b'.' ∷ ext)
            (All-append (λ x. (x == b'/') ≡ false) stem (b'.' ∷ ext) fs (refl, fe)),
        title_end-append stem ext h k fd,
      )
      (take-append stem (b'.' ∷ ext))

title_end_whole :
    (c : ℕ) (rest : Text)
    → Free b'.' rest
    → length (c ∷ rest) < 2 ^ 32 - 1
    → take (title_end (c ∷ rest)) (c ∷ rest) ≡ c ∷ rest
unfolding title_end last_index_of
title_end_whole c rest fd h = elim (Bool-cases (c == b'.')) [
  | inl e ↦
      rw (last_index_of-none b'.' rest fd, title_end, e)
        (take_past (length (c ∷ rest)) (c ∷ rest) (omega arith))
  | inr e ↦
      rw (last_index_of-none b'.' rest fd, title_end, e)
        (take_past (2 ^ 32 - 1) (c ∷ rest) (omega arith))
]

-- A name with no dot, or with one only at its front, is the title itself.
pub video_title_whole :
    (dir rest : Text) (c : ℕ)
    → Free b'/' (c ∷ rest)
    → Free b'.' rest
    → length (c ∷ rest) < 2 ^ 32 - 1
    → video_title (dir ++ b'/' ∷ c ∷ rest) ≡ c ∷ rest
unfolding video_title
video_title_whole dir rest c fs fd h =
    rw (base_name-append dir (c ∷ rest) fs) (title_end_whole c rest fd h)

strip_last_keep : (s : Text) → ends_with s (b'/' ∷ []) ≡ false → strip_last s ≡ s
unfolding strip_last
strip_last_keep s h = rw h

root_omitted-append : (root s : Text) → Free b'/' root → root_omitted (root ++ b'/' ∷ s) ≡ s
unfolding root_omitted
root_omitted-append root s f =
    rw (index_of-append b'/' root s f, root_omitted) (rw add-one (drop_past b'/' root s))

ends_with_nil : ends_with [] (codes "/") ≡ false
unfolding ends_with
ends_with_nil = refl

-- In the root folder a file is uploaded under its own name, and in a folder below the root under
-- the path of the folder without the root, and its name.
pub get_dir_path-name :
    (root : Text) (d : ℕ) (dir : Text) (c : ℕ) (name : Text)
    → Free b'/' root
    → (d == b'/') ≡ false
    → (c == b'/') ≡ false
    → ends_with (c ∷ name) (codes "/") ≡ false
    → (get_dir_path (root ++ b'/' ∷ []) (some (c ∷ name)) ≡ c ∷ name)
      × (get_dir_path (root ++ b'/' ∷ (d ∷ dir ++ b'/' ∷ [])) (some (c ∷ name))
          ≡ d ∷ dir ++ b'/' ∷ c ∷ name)
unfolding get_dir_path strip_first
get_dir_path-name root d dir c name f hd hc he = (
  rw (root_omitted-append root [] f, ends_with_nil) (strip_last_keep (c ∷ name) he),
  rw
      (
        root_omitted-append root (d ∷ dir ++ b'/' ∷ []) f,
        ends_with-snoc b'/' (d ∷ dir),
        hd,
        append_assoc,
      )
      (strip_last_keep (d ∷ dir ++ b'/' ∷ c ∷ name) (
        ends_with-append b'/' (d ∷ dir) b'/' (c ∷ name)
        ∙ ends_with-append b'/' (b'/' ∷ []) c name
        ∙ he)),
)
