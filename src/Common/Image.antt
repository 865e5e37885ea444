-- ===== src/Common/Image.antt =====
-- `validateImage` of common.js and the checks it is made of.
pub mod Signature
use streaming_service.Base.{
  Bool, List, Option, [], any_of, false, get_elem?, if◌then◌else◌, leb, length, ltb, none, not,
  some, suc, take, true, ℕ, ◌&&◌, ◌*◌, ◌++◌, ◌==◌, ◌||◌, ◌∷◌,
}
use streaming_service.Base.Text.{Text, codes, decimal, ends_with, text_eq, to_lower_case}

pub record ImageFile : Type 0 where
  pub name : Text
  pub media_type : Text
  pub bytes : List ℕ

-- The end of a call: `true`, or the message of the error that is thrown.
pub data Verdict : Type 0 where
  accepted : Verdict
  threw : Text → Verdict

-- `texts.join(', ')`
join : List Text → Text
join [] = []
join (t ∷ []) = t
join (t ∷ u ∷ ts) = t ++ (codes ", " ++ join (u ∷ ts))

abbrev pub allowed_mime_types : List Text
allowed_mime_types =
    codes "image/png"
    ∷ codes "image/jpeg"
    ∷ codes "image/jpg"
    ∷ codes "image/gif"
    ∷ codes "image/webp"
    ∷ []

abbrev pub allowed_extensions : List Text
allowed_extensions = codes ".png" ∷ codes ".jpg" ∷ codes ".jpeg" ∷ codes "gif" ∷ codes ".webp" ∷ []

unfoldable pub validate_image_type : ImageFile → Bool
validate_image_type f = any_of (λ t. text_eq t f.media_type) allowed_mime_types

unfoldable pub validate_image_extension : ImageFile → Bool
validate_image_extension f =
    let name = to_lower_case f.name in any_of (λ ext. ends_with name ext) allowed_extensions

abbrev pub max_size_mb : ℕ
max_size_mb = 5

unfoldable pub validate_file_size : ImageFile → Bool
validate_file_size f = ltb (length f.bytes) (max_size_mb * 1024 * 1024)

byte_is : Option ℕ → ℕ → Bool
byte_is none v = false
byte_is (some b) v = b == v

-- `bytes[k] === v && bytes[k + 1] === w && …` for the values `v`, `w`, …
unfoldable pub bytes_are : ℕ → List ℕ → List ℕ → Bool
unfolding byte_is
bytes_are k [] bytes = true
bytes_are k (v ∷ vs) bytes = byte_is (get_elem? bytes k) v && bytes_are (suc k) vs bytes

abbrev pub png_bytes : List ℕ
png_bytes = 0x89 ∷ 0x50 ∷ 0x4E ∷ 0x47 ∷ 0x0D ∷ 0x0A ∷ 0x1A ∷ 0x0A ∷ []

abbrev pub jpeg_bytes : List ℕ
jpeg_bytes = 0xFF ∷ 0xD8 ∷ 0xFF ∷ []

abbrev pub riff_bytes : List ℕ
riff_bytes = 0x52 ∷ 0x49 ∷ 0x46 ∷ 0x46 ∷ []

abbrev pub webp_bytes : List ℕ
webp_bytes = 0x57 ∷ 0x45 ∷ 0x42 ∷ 0x50 ∷ []

is_png : List ℕ → Bool
unfolding bytes_are
is_png bytes = leb 8 (length bytes) && bytes_are 0 png_bytes bytes

is_jpeg : List ℕ → Bool
unfolding bytes_are
is_jpeg bytes = leb 3 (length bytes) && bytes_are 0 jpeg_bytes bytes

is_webp : List ℕ → Bool
unfolding bytes_are
is_webp bytes =
    leb 12 (length bytes) && (bytes_are 0 riff_bytes bytes && bytes_are 8 webp_bytes bytes)

unfoldable pub validate_image_magic_bytes : ImageFile → Bool
unfolding is_png is_jpeg is_webp
validate_image_magic_bytes f =
    let bytes = take 12 f.bytes in is_png bytes || (is_jpeg bytes || is_webp bytes)

unfoldable pub validate_image : Option ImageFile → Verdict
unfolding validate_image_type validate_image_extension validate_image_magic_bytes validate_file_size
    join
validate_image none = threw (codes "No file provided")
validate_image (some f) =
    if not (validate_image_type f)
    then threw (codes "Invalid file type. Allowed types: " ++ join allowed_mime_types)
    else if not (validate_image_extension f)
    then threw (codes "Invalid file extension. Allowed extensions: " ++ join allowed_extensions)
    else if not (validate_image_magic_bytes f)
    then threw (codes "Invalid image file signature")
    else if not (validate_file_size f)
    then threw (codes "File too large (max " ++ (decimal max_size_mb ++ codes "MB)"))
    else accepted
