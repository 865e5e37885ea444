-- ===== src/Tests/Common.antt =====
-- Runs of the models of common.js.
use mathlib.Core.List.{Memᴰ}
use streaming_service.Base.{[], is_some, none, refl, some, true, ◌<◌, ◌↔◌, ◌∷◌, ◌≡◌}
use streaming_service.Base.Text.{Text, codes, ends_with, text_eq, to_lower_case}
use streaming_service.Common.Image.{ImageFile, accepted, allowed_mime_types, validate_image}
use streaming_service.Common.Image.Signature.{HasExtension, HasSignature, validate_image_iff}
use streaming_service.Common.Request.{
  Browser, Options, Response, api_request, api_request_sends, count_if, is_fetch, is_refresh,
}

abbrev page : Browser
page = record {
  cookie = codes "a=b; XSRF-TOKEN=t1";
  pathname = codes "/page/browse";
  search = codes "?p=2";
}

abbrev later_page : Browser
later_page = record page { cookie = codes "XSRF-TOKEN=t2" }

abbrev a_post : Options
a_post = record { method = some (codes "post"); headers = none }

abbrev denied : Response
denied = record { status = 401; body = [] }

abbrev fine : Response
fine = record { status = 200; body = [] }

abbrev encode : Text → Text
encode t = t

-- The login is refreshed and the request is sent again with the new token.
api_request_sends_example :
    let done = api_request encode (codes "/x") a_post page denied fine later_page fine in
    (count_if is_fetch done.1 ≡ 2) × (count_if is_refresh done.1 ≡ 1) × (is_some done.0 ≡ true)
api_request_sends_example =
    api_request_sends encode (codes "/x") a_post page denied fine later_page fine

abbrev picture : ImageFile
picture = record {
  name = codes "A.PNG";
  media_type = codes "image/png";
  bytes = 0x89 ∷ 0x50 ∷ 0x4E ∷ 0x47 ∷ 0x0D ∷ 0x0A ∷ 0x1A ∷ 0x0A ∷ 0 ∷ [];
}

picture_accepted : validate_image (some picture) ≡ accepted
unfolding validate_image text_eq ends_with to_lower_case
picture_accepted = refl

validate_image_iff_example : (validate_image (some picture) ≡ accepted) ↔ (
    Memᴰ picture.media_type allowed_mime_types
    × HasExtension picture.name
    × HasSignature picture.bytes
    × 9 < 5242880)
validate_image_iff_example = validate_image_iff picture
