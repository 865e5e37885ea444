-- ===== src/Common/Request.antt =====
-- `apiRequest`, `getCsrfToken` and `redirectToLogin` of common.js.
use streaming_service.Base.JsMap
use streaming_service.Base.{
  Bool, List, Option, [], any_of, arith, drop, false, if◌then◌else◌, is_some, leb, map, none, not,
  refl, some, true, ℕ, ◌&&◌, ◌++◌, ◌+◌, ◌-◌, ◌==◌, ◌∙◌, ◌∷◌, ◌≡◌,
}
use streaming_service.Base.JsMap.{JsMap}
use streaming_service.Base.Text.{Text, codes, starts_with, text_eq}

pub record Response : Type 0 where
  pub status : ℕ
  pub body : Text

-- `response.ok`
abbrev pub is_ok : Response → Bool
is_ok r = leb 200 r.status && leb r.status 299

pub record Options : Type 0 where
  pub method : Option Text
  pub headers : Option (JsMap (Option Text))

-- `document.cookie`, decoded, is read whenever a token is needed; the answers to a refresh may
-- change it. The address tells if the login page is open.
pub record Browser : Type 0 where
  pub cookie : Text
  pub pathname : Text
  pub search : Text

-- What the call does: requests with their headers, the refresh with its token, and a redirect.
pub data Effect : Type 0 where
  fetched : Text → Option (JsMap (Option Text)) → Effect
  refreshed : Option Text → Effect
  redirected : Text → Effect

-- `decoded.split('; ')`
pub split_cookie : Text → List Text
split_cookie [] = [] ∷ []
split_cookie (c ∷ []) = (c ∷ []) ∷ []
split_cookie (c ∷ d ∷ s) =
    let skip = split_cookie s in
    let step = split_cookie (d ∷ s) in
    if c == b';' && d == b' '
    then [] ∷ skip
    else elim step [ [] ↦ (c ∷ []) ∷ [] | part ∷ rest ↦ (c ∷ part) ∷ rest ]

token_of : List Text → Option Text
token_of [] = none
token_of (part ∷ rest) =
    if starts_with part (codes "XSRF-TOKEN=") then some (drop 11 part) else token_of rest

unfoldable pub get_csrf_token : Text → Option Text
unfolding split_cookie token_of
get_csrf_token cookie = token_of (split_cookie cookie)

abbrev pub token_header : Text
token_header = codes "X-XSRF-TOKEN"

upper_unit : ℕ → ℕ
upper_unit c = if leb b'a' c && leb c b'z' then c - 32 else c

-- `["POST","PUT","DELETE","PATCH"].includes(options.method?.toUpperCase())`
unfoldable pub changes_state : Option Text → Bool
unfolding upper_unit
changes_state none = false
changes_state (some m) =
    any_of (λ w. text_eq w (map upper_unit m))
      (codes "POST" ∷ codes "PUT" ∷ codes "DELETE" ∷ codes "PATCH" ∷ [])

with_token : Option (JsMap (Option Text)) → Option Text → JsMap (Option Text)
with_token none token = JsMap.set [] token_header token
with_token (some h) token = JsMap.set h token_header token

unfoldable pub first_headers : Options → Browser → Option (JsMap (Option Text))
unfolding with_token changes_state get_csrf_token
first_headers o b =
    if changes_state o.method
    then some (with_token o.headers (get_csrf_token b.cookie))
    else o.headers

-- `if (options.headers) options.headers[CSRF_TOKEN_HEADER] = getCsrfToken()`
retry_headers : Option (JsMap (Option Text)) → Browser → Option (JsMap (Option Text))
unfolding with_token get_csrf_token
retry_headers none b = none
retry_headers (some h) b = some (with_token (some h) (get_csrf_token b.cookie))

-- `encodeURIComponent` stands for itself.
module _ (encode : Text → Text) where
  unfoldable pub redirect_to_login : Browser → List Effect
  redirect_to_login b =
      if text_eq b.pathname (codes "/page/login")
      then []
      else redirected (codes "/page/login" ++ (codes "?r=" ++ encode (b.pathname ++ b.search))) ∷ []

  after_refresh :
      Text
      → Option (JsMap (Option Text))
      → Browser
      → Response
      → Response
      → Option Response × List Effect
  unfolding retry_headers redirect_to_login
  after_refresh url headers b refresh second =
      if is_ok refresh
      then (some second, fetched url (retry_headers headers b) ∷ [])
      else (none, redirect_to_login b)

  -- The result (`none` is `undefined`) and the effects in order. `first` and `second` answer the
  -- two sends, `refresh` the refresh, after which the browser is `later`.
  unfoldable pub api_request :
      Text
      → Options
      → Browser
      → Response
      → Response
      → Browser
      → Response
      → Option Response × List Effect
  unfolding first_headers after_refresh
  api_request url o b first refresh later second =
      let headers = first_headers o b in
      if first.status == 401
      then (let (result, effects) = after_refresh url headers later refresh second in
          (result, fetched url headers ∷ refreshed (get_csrf_token b.cookie) ∷ effects))
      else (some first, fetched url headers ∷ [])

pub is_fetch : Effect → Bool
is_fetch (fetched _ _) = true
is_fetch (refreshed _) = false
is_fetch (redirected _) = false

pub is_refresh : Effect → Bool
is_refresh (fetched _ _) = false
is_refresh (refreshed _) = true
is_refresh (redirected _) = false

abbrev pub count_if : (Effect → Bool) → List Effect → ℕ
count_if p [] = 0
count_if p (e ∷ es) = (if p e then 1 else 0) + count_if p es

-- A request is sent at most twice, and twice exactly if the first answer was 401 and the refresh
-- succeeded; the login is refreshed at most once, and exactly if the first answer was 401; and
-- `undefined` is returned exactly if the refresh failed.
pub api_request_sends :
    (encode : Text → Text) (url : Text) (o : Options) (b : Browser) (first refresh : Response)
    (later : Browser) (second : Response)
    → let done = api_request encode url o b first refresh later second in
      let denied = first.status == 401 in
      (count_if is_fetch done.1 ≡ (if denied && is_ok refresh then 2 else 1))
      × (count_if is_refresh done.1 ≡ (if denied then 1 else 0))
      × (is_some done.0 ≡ not (denied && not (is_ok refresh)))
unfolding api_request after_refresh redirect_to_login is_fetch is_refresh
api_request_sends encode url o b first refresh later second =
    (ground arith, ground arith, ground arith)

pub header_of : Option (JsMap (Option Text)) → Option (Option Text)
header_of none = none
header_of (some h) = JsMap.get h token_header

-- The headers of the sends of the request, in order.
pub sent_headers : List Effect → List (Option (JsMap (Option Text)))
sent_headers [] = []
sent_headers (fetched _ h ∷ es) = h ∷ sent_headers es
sent_headers (refreshed _ ∷ es) = sent_headers es
sent_headers (redirected _ ∷ es) = sent_headers es

with_token-get :
    (h : Option (JsMap (Option Text))) (t : Option Text)
    → JsMap.get (with_token h t) token_header ≡ some t
unfolding with_token text_eq
with_token-get none t = JsMap.get-set [] token_header t token_header ∙ refl
with_token-get (some h) t = JsMap.get-set h token_header t token_header ∙ refl

-- A request that changes state carries the token of the cookie at its time, on the first send and
-- on the one after a refresh.
pub api_request_tokens :
    (encode : Text → Text) (url : Text) (o : Options) (b : Browser) (first refresh : Response)
    (later : Browser) (second : Response)
    → changes_state o.method ≡ true
    → map header_of (sent_headers (api_request encode url o b first refresh later second).1) ≡ (
        if (first.status == 401) && is_ok refresh
        then some (get_csrf_token b.cookie) ∷ some (get_csrf_token later.cookie) ∷ []
        else some (get_csrf_token b.cookie) ∷ [])
unfolding api_request after_refresh redirect_to_login first_headers retry_headers header_of
    sent_headers
api_request_tokens encode url o b first refresh later second h = ground (
  arith,
  with_token-get o.headers (get_csrf_token b.cookie),
  with_token-get (some (with_token o.headers (get_csrf_token b.cookie)))
      (get_csrf_token later.cookie),
)

-- On the login page a failed refresh redirects nowhere, so the page does not load itself again.
pub api_request_no_loop :
    (encode : Text → Text) (url : Text) (o : Options) (b : Browser) (first refresh : Response)
    (later : Browser) (second : Response)
    → first.status ≡ 401
    → is_ok refresh ≡ false
    → (api_request encode url o b first refresh later second).1
      ≡ fetched url (first_headers o b)
        ∷ refreshed (get_csrf_token b.cookie)
        ∷ (if text_eq later.pathname (codes "/page/login")
            then []
            else redirected
                (codes "/page/login" ++ (codes "?r=" ++ encode (later.pathname ++ later.search)))
              ∷ [])
unfolding api_request after_refresh redirect_to_login
api_request_no_loop encode url o b first refresh later second h k = ground arith
