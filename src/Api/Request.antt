-- ===== src/Api/Request.antt =====
-- web/src/lib/api/orval-mutator.ts: `orvalInstance`, which sends a call and reads the answer. The
-- URL encoding, the conversions to text, `fetch` and `res.json()` are parameters.
pub mod Sent
pub mod Answer
use dockstack.Prelude.{
  ℕ, Bool, true, false, not, ◌&&◌, ◌||◌, Option, none, some, List, [], ◌∷◌, ◌++◌, any, text_eq,
  Text, codes, ◌==◌, ltb, leb, if◌then◌else◌,
}
use dockstack.Api.{Method, get, Call}
use dockstack.Logs.Json.{Json, null, boolean, number, string, array, object, get as get_field}

-- a property of an object literal that may be missing, or there with the value `undefined`
pub data Slot {ℓ} (A : Type ℓ) : Type ℓ where
  absent undefined : Slot A
  present : A → Slot A

-- a list of name and value; the names of `Headers` are compared in lower case
abbrev pub Headers : Type 0
Headers = List (Text × Text)

-- the `config` without `params`: what is spread into the options of `fetch`
pub record Init : Type 0 where
  pub method : Slot Method
  pub headers : Slot Headers
  pub body : Slot Text
  pub credentials : Slot Text

pub record Platform : Type 0 where
  pub to_lower_case : Text → Text
  pub encode : List (Text × Text) → Text

-- what `fetch` is called with
pub record Request : Type 0 where
  pub path : Text
  pub method : Method
  pub credentials : Text
  pub headers : Headers
  pub body : Option Text

abbrev pub content_type : Text
content_type = codes "Content-Type"

abbrev pub json_type : Text
json_type = codes "application/json"

pub has_header : Platform → Text → Headers → Bool
has_header p name headers =
    any (λ (h : Text × Text). text_eq (p.to_lower_case h.0) (p.to_lower_case name)) headers

abbrev pub given {ℓ} : {A : Type ℓ} → A → Slot A → A
given d absent = d
given d undefined = d
given d (present a) = a

-- `params` whose value is not `undefined`, converted to texts
pub search_params : List (Text × Option Text) → List (Text × Text)
search_params [] = []
search_params ((key, none) ∷ params) = search_params params
search_params ((key, some value) ∷ params) = (key, value) ∷ search_params params

with_query : Text → Text → Text
with_query url [] = url
with_query url (c ∷ cs) = url ++ (codes "?" ++ c ∷ cs)

-- `init.body` as a condition
unfoldable pub has_body : Slot Text → Bool
has_body (present (c ∷ cs)) = true
has_body (present []) = false
has_body undefined = false
has_body absent = false

-- the `headers` of the function: those of `init`, and a default for the content type
pub headers_of : Platform → Init → Headers
unfolding has_header has_body
headers_of p init =
    let headers = given [] init.headers in
    if has_body init.body && not (has_header p content_type headers)
    then headers ++ (content_type, json_type) ∷ []
    else headers

-- `{ credentials: "same-origin", headers, ...init }`: what `init` holds goes before
pub spread {ℓ} : {A : Type ℓ} → A → A → Slot A → A
spread own default absent = own
spread own default undefined = default
spread own default (present a) = a

abbrev to_option : Slot Text → Option Text
to_option (present b) = some b
to_option undefined = none
to_option absent = none

pub request : Platform → Text → List (Text × Option Text) → Init → Request
unfolding search_params with_query headers_of spread
request p url params init = record {
  path = with_query url (p.encode (search_params params));
  method = given get init.method;
  credentials = spread (codes "same-origin") (codes "same-origin") init.credentials;
  headers = spread (headers_of p init) [] init.headers;
  body = to_option init.body;
}

-- `{ ...options, method, headers: { 'Content-Type': ..., ...getHeaders(options?.headers) }, body }`
-- for a call with a body, `{ ...options, method }` for one without; no caller passes `options`
init_with : Method → Option Text → Init
init_with method none = record {
  method = present method;
  headers = absent;
  body = absent;
  credentials = absent;
}
init_with method (some body) = record {
  method = present method;
  headers = present ((content_type, json_type) ∷ []);
  body = present body;
  credentials = absent;
}

pub init_of : Call → Init
unfolding init_with
init_of call = init_with call.method call.body

pub send : Platform → Call → Request
unfolding request init_of
send p call = request p call.url [] (init_of call)

-- what the function makes of the answer; `json` is `none` where `res.json()` throws
pub record Response : Type 0 where
  pub status : ℕ
  pub status_text : Text
  pub json : Option Json

pub data Outcome : Type 0 where
  undefined_result : Outcome
  result : Json → Outcome
  api_error : (status : ℕ) → (message : Text) → Outcome
  parse_error : Outcome

-- `res.ok`
abbrev pub is_ok : ℕ → Bool
is_ok status = leb 200 status && ltb status 300

-- `if (body.error) message = body.error`; an error that is no text is shown as `show` prints it
module _ (show : Json → Text) where
  error_text : Text → Option Json → Text
  error_text fallback (some (string (c ∷ cs))) = c ∷ cs
  error_text fallback (some (string [])) = fallback
  error_text fallback (some (boolean true)) = show (boolean true)
  error_text fallback (some (number n)) =
      if text_eq n (codes "0") then fallback else show (number n)
  error_text fallback (some (array items)) = show (array items)
  error_text fallback (some (object fields)) = show (object fields)
  error_text fallback _ = fallback

  error_message : Text → Option Json → Text
  unfolding error_text
  error_message fallback (some (object fields)) =
      error_text fallback (get_field (codes "error") fields)
  error_message fallback (some _) = fallback
  error_message fallback none = fallback

  body_result : Option Json → Outcome
  body_result (some v) = result v
  body_result none = parse_error

  pub outcome : Response → Outcome
  unfolding error_message body_result
  outcome res =
      if is_ok res.status
      then (if res.status == 204 then undefined_result else body_result res.json)
      else api_error res.status (error_message res.status_text res.json)
