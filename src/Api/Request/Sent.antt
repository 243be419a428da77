-- ===== src/Api/Request/Sent.antt =====
-- What is sent for a call.
use dockstack.Prelude.{
  ◌≡◌, ◌↔◌, ◌⊎◌, ◌++◌, inl, inr, Bool-cases, arith, refl, true, Option, none, some, List, [], ◌∷◌,
  text_eq_self, Text, codes,
}
use dockstack.Api.{Method, Call}
use dockstack.Api.Request.{
  Slot, absent, undefined, present, given, spread, headers_of, Headers, Init, Platform,
  content_type, json_type, has_header, has_body, request, init_with, Request, send,
}

-- The headers that a call goes out with.
abbrev pub call_headers : Option Text → Headers
call_headers none = []
call_headers (some body) = (content_type, json_type) ∷ []

-- What `send_lem` says of the request for a method, an address and a body.
abbrev IsSentAs : Request → Method → Text → Option Text → Type 0
IsSentAs r method url body =
    (r.path ≡ url)
    × (r.method ≡ method)
    × (r.credentials ≡ codes "same-origin")
    × (r.body ≡ body)
    × (r.headers ≡ call_headers body)

request-init_with :
    (p : Platform) (method : Method) (url : Text) (body : Option Text)
    → p.encode [] ≡ []
    → IsSentAs (request p url [] (init_with method body)) method url body
unfolding request init_with
request-init_with p method url none h = rw h (refl, refl, refl, refl, refl)
request-init_with p method url (some body) h = rw h (refl, refl, refl, refl, refl)

-- A generated call is sent to its address, with its method, its body and the credentials of the
-- same origin, and its body is declared as JSON, provided that no parameters encode to no query.
send_lem :
    (p : Platform) (call : Call)
    → p.encode [] ≡ []
    → ((send p call).path ≡ call.url)
      × ((send p call).method ≡ call.method)
      × ((send p call).credentials ≡ codes "same-origin")
      × ((send p call).body ≡ call.body)
      × ((send p call).headers ≡ call_headers call.body)
unfolding send
send_lem p call h = request-init_with p call.method call.url call.body h

has_header-append :
    (p : Platform) (name value : Text) (hs : Headers)
    → has_header p name (hs ++ (name, value) ∷ []) ≡ true
unfolding has_header
has_header-append p name value [] = rw (text_eq_self (p.to_lower_case name)) refl
has_header-append p name value (h ∷ hs) = ground (arith, has_header-append p name value hs)

-- The headers that `request` works out for a body hold a content type.
headers_of-content_type :
    (p : Platform) (init : Init)
    → has_body init.body ≡ true
    → has_header p content_type (headers_of p init) ≡ true
unfolding headers_of
headers_of-content_type p init body =
    let hs = given [] init.headers in
    elim (Bool-cases (has_header p content_type hs)) [
      | inl own ↦ rw (body, own) own
      | inr other ↦ rw (body, other) (has_header-append p content_type json_type hs)
    ]

-- The caller gave no headers, or some that hold a content type.
abbrev pub DeclaresType : Platform → Slot Headers → Type 0
DeclaresType p slot =
    (slot ≡ absent) ⊎ ((hs : Headers) × (slot ≡ present hs) × (has_header p content_type hs ≡ true))

sent_type :
    (p : Platform) (own : Headers) (slot : Slot Headers)
    → has_header p content_type own ≡ true
    → (has_header p content_type (spread own [] slot) ≡ true) ↔ DeclaresType p slot
unfolding spread has_header
sent_type p own absent h = ((λ _. inl refl), (λ _. h))
sent_type p own undefined h = ((λ e. cc), declared)
  where
    declared : DeclaresType p undefined → has_header p content_type [] ≡ true
    declared (inl e) = cc
    declared (inr (hs, e, k)) = cc
sent_type p own (present hs) h = ((λ e. inr (hs, refl, e)), declared)
  where
    declared : DeclaresType p (present hs) → has_header p content_type hs ≡ true
    declared (inl e) = cc
    declared (inr (gs, e, k)) = cc

-- For a request with a body, the headers that are worked out always hold a content type, but those that
-- are sent do exactly if the caller gave no headers, or headers with a content type: headers that the
-- caller gave are sent as they are, and none are sent if it gave `undefined`.
pub request_default_headers :
    (p : Platform) (url : Text) (params : List (Text × Option Text)) (init : Init)
    → has_body init.body ≡ true
    → let sent = (request p url params init).headers in
      (has_header p content_type (headers_of p init) ≡ true)
      × ((has_header p content_type sent ≡ true) ↔ DeclaresType p init.headers)
      × ((hs : Headers) → init.headers ≡ present hs → sent ≡ hs)
      × (init.headers ≡ undefined → sent ≡ [])
unfolding request
request_default_headers p url params init body =
    let worked_out = headers_of-content_type p init body in
    (
      worked_out,
      sent_type p (headers_of p init) init.headers worked_out,
      (λ hs e. rw e refl),
      (λ e. rw e refl),
    )
