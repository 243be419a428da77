-- ===== src/Tests/ApiTests.antt =====
-- Calls, keys and answers.
use dockstack.Prelude.{◌≡◌, ◌↔◌, ◌↔◌, refl, true, none, [], ◌∷◌, codes, arith}
use dockstack.Api.{Call}
use dockstack.Api.Stacks.{post_stacks}
use dockstack.Api.Keys.{
  get_stacks_name_query_key, get_stacks_drift_query_key, get_stacks_updates_query_key,
}
use dockstack.Api.Keys.Clashes.{NoSlash, get_stacks_name_query_key_clash}
use dockstack.Api.Request.{
  headers_of, undefined, Platform, Init, Headers, absent, present, request, has_header, has_body,
  content_type, Response,
}
use dockstack.Api.Request.Sent.{DeclaresType, request_default_headers}

get_stacks_name_query_key_clash_example :
    ((get_stacks_name_query_key (codes "drift") ≡ get_stacks_drift_query_key)
      ↔ (codes "drift" ≡ codes "drift"))
    × ((get_stacks_name_query_key (codes "drift") ≡ get_stacks_updates_query_key)
        ↔ (codes "drift" ≡ codes "updates"))
get_stacks_name_query_key_clash_example = get_stacks_name_query_key_clash (codes "drift")

web_clean : NoSlash (codes "web")
web_clean = ground arith

abbrev platform : Platform
platform = record { to_lower_case = λ t. t; encode = λ _. [] }

abbrev call : Call
call = post_stacks (codes "{}")

abbrev init : Init
init = record {
  method = absent;
  headers = present ((codes "X-Trace", codes "1") ∷ []);
  body = present (codes "{}");
  credentials = absent;
}

with_body : has_body init.body ≡ true
unfolding has_body
with_body = refl

request_default_headers_example :
    let sent = (request platform (codes "/api") [] init).headers in
    (has_header platform content_type (headers_of platform init) ≡ true)
    × ((has_header platform content_type sent ≡ true) ↔ DeclaresType platform init.headers)
    × ((hs : Headers) → init.headers ≡ present hs → sent ≡ hs)
    × (init.headers ≡ undefined → sent ≡ [])
request_default_headers_example = request_default_headers platform (codes "/api") [] init with_body

abbrev gone : Response
gone = record { status = 404; status_text = codes "Not Found"; json = none }
