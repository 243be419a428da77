-- ===== src/Tests/AccessTests.antt =====
-- API keys on small tables, and the requests that they let through.
use dockstack.Prelude.{
  ◌≤◌, ◌≡◌, ◌↔◌, refl, true, false, none, some, [], ◌∷◌, length, codes, Text, text_eq,
  if◌then◌else◌, arith,
}
use dockstack.Server.Limiter.Entry.{counted}
use dockstack.Server.ApiKeys.{
  ApiKey, NewApiKey, key_by_hash, verify_key, check_key, has_expired, create_api_key,
  delete_api_key, refused, invalid_key, rate_limit, rate_limit_max, rate_limit_window, take_request,
  is_quiet,
}
use dockstack.Server.ApiKeys.Table.{key_answer, new_row, verify_key-delete}
use dockstack.Server.ApiKeys.Limit.{AreOrdered, requests, requests-counted}
use dockstack.Server.ApiKeys.Steady.{latest_first, steady, requests-steady}
use dockstack.Server.Rows.{first}
use dockstack.Server.Sessions.{User, user_by_id}
use dockstack.Server.Access.{
  Store, require_auth, bearer, get_session, panicked, cut_prefix, non_empty,
}
use dockstack.Server.Access.Grants.{
  granted_to, Entitled, ByKey, require_auth_iff, get_session-api_key,
}

abbrev hash_token : Text → Text
hash_token text = 1 ∷ text

abbrev mac : Text → Text
mac text = codes "mac"

abbrev trim : Text → Text
trim text = text

abbrev ann : User
ann = record {
  id = codes "u1";
  name = codes "Ann";
  email = codes "a@b";
  email_verified = false;
  username = none;
  avatar = [];
  role = codes "admin";
  created_at = 0;
  updated_at = 0;
}

abbrev row : ApiKey
row = record {
  id = codes "k1";
  user_id = codes "u1";
  name = codes "ci";
  key_hash = hash_token (codes "raw");
  enabled = true;
  expires_at = none;
  created_at = 0;
  request_count = 0;
  last_request_at = none;
  max_setting = 2;
  window_setting = 10;
}

times_ordered : AreOrdered 0 (1 ∷ 5 ∷ 9 ∷ 20 ∷ [])
unfolding AreOrdered
times_ordered = (omega arith, (omega arith, (omega arith, (omega arith, tt))))

requests-counted_example : length (counted 10 9 (requests 2 10 (1 ∷ 5 ∷ 9 ∷ 20 ∷ []) row [])) ≤ 2
requests-counted_example =
    requests-counted 2 10 (1 ∷ 5 ∷ 9 ∷ 20 ∷ []) row 9 (omega arith) refl refl times_ordered

-- One request a minute, and a hundred a minute allowed: the one after the hundredth is refused.
requests-steady_example :
    requests 100 60_000 (steady 101 5 60_000) row [] ≡ latest_first (steady 100 5 60_000) []
requests-steady_example = requests-steady 100 60_000 60_000 5 row (omega arith) (omega arith) refl

abbrev new_key : NewApiKey
new_key = record {
  user_id = codes "u1";
  name = codes "cd";
  key_hash = hash_token (codes "new");
  expires_at = some 50;
}

fresh_hash : key_by_hash (hash_token (codes "new")) (row ∷ []) ≡ none
unfolding key_by_hash text_eq
fresh_hash = refl

verify_key-delete_example :
    (verify_key hash_token (codes "new") 9 (create_api_key (codes "k2") 3 new_key (row ∷ []))
      ≡ key_answer (new_row hash_token (codes "new") (codes "k2") 3 new_key) 9)
    × (verify_key hash_token (codes "new") 9 (
          delete_api_key
            (codes "u2")
            (codes "k2")
            (create_api_key (codes "k2") 3 new_key (row ∷ [])))
        ≡ (if text_eq new_key.user_id (codes "u2")
            then refused invalid_key
            else key_answer (new_row hash_token (codes "new") (codes "k2") 3 new_key) 9))
verify_key-delete_example =
    verify_key-delete hash_token (codes "new") (codes "k2") 3 new_key (row ∷ []) (codes "u2") 9 refl
      fresh_hash

abbrev store : Store
store = record { db = record { users = ann ∷ []; sessions = [] }; keys = row ∷ [] }

require_auth_iff_example :
    (granted_to (require_auth hash_token mac trim (codes "Bearer raw") none 7 store).0
      ≡ some (ann, none))
    ↔ Entitled hash_token mac (bearer trim (codes "Bearer raw")) none 7 store ann none
require_auth_iff_example =
    require_auth_iff trim hash_token mac (codes "Bearer raw") none 7 store ann none

by_row : ByKey hash_token mac (bearer trim (codes "Bearer raw")) 7 store ann
unfolding bearer cut_prefix non_empty verify_key check_key key_by_hash has_expired rate_limit
    rate_limit_max rate_limit_window take_request is_quiet user_by_id first text_eq
by_row = record {
  raw = codes "raw";
  row = row;
  named = refl;
  valid = refl;
  within = refl;
  owner = refl;
}

get_session-api_key_example :
    get_session (require_auth hash_token mac trim (codes "Bearer raw") none 7 store).0 ≡ panicked
get_session-api_key_example =
    get_session-api_key trim hash_token mac (codes "Bearer raw") none 7 store ann by_row
