-- ===== src/Server/Access.antt =====
-- internal/server/api/auth/middleware.go (HumaRequireAuth) and the handlers of sessions in
-- internal/server/api/auth/auth.go behind it. The database is taken to answer; `strings.TrimSpace`, the
-- hash of tokens and the text of an HMAC are parameters.
pub mod Grants
pub mod SigningOut
use dockstack.Prelude.{
  ℕ, Bool, true, false, Option, none, some, List, [], ◌∷◌, map, codes, text_eq, Text, ◌==◌,
  if◌then◌else◌,
}
use dockstack.Server.ApiKeys.{
  ApiKey, Verified, refused, verified, verify_key, rate_limit, rate_limit_max, rate_limit_window,
}
use dockstack.Server.Sessions.{
  User, Session, Db, user_by_id, session_user_from_cookie, revoke_session, revoke_other_sessions,
  delete_session_by_token,
}
use dockstack.Server.Tokens.{verify_signature}

-- What the middleware reads and writes
pub record Store : Type 0 where
  pub db : Db
  pub keys : List ApiKey

-- The answer of the middleware: a status, or the user and the session in the request's context
pub data Access : Type 0 where
  denied : ℕ → Access
  granted : User → Option Session → Access

-- `strings.CutPrefix`
unfoldable pub cut_prefix : (text prefix : Text) → Option Text
cut_prefix text [] = some text
cut_prefix [] (p ∷ ps) = none
cut_prefix (c ∷ cs) (p ∷ ps) = let rest = cut_prefix cs ps in if c == p then rest else none

unfoldable pub non_empty : Text → Option Text
non_empty [] = none
non_empty (c ∷ cs) = some (c ∷ cs)

-- The key of the `Authorization` header, if it names one
unfoldable pub bearer : (trim : Text → Text) (authorization : Text) → Option Text
bearer trim authorization = elim (cut_prefix authorization (codes "Bearer ")) [
  | some token ↦ non_empty (trim token)
  | none ↦ none
]

unfoldable pub grant_user : Option User → Access
grant_user none = denied 401
grant_user (some user) = granted user none

unfoldable pub limited : ApiKey → Bool × List ApiKey → Store → Access × Store
limited key (false, keys) st = (denied 429, record st { keys = keys })
limited key (true, keys) st =
    (grant_user (user_by_id key.user_id st.db.users), record st { keys = keys })

unfoldable pub by_key : Verified → (now : ℕ) → Store → Access × Store
by_key (refused e) now st = (denied 401, st)
by_key (verified key) now st =
    limited key (rate_limit key.id (rate_limit_max key) (rate_limit_window key) now st.keys) st

unfoldable pub grant_session : Option (Session × User) → Access
grant_session none = denied 401
grant_session (some (s, user)) = granted user (some s)

module _ (hash_token mac : Text → Text) where
  unfoldable pub by_cookie : (cookie : Option Text) (now : ℕ) → Db → Access
  by_cookie none now db = denied 401
  by_cookie (some signed) now db =
      grant_session (session_user_from_cookie hash_token mac signed now db)

  unfoldable pub authenticate : (key cookie : Option Text) (now : ℕ) → Store → Access × Store
  authenticate none cookie now st = (by_cookie cookie now st.db, st)
  authenticate (some raw) cookie now st = by_key (verify_key hash_token raw now st.keys) now st

  -- `HumaRequireAuth`
  unfoldable pub require_auth :
      (trim : Text → Text) (authorization : Text) (cookie : Option Text) (now : ℕ)
      → Store
      → Access × Store
  require_auth trim authorization cookie now st =
      authenticate (bearer trim authorization) cookie now st

-- The answers of the handlers: a status, a body, or none since the handler panics
pub data SessionReply : Type 0 where
  status : ℕ → SessionReply
  session_body : Session → User → SessionReply
  sessions_body : List (Session × Bool) → SessionReply
  panicked : SessionReply

-- `handleGetSession`, which reads the session without a test
unfoldable pub get_session : Access → SessionReply
get_session (denied code) = status code
get_session (granted user none) = panicked
get_session (granted user (some s)) = session_body s user

-- `handleRevokeSession`
unfoldable pub revoke : Access → (id : Text) → Db → SessionReply × Db
revoke (denied code) id db = (status code, db)
revoke (granted user s) id db = (status 200, revoke_session user.id id db)

-- `handleRevokeOthers`
unfoldable pub revoke_others : Access → Db → SessionReply × Db
revoke_others (denied code) db = (status code, db)
revoke_others (granted user none) db = (status 401, db)
revoke_others (granted user (some s)) db = (status 200, revoke_other_sessions user.id s.id db)

unfoldable pub delete_verified : (hash_token : Text → Text) → Text × Bool → Db → Db
delete_verified hash_token (token, true) db = delete_session_by_token hash_token token db
delete_verified hash_token (token, false) db = db

unfoldable pub sign_out_cookie : (hash_token mac : Text → Text) (cookie : Option Text) → Db → Db
sign_out_cookie hash_token mac none db = db
sign_out_cookie hash_token mac (some signed) db =
    delete_verified hash_token (verify_signature mac signed) db

-- `handleSignOut`, with the session of the context, if there is one; the answer is always the same
unfoldable pub sign_out :
    (hash_token mac : Text → Text) (session : Option Session) (cookie : Option Text) → Db → Db
sign_out hash_token mac (some s) cookie db = revoke_session s.user_id s.id db
sign_out hash_token mac none cookie db = sign_out_cookie hash_token mac cookie db
