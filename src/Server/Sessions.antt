-- ===== src/Server/Sessions.antt =====
-- internal/auth/session.go with the statements of internal/db/queries/sessions.sql: the tables of users and of
-- sessions, and the session that a cookie stands for. Hashes, random tokens and ids are arguments; times
-- are milliseconds.
pub mod Revoking
use dockstack.Prelude.{
  ℕ, ◌+◌, Bool, true, false, ◌&&◌, not, Option, none, some, List, [], ◌∷◌, ◌++◌, keep, text_eq,
  Text, ltb, if◌then◌else◌,
}
use dockstack.Server.Rows.{first}
use dockstack.Server.Tokens.{verify_signature}

-- `User`, a row of `users`
pub record User : Type 0 where
  pub id : Text
  pub name : Text
  pub email : Text
  pub email_verified : Bool
  pub username : Option Text
  pub avatar : Text
  pub role : Text
  pub created_at : ℕ
  pub updated_at : ℕ

-- A row of `sessions`
pub record Session : Type 0 where
  pub id : Text
  pub user_id : Text
  pub token_hash : Text
  pub expires_at : ℕ
  pub ip_address : Text
  pub user_agent : Text
  pub impersonated_by : Option Text
  pub created_at : ℕ

-- The two tables
pub record Db : Type 0 where
  pub users : List User
  pub sessions : List Session

-- `SessionTTL` in milliseconds
abbrev pub session_ttl : ℕ
session_ttl = 604_800_000

has_id : (id : Text) → User → Bool
has_id id user = text_eq user.id id

-- `GetUserByID`
unfoldable pub user_by_id : (id : Text) → List User → Option User
unfolding has_id
user_by_id id users = first (has_id id) users

unfoldable pub has_hash : (hash : Text) → Session → Bool
has_hash hash s = text_eq s.token_hash hash

unfoldable pub with_user : Session → Option User → Option (Session × User)
with_user s none = none
with_user s (some user) = some (s, user)

unfoldable pub joined : Option Session → List User → Option (Session × User)
joined none users = none
joined (some s) users = with_user s (user_by_id s.user_id users)

unfoldable pub unexpired : (now : ℕ) → Option (Session × User) → Option (Session × User)
unexpired now none = none
unexpired now (some (s, user)) = if ltb s.expires_at now then none else some (s, user)

module _ (hash_token : Text → Text) where
  -- The row that `CreateSession` writes
  unfoldable pub new_session : (id token user_id ip user_agent : Text) (now : ℕ) → Session
  new_session id token user_id ip user_agent now = record {
    id = id;
    user_id = user_id;
    token_hash = hash_token token;
    expires_at = now + session_ttl;
    ip_address = ip;
    user_agent = user_agent;
    impersonated_by = none;
    created_at = now;
  }

  -- `CreateSession`, without the signed token that it returns
  unfoldable pub create_session : (id token user_id ip user_agent : Text) (now : ℕ) → Db → Db
  create_session id token user_id ip user_agent now db = record db {
    sessions = db.sessions ++ new_session id token user_id ip user_agent now ∷ [];
  }

  -- `sessionUser`, none for `ErrInvalidSession`
  unfoldable pub session_user : (token : Text) (now : ℕ) → Db → Option (Session × User)
  unfolding joined unexpired
  session_user token now db =
      unexpired now (joined (first (has_hash (hash_token token)) db.sessions) db.users)

  unfoldable pub from_verified : Text × Bool → (now : ℕ) → Db → Option (Session × User)
  from_verified (token, true) now db = session_user token now db
  from_verified (token, false) now db = none

  -- `SessionUserFromCookie`
  unfoldable pub session_user_from_cookie :
      (mac : Text → Text) (signed : Text) (now : ℕ) → Db → Option (Session × User)
  unfolding from_verified
  session_user_from_cookie mac signed now db = from_verified (verify_signature mac signed) now db

  -- `DeleteSessionByToken`
  unfoldable pub delete_session_by_token : (token : Text) → Db → Db
  delete_session_by_token token db = record db {
    sessions = keep (λ s. not (has_hash (hash_token token) s)) db.sessions;
  }

unfoldable pub is_kept : (user_id session_id : Text) → Session → Bool
is_kept user_id session_id s = not (text_eq s.id session_id && text_eq s.user_id user_id)

-- `RevokeSession`
unfoldable pub revoke_session : (user_id session_id : Text) → Db → Db
revoke_session user_id session_id db = record db {
  sessions = keep (is_kept user_id session_id) db.sessions;
}

unfoldable pub is_other : (user_id keep_id : Text) → Session → Bool
is_other user_id keep_id s = not (text_eq s.user_id user_id && not (text_eq s.id keep_id))

-- `RevokeOtherSessions`
unfoldable pub revoke_other_sessions : (user_id keep_id : Text) → Db → Db
revoke_other_sessions user_id keep_id db = record db {
  sessions = keep (is_other user_id keep_id) db.sessions;
}
