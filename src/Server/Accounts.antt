-- ===== src/Server/Accounts.antt =====
-- internal/server/api/auth/auth.go: signing in with a password, and changing and resetting it, with the
-- statements of internal/db/queries/credentials.sql and reset_tokens.sql. The database is taken to answer;
-- random texts, ids and salts are arguments, and times are milliseconds, those of the limiters nanoseconds.
pub mod SigningIn
pub mod Resets
use Prim.Native.Nat.{◌*◌}
use dockstack.Prelude.{
  ℕ, ◌+◌, Bool, true, false, ◌&&◌, ◌||◌, not, Option, none, some, List, [], ◌∷◌, ◌++◌, keep, codes,
  text_eq, Text, ltb, if◌then◌else◌,
}
use dockstack.Server.Limiter.{
  SignInGuard, Limiter, check, record_failure, clear, passes, hit, blocked, retry_after,
}
use dockstack.Server.Rows.{first}
use dockstack.Server.Passwords.{Library, hash_password, verify_password}
use dockstack.Server.Tokens.{sign_token}
use dockstack.Server.Sessions.{User, Session, Db, create_session}

-- A row of `credentials`
pub record Credential : Type 0 where
  pub user_id : Text
  pub password_hash : Text

-- A row of `reset_tokens`
pub record ResetToken : Type 0 where
  pub user_id : Text
  pub token_hash : Text
  pub expires_at : ℕ

-- What the handlers read and write
pub record Accounts : Type 0 where
  pub db : Db
  pub credentials : List Credential
  pub reset_tokens : List ResetToken
  pub guard : SignInGuard
  pub forgot_limit : Limiter

-- `GetCredential`
unfoldable pub credential_of : (user_id : Text) → List Credential → Option Credential
credential_of user_id [] = none
credential_of user_id (c ∷ credentials) =
    if text_eq c.user_id user_id then some c else credential_of user_id credentials

-- `UpsertCredential`
unfoldable pub upsert_credential : (user_id hash : Text) → List Credential → List Credential
upsert_credential user_id hash [] = record { user_id = user_id; password_hash = hash } ∷ []
upsert_credential user_id hash (c ∷ credentials) =
    if text_eq c.user_id user_id
    then record c { password_hash = hash } ∷ credentials
    else c ∷ upsert_credential user_id hash credentials

-- `signInLimitKey`
unfoldable pub sign_in_limit_key : (sha lower trim : Text → Text) (kind value : Text) → Text
sign_in_limit_key sha lower trim kind value = sha (kind ++ 0 ∷ lower (trim value))

-- The answers: a status, with the seconds to wait where there are too many requests, or the user and the
-- value of the cookie
pub data Reply : Type 0 where
  status : ℕ → Reply
  too_many : (retry : ℕ) → Reply
  signed_in : User → (cookie : Text) → Reply

-- `VerifyPassword` of the store, none for an error
unfoldable pub verify_row : Library → (password : Text) → Option Credential → Option Bool
verify_row lib password none = some false
verify_row lib password (some c) = verify_password lib password c.password_hash

unfoldable pub verify_user : Library → (user_id password : Text) → List Credential → Option Bool
verify_user lib user_id password credentials =
    verify_row lib password (credential_of user_id credentials)

-- `SetPassword`
unfoldable pub set_password : Library → (salt user_id password : Text) → Accounts → Accounts
set_password lib salt user_id password a = record a {
  credentials = upsert_credential user_id (hash_password lib salt password) a.credentials;
}

unfoldable pub is_empty : Text → Bool
is_empty [] = true
is_empty (c ∷ cs) = false

-- What a request to sign in comes with, and the random texts it uses
pub record Attempt : Type 0 where
  pub identifier : Text
  pub password : Text
  pub ip : Text
  pub user_agent : Text
  pub session_id : Text
  pub token : Text
  pub now : ℕ

-- Milliseconds in the limiters' nanoseconds
abbrev pub nanos : ℕ → ℕ
nanos ms = ms * 1_000_000

module _ (lib : Library) (hash_token mac sha lower trim : Text → Text) where
  ip_key : Attempt → Text
  ip_key t = sign_in_limit_key sha lower trim (codes "ip") t.ip

  id_key : Attempt → Text
  id_key t = sign_in_limit_key sha lower trim (codes "id") t.identifier

  failed : Attempt → Accounts → Accounts
  unfolding ip_key id_key
  failed t a = record a { guard = record_failure a.guard (ip_key t) (id_key t) (nanos t.now) }

  -- the answer for a user that was found
  answer : Attempt → User → Option Bool → Accounts → Reply × Accounts
  unfolding failed
  answer t user none a = (status 500, a)
  answer t user (some false) a = (status 401, failed t a)
  answer t user (some true) a = (
    signed_in user (sign_token mac t.token),
    record a {
      guard = clear a.guard (ip_key t) (id_key t);
      db = create_session hash_token t.session_id t.token user.id t.ip t.user_agent t.now a.db;
    },
  )

  look_up : Attempt → Option User → Accounts → Reply × Accounts
  unfolding answer
  look_up t none a = (status 401, failed t a)
  look_up t (some user) a = answer t user (verify_user lib user.id t.password a.credentials) a

  -- `signInWithPassword`, with the lookup by address or by name
  unfoldable pub sign_in_with_password :
      (lookup : Text → List User → Option User) → Attempt → Accounts → Reply × Accounts
  unfolding look_up
  sign_in_with_password lookup t a =
      if is_empty t.identifier || is_empty t.password
      then (status 400, a)
      else (let wait = check a.guard (ip_key t) (id_key t) (nanos t.now) in
          if ltb 0 wait
          then (too_many (retry_after wait), a)
          else look_up t (lookup t.identifier a.db.users) a)

-- `handleChangePassword`, past the middleware
changed :
    Library
    → (salt : Text) → User
    → (new_password : Text) → Option Bool
    → Accounts
    → Reply × Accounts
changed lib salt user new_password none a = (status 500, a)
changed lib salt user new_password (some false) a = (status 400, a)
changed lib salt user new_password (some true) a =
    (status 200, set_password lib salt user.id new_password a)

unfoldable change_password :
    Library
    → (salt : Text) → User
    → (current_password new_password : Text) → Accounts
    → Reply × Accounts
unfolding changed
change_password lib salt user current_password new_password a =
    if is_empty new_password
    then (status 400, a)
    else changed lib salt user new_password (verify_user lib user.id current_password a.credentials)
        a

-- `CreateResetToken`; a token lasts an hour
unfoldable pub create_reset_token : (user_id hash : Text) (now : ℕ) → Accounts → Accounts
create_reset_token user_id hash now a = record a {
  reset_tokens =
      a.reset_tokens
      ++ record { user_id = user_id; token_hash = hash; expires_at = now + 3_600_000 } ∷ [];
}

-- `UserByEmail`
unfoldable pub user_by_email : (email : Text) → List User → Option User
user_by_email email users = first (λ (u : User). text_eq u.email email) users

offer_token :
    (hash_token : Text → Text) (token : Text) (now : ℕ) → Option User → Accounts → Accounts
offer_token hash_token token now none a = a
offer_token hash_token token now (some user) a = create_reset_token user.id (hash_token token) now a

-- `handleForgotPassword`, with the key of the client's address; other requests may run between the two
-- calls of the limiter. The first call refuses the request, or lets it go on;
unfoldable forgot_password_refusal : (key : Text) (now : ℕ) → Accounts → Option Reply
forgot_password_refusal key now a =
    if passes a.forgot_limit key (nanos now)
    then none
    else some (too_many (retry_after (blocked a.forgot_limit key (nanos now))))

-- and this is what it does from the second call on; the token goes to the log
unfoldable forgot_password :
    (hash_token : Text → Text) (key email token : Text) (now : ℕ) → Accounts → Reply × Accounts
unfolding offer_token
forgot_password hash_token key email token now a =
    let noted : Accounts = record a { forgot_limit = hit a.forgot_limit key (nanos now) } in
    (status 200, offer_token hash_token token now (user_by_email email a.db.users) noted)

unfoldable pub is_active : (hash : Text) (now : ℕ) → ResetToken → Bool
is_active hash now r = text_eq r.token_hash hash && ltb now r.expires_at

-- `ActiveResetTokenUser`
unfoldable pub active_reset_token : (hash : Text) (now : ℕ) → List ResetToken → Option ResetToken
active_reset_token hash now tokens = first (is_active hash now) tokens

unfoldable pub is_of_other : (user_id : Text) → ResetToken → Bool
is_of_other user_id r = not (text_eq r.user_id user_id)

-- `DeleteResetTokensByUser`
unfoldable pub delete_reset_tokens : (user_id : Text) → Accounts → Accounts
delete_reset_tokens user_id a = record a {
  reset_tokens = keep (is_of_other user_id) a.reset_tokens;
}

unfoldable pub reset_for :
    Library → (salt new_password : Text) → Option ResetToken → Accounts → Reply × Accounts
reset_for lib salt new_password none a = (status 400, a)
reset_for lib salt new_password (some r) a =
    (status 200, delete_reset_tokens r.user_id (set_password lib salt r.user_id new_password a))

-- `handleResetPassword`
unfoldable pub reset_password :
    Library
    → (hash_token : Text → Text) (salt token new_password : Text) (now : ℕ) → Accounts
    → Reply × Accounts
reset_password lib hash_token salt token new_password now a =
    if is_empty token || is_empty new_password
    then (status 400, a)
    else reset_for lib salt new_password (active_reset_token (hash_token token) now a.reset_tokens)
        a

-- `DeleteExpiredResetTokens`, which the clean-up job of internal/server/cron.go runs
unfoldable delete_expired_reset_tokens : (now : ℕ) → Accounts → Accounts
delete_expired_reset_tokens now a = record a {
  reset_tokens = keep (λ (r : ResetToken). not (ltb r.expires_at now)) a.reset_tokens;
}
