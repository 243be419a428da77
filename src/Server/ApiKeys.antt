-- ===== src/Server/ApiKeys.antt =====
-- internal/auth/apikeys.go with the statements of internal/db/queries/api_keys.sql: the table of keys.
-- The hash of a key and the random ids are arguments; times are milliseconds.
pub mod Limit
pub mod Steady
pub mod Table
use dockstack.Prelude.{
  ℕ, ◌+◌, Bool, true, false, ◌&&◌, ◌||◌, Option, none, some, List, [], ◌∷◌, ◌++◌, keep, text_eq,
  Text, ltb, leb, if◌then◌else◌,
}

-- A row of `api_keys`
pub record ApiKey : Type 0 where
  pub id : Text
  pub user_id : Text
  pub name : Text
  pub key_hash : Text
  pub enabled : Bool
  pub expires_at : Option ℕ
  pub created_at : ℕ
  pub request_count : ℕ
  pub last_request_at : Option ℕ
  pub max_setting : ℕ
  pub window_setting : ℕ

-- `RateLimitMax`
unfoldable pub rate_limit_max : ApiKey → ℕ
rate_limit_max key = if leb key.max_setting 0 then 100 else key.max_setting

-- `RateLimitWindow`
unfoldable pub rate_limit_window : ApiKey → ℕ
rate_limit_window key = if leb key.window_setting 0 then 60_000 else key.window_setting

-- `NewAPIKey`
pub record NewApiKey : Type 0 where
  pub user_id : Text
  pub name : Text
  pub key_hash : Text
  pub expires_at : Option ℕ

-- `CreateAPIKey`; the columns that it leaves out get their defaults
unfoldable pub create_api_key : (id : Text) (now : ℕ) → NewApiKey → List ApiKey → List ApiKey
create_api_key id now in' keys =
    keys
    ++ record {
      id = id;
      user_id = in'.user_id;
      name = in'.name;
      key_hash = in'.key_hash;
      enabled = true;
      expires_at = in'.expires_at;
      created_at = now;
      request_count = 0;
      last_request_at = none;
      max_setting = 100;
      window_setting = 60_000;
    }
      ∷ []

-- `DeleteAPIKey`
unfoldable pub delete_api_key : (user_id id : Text) → List ApiKey → List ApiKey
delete_api_key user_id id keys =
    keep (λ (k : ApiKey). if text_eq k.id id && text_eq k.user_id user_id then false else true) keys

-- `GetAPIKeyByHash`
unfoldable pub key_by_hash : (hash : Text) → List ApiKey → Option ApiKey
key_by_hash hash [] = none
key_by_hash hash (k ∷ keys) = if text_eq k.key_hash hash then some k else key_by_hash hash keys

pub data KeyError : Type 0 where
  invalid_key : KeyError
  disabled_key : KeyError
  expired_key : KeyError

pub data Verified : Type 0 where
  refused : KeyError → Verified
  verified : ApiKey → Verified

unfoldable pub has_expired : Option ℕ → (now : ℕ) → Bool
has_expired none now = false
has_expired (some expires_at) now = ltb expires_at now

unfoldable pub check_key : Option ApiKey → (now : ℕ) → Verified
check_key none now = refused invalid_key
check_key (some key) now =
    if key.enabled
    then (if has_expired key.expires_at now then refused expired_key else verified key)
    else refused disabled_key

-- `VerifyKey`
unfoldable pub verify_key :
    (hash_token : Text → Text) (raw_key : Text) (now : ℕ) → List ApiKey → Verified
verify_key hash_token raw_key now keys = check_key (key_by_hash (hash_token raw_key) keys) now

-- `last_request_at IS NULL OR last_request_at < window_start`, where the window starts at `now - windowMs`
unfoldable pub is_quiet : Option ℕ → (now window : ℕ) → Bool
is_quiet none now window = true
is_quiet (some last) now window = ltb (last + window) now

-- The row that the update writes, if its condition holds.
unfoldable pub take_request : (max window now : ℕ) → ApiKey → Option ApiKey
take_request max window now key =
    if ltb key.request_count max || is_quiet key.last_request_at now window
    then some (record key {
      request_count = if is_quiet key.last_request_at now window then 1 else key.request_count + 1;
      last_request_at = some now;
    })
    else none

-- A row of the table, written or left, and whether one was written so far.
updated : ApiKey → Option ApiKey → Bool × List ApiKey → Bool × List ApiKey
updated key none (written, keys) = (written, key ∷ keys)
updated key (some new) (written, keys) = (true, new ∷ keys)

-- `RateLimit`: whether a row was written, and the table
unfoldable pub rate_limit : (id : Text) (max window now : ℕ) → List ApiKey → Bool × List ApiKey
unfolding updated
rate_limit id max window now [] = (false, [])
rate_limit id max window now (key ∷ keys) =
    updated key (if text_eq key.id id then take_request max window now key else none)
      (rate_limit id max window now keys)
