-- ===== src/Server/Access/Grants.antt =====
-- Who gets past the middleware.
use dockstack.Prelude.{
  ℕ, ◌≡◌, ◌↔◌, subst, refl, sym, ap, ◌∙◌, Bool, true, false, Option, none, some, List, Text, arith,
}
use mathlib.Core.Option.{none-ne-some, some-injective}
use dockstack.Server.ApiKeys.{
  ApiKey, Verified, refused, verified, verify_key, rate_limit, rate_limit_max, rate_limit_window,
}
use dockstack.Server.Sessions.{User, Session, user_by_id, session_user_from_cookie}
use dockstack.Server.Access.{
  Store, Access, denied, granted, bearer, grant_user, limited, by_key, grant_session, by_cookie,
  authenticate, require_auth, panicked, get_session,
}

-- Whether a request is granted, and to whom.
unfoldable pub granted_to : Access → Option (User × Option Session)
granted_to (denied code) = none
granted_to (granted user s) = some (user, s)

module _ (hash_token mac : Text → Text) where
  -- The request names a key that is valid and within its limit, and the user is the key's.
  pub record ByKey (key : Option Text) (now : ℕ) (st : Store) (user : User) : Type 0 where
    pub raw : Text
    pub row : ApiKey
    pub named : key ≡ some raw
    pub valid : verify_key hash_token raw now st.keys ≡ verified row
    pub within :
        (rate_limit row.id (rate_limit_max row) (rate_limit_window row) now st.keys).0 ≡ true
    pub owner : user_by_id row.user_id st.db.users ≡ some user

  -- The request names no key, and its cookie stands for the session and its user.
  pub record ByCookie (key cookie : Option Text) (now : ℕ) (st : Store) (user : User) (s : Session)
      : Type 0 where
    pub signed : Text
    pub keyless : key ≡ none
    pub sent : cookie ≡ some signed
    pub known : session_user_from_cookie hash_token mac signed now st.db ≡ some (s, user)

  -- The ways in which a request is granted.
  unfoldable pub Entitled :
      (key cookie : Option Text) (now : ℕ) → Store → User → Option Session → Type 0
  Entitled key cookie now st user none = ByKey key now st user
  Entitled key cookie now st user (some s) = ByCookie key cookie now st user s

user_granted :
    (o : Option User) (user : User) (s : Option Session)
    → granted_to (grant_user o) ≡ some (user, s)
    → (o ≡ some user) × (s ≡ none)
unfolding grant_user granted_to
user_granted none user s h = absurd (none-ne-some _ h)
user_granted (some u) user s h =
    let same = some-injective _ _ h in (ap (λ p. some p.0) same, sym (ap (λ p. p.1) same))

session_granted :
    (o : Option (Session × User)) (user : User) (s : Option Session)
    → granted_to (grant_session o) ≡ some (user, s)
    → (t : Session) × (s ≡ some t) × (o ≡ some (t, user))
unfolding grant_session granted_to
session_granted none user s h = absurd (none-ne-some _ h)
session_granted (some (t, u)) user s h =
    let same = some-injective _ _ h in (t, sym (ap (λ p. p.1) same), ap (λ p. some (t, p.0)) same)

limited_granted :
    (key : ApiKey) (answer : Bool × List ApiKey) (st : Store) (user : User) (s : Option Session)
    → granted_to (limited key answer st).0 ≡ some (user, s)
    → (answer.0 ≡ true) × (user_by_id key.user_id st.db.users ≡ some user) × (s ≡ none)
unfolding limited granted_to
limited_granted key (false, keys) st user s h = absurd (none-ne-some _ h)
limited_granted key (true, keys) st user s h =
    let owner = user_granted (user_by_id key.user_id st.db.users) user s h in
    (refl, owner.0, owner.1)

module _ (hash_token mac : Text → Text) (cookie : Option Text) (now : ℕ) (st : Store)
    (user : User) where
  key-Entitled :
      (raw : Text) (v : Verified) (s : Option Session)
      → verify_key hash_token raw now st.keys ≡ v
      → granted_to (by_key v now st).0 ≡ some (user, s)
      → Entitled hash_token mac (some raw) cookie now st user s
  unfolding by_key granted_to Entitled
  key-Entitled raw (refused e) s at h = absurd (none-ne-some _ h)
  key-Entitled raw (verified row) s at h =
      let answer = limited_granted row _ st user s h in
      subst (Entitled hash_token mac (some raw) cookie now st user) (sym answer.2) (record {
        raw = raw;
        row = row;
        named = refl;
        valid = at;
        within = answer.0;
        owner = answer.1;
      })

  cookie-Entitled :
      (sent : Option Text) (s : Option Session)
      → granted_to (by_cookie hash_token mac sent now st.db) ≡ some (user, s)
      → Entitled hash_token mac none sent now st user s
  unfolding by_cookie granted_to Entitled
  cookie-Entitled none s h = absurd (none-ne-some _ h)
  cookie-Entitled (some signed) s h =
      let (t, is_t, known) =
        session_granted (session_user_from_cookie hash_token mac signed now st.db) user s h in
      subst (Entitled hash_token mac none (some signed) now st user) (sym is_t)
        (record { signed = signed; keyless = refl; sent = refl; known = known })

  granted-Entitled :
      (key : Option Text) (s : Option Session)
      → granted_to (authenticate hash_token mac key cookie now st).0 ≡ some (user, s)
      → Entitled hash_token mac key cookie now st user s
  unfolding authenticate
  granted-Entitled none s h = cookie-Entitled cookie s h
  granted-Entitled (some raw) s h = key-Entitled raw _ s refl h

  limited_pass :
      (row : ApiKey) (answer : Bool × List ApiKey)
      → answer.0 ≡ true
      → user_by_id row.user_id st.db.users ≡ some user
      → granted_to (limited row answer st).0 ≡ some (user, none)
  unfolding limited granted_to grant_user
  limited_pass row (false, keys) h owner = absurd (ground (arith, h))
  limited_pass row (true, keys) h owner = ap (λ o. granted_to (grant_user o)) owner

  Entitled-granted :
      (key : Option Text) (s : Option Session)
      → Entitled hash_token mac key cookie now st user s
      → granted_to (authenticate hash_token mac key cookie now st).0 ≡ some (user, s)
  unfolding Entitled authenticate by_key by_cookie granted_to grant_session
  Entitled-granted key none k =
      ap (λ o. granted_to (authenticate hash_token mac o cookie now st).0) k.named
      ∙ ap (λ v. granted_to (by_key v now st).0) k.valid
      ∙ limited_pass k.row _ k.within k.owner
  Entitled-granted key (some s) k =
      ap (λ o. granted_to (authenticate hash_token mac o cookie now st).0) k.keyless
      ∙ ap (λ o. granted_to (by_cookie hash_token mac o now st.db)) k.sent
      ∙ ap (λ o. granted_to (grant_session o)) k.known

-- A request gets past the middleware, as a user with a session or without one, exactly if its header names
-- a valid key of the user that is within its limit, or it names no key and its cookie stands for that
-- session of the user. A cookie does not help a request whose key is refused.
pub require_auth_iff :
    (trim hash_token mac : Text → Text) (authorization : Text) (cookie : Option Text) (now : ℕ)
    (st : Store) (user : User) (s : Option Session)
    → (granted_to (require_auth hash_token mac trim authorization cookie now st).0 ≡ some (user, s))
      ↔ Entitled hash_token mac (bearer trim authorization) cookie now st user s
unfolding require_auth
require_auth_iff trim hash_token mac authorization cookie now st user s = (
  granted-Entitled hash_token mac cookie now st user (bearer trim authorization) s,
  Entitled-granted hash_token mac cookie now st user (bearer trim authorization) s,
)

panics :
    (access : Access) (user : User)
    → granted_to access ≡ some (user, none)
    → get_session access ≡ panicked
unfolding granted_to get_session
panics (denied code) user h = absurd (none-ne-some _ h)
panics (granted u none) user h = refl
panics (granted u (some s)) user h =
    absurd (none-ne-some s (sym (ap (λ p. p.1) (some-injective _ _ h))))

-- The handler of the current session panics for every request that a valid API key within its limit lets
-- through.
pub get_session-api_key :
    (trim hash_token mac : Text → Text) (authorization : Text) (cookie : Option Text) (now : ℕ)
    (st : Store) (user : User)
    → ByKey hash_token mac (bearer trim authorization) now st user
    → get_session (require_auth hash_token mac trim authorization cookie now st).0 ≡ panicked
unfolding require_auth Entitled
get_session-api_key trim hash_token mac authorization cookie now st user key =
    panics _ user
      (Entitled-granted hash_token mac cookie now st user (bearer trim authorization) none key)
