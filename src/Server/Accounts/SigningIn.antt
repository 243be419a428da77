-- ===== src/Server/Accounts/SigningIn.antt =====
-- signInWithPassword: the cookie that it answers with, and the lock on an identifier.
use dockstack.Prelude.{
  ℕ, ◌+◌, ◌-◌, ◌≤◌, ◌<◌, ◌≡◌, refl, sym, subst, ap, ◌∙◌, Bool, true, false, ◌||◌, Option, none,
  some, List, [], ◌∷◌, All, codes, length, Text, ltb, if◌then◌else◌, arith,
}
use mathlib.Core.Option.{none-ne-some, some-injective}
use dockstack.Server.Limiter.{
  Attempts, SignInGuard, new_brute_limiter, sign_in_failure_window, sign_in_lockout, find, remove,
  remaining, blocked, fail, reset, check, clear, retry_after,
}
use dockstack.Server.Limiter.Locking.{fails, times_of, fails-blocked}
use dockstack.Server.Limiter.Noting.{AreRecent}
use dockstack.Server.Rows.{first}
use dockstack.Server.Passwords.{Library}
use dockstack.Server.Tokens.{sign_token, NoDot}
use dockstack.Server.Sessions.{
  User, user_by_id, has_hash, new_session, create_session, session_user_from_cookie, session_ttl,
}
use dockstack.Server.Sessions.Revoking.{create_session-cookie}
use dockstack.Server.Accounts.{
  Accounts, Attempt, Reply, status, too_many, signed_in, verify_user, sign_in_limit_key, is_empty,
  nanos, ip_key, id_key, answer, look_up, sign_in_with_password,
}

find-remove : (key : Text) (es : List (Text × Attempts)) → find key (remove key es) ≡ none
unfolding find remove
find-remove key [] = refl
find-remove key ((k, e) ∷ es) = ground (arith, find-remove key es)

check-clear : (g : SignInGuard) (ip id : Text) (now : ℕ) → check (clear g ip id) ip id now ≡ 0
unfolding check clear reset blocked remaining
check-clear g ip id now = rw (find-remove ip g.ip.entries, find-remove id g.id.entries) refl

-- The user and the cookie of a sign-in.
signed : Reply → Option (User × Text)
signed (status code) = none
signed (too_many retry) = none
signed (signed_in user cookie) = some (user, cookie)

module _ (lib : Library) (hash_token mac sha lower trim : Text → Text) (t : Attempt)
    (a : Accounts) where
  answer_signed :
      (u user : User) (cookie : Text) (v : Option Bool)
      → signed (answer lib hash_token mac sha lower trim t u v a).0 ≡ some (user, cookie)
      → (v ≡ some true) × (u ≡ user) × (sign_token mac t.token ≡ cookie)
  unfolding answer signed
  answer_signed u user cookie none h = absurd (none-ne-some _ h)
  answer_signed u user cookie (some false) h = absurd (none-ne-some _ h)
  answer_signed u user cookie (some true) h =
      let same = some-injective _ _ h in (refl, ap (λ p. p.0) same, ap (λ p. p.1) same)

  -- What a sign-in that succeeded rests on, and what it is.
  Succeeds : (user : User) (cookie : Text) (found : Option User) (whole : Reply × Accounts) → Type 0
  Succeeds user cookie found whole =
      (found ≡ some user)
      × (verify_user lib user.id t.password a.credentials ≡ some true)
      × (sign_token mac t.token ≡ cookie)
      × (whole ≡ answer lib hash_token mac sha lower trim t user (some true) a)

  look_up_signed :
      (user : User) (cookie : Text) (found : Option User)
      → signed (look_up lib hash_token mac sha lower trim t found a).0 ≡ some (user, cookie)
      → Succeeds user cookie found (look_up lib hash_token mac sha lower trim t found a)
  unfolding look_up signed Succeeds
  look_up_signed user cookie none h = absurd (none-ne-some _ h)
  look_up_signed user cookie (some u) h =
      let (verified, same, sent) = answer_signed u user cookie _ h in
      (
        ap some same,
        subst (λ (x : User). verify_user lib x.id t.password a.credentials ≡ some true) same
            verified,
        sent,
        ap (λ v. answer lib hash_token mac sha lower trim t u v a) verified
            ∙ ap (λ x. answer lib hash_token mac sha lower trim t x (some true) a) same,
      )

  sign_in_signed :
      (user : User) (cookie : Text) (empty waits : Bool) (wait : ℕ) (found : Option User)
      → signed
          (if empty
            then (status 400, a)
            else (if waits
                then (too_many (retry_after wait), a)
                else look_up lib hash_token mac sha lower trim t found a)).0
        ≡ some (user, cookie)
      → Succeeds user cookie found (
          if empty
          then (status 400, a)
          else (if waits
              then (too_many (retry_after wait), a)
              else look_up lib hash_token mac sha lower trim t found a))
  unfolding signed
  sign_in_signed user cookie true waits wait found h = absurd (none-ne-some _ h)
  sign_in_signed user cookie false true wait found h = absurd (none-ne-some _ h)
  sign_in_signed user cookie false false wait found h = look_up_signed user cookie found h

-- A sign-in that is answered with a cookie had the password of the user that its identifier names. If the
-- token is new, an HMAC's text has no dot and the user has its row, the cookie then stands for that user up
-- to the end of the session and for nobody later, and neither the address nor the identifier is blocked.
pub sign_in-cookie :
    (lib : Library) (hash_token mac sha lower trim : Text → Text)
    (lookup : Text → List User → Option User) (t : Attempt) (a : Accounts) (user : User)
    (cookie : Text) (later : ℕ)
    → NoDot (mac t.token)
    → first (has_hash (hash_token t.token)) a.db.sessions ≡ none
    → user_by_id user.id a.db.users ≡ some user
    → (sign_in_with_password lib hash_token mac sha lower trim lookup t a).0 ≡ signed_in user cookie
    → (lookup t.identifier a.db.users ≡ some user)
      × (verify_user lib user.id t.password a.credentials ≡ some true)
      × (session_user_from_cookie hash_token mac cookie later
            (sign_in_with_password lib hash_token mac sha lower trim lookup t a).1.db
          ≡ (if ltb (t.now + session_ttl) later
              then none
              else some (
                new_session hash_token t.session_id t.token user.id t.ip t.user_agent t.now,
                user,
              )))
      × (check
            (sign_in_with_password lib hash_token mac sha lower trim lookup t a).1.guard
            (sign_in_limit_key sha lower trim (codes "ip") t.ip)
            (sign_in_limit_key sha lower trim (codes "id") t.identifier)
            (nanos later)
          ≡ 0)
unfolding sign_in_with_password Succeeds signed answer ip_key id_key
sign_in-cookie lib hash_token mac sha lower trim lookup t a user cookie later plain fresh known ok =
    let (found, verified, sent, whole) =
      sign_in_signed lib hash_token mac sha lower trim t a user cookie
        (is_empty t.identifier || is_empty t.password) _ _ (lookup t.identifier a.db.users)
        (ap signed ok) in
    (
      found,
      verified,
      ap (λ (p : Reply × Accounts). session_user_from_cookie hash_token mac cookie later p.1.db)
            whole
          ∙ ap
              (λ c. session_user_from_cookie hash_token mac c later (
                create_session hash_token t.session_id t.token user.id t.ip t.user_agent t.now
                  a.db))
              (sym sent)
          ∙ create_session-cookie hash_token mac t.session_id t.token t.ip t.user_agent user t.now
              later a.db plain fresh known,
      ap
            (λ (p : Reply × Accounts).
              check p.1.guard (sign_in_limit_key sha lower trim (codes "ip") t.ip)
                (sign_in_limit_key sha lower trim (codes "id") t.identifier) (nanos later))
            whole
          ∙ check-clear a.guard _ _ (nanos later),
    )

check_id :
    (g : SignInGuard) (ip id : Text) (now : ℕ) → 0 < blocked g.id id now → 0 < check g ip id now
unfolding check
check_id g ip id now h = ground (arith, h)

retry_positive : (wait : ℕ) → 1 ≤ retry_after wait
unfolding retry_after
retry_positive wait = ground arith

-- If the limiter of identifiers, new at first, has noted a first failure of an identifier, then failures
-- of it and of others, and a last one of it, five or more of it in all and all of them less than fifteen
-- minutes before the last, then an attempt with that identifier and a password, within fifteen minutes of
-- the last failure, is answered with a wait of a second at least and changes nothing, whatever the
-- password and wherever it comes from.
pub sign_in-locked :
    (lib : Library) (hash_token mac sha lower trim : Text → Text)
    (lookup : Text → List User → Option User) (t : Attempt) (a : Accounts) (start last : ℕ)
    (events : List (Text × ℕ))
    → is_empty t.identifier || is_empty t.password ≡ false
    → a.guard.id
      ≡ fail
          (fails events (
            fail
              (new_brute_limiter 5 sign_in_failure_window sign_in_lockout)
              (sign_in_limit_key sha lower trim (codes "id") t.identifier)
              start))
          (sign_in_limit_key sha lower trim (codes "id") t.identifier)
          last
    → All (λ (p : Text × ℕ). p.1 ≤ last) events
    → AreRecent sign_in_failure_window last
        (start ∷ times_of (sign_in_limit_key sha lower trim (codes "id") t.identifier) events)
    → 3 ≤ length (times_of (sign_in_limit_key sha lower trim (codes "id") t.identifier) events)
    → nanos t.now < last + sign_in_lockout
    → (retry : ℕ) × (1 ≤ retry)
      × (sign_in_with_password lib hash_token mac sha lower trim lookup t a ≡ (too_many retry, a))
unfolding sign_in_with_password ip_key id_key
sign_in-locked lib hash_token mac sha lower trim lookup t a start last events given after early
      recent enough soon =
    let key : Text = sign_in_limit_key sha lower trim (codes "id") t.identifier in
    let wait : ℕ =
      check a.guard (sign_in_limit_key sha lower trim (codes "ip") t.ip) key (nanos t.now) in
    let left : blocked a.guard.id key (nanos t.now) ≡ (last + sign_in_lockout) - nanos t.now =
      ap (λ l. blocked l key (nanos t.now)) after
      ∙ fails-blocked key 5 sign_in_failure_window sign_in_lockout start last (nanos t.now) events
          early recent (omega (arith, enough)) in
    let waits : ltb 0 wait ≡ true = ground (
      arith,
      check_id a.guard (sign_in_limit_key sha lower trim (codes "ip") t.ip) key (nanos t.now)
          (omega (arith, left, soon)),
    ) in
    (retry_after wait, retry_positive wait, rw (given, waits) refl)
