-- ===== src/Tests/AccountTests.antt =====
-- Signing in, requests with a key and resets of a password on small tables, and their theorems there.
use dockstack.Prelude.{
  ◌≢◌, ◌⊎◌, ℕ, zero, suc, ◌+◌, ◌-◌, ◌≤◌, ◌≡◌, ◌∙◌, ◌↔◌, refl, ap, sym, subst, text_eq_iff, true,
  false, Option, none, some, List, [], ◌∷◌, length, codes, split, Text, text_eq, ltb, if◌then◌else◌,
  arith,
}
use dockstack.Prelude.Splitting.{Lacks}
use dockstack.Server.Limiter.{
  blocked, find, new_brute_limiter, new_sign_in_guard, sign_in_failure_window, sign_in_lockout,
  fail, check,
}
use dockstack.Server.Limiter.Locking.{fails, times_of}
use dockstack.Server.Limiter.Noting.{AreRecent}
use dockstack.Server.Rows.{first, AtMostOne}
use dockstack.Server.Tokens.{sign_token, verify_signature, verify_signature_iff}
use dockstack.Server.Passwords.{
  Library, IsSound, derived, hash_password, verify_password, verify_password_iff,
}
use dockstack.Server.Sessions.{
  User, Session, Db, user_by_id, has_hash, new_session, session_user_from_cookie, session_ttl,
  revoke_session, revoke_other_sessions, delete_session_by_token,
}
use dockstack.Server.Sessions.Revoking.{StaysIf, AreDistinct, only_session, revoke_sessions-cookie}
use dockstack.Server.Accounts.{
  Accounts, Attempt, status, too_many, signed_in, ResetToken, verify_user, verify_row,
  credential_of, sign_in_limit_key, is_empty, nanos, sign_in_with_password, reset_password,
  active_reset_token, is_active, reset_for,
}
use dockstack.Server.Access.{sign_out}
use dockstack.Server.Access.SigningOut.{is_left, sign_out-cookie}
use dockstack.Server.Accounts.SigningIn.{sign_in-cookie, sign_in-locked}
use dockstack.Server.Accounts.Resets.{has_token, reset_password-once}

-- Libraries that keep what they document: a key is the password cut or filled up, and base64 moves each byte
-- up by a hundred.
pad : ℕ → Text → Text
pad zero text = []
pad (suc n) [] = 0 ∷ pad n []
pad (suc n) (c ∷ cs) = c ∷ pad n cs

length-pad : (n : ℕ) (text : Text) → length (pad n text) ≡ n
unfolding pad
length-pad zero text = refl
length-pad (suc n) [] = ap suc (length-pad n [])
length-pad (suc n) (c ∷ cs) = ap suc (length-pad n cs)

shifted : Text → Text
shifted [] = []
shifted (c ∷ cs) = (c + 100) ∷ shifted cs

unshifted : Text → Text
unshifted [] = []
unshifted (c ∷ cs) = (c - 100) ∷ unshifted cs

unshifted-shifted : (text : Text) → unshifted (shifted text) ≡ text
unfolding shifted unshifted
unshifted-shifted [] = refl
unshifted-shifted (c ∷ cs) =
    ap (λ d. d ∷ unshifted (shifted cs)) back ∙ ap (λ ds. c ∷ ds) (unshifted-shifted cs)
  where
    back : (c + 100) - 100 ≡ c
    back = omega arith

shifted-Lacks : (text : Text) → Lacks b'$' (shifted text)
unfolding shifted
shifted-Lacks [] = tt
shifted-Lacks (c ∷ cs) = (ground arith, shifted-Lacks cs)

abbrev lib : Library
lib = record {
  id_key = λ password salt time memory threads key_len. pad key_len password;
  encode = shifted;
  decode = λ text. some (unshifted text);
  scan = λ text. some (65_536, 3, 4);
}

lib-IsSound : IsSound lib
unfolding derived
lib-IsSound = record {
  no_dollar = shifted-Lacks;
  decodes = λ bytes. ap some (unshifted-shifted bytes);
  scans = refl;
  sized = λ password salt. length-pad 32 password;
}

verify_password_iff_example :
    ((verify_password lib (codes "guess") (hash_password lib (9 ∷ []) (codes "secret")) ≡ some true)
      ↔ (derived lib (9 ∷ []) (codes "guess") ≡ derived lib (9 ∷ []) (codes "secret")))
    × (verify_password lib (codes "secret") (hash_password lib (9 ∷ []) (codes "secret"))
        ≡ some true)
verify_password_iff_example =
    verify_password_iff lib (9 ∷ []) (codes "secret") (codes "guess") lib-IsSound

abbrev hash_token : Text → Text
hash_token text = 1 ∷ text

abbrev mac : Text → Text
mac text = codes "mac"

verify_signature_iff_example :
    (verify_signature mac (codes "a.b.mac") ≡ (codes "a.b", true))
    ↔ (codes "a.b.mac" ≡ sign_token mac (codes "a.b"))
verify_signature_iff_example =
    verify_signature_iff mac (codes "a.b.mac") (codes "a.b") (λ t. (refl, (refl, (refl, tt))))

abbrev same_text : Text → Text
same_text text = text

abbrev ann : User
ann = record {
  id = codes "u1";
  name = codes "Ann";
  email = codes "a@b";
  email_verified = false;
  username = none;
  avatar = [];
  role = codes "admin";
  created_at = 0;
  updated_at = 0;
}

abbrev old_session : Session
old_session = record {
  id = codes "s1";
  user_id = codes "u1";
  token_hash = hash_token (codes "old");
  expires_at = 900;
  ip_address = [];
  user_agent = [];
  impersonated_by = none;
  created_at = 1;
}

abbrev other_session : Session
other_session = record old_session { id = codes "s2"; token_hash = hash_token (codes "other") }

abbrev db : Db
db = record { users = ann ∷ []; sessions = old_session ∷ other_session ∷ [] }

db-AreDistinct : AreDistinct db
unfolding AtMostOne first has_hash text_eq
db-AreDistinct hash = (
  λ e.
      subst (λ h. first (has_hash h) (other_session ∷ []) ≡ none)
        ((text_eq_iff old_session.token_hash hash).0 e) refl,
  ((λ e. refl), tt),
)

revoke_sessions-cookie_example :
    let before = session_user_from_cookie hash_token mac (codes "old.mac") 5 db in
    StaysIf
      (λ s. (s.user_id ≢ codes "u1") ⊎ (s.id ≡ codes "s2"))
      before
      (session_user_from_cookie hash_token mac
        (codes "old.mac")
        5
        (revoke_other_sessions (codes "u1") (codes "s2") db))
    × StaysIf
        (λ s. (s.id ≢ codes "s2") ⊎ (s.user_id ≢ codes "u1"))
        before
        (session_user_from_cookie hash_token mac
          (codes "old.mac")
          5
          (revoke_session (codes "u1") (codes "s2") db))
    × StaysIf
        (λ s. s.token_hash ≢ hash_token (codes "old"))
        before
        (session_user_from_cookie hash_token mac
          (codes "old.mac")
          5
          (delete_session_by_token hash_token (codes "old") db))
revoke_sessions-cookie_example =
    revoke_sessions-cookie hash_token mac (codes "old.mac") 5 (codes "u1") (codes "s2")
      (codes "old") db db-AreDistinct

abbrev id_key : Text
id_key = sign_in_limit_key same_text same_text same_text (codes "id") (codes "ann")

abbrev accounts : Accounts
accounts = record {
  db = db;
  credentials =
      record { user_id = codes "u1"; password_hash = hash_password lib (9 ∷ []) (codes "secret") }
      ∷ [];
  reset_tokens =
      record { user_id = codes "u1"; token_hash = hash_token (codes "tok"); expires_at = 1_000 }
      ∷ [];
  guard = new_sign_in_guard;
  forgot_limit = new_brute_limiter 10 sign_in_failure_window sign_in_lockout;
}

reset_granted :
    (reset_password lib hash_token [] (codes "tok") (codes "new") 7 accounts).0 ≡ status 200
unfolding reset_password is_empty active_reset_token first is_active text_eq reset_for
reset_granted = refl

tokens_single : AtMostOne (has_token (hash_token (codes "tok"))) accounts.reset_tokens
unfolding AtMostOne first
tokens_single = ((λ e. refl), tt)

reset_password-once_example :
    (r : ResetToken) × (active_reset_token (hash_token (codes "tok")) 7 accounts.reset_tokens
      ≡ some r)
    × (verify_user lib r.user_id
          (codes "new")
          (reset_password lib hash_token [] (codes "tok") (codes "new") 7 accounts).1.credentials
        ≡ some true)
    × ((reset_password lib hash_token []
          (codes "tok")
          (codes "more")
          8
          (reset_password lib hash_token [] (codes "tok") (codes "new") 7 accounts).1).0
        ≡ status 400)
    × ((reset_password lib hash_token [] (codes "tok") (codes "new") 7 accounts).1.db ≡ accounts.db)
reset_password-once_example =
    reset_password-once lib hash_token [] (codes "tok") (codes "new") 7 accounts [] (codes "more") 8
      lib-IsSound tokens_single reset_granted

abbrev attempt : Attempt
attempt = record {
  identifier = codes "ann";
  password = codes "secret";
  ip = codes "::1";
  user_agent = [];
  session_id = codes "s3";
  token = codes "new";
  now = 5;
}

abbrev lookup_ann : Text → List User → Option User
lookup_ann name users = first (λ (u : User). text_eq u.id (codes "u1")) users

signed_ann :
    (sign_in_with_password lib hash_token mac same_text same_text same_text lookup_ann attempt
      accounts).0
    ≡ signed_in ann (codes "new.mac")
unfolding sign_in_with_password is_empty check blocked find new_sign_in_guard new_brute_limiter
    first text_eq verify_user verify_row credential_of verify_password split hash_password shifted
    derived pad unshifted sign_token
signed_ann = refl

new_token : first (has_hash (hash_token (codes "new"))) accounts.db.sessions ≡ none
unfolding first has_hash text_eq
new_token = refl

ann_known : user_by_id ann.id accounts.db.users ≡ some ann
unfolding user_by_id first text_eq
ann_known = refl

sign_in-cookie_example :
    (lookup_ann (codes "ann") db.users ≡ some ann)
    × (verify_user lib (codes "u1") (codes "secret") accounts.credentials ≡ some true)
    × (session_user_from_cookie hash_token mac
          (codes "new.mac")
          6
          (sign_in_with_password lib hash_token mac same_text same_text same_text lookup_ann attempt
            accounts).1.db
        ≡ (if ltb (5 + session_ttl) 6
            then none
            else some (
              new_session hash_token (codes "s3") (codes "new") (codes "u1") (codes "::1") [] 5,
              ann,
            )))
    × (check
          (sign_in_with_password lib hash_token mac same_text same_text same_text lookup_ann attempt
            accounts).1.guard
          (sign_in_limit_key same_text same_text same_text (codes "ip") (codes "::1"))
          id_key
          (nanos 6)
        ≡ 0)
sign_in-cookie_example =
    sign_in-cookie lib hash_token mac same_text same_text same_text lookup_ann attempt accounts ann
      (codes "new.mac") 6 (refl, (refl, (refl, tt))) new_token ann_known signed_ann

-- Three failures between the first and the last one, and one of another identifier.
abbrev failures : List (Text × ℕ)
failures = (id_key, 2) ∷ (codes "other", 2) ∷ (id_key, 3) ∷ (id_key, 3) ∷ []

abbrev locked_accounts : Accounts
locked_accounts = record accounts {
  guard = record {
    ip = new_brute_limiter 10 sign_in_failure_window sign_in_lockout;
    id =
        fail
          (fails failures
            (fail (new_brute_limiter 5 sign_in_failure_window sign_in_lockout) id_key 1))
          id_key 4;
  };
}

failures_times : times_of id_key failures ≡ 2 ∷ 3 ∷ 3 ∷ []
unfolding times_of text_eq sign_in_limit_key
failures_times = refl

failures_recent : AreRecent sign_in_failure_window 4 (1 ∷ times_of id_key failures)
failures_recent =
    subst (λ ts. AreRecent sign_in_failure_window 4 (1 ∷ ts)) (sym failures_times)
      (
        (omega arith, omega arith),
        (
          (omega arith, omega arith),
          ((omega arith, omega arith), ((omega arith, omega arith), tt)),
        ),
      )

failures_enough : 3 ≤ length (times_of id_key failures)
failures_enough = subst (λ ts. 3 ≤ length ts) (sym failures_times) (omega arith)

sign_in-locked_example :
    (retry : ℕ) × (1 ≤ retry)
    × (sign_in_with_password lib hash_token mac same_text same_text same_text lookup_ann attempt
          locked_accounts
        ≡ (too_many retry, locked_accounts))
unfolding is_empty
sign_in-locked_example =
    sign_in-locked lib hash_token mac same_text same_text same_text lookup_ann attempt
      locked_accounts 1 4 failures refl refl
      (omega arith, (omega arith, (omega arith, (omega arith, tt)))) failures_recent failures_enough
      (omega arith)

sign_out-cookie_example :
    (session_user_from_cookie hash_token mac
        (codes "old.mac")
        5
        (sign_out hash_token mac none (some (codes "old.mac")) db)
      ≡ none)
    × (session_user_from_cookie hash_token mac
          (codes "other.mac")
          5
          (sign_out hash_token mac none (some (codes "old.mac")) db)
        ≡ only_session
            (is_left hash_token (verify_signature mac (codes "old.mac")))
            (session_user_from_cookie hash_token mac (codes "other.mac") 5 db))
sign_out-cookie_example =
    sign_out-cookie hash_token mac (codes "old.mac") (codes "other.mac") 5 db db-AreDistinct
