-- ===== src/Server/Access/SigningOut.antt =====
-- handleSignOut: the cookie is worth nothing afterwards.
use dockstack.Prelude.{
  ℕ, ◌≡◌, refl, sym, ap, Bool, true, false, not, Option, none, some, List, [], ◌∷◌, keep, Text,
  arith,
}
use dockstack.Server.Rows.{first}
use dockstack.Server.Tokens.{verify_signature}
use dockstack.Server.Sessions.{
  User, Session, Db, has_hash, unexpired, joined, session_user, from_verified,
  session_user_from_cookie, delete_session_by_token,
}
use dockstack.Server.Sessions.Revoking.{AreDistinct, only_session, cookie-keep}
use dockstack.Server.Access.{delete_verified, sign_out_cookie, sign_out}

first-keep-not :
    {A : Type 0} (p : A → Bool) (xs : List A) → first p (keep (λ x. not (p x)) xs) ≡ none
unfolding first
first-keep-not p [] = refl
first-keep-not p (x ∷ xs) = ground (arith, first-keep-not p xs)

-- The sessions that are not of the token of a cookie.
unfoldable pub is_left : (hash_token : Text → Text) → Text × Bool → Session → Bool
is_left hash_token (token, true) s = not (has_hash (hash_token token) s)
is_left hash_token (token, false) s = true

only_session-all : (o : Option (Session × User)) → only_session (λ s. true) o ≡ o
unfolding only_session
only_session-all none = refl
only_session-all (some p) = refl

module _ (hash_token : Text → Text) (now : ℕ) (db : Db) where
  own_gone :
      (v : Text × Bool) → from_verified hash_token v now (delete_verified hash_token v db) ≡ none
  unfolding from_verified session_user delete_verified delete_session_by_token joined unexpired
  own_gone (token, true) =
      ap (λ row. unexpired now (joined row db.users))
        (first-keep-not (has_hash (hash_token token)) db.sessions)
  own_gone (token, false) = refl

  other_left :
      (mac : Text → Text) (other : Text) (v : Text × Bool)
      → AreDistinct db
      → session_user_from_cookie hash_token mac other now (delete_verified hash_token v db)
        ≡ only_session (is_left hash_token v) (session_user_from_cookie hash_token mac other now db)
  unfolding delete_verified delete_session_by_token is_left
  other_left mac other (token, true) distinct =
      cookie-keep hash_token mac other now (λ s. not (has_hash (hash_token token) s)) db distinct
  other_left mac other (token, false) distinct = sym (only_session-all _)

-- After a request to sign out with a cookie, the cookie stands for nobody at any time. If the token hashes
-- are distinct, every other cookie stands for the session and user as before, but for the session signed
-- out; a cookie with a false signature signs nobody out.
pub sign_out-cookie :
    (hash_token mac : Text → Text) (signed other : Text) (now : ℕ) (db : Db)
    → AreDistinct db
    → (session_user_from_cookie hash_token mac signed now
          (sign_out hash_token mac none (some signed) db)
        ≡ none)
      × (session_user_from_cookie hash_token mac other now
            (sign_out hash_token mac none (some signed) db)
          ≡ only_session
              (is_left hash_token (verify_signature mac signed))
              (session_user_from_cookie hash_token mac other now db))
unfolding sign_out sign_out_cookie session_user_from_cookie
sign_out-cookie hash_token mac signed other now db distinct = (
  own_gone hash_token now db (verify_signature mac signed),
  other_left hash_token now db mac other (verify_signature mac signed) distinct,
)
