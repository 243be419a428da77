-- ===== src/Server/Accounts/Resets.antt =====
-- handleResetPassword: what a token is good for.
use dockstack.Prelude.{
  ℕ, ◌≡◌, inl, inr, refl, sym, subst, ap, ◌∙◌, Bool, true, false, ◌&&◌, ◌||◌, not, Option, none,
  some, List, [], ◌∷◌, keep, text_eq, text_eq_self, Text, ltb, if◌then◌else◌, Bool-cases, arith,
}
use mathlib.Core.Option.{none-ne-some, some-injective}
use dockstack.Server.Rows.{first, AtMostOne}
use dockstack.Server.Passwords.{
  Library, IsSound, hash_password, verify_password, verify_password_iff,
}
use dockstack.Server.Accounts.{
  Credential, ResetToken, Accounts, Reply, status, too_many, signed_in, credential_of,
  upsert_credential, verify_row, verify_user, set_password, is_empty, is_active, active_reset_token,
  is_of_other, delete_reset_tokens, reset_for, reset_password,
}

unfoldable pub has_token : (hash : Text) → ResetToken → Bool
has_token hash r = text_eq r.token_hash hash

-- A token that no row has is not active.
unknown_inactive :
    (hash user_id : Text) (now : ℕ) (rows : List ResetToken)
    → first (has_token hash) rows ≡ none
    → first (is_active hash now) (keep (is_of_other user_id) rows) ≡ none
unfolding first has_token is_active
unknown_inactive hash user_id now [] h = refl
unknown_inactive hash user_id now (x ∷ rows) h =
    ground (arith, unknown_inactive hash user_id now rows)

unknown_active :
    (hash : Text) (now : ℕ) (rows : List ResetToken)
    → first (has_token hash) rows ≡ none
    → first (is_active hash now) rows ≡ none
unfolding first has_token is_active
unknown_active hash now [] h = refl
unknown_active hash now (x ∷ rows) h = ground (arith, unknown_active hash now rows)

-- Without the rows of its user, a token is not active at any time.
used_inactive :
    (hash : Text) (now later : ℕ) (rows : List ResetToken) (r : ResetToken)
    → AtMostOne (has_token hash) rows
    → first (is_active hash now) rows ≡ some r
    → first (is_active hash later) (keep (is_of_other r.user_id) rows) ≡ none
unfolding first AtMostOne has_token is_active is_of_other
used_inactive hash now later [] r single h = absurd (none-ne-some r h)
used_inactive hash now later (x ∷ rows) r (alone, single) h =
    elim (Bool-cases (text_eq x.token_hash hash)) [
      | inl own ↦ elim (Bool-cases (ltb now x.expires_at)) [
        | inl live ↦
            let same : x ≡ r =
              some-injective x r (subst (IsFirst now) (is_active_eq now true own live) h) in
            let dropped : is_of_other r.user_id x ≡ false =
              ap (λ (y : ResetToken). is_of_other r.user_id y) same
              ∙ ap not (text_eq_self r.user_id) in
            rw dropped (unknown_inactive hash r.user_id later rows (alone own))
        | inr over ↦ absurd (
            none-ne-some r (
              sym (unknown_active hash now rows (alone own))
              ∙ subst (IsFirst now) (is_active_eq now false own over) h))
      ]
      | inr other ↦
          let rest =
            used_inactive hash now later rows r single
              (subst (IsFirst now) (not_active now other) h) in
          elim (Bool-cases (is_of_other r.user_id x)) [
            | inl kept ↦ rw (kept, not_active later other) rest
            | inr gone ↦ rw gone rest
          ]
    ]
  where
    IsFirst : ℕ → Bool → Type 0
    IsFirst t b = (if b then some x else first (is_active hash t) rows) ≡ some r

    is_active_eq :
        (t : ℕ) (b : Bool)
        → text_eq x.token_hash hash ≡ true
        → ltb t x.expires_at ≡ b
        → is_active hash t x ≡ b
    is_active_eq t b own live = ap (λ u. u && ltb t x.expires_at) own ∙ live

    not_active : (t : ℕ) → text_eq x.token_hash hash ≡ false → is_active hash t x ≡ false
    not_active t other = ap (λ u. u && ltb t x.expires_at) other

-- The password that was set is the one that is accepted.
credential_of-upsert :
    (lib : Library) (user_id password hash : Text) (rows : List Credential)
    → verify_row lib password (credential_of user_id (upsert_credential user_id hash rows))
      ≡ verify_password lib password hash
unfolding verify_row credential_of upsert_credential
credential_of-upsert lib user_id password hash [] = rw (text_eq_self user_id) refl
credential_of-upsert lib user_id password hash (c ∷ rows) =
    elim (Bool-cases (text_eq c.user_id user_id)) [
      | inl own ↦ rw (own, own) refl
      | inr other ↦ rw (other, other) (credential_of-upsert lib user_id password hash rows)
    ]

reply_code : Reply → ℕ
reply_code (status code) = code
reply_code (too_many retry) = 429
reply_code (signed_in user cookie) = 200

granted_row :
    (lib : Library) (salt new_password : Text) (a : Accounts) (empty : Bool)
    (row : Option ResetToken)
    → (if empty then (status 400, a) else reset_for lib salt new_password row a).0 ≡ status 200
    → (r : ResetToken) × (row ≡ some r)
      × ((if empty then (status 400, a) else reset_for lib salt new_password row a)
          ≡ reset_for lib salt new_password (some r) a)
unfolding reset_for reply_code
granted_row lib salt new_password a true row ok = absurd (omega (arith, ap reply_code ok))
granted_row lib salt new_password a false none ok = absurd (omega (arith, ap reply_code ok))
granted_row lib salt new_password a false (some r) ok = (r, refl, refl)

refused_row :
    (lib : Library) (salt new_password : Text) (a : Accounts) (empty : Bool)
    (row : Option ResetToken)
    → row ≡ none
    → (if empty then (status 400, a) else reset_for lib salt new_password row a).0 ≡ status 400
unfolding reset_for
refused_row lib salt new_password a true row h = refl
refused_row lib salt new_password a false row h =
    ap (λ o. (reset_for lib salt new_password o a).0) h

-- If the tokens are distinct and the libraries keep what they document, a reset that is granted is so for
-- one active row of the token; after it the new password is the one accepted for the row's user, the token
-- is refused at any later or earlier time, and users and sessions are as before: those of the old
-- password stay valid.
pub reset_password-once :
    (lib : Library) (hash_token : Text → Text) (salt token new_password : Text) (now : ℕ)
    (a : Accounts) (salt' other_password : Text) (later : ℕ)
    → IsSound lib
    → AtMostOne (has_token (hash_token token)) a.reset_tokens
    → (reset_password lib hash_token salt token new_password now a).0 ≡ status 200
    → (r : ResetToken) × (active_reset_token (hash_token token) now a.reset_tokens ≡ some r)
      × (verify_user lib r.user_id new_password
            (reset_password lib hash_token salt token new_password now a).1.credentials
          ≡ some true)
      × ((reset_password lib hash_token salt' token other_password later
            (reset_password lib hash_token salt token new_password now a).1).0
          ≡ status 400)
      × ((reset_password lib hash_token salt token new_password now a).1.db ≡ a.db)
unfolding reset_password active_reset_token verify_user reset_for upsert_credential
    delete_reset_tokens set_password
reset_password-once lib hash_token salt token new_password now a salt' other_password later sound
      single ok =
    let (r, found, done) =
      granted_row lib salt new_password a (is_empty token || is_empty new_password)
        (active_reset_token (hash_token token) now a.reset_tokens) ok in
    (
      r,
      found,
      subst
          (λ (p : Reply × Accounts).
            verify_user lib r.user_id new_password p.1.credentials ≡ some true)
          (sym done)
          (credential_of-upsert lib r.user_id new_password (hash_password lib salt new_password)
              a.credentials
            ∙ (verify_password_iff lib salt new_password new_password sound).1),
      subst
          (λ (p : Reply × Accounts).
            (reset_password lib hash_token salt' token other_password later p.1).0 ≡ status 400)
          (sym done)
          (refused_row lib salt' other_password _ (is_empty token || is_empty other_password) _
            (used_inactive (hash_token token) now later a.reset_tokens r single found)),
      ap (λ (p : Reply × Accounts). p.1.db) done,
    )
