-- ===== src/Server/Sessions/Revoking.antt =====
-- The sessions that stay valid.
use dockstack.Prelude.{
  ℕ, ◌+◌, ◌≡◌, ◌≢◌, ◌⊎◌, ◌↔◌, arith, text_eq_iff, inl, inr, refl, ap, ◌∙◌, Bool, true, false, not,
  Option, none, some, List, [], ◌∷◌, ◌++◌, keep, text_eq_self, Text, ltb, if◌then◌else◌, Bool-cases,
}
use dockstack.Server.Rows.{first, first-keep, first-append, AtMostOne, only}
use dockstack.Server.Tokens.{verify_signature, sign_token, own_verifies, NoDot}
use dockstack.Server.Sessions.{
  User, Session, Db, user_by_id, has_hash, new_session, create_session, with_user, joined,
  unexpired, session_user, from_verified, session_user_from_cookie, is_kept, revoke_session,
  is_other, revoke_other_sessions, delete_session_by_token, session_ttl,
}

-- No two sessions have one token's hash.
abbrev pub AreDistinct : Db → Type 0
AreDistinct db = (hash : Text) → AtMostOne (has_hash hash) db.sessions

-- The answer, where its session meets the condition.
unfoldable pub only_session : (Session → Bool) → Option (Session × User) → Option (Session × User)
only_session q none = none
only_session q (some (s, user)) = if q s then some (s, user) else none

kept_answer :
    (q : Session → Bool) (now : ℕ) (s : Session) (user : Option User)
    → q s ≡ true
    → unexpired now (with_user s user) ≡ only_session q (unexpired now (with_user s user))
unfolding with_user unexpired only_session
kept_answer q now s none kept = refl
kept_answer q now s (some user) kept = elim (Bool-cases (ltb s.expires_at now)) [
  | inl over ↦ rw over refl
  | inr valid ↦ rw (valid, kept) refl
]

dropped_answer :
    (q : Session → Bool) (now : ℕ) (s : Session) (user : Option User)
    → q s ≡ false
    → none ≡ only_session q (unexpired now (with_user s user))
unfolding with_user unexpired only_session
dropped_answer q now s none dropped = refl
dropped_answer q now s (some user) dropped = elim (Bool-cases (ltb s.expires_at now)) [
  | inl over ↦ rw over refl
  | inr valid ↦ rw (valid, dropped) refl
]

joined-only :
    (q : Session → Bool) (now : ℕ) (row : Option Session) (users : List User)
    → unexpired now (joined (only q row) users) ≡ only_session q (unexpired now (joined row users))
unfolding joined only unexpired only_session
joined-only q now none users = refl
joined-only q now (some s) users = elim (Bool-cases (q s)) [
  | inl kept ↦
      ap (λ b. unexpired now (joined (if b then some s else none) users)) kept
      ∙ kept_answer q now s (user_by_id s.user_id users) kept
  | inr dropped ↦
      ap (λ b. unexpired now (joined (if b then some s else none) users)) dropped
      ∙ dropped_answer q now s (user_by_id s.user_id users) dropped
]

-- The answer after a change: as before where the session stays, and none where it does not.
abbrev pub StaysIf : (Session → Type 0) → (before after : Option (Session × User)) → Type 0
StaysIf stays none after = after ≡ none
StaysIf stays (some (s, user)) after =
    (stays s → after ≡ some (s, user)) × (¬ stays s → after ≡ none)

only_session-StaysIf :
    {stays : Session → Type 0} (q : Session → Bool) (before after : Option (Session × User))
    → ((s : Session) → (q s ≡ true) ↔ stays s)
    → after ≡ only_session q before
    → StaysIf stays before after
unfolding only_session
only_session-StaysIf q none after iff e = e
only_session-StaysIf q (some (s, user)) after iff e = (
  (λ k. e ∙ ap (λ b. if b then some (s, user) else none) ((iff s).1 k)),
  (λ gone. elim (Bool-cases (q s)) [
    | inl kept ↦ absurd (gone ((iff s).0 kept))
    | inr dropped ↦ e ∙ ap (λ b. if b then some (s, user) else none) dropped
  ]),
)

module _ (user_id session_id : Text) (s : Session) where
  is_other_iff :
      (is_other user_id session_id s ≡ true) ↔ ((s.user_id ≢ user_id) ⊎ (s.id ≡ session_id))
  unfolding is_other
  is_other_iff = ground (arith, text_eq_iff s.user_id user_id, text_eq_iff s.id session_id)

  is_kept_iff :
      (is_kept user_id session_id s ≡ true) ↔ ((s.id ≢ session_id) ⊎ (s.user_id ≢ user_id))
  unfolding is_kept
  is_kept_iff = ground (arith, text_eq_iff s.user_id user_id, text_eq_iff s.id session_id)

other_hash_iff :
    (hash : Text) (s : Session) → (not (has_hash hash s) ≡ true) ↔ (s.token_hash ≢ hash)
unfolding has_hash
other_hash_iff hash s = ground (arith, text_eq_iff s.token_hash hash)

module _ (hash_token mac : Text → Text) (signed : Text) (now : ℕ) where
  -- The user of a cookie when only some sessions are kept.
  pub cookie-keep :
      (q : Session → Bool) (db : Db)
      → AreDistinct db
      → session_user_from_cookie hash_token mac signed now
          (record db { sessions = keep q db.sessions })
        ≡ only_session q (session_user_from_cookie hash_token mac signed now db)
  unfolding session_user_from_cookie from_verified session_user only_session unexpired
  cookie-keep q db distinct = parsed_keep (verify_signature mac signed)
    where
      parsed_keep :
          (v : Text × Bool)
          → from_verified hash_token v now (record db { sessions = keep q db.sessions })
            ≡ only_session q (from_verified hash_token v now db)
      parsed_keep (token, true) =
          ap (λ row. unexpired now (joined row db.users))
            (first-keep (has_hash (hash_token token)) q db.sessions (distinct (hash_token token)))
          ∙ joined-only q now (first (has_hash (hash_token token)) db.sessions) db.users
      parsed_keep (token, false) = refl

  -- With distinct token hashes, revoking the other sessions of a user leaves the session of a cookie valid
  -- if it is of another user or has the id that is kept, and revoking one session does so if the session has
  -- another id or is of another user; deleting by a token, if the hash of that token is another. Otherwise
  -- the cookie stands for nobody, as does one that stood for nobody before.
  pub revoke_sessions-cookie :
      (user_id session_id token : Text) (db : Db)
      → AreDistinct db
      → let before = session_user_from_cookie hash_token mac signed now db in
        StaysIf
          (λ s. (s.user_id ≢ user_id) ⊎ (s.id ≡ session_id))
          before
          (session_user_from_cookie hash_token mac signed now
            (revoke_other_sessions user_id session_id db))
        × StaysIf
            (λ s. (s.id ≢ session_id) ⊎ (s.user_id ≢ user_id))
            before
            (session_user_from_cookie hash_token mac signed now
              (revoke_session user_id session_id db))
        × StaysIf
            (λ s. s.token_hash ≢ hash_token token)
            before
            (session_user_from_cookie hash_token mac signed now
              (delete_session_by_token hash_token token db))
  unfolding revoke_other_sessions revoke_session delete_session_by_token
  revoke_sessions-cookie user_id session_id token db distinct =
      let before = session_user_from_cookie hash_token mac signed now db in
      (
        only_session-StaysIf (is_other user_id session_id) before _
            (λ s. (is_other_iff user_id session_id s))
            (cookie-keep (is_other user_id session_id) db distinct),
        only_session-StaysIf (is_kept user_id session_id) before _
            (λ s. (is_kept_iff user_id session_id s))
            (cookie-keep (is_kept user_id session_id) db distinct),
        only_session-StaysIf (λ s. not (has_hash (hash_token token) s)) before _
            (λ s. (other_hash_iff (hash_token token) s))
            (cookie-keep (λ s. not (has_hash (hash_token token) s)) db distinct),
      )

-- If the text of an HMAC has no dot and no session has the hash of the token, the cookie of a new session
-- stands for it and its user up to its end, and for nothing later.
pub create_session-cookie :
    (hash_token mac : Text → Text) (id token ip agent : Text) (user : User) (created now : ℕ)
    (db : Db)
    → NoDot (mac token)
    → first (has_hash (hash_token token)) db.sessions ≡ none
    → user_by_id user.id db.users ≡ some user
    → session_user_from_cookie hash_token mac
        (sign_token mac token)
        now
        (create_session hash_token id token user.id ip agent created db)
      ≡ (if ltb (created + session_ttl) now
          then none
          else some (new_session hash_token id token user.id ip agent created, user))
unfolding session_user_from_cookie session_user from_verified create_session new_session joined
    with_user unexpired has_hash first
create_session-cookie hash_token mac id token ip agent user created now db plain fresh known =
    let row : Session = new_session hash_token id token user.id ip agent created in
    let found : first (has_hash (hash_token token)) (db.sessions ++ row ∷ []) ≡ some row =
      first-append (has_hash (hash_token token)) db.sessions (row ∷ []) fresh
      ∙ rw (text_eq_self (hash_token token)) refl in
    ap
      (λ v.
        from_verified hash_token v now
          (create_session hash_token id token user.id ip agent created db))
      (own_verifies mac token plain)
    ∙ ap (λ r. unexpired now (joined r db.users)) found
    ∙ ap (λ o. unexpired now (with_user row o)) known
