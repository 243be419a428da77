-- ===== src/Server/ApiKeys/Table.antt =====
-- CreateAPIKey, DeleteAPIKey and VerifyKey on one table.
use dockstack.Prelude.{
  ℕ, ◌≡◌, inl, inr, refl, ap, ◌∙◌, Bool, true, false, ◌&&◌, none, some, List, [], ◌∷◌, ◌++◌, keep,
  keep-append, text_eq, text_eq_self, text_eq_iff, Text, if◌then◌else◌, Bool-cases, arith,
}
use dockstack.Server.ApiKeys.{
  ApiKey, NewApiKey, create_api_key, delete_api_key, key_by_hash, check_key, Verified, refused,
  verified, has_expired, expired_key, invalid_key, verify_key,
}

key_by_hash-append :
    (hash : Text) (xs ys : List ApiKey)
    → key_by_hash hash xs ≡ none
    → key_by_hash hash (xs ++ ys) ≡ key_by_hash hash ys
unfolding key_by_hash
key_by_hash-append hash [] ys h = refl
key_by_hash-append hash (k ∷ xs) ys h = ground (arith, key_by_hash-append hash xs ys)

key_by_hash-keep :
    (hash : Text) (p : ApiKey → Bool) (xs : List ApiKey)
    → key_by_hash hash xs ≡ none
    → key_by_hash hash (keep p xs) ≡ none
unfolding key_by_hash
key_by_hash-keep hash p [] h = refl
key_by_hash-keep hash p (k ∷ xs) h = ground (arith, key_by_hash-keep hash p xs)

-- The answer for the key that is found.
abbrev pub key_answer : ApiKey → (now : ℕ) → Verified
key_answer key now = if has_expired key.expires_at now then refused expired_key else verified key

module _ (hash_token : Text → Text) (raw id : Text) (created : ℕ) (in' : NewApiKey) where
  -- The row that is written.
  unfoldable pub new_row : ApiKey
  new_row = record {
    id = id;
    user_id = in'.user_id;
    name = in'.name;
    key_hash = in'.key_hash;
    enabled = true;
    expires_at = in'.expires_at;
    created_at = created;
    request_count = 0;
    last_request_at = none;
    max_setting = 100;
    window_setting = 60_000;
  }

  verify_key-create :
      (keys : List ApiKey) (now : ℕ)
      → in'.key_hash ≡ hash_token raw
      → key_by_hash (hash_token raw) keys ≡ none
      → verify_key hash_token raw now (create_api_key id created in' keys) ≡ key_answer new_row now
  unfolding verify_key create_api_key check_key key_by_hash new_row
  verify_key-create keys now hashed fresh =
      let same : text_eq in'.key_hash (hash_token raw) ≡ true =
        (text_eq_iff in'.key_hash (hash_token raw)).1 hashed in
      let found : key_by_hash (hash_token raw) (create_api_key id created in' keys) ≡ some new_row =
        key_by_hash-append (hash_token raw) keys (new_row ∷ []) fresh ∙ rw same refl in
      ap (λ o. check_key o now) found

  kept : (user : Text) → ApiKey → Bool
  kept user k = if text_eq k.id id && text_eq k.user_id user then false else true

  -- The table after a user asked to delete the new key.
  key_by_hash-delete :
      (user : Text) (keys : List ApiKey)
      → in'.key_hash ≡ hash_token raw
      → key_by_hash (hash_token raw) keys ≡ none
      → key_by_hash (hash_token raw) (delete_api_key user id (create_api_key id created in' keys))
        ≡ (if text_eq in'.user_id user then none else some new_row)
  unfolding delete_api_key create_api_key kept new_row key_by_hash
  key_by_hash-delete user keys hashed fresh =
      let same : text_eq in'.key_hash (hash_token raw) ≡ true =
        (text_eq_iff in'.key_hash (hash_token raw)).1 hashed in
      ap (key_by_hash (hash_token raw)) (keep-append (kept user) keys (new_row ∷ []))
      ∙ key_by_hash-append (hash_token raw) (keep (kept user) keys)
          (keep (kept user) (new_row ∷ []))
          (key_by_hash-keep (hash_token raw) (kept user) keys fresh)
      ∙ elim (Bool-cases (text_eq in'.user_id user)) [
        | inl own ↦ rw (text_eq_self id, own) refl
        | inr other ↦ rw (text_eq_self id, other, same) refl
      ]

  -- A new key with a hash of its own is accepted until it expires; after its owner deletes it the raw key
  -- is refused, and a request of another user to delete it changes nothing of that.
  pub verify_key-delete :
      (keys : List ApiKey) (user : Text) (now : ℕ)
      → in'.key_hash ≡ hash_token raw
      → key_by_hash (hash_token raw) keys ≡ none
      → (verify_key hash_token raw now (create_api_key id created in' keys)
          ≡ key_answer new_row now)
        × (verify_key hash_token raw now
              (delete_api_key user id (create_api_key id created in' keys))
            ≡ (if text_eq in'.user_id user then refused invalid_key else key_answer new_row now))
  unfolding verify_key check_key new_row
  verify_key-delete keys user now hashed fresh = (
    verify_key-create keys now hashed fresh,
    ap (λ o. check_key o now) (key_by_hash-delete user keys hashed fresh)
        ∙ elim (Bool-cases (text_eq in'.user_id user)) [
          | inl own ↦ rw own refl
          | inr other ↦ rw other refl
        ],
  )
