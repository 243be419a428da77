-- ===== src/Api/Keys/Clashes.antt =====
-- When two queries share a key of the cache. A stack name that the client accepts has no slash.
use dockstack.Prelude.{
  ◌≡◌, ◌≢◌, ◌↔◌, refl, ap, [], ◌∷◌, ◌++◌, All, Text, codes, append_cancel, head_path,
}
use dockstack.Api.Keys.{
  Key, get_stacks_name_query_key, get_stacks_name_containers_query_key,
  get_stacks_name_files_query_key, get_stacks_drift_query_key, get_stacks_updates_query_key,
  get_stacks_query_key,
}

abbrev pub NoSlash : Text → Type 0
NoSlash = All (λ c. c ≢ b'/')

key_path : {a b : Text} → ◌≡◌ {A = Key} (a ∷ []) (b ∷ []) → a ≡ b
key_path p = head_path p

NoSlash-append : (m rest : Text) → NoSlash (m ++ b'/' ∷ rest) → ⊥
NoSlash-append [] rest (h, _) = h refl
NoSlash-append (c ∷ m) rest (_, h) = NoSlash-append m rest h

-- The query of the stack named drift, or updates, has the key of the query for the drift, or the
-- updates, of all stacks; no other name has it.
pub get_stacks_name_query_key_clash :
    (name : Text)
    → ((get_stacks_name_query_key name ≡ get_stacks_drift_query_key) ↔ (name ≡ codes "drift"))
      × ((get_stacks_name_query_key name ≡ get_stacks_updates_query_key) ↔ (name ≡ codes "updates"))
unfolding get_stacks_name_query_key get_stacks_drift_query_key get_stacks_updates_query_key
get_stacks_name_query_key_clash name = (
  (
    (λ h. append_cancel (codes "/api/stacks/") name (codes "drift") (key_path h)),
    (λ e. ap (λ n. (codes "/api/stacks/" ++ n) ∷ []) e),
  ),
  (
    (λ h. append_cancel (codes "/api/stacks/") name (codes "updates") (key_path h)),
    (λ e. ap (λ n. (codes "/api/stacks/" ++ n) ∷ []) e),
  ),
)

-- A stack `n` whose name holds no slash shares its query with none: the key is neither that of
-- another stack, nor that of the containers or the files of any stack, nor that of the list of stacks.
get_stacks_name_query_key_apart :
    (n m : Text)
    → NoSlash n
    → (get_stacks_name_query_key n ≡ get_stacks_name_query_key m → n ≡ m)
      × (get_stacks_name_query_key n ≢ get_stacks_name_containers_query_key m)
      × (get_stacks_name_query_key n ≢ get_stacks_name_files_query_key m)
      × (get_stacks_name_query_key n ≢ get_stacks_query_key)
unfolding get_stacks_name_query_key get_stacks_name_containers_query_key
    get_stacks_name_files_query_key get_stacks_query_key
get_stacks_name_query_key_apart n m clean = (
  (λ h. append_cancel (codes "/api/stacks/") n m (key_path h)),
  (λ h.
      let e = append_cancel (codes "/api/stacks/") n (m ++ codes "/containers") (key_path h) in
      NoSlash-append m (codes "containers") (rw e at clean)),
  (λ h.
      let e = append_cancel (codes "/api/stacks/") n (m ++ codes "/files") (key_path h) in
      NoSlash-append m (codes "files") (rw e at clean)),
  (λ h. let e = append_cancel (codes "/api/stacks") (b'/' ∷ n) [] (key_path h) in cc),
)
