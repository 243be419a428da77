-- ===== src/Server/Passwords.antt =====
-- internal/auth/password.go: the text that a password is kept as. Argon2, base64 and the scanning of the
-- parameters are the libraries', and parameters here; the salt is an argument.
use dockstack.Prelude.{
  ℕ, ◌≡◌, ◌↔◌, sym, ap, ◌∙◌, Bool, true, Option, none, some, List, [], ◌∷◌, ◌++◌, length, codes,
  split, push, text_eq, text_eq_self, text_eq_iff, Text, if◌then◌else◌,
}
use dockstack.Prelude.Splitting.{Lacks, split_part, split-append}
use mathlib.Core.Option.{some-injective}

-- What the libraries give: `argon2.IDKey` with its password, salt, time, memory, threads and key length,
-- `base64.RawStdEncoding`, and `fmt.Sscanf` with "m=%d,t=%d,p=%d".
pub record Library : Type 0 where
  pub id_key : (password salt : Text) (time memory threads key_len : ℕ) → Text
  pub encode : Text → Text
  pub decode : Text → Option Text
  pub scan : Text → Option (ℕ × ℕ × ℕ)

abbrev pub argon2_time : ℕ
argon2_time = 3

abbrev pub argon2_memory : ℕ
argon2_memory = 65_536

abbrev pub argon2_threads : ℕ
argon2_threads = 4

abbrev pub argon2_key_len : ℕ
argon2_key_len = 32

-- The parameters as they are printed
abbrev pub argon2_params : Text
argon2_params = codes "m=65536,t=3,p=4"

module _ (lib : Library) where
  -- The key that a password is hashed to.
  unfoldable pub derived : (salt password : Text) → Text
  derived salt password =
      lib.id_key password salt argon2_time argon2_memory argon2_threads argon2_key_len

  -- `HashPassword`
  unfoldable pub hash_password : (salt password : Text) → Text
  hash_password salt password =
      codes "argon2id"
      ++ b'$'
        ∷ (codes "v=19"
            ++ b'$'
              ∷ (argon2_params
                  ++ b'$' ∷ (lib.encode salt ++ b'$' ∷ lib.encode (derived salt password))))

  compare_key : (password : Text) → Option (ℕ × ℕ × ℕ) → (salt want : Option Text) → Option Bool
  compare_key password (some (memory, time, threads)) (some salt) (some want) =
      some (text_eq (lib.id_key password salt time memory threads (length want)) want)
  compare_key password _ _ _ = none

  check_parts : (password : Text) → List Text → Option Bool
  unfolding compare_key
  check_parts password (algorithm ∷ version ∷ params ∷ salt ∷ key ∷ []) =
      if text_eq algorithm (codes "argon2id")
      then compare_key password (lib.scan params) (lib.decode salt) (lib.decode key)
      else none
  check_parts password _ = none

  -- `VerifyPassword`, none for its errors
  unfoldable pub verify_password : (password encoded : Text) → Option Bool
  unfolding check_parts
  verify_password password encoded = check_parts password (split b'$' encoded)

-- What the code relies on: base64 has no dollar and is decoded to what was encoded, the parameters are
-- scanned as they were printed, and a key has the length asked for.
pub record IsSound (lib : Library) : Type 0 where
  pub no_dollar : (bytes : Text) → Lacks b'$' (lib.encode bytes)
  pub decodes : (bytes : Text) → lib.decode (lib.encode bytes) ≡ some bytes
  pub scans : lib.scan argon2_params ≡ some (argon2_memory, argon2_time, argon2_threads)
  pub sized : (password salt : Text) → length (derived lib salt password) ≡ argon2_key_len

module _ (lib : Library) (sound : IsSound lib) (salt password : Text) where
  split-hash_password :
      split b'$' (hash_password lib salt password)
      ≡ codes "argon2id"
        ∷ codes "v=19"
        ∷ argon2_params
        ∷ lib.encode salt
        ∷ lib.encode (derived lib salt password)
        ∷ []
  unfolding hash_password split push
  split-hash_password =
      let key : Text = lib.encode (derived lib salt password) in
      ap (λ (r : List Text). codes "argon2id" ∷ codes "v=19" ∷ argon2_params ∷ r)
        (split-append b'$' (lib.encode salt) key (sound.no_dollar salt)
          ∙ ap (λ (r : List Text). lib.encode salt ∷ r)
              (split_part b'$' key (sound.no_dollar (derived lib salt password))))

  verify_password-answer :
      (guess : Text)
      → verify_password lib guess (hash_password lib salt password)
        ≡ some (text_eq (derived lib salt guess) (derived lib salt password))
  unfolding verify_password check_parts compare_key text_eq derived
  verify_password-answer guess =
      let key : Text = derived lib salt password in
      ap (check_parts lib guess) split-hash_password
      ∙ ap
          (λ p.
            compare_key lib guess p (lib.decode (lib.encode salt)) (lib.decode (lib.encode key)))
          sound.scans
      ∙ ap
          (λ b.
            compare_key lib guess (some (argon2_memory, argon2_time, argon2_threads)) b
              (lib.decode (lib.encode key)))
          (sound.decodes salt)
      ∙ ap
          (λ b.
            compare_key lib guess (some (argon2_memory, argon2_time, argon2_threads)) (some salt) b)
          (sound.decodes key)
      ∙ ap
          (λ n.
            some (text_eq (lib.id_key guess salt argon2_time argon2_memory argon2_threads n) key))
          (sound.sized password salt)

-- With libraries that keep what they document, a password is accepted against the text kept for another
-- one, or for itself, exactly if Argon2 gives both the same key with that salt; so the password itself is.
pub verify_password_iff :
    (lib : Library) (salt password guess : Text)
    → IsSound lib
    → ((verify_password lib guess (hash_password lib salt password) ≡ some true)
        ↔ (derived lib salt guess ≡ derived lib salt password))
      × (verify_password lib password (hash_password lib salt password) ≡ some true)
verify_password_iff lib salt password guess sound =
    let answer = verify_password-answer lib sound salt password in
    let same = text_eq_iff (derived lib salt guess) (derived lib salt password) in
    (
      (
        λ h. same.0 (some-injective _ _ (sym (answer guess) ∙ h)),
        λ e. answer guess ∙ ap some (same.1 e),
      ),
      answer password ∙ ap some (text_eq_self (derived lib salt password)),
    )
