-- ===== src/Settings/Passkey.antt =====
-- When a passkey ceremony succeeds, and what it sends.
use dockstack.Prelude.{◌≡◌, ◌↔◌, ◌⊎◌, inl, inr, refl, ap, ◌∙◌, List, [], ◌∷◌, Text}
use dockstack.Api.{Call}
use dockstack.Api.Auth.{
  post_auth_passkey_register_begin, post_auth_passkey_register_finish, post_auth_passkey_auth_begin,
  post_auth_passkey_auth_finish,
}
use dockstack.Settings.{
  StepResult, done, failed, PasskeyPlatform, finish_with, continue_with, ceremony, add_passkey,
  sign_in_passkey,
}

-- The server gives options, the authenticator a credential for them, and the server accepts it.
pub record Succeeds (p : PasskeyPlatform) (begin : Call) (finish : Text → Call) (answer : Text)
    : Type 0 where
  pub options : Text
  pub credential : Text
  pub began : p.answer begin ≡ done options
  pub asked : p.ask_authenticator options ≡ done credential
  pub finished : p.answer (finish (p.finish_body credential)) ≡ done answer

-- The requests of a ceremony: the first, and the second only for a credential of the authenticator.
abbrev pub Sends : PasskeyPlatform → Call → (Text → Call) → List Call → Type 0
Sends p begin finish calls =
    (calls ≡ begin ∷ [])
    ⊎ ((options credential : Text) × (p.answer begin ≡ done options)
        × (p.ask_authenticator options ≡ done credential)
        × (calls ≡ begin ∷ finish (p.finish_body credential) ∷ []))

module _ (p : PasskeyPlatform) (begin : Call) (finish : Text → Call) where
  finish_from :
      (answer options : Text) (r : StepResult)
      → p.answer begin ≡ done options
      → p.ask_authenticator options ≡ r
      → (finish_with p begin finish r).result ≡ done answer
      → Succeeds p begin finish answer
  unfolding finish_with
  finish_from answer options (failed m) b a h = cc
  finish_from answer options (done credential) b a h = record {
    options = options;
    credential = credential;
    began = b;
    asked = a;
    finished = h;
  }

  ceremony_from :
      (answer : Text) (r : StepResult)
      → p.answer begin ≡ r
      → (continue_with p begin finish r).result ≡ done answer
      → Succeeds p begin finish answer
  unfolding continue_with
  ceremony_from answer (failed m) b h = cc
  ceremony_from answer (done options) b h =
      finish_from answer options (p.ask_authenticator options) b refl h

  ceremony_to :
      (answer : Text)
      → Succeeds p begin finish answer
      → (ceremony p begin finish).result ≡ done answer
  unfolding ceremony continue_with finish_with
  ceremony_to answer s =
      ap (λ r. (continue_with p begin finish r).result) s.began
      ∙ ap (λ r. (finish_with p begin finish r).result) s.asked
      ∙ s.finished

  finish-Sends :
      (options : Text) (r : StepResult)
      → p.answer begin ≡ done options
      → p.ask_authenticator options ≡ r
      → Sends p begin finish (finish_with p begin finish r).calls
  unfolding finish_with
  finish-Sends options (failed m) b a = inl refl
  finish-Sends options (done credential) b a = inr (options, credential, b, a, refl)

  continue-Sends :
      (r : StepResult)
      → p.answer begin ≡ r
      → Sends p begin finish (continue_with p begin finish r).calls
  unfolding continue_with
  continue-Sends (failed m) b = inl refl
  continue-Sends (done options) b = finish-Sends options (p.ask_authenticator options) b refl

  ceremony_cases :
      (answer : Text)
      → (((ceremony p begin finish).result ≡ done answer) ↔ Succeeds p begin finish answer)
        × Sends p begin finish (ceremony p begin finish).calls
  unfolding ceremony
  ceremony_cases answer = (
    (ceremony_from answer (p.answer begin) refl, ceremony_to answer),
    continue-Sends (p.answer begin) refl,
  )

-- Adding a passkey, and signing in with one, succeeds exactly if the server gives options, the
-- authenticator a credential for them, and the server accepts it; the second request is sent only for
-- a credential that the authenticator gave.
passkey_ceremonies :
    (p : PasskeyPlatform) (answer : Text)
    → (((add_passkey p).result ≡ done answer)
        ↔ Succeeds p post_auth_passkey_register_begin post_auth_passkey_register_finish answer)
      × Sends p post_auth_passkey_register_begin post_auth_passkey_register_finish
          (add_passkey p).calls
      × (((sign_in_passkey p).result ≡ done answer)
          ↔ Succeeds p post_auth_passkey_auth_begin post_auth_passkey_auth_finish answer)
      × Sends p post_auth_passkey_auth_begin post_auth_passkey_auth_finish (sign_in_passkey p).calls
unfolding add_passkey sign_in_passkey
passkey_ceremonies p answer =
    let (add, add_sends) =
      ceremony_cases p post_auth_passkey_register_begin post_auth_passkey_register_finish answer in
    let (sign, sign_sends) =
      ceremony_cases p post_auth_passkey_auth_begin post_auth_passkey_auth_finish answer in
    (add, add_sends, sign, sign_sends)
