-- ===== src/SignIn/Redirect.antt =====
-- The way of a visitor who has not signed in, and what the forms send.
use mathlib.Core.List.{Memᴰ}
use dockstack.Prelude.{
  ◌≡◌, ◌≢◌, ◌↔◌, refl, ap, Option, none, some, [], ◌∷◌, text_eq_iff, Text, codes, arith, sym, ◌∙◌,
}
use dockstack.Api.Auth.{post_auth_reset_password}
use dockstack.Effect.{navigate, mutate}
use dockstack.SignIn.{Platform, before_load, signed_in, target, submit_reset}

target_lem : (r : Text) → r ≢ [] → target (some r) ≡ r
unfolding target
target_lem [] ne = absurd (ne refl)
target_lem (c ∷ cs) ne = refl

returns :
    (page to redirect_to : Text)
    → page ≢ []
    → before_load none page ≡ some (to, redirect_to)
    → (to ≡ codes "/auth/sign-in") × Memᴰ (navigate page none) (signed_in (some redirect_to))
unfolding before_load signed_in
returns page to redirect_to ne h =
    let e : redirect_to ≡ page = cc in
    (
      cc,
      Memᴰ.tail (
          Memᴰ.head
            (ap (λ t. navigate t none) (sym (ap (λ r. target (some r)) e ∙ target_lem page ne)))),
    )

-- For a page whose address is not empty: a visitor with no session whom a private page sends to the sign-in page is, once signed in, sent
-- back to the address of that page; a visitor with a session is never sent away.
signed_in-before_load :
    (session : Option Text) (page : Text)
    → page ≢ []
    → (session ≡ none
        → (to redirect_to : Text) → before_load session page ≡ some (to, redirect_to)
        → (to ≡ codes "/auth/sign-in") × Memᴰ (navigate page none) (signed_in (some redirect_to)))
      × (session ≢ none → before_load session page ≡ none)
unfolding before_load signed_in
signed_in-before_load none page ne =
    ((λ _ to redirect_to h. returns page to redirect_to ne h), (λ k. absurd (k refl)))
signed_in-before_load (some session) page ne = ((λ k. cc), (λ _. refl))

-- The form for a new password sends a request exactly if the two entries agree.
pub submit_reset_iff :
    (p : Platform)
    → (token new_password confirm_password : Text)
    → (submit_reset p token new_password confirm_password
        ≡ mutate (post_auth_reset_password (p.reset_body token new_password)) ∷ [])
      ↔ (new_password ≡ confirm_password)
unfolding submit_reset
submit_reset_iff p token new_password confirm_password =
    ground (arith, text_eq_iff new_password confirm_password)
