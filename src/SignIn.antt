-- ===== src/SignIn.antt =====
-- web/src/routes/auth/sign-in.tsx, reset-password.tsx and forgot-password.tsx, web/src/routes/_private/route.tsx and
-- web/src/lib/app-context/session.tsx: the way into the private pages and out.
pub mod Redirect
use dockstack.Prelude.{
  Bool, true, false, not, ◌||◌, Option, none, some, List, [], ◌∷◌, ◌++◌, includes, text_eq, any,
  Text, codes, if◌then◌else◌, ◌==◌,
}
use dockstack.Api.{Call}
use dockstack.Api.Auth.{
  post_auth_sign_in_email, post_auth_sign_in_username, post_auth_reset_password, post_auth_sign_out,
  post_auth_forgot_password,
}
use dockstack.Api.Keys.{get_auth_session_query_key}
use dockstack.Effect.{
  Effect, toast_success, toast_error, forget_query, clear_queries, navigate, mutate,
}

-- the code of the runtime that the pages use: `trim`, and the JSON texts of the request bodies
pub record Platform : Type 0 where
  pub trim : Text → Text
  pub email_body : (email password : Text) → Text
  pub username_body : (username password : Text) → Text
  pub reset_body : (token new_password : Text) → Text

-- `beforeLoad` of the private pages: where it redirects to and the search's `redirectTo`, if it does
unfoldable pub before_load : (session : Option Text) → (href : Text) → Option (Text × Text)
before_load (some session) href = none
before_load none href = some (codes "/auth/sign-in", href)

-- `mutationFn`: the request of the form
unfoldable pub sign_in : Platform → (identifier password : Text) → Call
sign_in p identifier password =
    let id = p.trim identifier in
    if any (λ c. c == b'@') id
    then post_auth_sign_in_email (p.email_body id password)
    else post_auth_sign_in_username (p.username_body id password)

-- `(redirectTo as string) || "/"`
unfoldable pub target : (redirect_to : Option Text) → Text
target none = codes "/"
target (some []) = codes "/"
target (some (c ∷ cs)) = c ∷ cs

-- the `onSuccess` of the two mutations, and their `onError`
unfoldable pub signed_in : (redirect_to : Option Text) → List Effect
unfolding target
signed_in redirect_to = toast_success (codes "Signed in") ∷ navigate (target redirect_to) none ∷ []

unfoldable pub sign_in_failed : (message : Text) → List Effect
sign_in_failed message = toast_error message ∷ []

-- `onSubmit` of the form for a new password, and the `onSuccess` of its mutation
unfoldable pub submit_reset : Platform → (token new_password confirm_password : Text) → List Effect
submit_reset p token new_password confirm_password =
    if not (text_eq new_password confirm_password)
    then toast_error (codes "Passwords do not match") ∷ []
    else mutate (post_auth_reset_password (p.reset_body token new_password)) ∷ []

unfoldable pub reset_succeeded : List Effect
reset_succeeded =
    toast_success (codes "Password reset. You can now sign in.")
    ∷ navigate (codes "/auth/sign-in") none
    ∷ []

-- `logout`: the effects after the request, and whether it throws
unfoldable pub logout : (sign_out_ok : Bool) → List Effect × Bool
logout sign_out_ok = (forget_query get_auth_session_query_key ∷ clear_queries ∷ [], not sign_out_ok)

-- `onSubmit` of the form for a forgotten password, and the `onSuccess` of its mutation; the body is the
-- JSON text of the form's value
unfoldable pub submit_forgot : (body : Text) → List Effect
submit_forgot body = mutate (post_auth_forgot_password body) ∷ []

unfoldable pub forgot_succeeded : List Effect
forgot_succeeded =
    toast_success (codes "If that email exists, a reset token has been generated.") ∷ []

-- `value` of `SessionProvider`, from the query's data, `isLoading` and `isSuccess`
pub record SessionValue : Type 0 where
  pub session : Option Text
  pub is_loading : Bool
  pub is_authenticated : Bool

unfoldable pub session_value :
    (data_of : Option Text) → (is_loading is_success : Bool) → SessionValue
session_value data_of is_loading is_success = record {
  session = data_of;
  is_loading = is_loading;
  is_authenticated = is_success;
}

-- where `SignIn` sends a visitor who is signed in, before it shows the form
unfoldable pub sign_in_redirect : SessionValue → Option Text
sign_in_redirect value = if value.is_authenticated then some (codes "/") else none

-- whether `Navbar` and `AppSidebar` show anything; the settings are there once they are loaded
unfoldable pub shows_navigation : SessionValue → (has_settings : Bool) → Bool
shows_navigation value has_settings = not (not value.is_authenticated || not has_settings)
