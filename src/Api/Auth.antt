-- ===== src/Api/Auth.antt =====
-- web/src/lib/api/generated/default/default.ts: the calls under /api/auth.
use dockstack.Prelude.{none, some, ◌++◌, Text, codes}
use dockstack.Api.{Call, get, post, patch, delete}

unfoldable pub get_auth_api_keys : Call
get_auth_api_keys = record { method = get; url = codes "/api/auth/api-keys"; body = none }

unfoldable pub post_auth_api_keys : Text → Call
post_auth_api_keys body = record {
  method = post;
  url = codes "/api/auth/api-keys";
  body = some body;
}

unfoldable pub delete_auth_api_keys_id : Text → Call
delete_auth_api_keys_id id = record {
  method = delete;
  url = codes "/api/auth/api-keys/" ++ id;
  body = none;
}

unfoldable pub post_auth_change_email : Text → Call
post_auth_change_email body = record {
  method = post;
  url = codes "/api/auth/change-email";
  body = some body;
}

unfoldable pub post_auth_change_password : Text → Call
post_auth_change_password body = record {
  method = post;
  url = codes "/api/auth/change-password";
  body = some body;
}

unfoldable pub post_auth_forgot_password : Text → Call
post_auth_forgot_password body = record {
  method = post;
  url = codes "/api/auth/forgot-password";
  body = some body;
}

unfoldable pub post_auth_is_username_available : Text → Call
post_auth_is_username_available body = record {
  method = post;
  url = codes "/api/auth/is-username-available";
  body = some body;
}

unfoldable pub post_auth_passkey_auth_begin : Call
post_auth_passkey_auth_begin = record {
  method = post;
  url = codes "/api/auth/passkey/auth/begin";
  body = none;
}

unfoldable pub post_auth_passkey_auth_finish : Text → Call
post_auth_passkey_auth_finish body = record {
  method = post;
  url = codes "/api/auth/passkey/auth/finish";
  body = some body;
}

unfoldable pub post_auth_passkey_register_begin : Call
post_auth_passkey_register_begin = record {
  method = post;
  url = codes "/api/auth/passkey/register/begin";
  body = none;
}

unfoldable pub post_auth_passkey_register_finish : Text → Call
post_auth_passkey_register_finish body = record {
  method = post;
  url = codes "/api/auth/passkey/register/finish";
  body = some body;
}

unfoldable pub delete_auth_passkey_id : Text → Call
delete_auth_passkey_id id = record {
  method = delete;
  url = codes "/api/auth/passkey/" ++ id;
  body = none;
}

unfoldable pub get_auth_passkeys : Call
get_auth_passkeys = record { method = get; url = codes "/api/auth/passkeys"; body = none }

unfoldable pub get_auth_providers : Call
get_auth_providers = record { method = get; url = codes "/api/auth/providers"; body = none }

unfoldable pub post_auth_reset_password : Text → Call
post_auth_reset_password body = record {
  method = post;
  url = codes "/api/auth/reset-password";
  body = some body;
}

unfoldable pub get_auth_session : Call
get_auth_session = record { method = get; url = codes "/api/auth/session"; body = none }

unfoldable pub get_auth_sessions : Call
get_auth_sessions = record { method = get; url = codes "/api/auth/sessions"; body = none }

unfoldable pub post_auth_sessions_revoke_others : Call
post_auth_sessions_revoke_others = record {
  method = post;
  url = codes "/api/auth/sessions/revoke-others";
  body = none;
}

unfoldable pub post_auth_sessions_id_revoke : Text → Call
post_auth_sessions_id_revoke id = record {
  method = post;
  url = codes "/api/auth/sessions/" ++ (id ++ codes "/revoke");
  body = none;
}

unfoldable pub post_auth_sign_in_email : Text → Call
post_auth_sign_in_email body = record {
  method = post;
  url = codes "/api/auth/sign-in/email";
  body = some body;
}

unfoldable pub post_auth_sign_in_username : Text → Call
post_auth_sign_in_username body = record {
  method = post;
  url = codes "/api/auth/sign-in/username";
  body = some body;
}

unfoldable pub post_auth_sign_out : Call
post_auth_sign_out = record { method = post; url = codes "/api/auth/sign-out"; body = none }

unfoldable pub patch_auth_user : Text → Call
patch_auth_user body = record { method = patch; url = codes "/api/auth/user"; body = some body }
