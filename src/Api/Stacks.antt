-- ===== src/Api/Stacks.antt =====
-- web/src/lib/api/generated/default/default.ts: the calls under /api/stacks.
use dockstack.Prelude.{none, some, ◌++◌, Text, codes}
use dockstack.Api.{Call, get, post, put, delete}

unfoldable pub get_stacks : Call
get_stacks = record { method = get; url = codes "/api/stacks"; body = none }

unfoldable pub post_stacks : Text → Call
post_stacks body = record { method = post; url = codes "/api/stacks"; body = some body }

unfoldable pub get_stacks_drift : Call
get_stacks_drift = record { method = get; url = codes "/api/stacks/drift"; body = none }

unfoldable pub post_stacks_redeploy : Call
post_stacks_redeploy = record { method = post; url = codes "/api/stacks/redeploy"; body = none }

unfoldable pub get_stacks_updates : Call
get_stacks_updates = record { method = get; url = codes "/api/stacks/updates"; body = none }

unfoldable pub delete_stacks_name : Text → Call
delete_stacks_name name = record {
  method = delete;
  url = codes "/api/stacks/" ++ name;
  body = none;
}

unfoldable pub get_stacks_name : Text → Call
get_stacks_name name = record { method = get; url = codes "/api/stacks/" ++ name; body = none }

unfoldable pub get_stacks_name_containers : Text → Call
get_stacks_name_containers name = record {
  method = get;
  url = codes "/api/stacks/" ++ (name ++ codes "/containers");
  body = none;
}

unfoldable pub post_stack_action_down : Text → Call
post_stack_action_down name = record {
  method = post;
  url = codes "/api/stacks/" ++ (name ++ codes "/down");
  body = none;
}

unfoldable pub post_stacks_name_env : Text → Call
post_stacks_name_env name = record {
  method = post;
  url = codes "/api/stacks/" ++ (name ++ codes "/env");
  body = none;
}

unfoldable pub get_stacks_name_files : Text → Call
get_stacks_name_files name = record {
  method = get;
  url = codes "/api/stacks/" ++ (name ++ codes "/files");
  body = none;
}

unfoldable pub put_stacks_name_files : Text → Text → Call
put_stacks_name_files name body = record {
  method = put;
  url = codes "/api/stacks/" ++ (name ++ codes "/files");
  body = some body;
}

unfoldable pub post_stack_action_pull : Text → Call
post_stack_action_pull name = record {
  method = post;
  url = codes "/api/stacks/" ++ (name ++ codes "/pull");
  body = none;
}

unfoldable pub post_stack_action_redeploy : Text → Call
post_stack_action_redeploy name = record {
  method = post;
  url = codes "/api/stacks/" ++ (name ++ codes "/redeploy");
  body = none;
}

unfoldable pub post_stacks_name_rename : Text → Text → Call
post_stacks_name_rename name body = record {
  method = post;
  url = codes "/api/stacks/" ++ (name ++ codes "/rename");
  body = some body;
}

unfoldable pub post_stack_action_restart : Text → Call
post_stack_action_restart name = record {
  method = post;
  url = codes "/api/stacks/" ++ (name ++ codes "/restart");
  body = none;
}

unfoldable pub post_stack_action_stop : Text → Call
post_stack_action_stop name = record {
  method = post;
  url = codes "/api/stacks/" ++ (name ++ codes "/stop");
  body = none;
}

unfoldable pub post_stack_action_up : Text → Call
post_stack_action_up name = record {
  method = post;
  url = codes "/api/stacks/" ++ (name ++ codes "/up");
  body = none;
}

unfoldable pub post_stack_action_update : Text → Call
post_stack_action_update name = record {
  method = post;
  url = codes "/api/stacks/" ++ (name ++ codes "/update");
  body = none;
}
