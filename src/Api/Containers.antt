-- ===== src/Api/Containers.antt =====
-- web/src/lib/api/generated/default/default.ts: the calls under /api/containers.
use dockstack.Prelude.{none, ◌++◌, Text, codes}
use dockstack.Api.{Call, get, post, delete}

unfoldable pub get_containers : Call
get_containers = record { method = get; url = codes "/api/containers"; body = none }

unfoldable pub post_containers_prune : Call
post_containers_prune = record { method = post; url = codes "/api/containers/prune"; body = none }

unfoldable pub get_containers_stats : Call
get_containers_stats = record { method = get; url = codes "/api/containers/stats"; body = none }

unfoldable pub delete_containers_id : Text → Call
delete_containers_id id = record {
  method = delete;
  url = codes "/api/containers/" ++ id;
  body = none;
}

unfoldable pub post_containers_id_restart : Text → Call
post_containers_id_restart id = record {
  method = post;
  url = codes "/api/containers/" ++ (id ++ codes "/restart");
  body = none;
}

unfoldable pub post_containers_id_start : Text → Call
post_containers_id_start id = record {
  method = post;
  url = codes "/api/containers/" ++ (id ++ codes "/start");
  body = none;
}

unfoldable pub post_containers_id_stop : Text → Call
post_containers_id_stop id = record {
  method = post;
  url = codes "/api/containers/" ++ (id ++ codes "/stop");
  body = none;
}
