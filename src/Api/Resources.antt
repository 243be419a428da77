-- ===== src/Api/Resources.antt =====
-- web/src/lib/api/generated/default/default.ts: the calls for images, networks, volumes, settings and health.
use dockstack.Prelude.{none, ◌++◌, Text, codes}
use dockstack.Api.{Call, get, post, delete}

unfoldable pub get_health : Call
get_health = record { method = get; url = codes "/api/health"; body = none }

unfoldable pub get_images : Call
get_images = record { method = get; url = codes "/api/images"; body = none }

unfoldable pub post_images_prune : Call
post_images_prune = record { method = post; url = codes "/api/images/prune"; body = none }

unfoldable pub get_images_stale : Call
get_images_stale = record { method = get; url = codes "/api/images/stale"; body = none }

unfoldable pub delete_images_id : Text → Call
delete_images_id id = record { method = delete; url = codes "/api/images/" ++ id; body = none }

unfoldable pub get_networks : Call
get_networks = record { method = get; url = codes "/api/networks"; body = none }

unfoldable pub post_networks_prune : Call
post_networks_prune = record { method = post; url = codes "/api/networks/prune"; body = none }

unfoldable pub delete_networks_name : Text → Call
delete_networks_name name = record {
  method = delete;
  url = codes "/api/networks/" ++ name;
  body = none;
}

unfoldable pub get_settings : Call
get_settings = record { method = get; url = codes "/api/settings"; body = none }

unfoldable pub get_volumes : Call
get_volumes = record { method = get; url = codes "/api/volumes"; body = none }

unfoldable pub post_volumes_prune : Call
post_volumes_prune = record { method = post; url = codes "/api/volumes/prune"; body = none }

unfoldable pub delete_volumes_name : Text → Call
delete_volumes_name name = record {
  method = delete;
  url = codes "/api/volumes/" ++ name;
  body = none;
}
