-- ===== src/Tests/ButtonTests.antt =====
-- The buttons that ask first, the containers offered for a terminal, and the cells of the containers.
use dockstack.Prelude.{◌≡◌, refl, false, true, some, [], ◌∷◌, length, codes, text_eq}
use dockstack.Api.Resources.{delete_networks_name}
use dockstack.Status.{healthy, stopped, terminal_running}
use dockstack.StackTerminal.{Container, running}
use dockstack.Effect.{mutate}
use dockstack.Prune.Dialog.{press, confirm, answered, mount, step}
use dockstack.Prune.Dialog.Single.{run, IsSafe, run-IsSafe-mount}
use dockstack.Pages.Cells.{ContainerStats, columns, stats_of}

abbrev web : Container
web = record { id = codes "a1"; name = codes "web"; status = healthy }

abbrev idle : Container
idle = record { id = codes "b2"; name = codes "idle"; status = stopped }

web_runs : running (some (idle ∷ web ∷ [])) ≡ web ∷ []
unfolding running terminal_running text_eq
web_runs = refl

run-IsSafe-mount_example :
    let remove = delete_networks_name (codes "n") in
    let s = run remove false (press ∷ confirm ∷ answered ∷ press ∷ []) mount in
    let (t, sent) = step remove false confirm s in
    IsSafe false s
    × (s.is_open ≡ true
        → (s.pending ≡ false)
          × (false ≡ false)
          × (sent ≡ mutate remove ∷ [])
          × (t.is_open ≡ false)
          × (t.pending ≡ true)
          × ((step remove false confirm t).1 ≡ mutate remove ∷ []))
run-IsSafe-mount_example =
    run-IsSafe-mount (delete_networks_name (codes "n")) false
      (press ∷ confirm ∷ answered ∷ press ∷ [])

abbrev first_stats : ContainerStats
first_stats = record {
  container_id = codes "a1";
  cpu_percent = codes "1.00";
  memory_used = 5;
  memory_limit = 0;
}

abbrev later_stats : ContainerStats
later_stats = record first_stats { memory_used = 7 }

later_counts : stats_of (first_stats ∷ later_stats ∷ []) (codes "a1") ≡ some later_stats
unfolding stats_of text_eq
later_counts = refl

nine_columns : length (columns true) ≡ length (columns false)
unfolding columns
nine_columns = refl
