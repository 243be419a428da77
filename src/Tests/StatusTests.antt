-- ===== src/Tests/StatusTests.antt =====
-- Stacks with a few containers: their status, whether they are up to date, and their log lines.
use dockstack.Prelude.{
  ◌≡◌, refl, false, Option, some, List, [], ◌∷◌, any, map, All, codes, contains, Text, text_eq,
}
use dockstack.Prelude.{ℕ, suc, Bool, leb, arith}
use dockstack.Prelude.Sorting.{IsOrder, sort}
use dockstack.Logs.{LogEntry, stdout, earlier, receive}
use dockstack.Server.LogLines.{entry_of_line}
use dockstack.Server.LogLines.Blank.{dated, receive-blank_line}
use dockstack.Status.{unhealthy, is_running}
use dockstack.Server.StackStatus.{
  Container, container_status, get_stack_status, container_state_to_status, running_status, is_up,
  is_restarting, up_containers, restarting_containers, status_of, all_up_status,
}
use dockstack.Server.StackStatus.Live.{is_live, is_running-get_stack_status}
use dockstack.Server.StackStatus.Summary.{HasOneMark, summary, get_stack_status-summary}
use dockstack.Server.Updates as Updates
use dockstack.Server.Updates.{ImageInfo}

abbrev containers : List Container
containers =
    record { state = codes "running"; status = codes "Up (unhealthy)" }
    ∷ record { state = codes "running"; status = codes "Up" }
    ∷ []

containers_status : get_stack_status containers ≡ unhealthy
unfolding get_stack_status status_of up_containers restarting_containers container_status
    container_state_to_status text_eq is_up is_restarting all_up_status running_status contains
containers_status = refl

is_running-get_stack_status_example :
    is_running (some (get_stack_status containers)) ≡ any is_live containers
is_running-get_stack_status_example = is_running-get_stack_status containers

containers-HasOneMark : All HasOneMark containers
unfolding HasOneMark contains
containers-HasOneMark = (refl, (refl, tt))

get_stack_status-summary_example :
    get_stack_status containers ≡ summary (map container_status containers)
get_stack_status-summary_example = get_stack_status-summary containers containers-HasOneMark

abbrev service : Updates.Container
service = record {
  image = codes "redis:7";
  image_id = codes "sha256:0";
  service = codes "db";
  one_off = [];
  config_hash = codes "aa";
}

abbrev hashes : Text → Option Text
hashes name = some (codes "aa")

abbrev wanted : Text → Option Text
wanted name = some (codes "bb")

abbrev untagged : ImageInfo
untagged = record { tags = []; repo_digests = [] }

-- Times compared by their first code unit, the empty text first.
rank : Text → ℕ
rank [] = 0
rank (c ∷ cs) = suc c

abbrev by_rank : Text → Text → Bool
by_rank a b = leb (rank a) (rank b)

by_rank-IsOrder : IsOrder (earlier by_rank)
by_rank-IsOrder = record {
  total = λ a b h. ground (arith, h);
  trans = λ a b c h g. ground (arith, h, g);
}

abbrev shown : List LogEntry
shown = dated (codes "web") stdout (codes "2026") (codes "ready") ∷ []

shown_dated : All (λ (y : LogEntry). by_rank y.timestamp [] ≡ false) shown
unfolding rank dated
shown_dated = (refl, tt)

receive-blank_line_example :
    (entry_of_line (codes "web") stdout (codes "2027 hi")
      ≡ some (dated (codes "web") stdout (codes "2027") (codes "hi")))
    × (entry_of_line (codes "web") stdout (codes "2027 ")
        ≡ some (dated (codes "web") stdout [] (codes "2027")))
    × (receive by_rank (sort (earlier by_rank) shown) (dated (codes "web") stdout [] (codes "2027"))
        ≡ dated (codes "web") stdout [] (codes "2027") ∷ sort (earlier by_rank) shown)
receive-blank_line_example =
    receive-blank_line (codes "web") stdout by_rank shown b'2' b'h' (codes "027") (codes "i")
      (refl, (refl, (refl, (refl, tt)))) by_rank-IsOrder shown_dated
