-- ===== src/Tests/SettingsTests.antt =====
-- The settings, the sidebar and the ending of the action dialog at concrete inputs.
use dockstack.Prelude.{◌≡◌, refl, true, some, [], ◌∷◌, length, codes, text_eq, split, contains}
use dockstack.Settings.{PasskeyPlatform, done, add_passkey}
use dockstack.Settings.ApiKeys.{History}
use dockstack.AppSidebar.{stack, is_active, joined_units, initials, other_instance_pathname}
use dockstack.ActionDialog.{mount, run_events, show, hide, settled}
use dockstack.ActionDialog.Ending.{run_events-IsResting, IsResting, finish_events, run_ids}

-- A platform on which every step succeeds, and whose texts are empty.
abbrev willing : PasskeyPlatform
willing = record { answer = λ call. done []; ask_authenticator = λ o. done o; finish_body = λ c. c }

both_requests : length (add_passkey willing).calls ≡ 2
unfolding add_passkey
both_requests = refl

abbrev holding : History
holding = record { held = some (record { name = codes "ci"; key = codes "k" }); clipboard = [] }

web_marked : is_active (codes "/stacks/web?tab=logs") (stack (codes "web")) ≡ true
unfolding is_active text_eq split
web_marked = refl

two_units : initials (λ t. t) (codes "Ada King Lovelace") ≡ codes "AK"
unfolding initials joined_units split
two_units = refl

from_stack : other_instance_pathname (codes "/stacks/web") ≡ codes "/"
unfolding other_instance_pathname contains
from_stack = refl

run_events-IsResting_example :
    let s = run_events (show ∷ hide ∷ show ∷ settled 0 ∷ []) mount in
    let rest = run_events (finish_events (run_ids s.runs)) s in
    IsResting rest × (rest.done_calls ≡ s.next_run)
run_events-IsResting_example = run_events-IsResting (show ∷ hide ∷ show ∷ settled 0 ∷ [])
