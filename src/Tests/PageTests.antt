-- ===== src/Tests/PageTests.antt =====
-- The pages and their forms.
use dockstack.Prelude.{◌≡◌, refl, true, false, none, some, List, [], ◌∷◌, ◌++◌, codes}
use dockstack.Status.{running}
use dockstack.StackPage.{StackDetails, pull_pending, restart_pending}
use dockstack.StackPage.Dialogs.{chosen, changed, MenuEvent}
use dockstack.Home.{StackActions, pull_row, up_row}
use dockstack.Home.Buttons.{clicked, finished, RowEvent}
use dockstack.StackForms.{
  matches_name, name_issues, is_valid_name, all_name_chars, is_name_char, between,
}
use dockstack.Containers.{Pending as ContainerPending}
use dockstack.SignIn.{Platform}

abbrev uses : List MenuEvent
uses = chosen pull_pending ∷ changed false ∷ chosen restart_pending ∷ []

abbrev details : StackDetails
details = record {
  name = codes "web";
  status_of = some running;
  updates = none;
  drift = none;
  pending = none;
  destroy_open = false;
}

abbrev idle_row : StackActions
idle_row = record {
  name = codes "web";
  up_pending = false;
  stop_pending = false;
  down_pending = false;
  restart_pending = false;
  pull_pending = false;
}

abbrev clicks : List RowEvent
clicks = clicked pull_row ∷ clicked up_row ∷ finished pull_row ∷ clicked up_row ∷ []

web_valid : is_valid_name (codes "web-1") ≡ true
unfolding is_valid_name name_issues matches_name all_name_chars is_name_char between
web_valid = refl

abbrev quiet : ContainerPending
quiet = record {
  start_pending = false;
  stop_pending = false;
  restart_pending = false;
  remove_pending = false;
}

abbrev platform : Platform
platform = record {
  trim = λ t. t;
  email_body = λ a b. a ++ b;
  username_body = λ a b. a ++ b;
  reset_body = λ a b. a ++ b;
}
