-- ===== src/StackTerminal.antt =====
-- web/src/components/stacks/terminal.tsx: the choice of a container and of a shell for the terminal.
pub mod Remount
use dockstack.Prelude.{
  Bool, true, false, Option, none, some, List, [], ◌∷◌, ◌++◌, keep, Text, codes,
}
use dockstack.Status.{StackStatus, terminal_running}

-- what is read of a container
pub record Container : Type 0 where
  pub id : Text
  pub name : Text
  pub status : StackStatus

-- `SHELLS`
pub data Shell : Type 0 where
  sh bash zsh ash : Shell

abbrev pub shell_path : Shell → Text
shell_path sh = codes "/bin/sh"
shell_path bash = codes "/bin/bash"
shell_path zsh = codes "/bin/zsh"
shell_path ash = codes "/bin/ash"

-- the state of `StackTerminal`; `data_of` is `query.data`
pub record StackTerminal : Type 0 where
  pub selected_id : Option Text
  pub shell : Shell
  pub data_of : Option (List Container)

abbrev pub mount : StackTerminal
mount = record { selected_id = none; shell = sh; data_of = none }

-- the query has new data
unfoldable pub receive_data : List Container → StackTerminal → StackTerminal
receive_data containers s = record s { data_of = some containers }

-- the `onValueChange` of the two selects
unfoldable pub set_selected_id : Option Text → StackTerminal → StackTerminal
set_selected_id id s = record s { selected_id = id }

shell_or : Option Shell → Shell
shell_or none = sh
shell_or (some shell) = shell

unfoldable pub set_shell : Option Shell → StackTerminal → StackTerminal
unfolding shell_or
set_shell shell s = record s { shell = shell_or shell }

-- `running`
unfoldable pub running : Option (List Container) → List Container
running none = []
running (some containers) = keep (λ (c : Container). terminal_running c.status) containers

-- `ContainerTerminal`, with the key by which React tells one from the next
pub record Shown : Type 0 where
  pub key : Text
  pub container_id : Text
  pub shell : Shell

unfoldable pub terminal_key : Text → Shell → Text
terminal_key id shell = id ++ (codes "-" ++ shell_path shell)

-- what `StackTerminal` shows; the terminal is left out where the identifier is empty
pub data View : Type 0 where
  spinner : View
  error : (message : Text) → View
  none_running : View
  terminal : Option Shown → View

-- `activeId && ...`
pub shown_of : Text → Shell → Option Shown
unfolding terminal_key
shown_of [] shell = none
shown_of (c ∷ cs) shell =
    some (record { key = terminal_key (c ∷ cs) shell; container_id = c ∷ cs; shell = shell })

-- `selectedId ?? running[0]?.id`
active_id : Option Text → Container → Text
active_id (some id) first = id
active_id none first = first.id

view_running : StackTerminal → List Container → View
unfolding shown_of active_id
view_running s [] = none_running
view_running s (c ∷ cs) = terminal (shown_of (active_id s.selected_id c) s.shell)

unfoldable pub view : (is_loading : Bool) → (failure : Option Text) → StackTerminal → View
unfolding view_running running
view true failure s = spinner
view false (some message) s = error message
view false none s = view_running s (running s.data_of)
