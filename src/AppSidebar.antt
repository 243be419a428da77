-- ===== src/AppSidebar.antt =====
-- web/src/components/app-sidebar.tsx: the links of the sidebar, the other instances and the user's menu.
pub mod Active
pub mod Initials
use dockstack.Prelude.{
  ℕ, Bool, true, false, not, Option, none, some, List, [], ◌∷◌, ◌++◌, map, keep, concat, length,
  take, text_eq, Text, codes, split, contains, ltb, if◌then◌else◌,
}
use dockstack.Effect.{Effect, toast_success, set_location}
use dockstack.Sidebar.{Sidebar, toggle_sidebar}
use dockstack.SignIn.{logout}

-- `RESOURCES_LINKS`
pub data Resource : Type 0 where
  containers images volumes networks : Resource

abbrev pub resource_path : Resource → Text
resource_path containers = codes "/containers"
resource_path images = codes "/images"
resource_path volumes = codes "/volumes"
resource_path networks = codes "/networks"

-- the links that `AppSidebar` shows: the list of stacks, one for each stack, and the resources
pub data SidebarLink : Type 0 where
  home : SidebarLink
  stack : (name : Text) → SidebarLink
  resource : Resource → SidebarLink

abbrev pub resources_links : List SidebarLink
resources_links = resource containers ∷ resource images ∷ resource volumes ∷ resource networks ∷ []

-- the names are those of `stacksQuery.data`, and none while there is no data
unfoldable pub sidebar_links : List Text → List SidebarLink
sidebar_links names = home ∷ map stack names ++ resources_links

first : List Text → Text
first [] = []
first (part ∷ parts) = part

-- `isActive`
unfoldable pub is_active : (pathname : Text) → SidebarLink → Bool
unfolding first
is_active pathname home = text_eq pathname (codes "/")
is_active pathname (stack name) = text_eq (first (split b'?' pathname)) (codes "/stacks/" ++ name)
is_active pathname (resource r) = text_eq (resource_path r) pathname

-- `toggleSidebarOnMobile`, the `onClick` of every link
unfoldable pub toggle_sidebar_on_mobile : Sidebar → Sidebar
toggle_sidebar_on_mobile s = if s.is_mobile then toggle_sidebar s else s

-- an instance of the settings
pub record Instance : Type 0 where
  pub title : Text
  pub url : Text
  pub is_current : Bool

unfoldable pub other_instance_pathname : Text → Text
other_instance_pathname pathname =
    if contains (codes "/stacks") pathname then codes "/" else pathname

-- the menu of the header: a title and an address for each other instance; `none` where the header is
-- a link to the home page
unfoldable pub instance_menu :
    Option (List Instance) → (pathname : Text) → Option (List (Text × Text))
unfolding other_instance_pathname
instance_menu none pathname = none
instance_menu (some instances) pathname =
    if ltb 1 (length instances)
    then some (
        map (λ (i : Instance). (i.title, i.url ++ other_instance_pathname pathname))
          (keep (λ (i : Instance). not i.is_current) instances))
    else none

-- `part[0]`, which `join` shows as nothing where it is undefined
first_unit : Text → Text
first_unit [] = []
first_unit (c ∷ cs) = c ∷ []

unfoldable pub joined_units : Text → Text
unfolding first_unit
joined_units name = concat (map first_unit (split b' ' name))

-- `initials` of `UserButton`
unfoldable pub initials : (to_upper_case : Text → Text) → Text → Text
unfolding joined_units
initials to_upper_case name = to_upper_case (take 2 (joined_units name))

-- `theme = "system"`, the value of the radio group
unfoldable pub theme_value : Option Text → Text
theme_value none = codes "system"
theme_value (some theme) = theme

-- the item Sign out: what follows `logout()` runs only if that does not throw
unfoldable pub sign_out : (sign_out_ok : Bool) → List Effect
unfolding logout
sign_out sign_out_ok =
    let done = logout sign_out_ok in
    if done.1
    then done.0
    else done.0 ++ toast_success (codes "Signed out") ∷ set_location (codes "/auth/sign-in") ∷ []
