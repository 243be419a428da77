-- ===== src/Sidebar.antt =====
-- web/src/components/ui/sidebar.tsx: the state of `SidebarProvider`, and web/src/hooks/use-mobile.ts.
pub mod Cookie
use dockstack.Prelude.{
  ℕ, Bool, true, false, not, ◌&&◌, ◌||◌, Option, none, some, List, [], ◌∷◌, ◌++◌, text_eq, Text,
  codes, ltb, if◌then◌else◌,
}

-- `MOBILE_BREAKPOINT`, and what `useIsMobile` makes of `window.innerWidth`
abbrev pub mobile_breakpoint : ℕ
mobile_breakpoint = 768

unfoldable pub is_mobile_width : ℕ → Bool
is_mobile_width inner_width = ltb inner_width mobile_breakpoint

-- The provider: `open_prop` is the property `open` where it is given, `has_handler` says whether
-- `onOpenChange` is, `requests` are the calls of it, and `cookie` is what was last written.
pub record Sidebar : Type 0 where
  pub is_mobile : Bool
  pub open_mobile : Bool
  pub own_open : Bool
  pub open_prop : Option Bool
  pub has_handler : Bool
  pub requests : List Bool
  pub cookie : Option Bool

-- before the effect of `useIsMobile`, the width counts as wide
pub mount : (default_open : Bool) → Option Bool → (has_handler : Bool) → Sidebar
mount default_open open_prop has_handler = record {
  is_mobile = false;
  open_mobile = false;
  own_open = default_open;
  open_prop = open_prop;
  has_handler = has_handler;
  requests = [];
  cookie = none;
}

-- `openProp ?? _open`
prop_or : Option Bool → Bool → Bool
prop_or none own = own
prop_or (some b) own = b

pub is_open : Sidebar → Bool
unfolding prop_or
is_open s = prop_or s.open_prop s.own_open

-- the callback `setOpen`, given the new state
pub set_open : Bool → Sidebar → Sidebar
set_open open_state s =
    if s.has_handler
    then record s { requests = s.requests ++ open_state ∷ []; cookie = some open_state }
    else record s { own_open = open_state; cookie = some open_state }

-- `toggleSidebar`
pub toggle_sidebar : Sidebar → Sidebar
unfolding is_open set_open
toggle_sidebar s =
    if s.is_mobile
    then record s { open_mobile = not s.open_mobile }
    else set_open (not (is_open s)) s

-- `handleKeyDown`: the shortcut is `b` with the meta or the control key
pub handle_key_down : (key : Text) → (meta_key ctrl_key : Bool) → Sidebar → Sidebar
unfolding toggle_sidebar
handle_key_down key meta_key ctrl_key s =
    if text_eq key (codes "b") && (meta_key || ctrl_key) then toggle_sidebar s else s

-- `onChange` of `useIsMobile`, at a new width of the window
pub resize : ℕ → Sidebar → Sidebar
unfolding is_mobile_width
resize inner_width s = record s { is_mobile = is_mobile_width inner_width }

-- `setOpenMobile`
pub set_open_mobile : Bool → Sidebar → Sidebar
set_open_mobile b s = record s { open_mobile = b }
