-- ===== src/Theme.antt =====
-- web/src/hooks/use-theme-hotkey.ts and use-favicon-theme.ts: the key that changes the theme, and the
-- icon that follows it.
pub mod Cycle
use dockstack.Prelude.{
  ℕ, Bool, true, false, not, ◌&&◌, ◌||◌, ◌+◌, zero, suc, Option, none, some, List, [], ◌∷◌, ◌++◌,
  text_eq, Text, codes, if◌then◌else◌, ◌==◌,
}
use Prim.Native.Nat.{◌%◌}
use dockstack.Effect.{Effect, toast_info}

-- `THEME_CYCLE`
abbrev pub theme_cycle : List Text
theme_cycle = codes "system" ∷ codes "light" ∷ codes "dark" ∷ []

-- `indexOf`, one higher: 0 for a text that is not in the list
later : ℕ → ℕ
later zero = zero
later (suc n) = suc (suc n)

unfoldable pub index_of_suc : Text → List Text → ℕ
unfolding later
index_of_suc x [] = 0
index_of_suc x (y ∷ ys) = let rest = index_of_suc x ys in if text_eq y x then 1 else later rest

at_index : ℕ → List Text → Text
at_index n [] = []
at_index zero (x ∷ xs) = x
at_index (suc n) (x ∷ xs) = at_index n xs

-- `THEME_CYCLE[(currentIndex + 1 + THEME_CYCLE.length) % THEME_CYCLE.length]`; no theme is not in the
-- list
current_index_suc : Option Text → ℕ
current_index_suc none = 0
current_index_suc (some theme) = index_of_suc theme theme_cycle

unfoldable pub next_theme : Option Text → Text
unfolding at_index current_index_suc index_of_suc
next_theme theme = at_index ((current_index_suc theme + 3) % 3) theme_cycle

-- a key event: the key in lower case, whether the target takes text, and the modifiers
pub record KeyEvent : Type 0 where
  pub key : Text
  pub editable_target : Bool
  pub meta_key : Bool
  pub ctrl_key : Bool
  pub shift_key : Bool
  pub alt_key : Bool

unfoldable pub is_hotkey : KeyEvent → Bool
is_hotkey e =
    text_eq e.key (codes "d")
    && (not e.editable_target && ((e.meta_key || e.ctrl_key) && (e.shift_key && not e.alt_key)))

capitalized : (to_upper : Text → Text) → Text → Text
capitalized to_upper [] = to_upper []
capitalized to_upper (c ∷ cs) = to_upper (c ∷ []) ++ cs

-- `handleKeyDown`: the theme that it leaves and what it shows
unfoldable pub handle_key_down :
    (to_upper : Text → Text) → KeyEvent → Option Text → Option Text × List Effect
unfolding capitalized
handle_key_down to_upper e theme =
    if is_hotkey e
    then (
      some (next_theme theme),
      toast_info (codes "Switched theme to: " ++ capitalized to_upper (next_theme theme)) ∷ [],
    )
    else (theme, [])

-- `useFaviconTheme`: the addresses of the two icons
unfoldable pub favicons : (resolved_theme : Option Text) → Text × Text
favicons none = (codes "/favicon-light.svg", codes "/favicon.ico")
favicons (some theme) =
    if text_eq theme (codes "dark")
    then (codes "/favicon-dark.svg", codes "/favicon-dark.ico")
    else (codes "/favicon-light.svg", codes "/favicon.ico")
