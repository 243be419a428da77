-- ===== src/Theme/Cycle.antt =====
-- What the key does to the theme.
use dockstack.Prelude.{
  ◌≡◌, ◌≢◌, refl, false, none, some, includes, text_eq, Text, codes, arith, ap, ◌+◌,
}
use Prim.Native.Nat.{◌%◌}
use dockstack.Theme.{theme_cycle, next_theme, index_of_suc, at_index, current_index_suc}

-- The themes of the cycle.
pub data InCycle : Text → Type 0 where
  system : InCycle (codes "system")
  light : InCycle (codes "light")
  dark : InCycle (codes "dark")

cycle_lem :
    (t : Text)
    → InCycle t
    → (next_theme (some t) ≢ t) × (next_theme (some (next_theme (some (next_theme (some t))))) ≡ t)
unfolding next_theme text_eq
cycle_lem _ system = ((λ h. cc), refl)
cycle_lem _ light = ((λ h. cc), refl)
cycle_lem _ dark = ((λ h. cc), refl)

outside_lem : (t : Text) → includes t theme_cycle ≡ false → current_index_suc (some t) ≡ 0
unfolding includes current_index_suc index_of_suc
outside_lem t h = ground arith

-- From each theme of the cycle the key goes to another, and to itself by three presses; from any other
-- text, and from no theme, the key goes to "system".
next_theme_cycle :
    (t : Text)
    → (InCycle t
        → (next_theme (some t) ≢ t)
          × (next_theme (some (next_theme (some (next_theme (some t))))) ≡ t))
      × (includes t theme_cycle ≡ false → next_theme (some t) ≡ codes "system")
      × (next_theme none ≡ codes "system")
unfolding next_theme includes
next_theme_cycle t =
    (cycle_lem t, (λ h. ap (λ n. at_index ((n + 3) % 3) theme_cycle) (outside_lem t h)), refl)
