-- ===== src/Status/Badges.antt =====
-- Two statuses never look the same.
use dockstack.Prelude.{
  ◌≡◌, refl, ap, Option, none, some, List, [], ◌∷◌, text_eq, Text, if◌then◌else◌,
}
use dockstack.Status.{
  running, healthy, unhealthy, starting, restarting, partial, stopped, down, unknown, missing,
  Badge, stack, outdated, up_to_date, in_use, unused, system, status_map,
}

abbrev labelled : List Badge
labelled =
    stack running
    ∷ stack healthy
    ∷ stack unhealthy
    ∷ stack starting
    ∷ stack restarting
    ∷ stack partial
    ∷ stack stopped
    ∷ stack down
    ∷ stack unknown
    ∷ stack missing
    ∷ outdated
    ∷ up_to_date
    ∷ in_use
    ∷ unused
    ∷ system
    ∷ []

find_label : List Badge → Text → Option Badge
find_label [] label = none
find_label (b ∷ bs) label =
    if text_eq (status_map b).label label then some b else find_label bs label

find_label-label : (b : Badge) → find_label labelled (status_map b).label ≡ some b
unfolding find_label status_map text_eq
find_label-label (stack running) = refl
find_label-label (stack healthy) = refl
find_label-label (stack unhealthy) = refl
find_label-label (stack starting) = refl
find_label-label (stack restarting) = refl
find_label-label (stack partial) = refl
find_label-label (stack stopped) = refl
find_label-label (stack down) = refl
find_label-label (stack unknown) = refl
find_label-label (stack missing) = refl
find_label-label outdated = refl
find_label-label up_to_date = refl
find_label-label in_use = refl
find_label-label unused = refl
find_label-label system = refl

-- No two statuses have the same label on their badge.
pub status_map_injective : (a b : Badge) → (status_map a).label ≡ (status_map b).label → a ≡ b
status_map_injective a b h = cc (find_label-label a, find_label-label b, ap (find_label labelled) h)
