-- ===== src/Pages.antt =====
-- The pages of containers, images, volumes and networks (web/src/routes/_private/images.tsx, volumes.tsx,
-- networks.tsx and web/src/components/containers/table.tsx): comparators, filters and cells. The
-- conversions of numbers and dates to text are parameters.
pub mod Cells
pub mod Sorting
pub mod StatusFilter
use dockstack.Prelude.{
  ℕ, Bool, true, false, not, ◌||◌, Option, none, some, List, [], ◌∷◌, ◌++◌, map, concat,
  starts_with, drop, text_eq, Text, codes, decimal, ltb, leb, if◌then◌else◌,
}

-- the sign of what a comparator returns
pub data Order : Type 0 where
  less equal greater : Order

text_or_empty : Option Text → Text
text_or_empty none = []
text_or_empty (some t) = t

-- the `sortFn` of the column of stacks; `cmp a b` is `a.localeCompare(b)`
unfoldable pub stack_sort : (cmp : Text → Text → Order) → (a b : Option Text) → Order
unfolding text_or_empty
stack_sort cmp none b = equal
stack_sort cmp (some a) b = cmp a (text_or_empty b)

first_tag : Option (List Text) → Text
first_tag none = []
first_tag (some []) = []
first_tag (some (tag ∷ tags)) = tag

-- the `sortFn` of the column of tags
unfoldable pub tag_sort : (cmp : Text → Text → Order) → (a b : Option (List Text)) → Order
unfolding first_tag
tag_sort cmp a b = cmp (first_tag a) (first_tag b)

join_tags : Text → List Text → Text
join_tags tag [] = tag
join_tags tag (t ∷ ts) = tag ++ (codes ", " ++ join_tags t ts)

-- the cell of the tags: `none` where `tags.length` throws, since the server sent null
unfoldable pub tags_cell : Option (List Text) → Option Text
unfolding join_tags
tags_cell none = none
tags_cell (some []) = some (codes "<none>")
tags_cell (some (tag ∷ tags)) = some (join_tags tag tags)

-- `staleData[imageId]`
unfoldable pub stale_of : List (Text × Text) → Text → Option Text
stale_of [] id = none
stale_of ((i, status) ∷ stale) id = if text_eq i id then some status else stale_of stale id

pub data StaleCell : Type 0 where
  spinner dash : StaleCell
  badge : (status : Text) → StaleCell

stale_badge : Option Text → StaleCell
stale_badge none = dash
stale_badge (some status) =
    if text_eq status (codes "outdated") || text_eq status (codes "up-to-date")
    then badge status
    else dash

-- `StaleCell`, which is given `staleQuery.data ?? {}`, and so never finds no data
unfoldable pub stale_cell :
    Option (List (Text × Text)) → (is_loading : Bool) → (image_id : Text) → StaleCell
unfolding stale_badge
stale_cell data' true image_id = spinner
stale_cell none false image_id = stale_badge none
stale_cell (some stale) false image_id = stale_badge (stale_of stale image_id)

-- the accessor of the column of statuses; `none` is null
unfoldable pub image_status : Option (List (Text × Text)) → Text → Option Text
image_status none id = none
image_status (some stale) id = stale_of stale id

-- the values of the filters on the status, but for "all"
abbrev pub container_items : List Text
container_items = codes "healthy" ∷ codes "unhealthy" ∷ codes "running" ∷ codes "stopped" ∷ []

abbrev pub image_items : List Text
image_items = codes "outdated" ∷ codes "up-to-date" ∷ codes "unknown" ∷ []

abbrev pub resource_items : List Text
resource_items = codes "in-use" ∷ codes "unused" ∷ []

-- `formatSize` of web/src/lib/utils.ts; `to_fixed n d k` is `(n / d).toFixed(k)`
unfoldable pub format_size : (to_fixed : ℕ → ℕ → ℕ → Text) → ℕ → Text
format_size to_fixed bytes =
    if leb 1000000000 bytes
    then to_fixed bytes 1000000000 1 ++ codes " GB"
    else if leb 1000000 bytes
    then to_fixed bytes 1000000 0 ++ codes " MB"
    else to_fixed bytes 1000 0 ++ codes " KB"

-- the size of a volume, `none` where it is negative
unfoldable pub volume_size : (to_fixed : ℕ → ℕ → ℕ → Text) → Option ℕ → Text
volume_size to_fixed none = codes "-"
volume_size to_fixed (some size) =
    if ltb size 1000000
    then to_fixed size 1000 1 ++ codes " KB"
    else to_fixed size 1000000 1 ++ codes " MB"

-- `url.replace("https://", "")`: the first occurrence is taken out
unfoldable pub without_https : Text → Text
without_https [] = []
without_https (c ∷ cs) =
    let rest = without_https cs in
    if starts_with (codes "https://") (c ∷ cs) then drop 8 (c ∷ cs) else c ∷ rest

-- what the page of volumes, or networks, shows
pub data Page {ℓ} (A : Type ℓ) : Type ℓ where
  spinner_page : Page A
  error_page : (message : Text) → Page A
  table_page : List A → Page A

rows_of {ℓ} : {A : Type ℓ} → Option (List A) → List A
rows_of none = []
rows_of (some rows) = rows

unfoldable pub resource_page {ℓ} :
    {A : Type ℓ} → (is_loading : Bool) → (error : Option Text) → Option (List A) → Page A
unfolding rows_of
resource_page true error rows = spinner_page
resource_page false (some message) rows = error_page message
resource_page false none rows = table_page (rows_of rows)
