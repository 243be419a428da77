-- ===== src/Pages/Cells.antt =====
-- The cells of the table of containers (web/src/components/containers/table.tsx), and the links to the
-- services of a stack (web/src/components/stacks/service-links.tsx). A cell that is `none` shows a dash.
use dockstack.Prelude.{
  ℕ, Bool, true, false, Option, none, some, List, [], ◌∷◌, ◌++◌, map, concat, starts_with, drop,
  text_eq, Text, codes, decimal, ltb, if◌then◌else◌,
}
use dockstack.Pages.{without_https, format_size}

-- `Port` and `ContainerInfo`
pub record Port : Type 0 where
  pub container_port : ℕ
  pub host_name : Text
  pub host_port : ℕ
  pub protocol : Text

pub record ContainerInfo : Type 0 where
  pub id : Text
  pub name : Text
  pub service_name : Option Text
  pub stack : Option Text
  pub status : Text
  pub ports : Option (List Port)
  pub urls : Option (List Text)

-- `ContainerStats`; `cpu_percent` is what `toFixed(2)` makes of it
pub record ContainerStats : Type 0 where
  pub container_id : Text
  pub cpu_percent : Text
  pub memory_used : ℕ
  pub memory_limit : ℕ

-- the columns, in their order
pub data Column : Type 0 where
  service_column name_column stack_column image_column status_column uptime_column usage_column
        ports_column urls_column actions_column :
      Column

unfoldable pub columns : (show_stack : Bool) → List Column
columns true =
    name_column ∷ stack_column ∷ image_column ∷ status_column ∷ uptime_column ∷ usage_column
    ∷ ports_column ∷ urls_column ∷ actions_column ∷ []
columns false =
    service_column ∷ name_column ∷ image_column ∷ status_column ∷ uptime_column ∷ usage_column
    ∷ ports_column ∷ urls_column ∷ actions_column ∷ []

-- the link to a container's stack
unfoldable pub stack_cell : Option Text → Option Text
stack_cell none = none
stack_cell (some []) = none
stack_cell (some (c ∷ cs)) = some (c ∷ cs)

-- `statsMap.get(id)`: of two entries with one identifier, the later one counts
or_earlier : Option ContainerStats → Bool → ContainerStats → Option ContainerStats
or_earlier (some later) same s = some later
or_earlier none true s = some s
or_earlier none false s = none

unfoldable pub stats_of : List ContainerStats → Text → Option ContainerStats
unfolding or_earlier
stats_of [] id = none
stats_of (s ∷ stats) id = or_earlier (stats_of stats id) (text_eq s.container_id id) s

usage_text : (to_fixed : ℕ → ℕ → ℕ → Text) → ContainerStats → Text
usage_text to_fixed s =
    let limit =
      if ltb 0 s.memory_limit then codes " / " ++ format_size to_fixed s.memory_limit else [] in
    s.cpu_percent ++ (codes "% · " ++ (format_size to_fixed s.memory_used ++ limit))

usage_of : (to_fixed : ℕ → ℕ → ℕ → Text) → Option ContainerStats → Option Text
unfolding usage_text
usage_of to_fixed none = none
usage_of to_fixed (some s) = some (usage_text to_fixed s)

unfoldable pub usage_cell :
    (to_fixed : ℕ → ℕ → ℕ → Text) → Option (List ContainerStats) → (id : Text) → Option Text
unfolding usage_of
usage_cell to_fixed none id = none
usage_cell to_fixed (some stats) id = usage_of to_fixed (stats_of stats id)

-- an address, and what is shown of it
pub record Link : Type 0 where
  pub href : Text
  pub label : Text

port_link : Port → Link
port_link p = record {
  href = codes "http://" ++ (p.host_name ++ (codes ":" ++ decimal p.host_port));
  label =
      decimal p.host_port ++ (codes ":" ++ (decimal p.container_port ++ (codes "/" ++ p.protocol)));
}

url_link : Text → Link
url_link u = record { href = u; label = without_https u }

links_or_none : List Link → Option (List Link)
links_or_none [] = none
links_or_none (l ∷ ls) = some (l ∷ ls)

or_empty {ℓ} : {A : Type ℓ} → Option (List A) → List A
or_empty none = []
or_empty (some xs) = xs

unfoldable pub ports_cell : ContainerInfo → Option (List Link)
unfolding port_link links_or_none or_empty
ports_cell c = links_or_none (map port_link (or_empty c.ports))

unfoldable pub urls_cell : ContainerInfo → Option (List Link)
unfolding url_link links_or_none or_empty
urls_cell c = links_or_none (map url_link (or_empty c.urls))

-- `url.replace(/^https?:\/\//, "")`
pub without_scheme : Text → Text
without_scheme url =
    if starts_with (codes "https://") url
    then drop 8 url
    else if starts_with (codes "http://") url
    then drop 7 url
    else url

-- the items of `StackServiceLinks`
pub record ServiceLink : Type 0 where
  pub key : Text
  pub service : Text
  pub label : Text
  pub href : Text

name_of : Option Text → Text → Text
name_of none own = own
name_of (some service) own = service

service_link : ContainerInfo → Text → ServiceLink
unfolding name_of without_scheme
service_link c url = record {
  key = c.id ++ (codes "-" ++ url);
  service = name_of c.service_name c.name;
  label = without_scheme url;
  href = url;
}

container_links : ContainerInfo → List ServiceLink
unfolding service_link or_empty
container_links c = map (service_link c) (or_empty c.urls)

-- nothing is shown where there are none
pub service_links : Option (List ContainerInfo) → List ServiceLink
unfolding container_links or_empty
service_links data' = concat (map container_links (or_empty data'))
