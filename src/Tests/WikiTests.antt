-- ===== src/Tests/WikiTests.antt =====
-- The addresses of the documentation at concrete pages.
use dockstack.Prelude.{
  ◌≡◌, ◌≢◌, false, Option, none, some, List, [], ◌∷◌, All, Text, codes, starts_with, arith,
}
use dockstack.Wiki.{is_truthy, get_page_image_url, image_segments, get_image}
use dockstack.Wiki.Addresses.{IsPart, site, get_page_image_url-site}

-- A source that has every page, and answers with its slugs and its language.
abbrev every_page : List Text → Option Text → Option (List Text × Option Text)
every_page slugs locale = some (slugs, locale)

abbrev setup : List Text
setup = codes "setup" ∷ codes "env" ∷ []

setup-AllParts : All IsPart setup
unfolding is_truthy
setup-AllParts = ground arith

fr-IsPart : IsPart (codes "fr")
unfolding is_truthy
fr-IsPart = ground arith

not_dockstack : codes "fr" ≢ codes "dockstack"
not_dockstack h = ground arith

get_page_image_url-site_example :
    (starts_with site (get_page_image_url (record { slugs = setup; locale = some (codes "fr") }))
      ≡ false)
    × (get_image every_page
          (codes "fr")
          (image_segments (record { slugs = setup; locale = some (codes "fr") }))
        ≡ every_page setup none)
get_page_image_url-site_example =
    get_page_image_url-site (List Text × Option Text) every_page (codes "fr") (codes "fr") setup
      fr-IsPart setup-AllParts not_dockstack
