-- ===== src/Wiki.antt =====
-- wiki/lib/source.ts and the routes of wiki/app that answer its addresses: the pages of the
-- documentation as pictures and as texts. The source of the pages (fumadocs) is a parameter.
pub mod Addresses
use dockstack.Prelude.{
  Bool, true, false, not, Option, none, some, List, [], ◌∷◌, ◌++◌, keep, Text, codes, split,
  text_eq, if◌then◌else◌, ◌&&◌,
}

-- what is read of a page
pub record Page : Type 0 where
  pub slugs : List Text
  pub locale : Option Text

-- `docsImageRoute` and `docsContentRoute`
abbrev pub docs_image_route : Text
docs_image_route = codes "/dockstack/og/docs"

abbrev pub docs_content_route : Text
docs_content_route = codes "/llms.mdx/docs"

-- `filter(Boolean)` on texts, and `join("/")`
unfoldable pub is_truthy : Text → Bool
is_truthy [] = false
is_truthy (c ∷ cs) = true

pub join_slash : List Text → Text
join_slash [] = []
join_slash (part ∷ []) = part
join_slash (part ∷ next ∷ parts) = part ++ b'/' ∷ join_slash (next ∷ parts)

locale_part : Option Text → List Text
locale_part none = []
locale_part (some locale) = locale ∷ []

-- `[page.locale, ...route.split("/"), ...segments].filter(Boolean).join("/")`
pub path_of : Option Text → (route : Text) → (segments : List Text) → Text
unfolding locale_part is_truthy
path_of locale route segments =
    join_slash (keep is_truthy (locale_part locale ++ (split b'/' route ++ segments)))

pub image_segments : Page → List Text
image_segments page = page.slugs ++ codes "image.png" ∷ []

pub markdown_segments : Page → List Text
markdown_segments page = page.slugs ++ codes "content.md" ∷ []

-- `getPageImageUrl` and `getPageMarkdownUrl`
pub get_page_image_url : Page → Text
unfolding path_of image_segments
get_page_image_url page =
    codes "https://zareix.github.io/" ++ path_of page.locale docs_image_route (image_segments page)

pub get_page_markdown_url : Page → Text
unfolding path_of markdown_segments
get_page_markdown_url page = b'/' ∷ path_of page.locale docs_content_route (markdown_segments page)

-- `slug.slice(0, -1)`
pub without_last : List Text → List Text
without_last [] = []
without_last (s ∷ []) = []
without_last (s ∷ t ∷ ts) = s ∷ without_last (t ∷ ts)

module _ {A : Type 0} (get_page : List Text → Option Text → Option A) where
  -- the handler in `[lang]/og/docs/[...slug]`; `none` is `notFound()`
  pub get_image : (lang : Text) → (slug : List Text) → Option A
  get_image lang slug = get_page (without_last slug) none

  -- the handler in `[lang]/llms.mdx/docs/[[...slug]]`
  pub get_markdown : (lang : Text) → (slug : List Text) → Option A
  get_markdown lang slug = get_page (without_last slug) (some lang)

  -- the folders of the second handler, taken off the parts of a path
  slug_answer : Text → Text → Text → List Text → Option A
  slug_answer lang folder docs slug =
      if text_eq folder (codes "llms.mdx") && text_eq docs (codes "docs")
      then get_markdown lang slug
      else none

  route_parts : List Text → Option A
  unfolding slug_answer
  route_parts (lang ∷ folder ∷ docs ∷ slug) = slug_answer lang folder docs slug
  route_parts _ = none

  -- what the site answers to a path that starts with a slash
  pub answer_markdown : Text → Option A
  unfolding route_parts
  answer_markdown [] = none
  answer_markdown (c ∷ path) = route_parts (split b'/' path)
