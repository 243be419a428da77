-- ===== src/Wiki/Addresses.antt =====
-- Whether the addresses lead to their pages.
use dockstack.Prelude.{
  ◌≡◌, ◌≢◌, refl, ap, ◌∙◌, true, false, Option, none, some, List, [], ◌∷◌, ◌++◌, All, keep, Text,
  codes, split, starts_with, arith, text_eq, Bool-cases, inl, inr,
}
use dockstack.Prelude.Splitting.{Lacks, split_part, split-append}
use dockstack.Wiki.{
  docs_image_route, docs_content_route, is_truthy, join_slash, path_of, image_segments,
  markdown_segments, get_page_image_url, get_page_markdown_url, without_last, get_image,
  answer_markdown, locale_part, route_parts, slug_answer, get_markdown,
}

-- No part of a path holds a slash, and none is empty.
abbrev pub NoSlash : Text → Type 0
NoSlash = Lacks b'/'

abbrev pub IsPart : Text → Type 0
IsPart part = (is_truthy part ≡ true) × NoSlash part

split-join_slash :
    (p : Text) (ps : List Text) → All IsPart (p ∷ ps) → split b'/' (join_slash (p ∷ ps)) ≡ p ∷ ps
unfolding join_slash
split-join_slash p [] ((t, n), hs) = split_part b'/' p n
split-join_slash p (q ∷ qs) ((t, n), hs) =
    split-append b'/' p (join_slash (q ∷ qs)) n ∙ ap (λ r. p ∷ r) (split-join_slash q qs hs)

keep_parts : (ps : List Text) → All IsPart ps → keep is_truthy ps ≡ ps
keep_parts [] h = refl
keep_parts (p ∷ ps) ((t, n), hs) = rw (t, keep_parts ps hs) refl

All-append_one : (ps : List Text) (p : Text) → All IsPart ps → IsPart p → All IsPart (ps ++ p ∷ [])
All-append_one [] p hs h = (h, tt)
All-append_one (q ∷ qs) p (g, gs) h = (g, All-append_one qs p gs h)

without_last-append : (ss : List Text) (s : Text) → without_last (ss ++ s ∷ []) ≡ ss
unfolding without_last
without_last-append [] s = refl
without_last-append (a ∷ []) s = refl
without_last-append (a ∷ b ∷ ss) s = ap (λ r. a ∷ r) (without_last-append (b ∷ ss) s)

content-IsPart : IsPart (codes "content.md")
unfolding is_truthy
content-IsPart = ground arith

content_path :
    (locale : Text) (segments : List Text)
    → IsPart locale
    → All IsPart segments
    → path_of (some locale) docs_content_route segments
      ≡ join_slash (locale ∷ codes "llms.mdx" ∷ codes "docs" ∷ segments)
unfolding path_of locale_part is_truthy split
content_path locale segments l h = rw (l.0, keep_parts segments h) refl

content_parts :
    (locale : Text) (slugs : List Text)
    → IsPart locale
    → All IsPart slugs
    → split b'/' (path_of (some locale) docs_content_route (slugs ++ codes "content.md" ∷ []))
      ≡ locale ∷ codes "llms.mdx" ∷ codes "docs" ∷ (slugs ++ codes "content.md" ∷ [])
unfolding is_truthy
content_parts locale slugs l h =
    let segments : List Text = slugs ++ codes "content.md" ∷ [] in
    let all : All IsPart segments = All-append_one slugs (codes "content.md") h content-IsPart in
    ap (split b'/') (content_path locale segments l all)
    ∙ split-join_slash locale (codes "llms.mdx" ∷ codes "docs" ∷ segments)
        (l, (ground arith, (ground arith, all)))

-- The address that is made for the text of a page in some language leads back to that page: what the
-- site answers to it is what its source has under the page's slugs in that language. Slugs and
-- language are texts that are not empty and hold no slash.
answer_markdown-get_page_markdown_url :
    (A : Type 0) (get_page : List Text → Option Text → Option A) (locale : Text) (slugs : List Text)
    → IsPart locale
    → All IsPart slugs
    → answer_markdown get_page
        (get_page_markdown_url (record { slugs = slugs; locale = some locale }))
      ≡ get_page slugs (some locale)
unfolding answer_markdown get_page_markdown_url markdown_segments route_parts slug_answer
    get_markdown text_eq
answer_markdown-get_page_markdown_url A get_page locale slugs l h =
    ap (route_parts get_page) (content_parts locale slugs l h)
    ∙ ap (λ s. get_page s (some locale)) (without_last-append slugs (codes "content.md"))

-- The address that the site has by its `basePath`.
abbrev pub site : Text
site = codes "https://zareix.github.io/dockstack/"

starts_first :
    (p l t : Text)
    → NoSlash p
    → NoSlash l
    → starts_with (p ++ b'/' ∷ []) (l ++ b'/' ∷ t) ≡ true
    → l ≡ p
starts_first [] [] t n m h = refl
starts_first [] (d ∷ l) t n (m, ms) h = ground arith
starts_first (c ∷ p) [] t (n, ns) m h = ground arith
starts_first (c ∷ p) (d ∷ l) t (n, ns) (m, ms) h =
    let same : d ≡ c = ground arith in
    let rest : l ≡ p = starts_first p l t ns ms (ground arith) in
    ap (λ x. x ∷ l) same ∙ ap (λ r. c ∷ r) rest

image_path :
    (locale : Text) (segments : List Text)
    → IsPart locale
    → All IsPart segments
    → path_of (some locale) docs_image_route segments
      ≡ join_slash (locale ∷ codes "dockstack" ∷ codes "og" ∷ codes "docs" ∷ segments)
unfolding path_of locale_part is_truthy split
image_path locale segments l h = rw (l.0, keep_parts segments h) refl

image-IsPart : IsPart (codes "image.png")
unfolding is_truthy
image-IsPart = ground arith

outside :
    (locale rest : Text)
    → NoSlash locale
    → locale ≢ codes "dockstack"
    → starts_with (codes "dockstack/") (locale ++ b'/' ∷ rest) ≡ false
outside locale rest l other =
    elim (Bool-cases (starts_with (codes "dockstack/") (locale ++ b'/' ∷ rest))) [
      | inl e ↦ absurd (other (starts_first (codes "dockstack") locale rest (ground arith) l e))
      | inr e ↦ e
    ]

image_outside :
    (locale : Text) (segments : List Text)
    → IsPart locale
    → All IsPart segments
    → locale ≢ codes "dockstack"
    → starts_with (codes "dockstack/") (path_of (some locale) docs_image_route segments) ≡ false
unfolding join_slash
image_outside locale segments l h other =
    ap (starts_with (codes "dockstack/")) (image_path locale segments l h)
    ∙ outside locale (join_slash (codes "dockstack" ∷ codes "og" ∷ codes "docs" ∷ segments)) l.1
        other

-- The address that is made for the picture of a page in a language, which is not itself called
-- dockstack, lies outside the site; and the handler that makes the picture looks for the page
-- without a language, whichever it is asked for. Slugs and
-- language are texts that are not empty and hold no slash.
pub get_page_image_url-site :
    (A : Type 0) (get_page : List Text → Option Text → Option A) (locale lang : Text)
    (slugs : List Text)
    → IsPart locale
    → All IsPart slugs
    → locale ≢ codes "dockstack"
    → (starts_with site (get_page_image_url (record { slugs = slugs; locale = some locale }))
        ≡ false)
      × (get_image get_page lang (image_segments (record { slugs = slugs; locale = some locale }))
          ≡ get_page slugs none)
unfolding get_page_image_url image_segments get_image
get_page_image_url-site A get_page locale lang slugs l h other = (
  image_outside locale (slugs ++ codes "image.png" ∷ []) l
      (All-append_one slugs (codes "image.png") h image-IsPart) other,
  ap (λ s. get_page s none) (without_last-append slugs (codes "image.png")),
)
