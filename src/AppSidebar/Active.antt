-- ===== src/AppSidebar/Active.antt =====
-- Which link of the sidebar is marked.
use dockstack.Prelude.{
  ◌≡◌, refl, sym, ap, ◌∙◌, true, ◌++◌, text_eq_iff, Text, codes, split, append_cancel, arith,
}
use dockstack.AppSidebar.{
  Resource, containers, images, volumes, networks, resource_path, SidebarLink, home, stack,
  resource, first, is_active,
}

resource_path_injective : (r s : Resource) → resource_path r ≡ resource_path s → r ≡ s
resource_path_injective containers containers h = refl
resource_path_injective containers images h = cc
resource_path_injective containers volumes h = cc
resource_path_injective containers networks h = cc
resource_path_injective images containers h = cc
resource_path_injective images images h = refl
resource_path_injective images volumes h = cc
resource_path_injective images networks h = cc
resource_path_injective volumes containers h = cc
resource_path_injective volumes images h = cc
resource_path_injective volumes volumes h = refl
resource_path_injective volumes networks h = cc
resource_path_injective networks containers h = cc
resource_path_injective networks images h = cc
resource_path_injective networks volumes h = cc
resource_path_injective networks networks h = refl

-- What a link marked at a path says of the path.
abbrev IsAt : Text → SidebarLink → Type 0
IsAt pathname home = pathname ≡ codes "/"
IsAt pathname (stack name) = first (split b'?' pathname) ≡ codes "/stacks/" ++ name
IsAt pathname (resource r) = resource_path r ≡ pathname

IsAt-active : (pathname : Text) (l : SidebarLink) → is_active pathname l ≡ true → IsAt pathname l
unfolding is_active
IsAt-active pathname home h = (text_eq_iff _ _).0 h
IsAt-active pathname (stack name) h = (text_eq_iff _ _).0 h
IsAt-active pathname (resource r) h = (text_eq_iff _ _).0 h

home_not_stack : (name : Text) → first (split b'?' (codes "/")) ≡ codes "/stacks/" ++ name → ⊥
unfolding first split
home_not_stack name h = ground arith

resource_not_stack :
    (r : Resource) (name : Text)
    → first (split b'?' (resource_path r)) ≡ codes "/stacks/" ++ name
    → ⊥
unfolding first split
resource_not_stack containers name h = ground arith
resource_not_stack images name h = ground arith
resource_not_stack volumes name h = ground arith
resource_not_stack networks name h = ground arith

resource_not_home : (r : Resource) → resource_path r ≡ codes "/" → ⊥
resource_not_home containers h = ground arith
resource_not_home images h = ground arith
resource_not_home volumes h = ground arith
resource_not_home networks h = ground arith

at_one : (pathname : Text) (k l : SidebarLink) → IsAt pathname k → IsAt pathname l → k ≡ l
at_one pathname home home h j = refl
at_one pathname home (stack n) h j =
    absurd (home_not_stack n (ap (λ p. first (split b'?' p)) (sym h) ∙ j))
at_one pathname home (resource r) h j = absurd (resource_not_home r (j ∙ h))
at_one pathname (stack n) home h j =
    absurd (home_not_stack n (ap (λ p. first (split b'?' p)) (sym j) ∙ h))
at_one pathname (stack n) (stack m) h j =
    ap stack (append_cancel (codes "/stacks/") n m (sym h ∙ j))
at_one pathname (stack n) (resource r) h j =
    absurd (resource_not_stack r n (ap (λ p. first (split b'?' p)) j ∙ h))
at_one pathname (resource r) home h j = absurd (resource_not_home r (h ∙ j))
at_one pathname (resource r) (stack n) h j =
    absurd (resource_not_stack r n (ap (λ p. first (split b'?' p)) h ∙ j))
at_one pathname (resource r) (resource s) h j =
    ap resource (resource_path_injective r s (h ∙ sym j))

-- Two links of the sidebar are marked at one address only if they are one link.
is_active_one :
    (pathname : Text) (k l : SidebarLink)
    → is_active pathname k ≡ true
    → is_active pathname l ≡ true
    → k ≡ l
is_active_one pathname k l hk hl =
    at_one pathname k l (IsAt-active pathname k hk) (IsAt-active pathname l hl)
