-- ===== src/StackTerminal/Remount.antt =====
-- When the terminal of a container is another one for React.
use mathlib.Core.List.{reverse, reverse-append, reverse-reverse}
use dockstack.Prelude.{◌≡◌, ◌↔◌, refl, sym, ap, ◌∙◌, ◌++◌, Text, codes, append_cancel, arith}
use dockstack.StackTerminal.{Shell, sh, bash, zsh, ash, shell_path, terminal_key}

-- The end of a key, read backwards.
abbrev backwards : Shell → Text
backwards sh = codes "hs/nib/-"
backwards bash = codes "hsab/nib/-"
backwards zsh = codes "hsz/nib/-"
backwards ash = codes "hsa/nib/-"

reverse-shell_path : (s : Shell) → reverse (codes "-" ++ shell_path s) ≡ backwards s
reverse-shell_path sh = refl
reverse-shell_path bash = refl
reverse-shell_path zsh = refl
reverse-shell_path ash = refl

backwards_injective : (s t : Shell) (x y : Text) → backwards s ++ x ≡ backwards t ++ y → s ≡ t
backwards_injective sh sh x y h = refl
backwards_injective sh bash x y h = ground arith
backwards_injective sh zsh x y h = ground arith
backwards_injective sh ash x y h = ground arith
backwards_injective bash sh x y h = ground arith
backwards_injective bash bash x y h = refl
backwards_injective bash zsh x y h = ground arith
backwards_injective bash ash x y h = ground arith
backwards_injective zsh sh x y h = ground arith
backwards_injective zsh bash x y h = ground arith
backwards_injective zsh zsh x y h = refl
backwards_injective zsh ash x y h = ground arith
backwards_injective ash sh x y h = ground arith
backwards_injective ash bash x y h = ground arith
backwards_injective ash zsh x y h = ground arith
backwards_injective ash ash x y h = refl

reverse-terminal_key :
    (i : Text) (s : Shell) → reverse (terminal_key i s) ≡ backwards s ++ reverse i
unfolding terminal_key
reverse-terminal_key i s =
    reverse-append i (codes "-" ++ shell_path s) ∙ ap (λ t. t ++ reverse i) (reverse-shell_path s)

same_id : (i j : Text) (s : Shell) → backwards s ++ reverse i ≡ backwards s ++ reverse j → i ≡ j
same_id i j s h =
    sym (reverse-reverse i) ∙ ap reverse (append_cancel (backwards s) _ _ h) ∙ reverse-reverse j

-- Two terminals have one key, so that React keeps the one for the other, exactly if they are for the
-- same container and the same shell; whatever the identifiers are.
terminal_key_iff :
    (i j : Text) (s t : Shell) → (terminal_key i s ≡ terminal_key j t) ↔ ((i ≡ j) × (s ≡ t))
terminal_key_iff i j s t = (
  (λ h.
      let back : backwards s ++ reverse i ≡ backwards t ++ reverse j =
        sym (reverse-terminal_key i s) ∙ ap reverse h ∙ reverse-terminal_key j t in
      let same = backwards_injective s t (reverse i) (reverse j) back in
      (same_id i j s (back ∙ ap (λ r. backwards r ++ reverse j) (sym same)), same)),
  (λ (e, f). ap (λ k. terminal_key k s) e ∙ ap (terminal_key j) f),
)
