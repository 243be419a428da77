-- ===== src/Prelude/Splitting.antt =====
-- Splitting at a separator.
use dockstack.Prelude.{ℕ, ◌≡◌, refl, false, [], ◌∷◌, ◌++◌, All, Text, split, push, ◌==◌, arith}

-- The code unit is not in the text.
abbrev pub Lacks : ℕ → Text → Type 0
Lacks sep = All (λ c. (c == sep) ≡ false)

pub split_part : (sep : ℕ) (p : Text) → Lacks sep p → split sep p ≡ p ∷ []
unfolding split push
split_part sep [] h = refl
split_part sep (c ∷ p) (h, hs) = rw (h, split_part sep p hs) refl

pub split-append : (sep : ℕ) (p t : Text) → Lacks sep p → split sep (p ++ sep ∷ t) ≡ p ∷ split sep t
unfolding split push
split-append sep [] t h = ground arith
split-append sep (c ∷ p) t (h, hs) = rw (h, split-append sep p t hs) refl
