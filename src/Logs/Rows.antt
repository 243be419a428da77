-- ===== src/Logs/Rows.antt =====
-- Expanding a row.
use dockstack.Prelude.{
  ◌≡◌, false, not, ◌||◌, List, [], ◌∷◌, ◌++◌, keep, includes, text_eq, text_eq_iff, Text,
  if◌then◌else◌, arith,
}
use dockstack.Logs.{toggle_expanded}

includes-append_one :
    (j k : Text) (xs : List Text) → includes j (xs ++ k ∷ []) ≡ (includes j xs || text_eq k j)
unfolding includes
includes-append_one j k [] = ground arith
includes-append_one j k (x ∷ xs) = ground (arith, includes-append_one j k xs)

includes-keep :
    (j k : Text) (xs : List Text)
    → includes j (keep (λ x. not (text_eq x k)) xs) ≡ (if text_eq k j then false else includes j xs)
unfolding includes
includes-keep j k [] = ground arith
includes-keep j k (x ∷ xs) =
    ground (arith, includes-keep j k xs, text_eq_iff x k, text_eq_iff x j, text_eq_iff k j)

-- Toggling a row's key flips whether that row is expanded, and leaves every other key alone.
pub includes-toggle_expanded :
    (j k : Text) (prev : List Text)
    → includes j (toggle_expanded k prev)
      ≡ (if text_eq k j then not (includes k prev) else includes j prev)
unfolding toggle_expanded
includes-toggle_expanded j k prev =
    ground (arith, includes-append_one j k prev, includes-keep j k prev, text_eq_iff k j)
