-- ===== src/Pages/StatusFilter.antt =====
-- The filter on the status of a container. Its column names no filter function, so the table library takes
-- the one for texts: a value passes if it holds the filter's text.
use dockstack.Prelude.{◌≡◌, ◌↔◌, refl, Bool, true, false, any, List, [], ◌∷◌, contains, Text, codes}
use dockstack.Status.{
  StackStatus, running, healthy, unhealthy, starting, restarting, partial, stopped, down, unknown,
  missing, status_text,
}
use dockstack.Pages.{container_items}

-- What the client relies on: on lower-case texts the library's filter is the search for a part.
pub record IsIncludesString (includes_string : Text → Text → Bool) : Type 0 where
  pub finds :
      (s : StackStatus) (v : Text) → includes_string (status_text s) v ≡ contains v (status_text s)

-- The statuses that the value healthy selects.
abbrev pub IsHealthLike : StackStatus → Type 0
IsHealthLike healthy = Unit
IsHealthLike unhealthy = Unit
IsHealthLike _ = ⊥

-- The statuses that no value of the filter selects.
abbrev pub IsUnlisted : StackStatus → Type 0
IsUnlisted starting = Unit
IsUnlisted restarting = Unit
IsUnlisted partial = Unit
IsUnlisted down = Unit
IsUnlisted unknown = Unit
IsUnlisted missing = Unit
IsUnlisted _ = ⊥

healthy_cases :
    (s : StackStatus) → (contains (codes "healthy") (status_text s) ≡ true) ↔ IsHealthLike s
unfolding contains
healthy_cases running = ((λ h. cc), (λ h. elim h [ ]))
healthy_cases healthy = ((λ h. tt), (λ h. refl))
healthy_cases unhealthy = ((λ h. tt), (λ h. refl))
healthy_cases starting = ((λ h. cc), (λ h. elim h [ ]))
healthy_cases restarting = ((λ h. cc), (λ h. elim h [ ]))
healthy_cases partial = ((λ h. cc), (λ h. elim h [ ]))
healthy_cases stopped = ((λ h. cc), (λ h. elim h [ ]))
healthy_cases down = ((λ h. cc), (λ h. elim h [ ]))
healthy_cases unknown = ((λ h. cc), (λ h. elim h [ ]))
healthy_cases missing = ((λ h. cc), (λ h. elim h [ ]))

IsUnlisted-cases :
    (s : StackStatus)
    → (any (λ v. contains v (status_text s)) container_items ≡ false) ↔ IsUnlisted s
unfolding contains
IsUnlisted-cases running = ((λ h. cc), (λ h. elim h [ ]))
IsUnlisted-cases healthy = ((λ h. cc), (λ h. elim h [ ]))
IsUnlisted-cases unhealthy = ((λ h. cc), (λ h. elim h [ ]))
IsUnlisted-cases starting = ((λ h. tt), (λ h. refl))
IsUnlisted-cases restarting = ((λ h. tt), (λ h. refl))
IsUnlisted-cases partial = ((λ h. tt), (λ h. refl))
IsUnlisted-cases stopped = ((λ h. cc), (λ h. elim h [ ]))
IsUnlisted-cases down = ((λ h. tt), (λ h. refl))
IsUnlisted-cases unknown = ((λ h. tt), (λ h. refl))
IsUnlisted-cases missing = ((λ h. tt), (λ h. refl))

any_path {ℓ} :
    {A : Type ℓ} (p q : A → Bool) (xs : List A) → ((x : A) → p x ≡ q x) → any p xs ≡ any q xs
any_path p q [] h = refl
any_path p q (x ∷ xs) h = rw (h x, any_path p q xs h) refl

-- With such a filter the value healthy selects the unhealthy containers as well as the healthy ones, and
-- a container is selected by none of the values exactly when it is starting, restarting, partial, down,
-- unknown or missing.
container_items_cases :
    (includes_string : Text → Text → Bool)
    → IsIncludesString includes_string
    → (s : StackStatus)
    → ((includes_string (status_text s) (codes "healthy") ≡ true) ↔ IsHealthLike s)
      × ((any (λ v. includes_string (status_text s) v) container_items ≡ false) ↔ IsUnlisted s)
container_items_cases includes_string laws s = (
  rw (laws.finds s (codes "healthy")) (healthy_cases s),
  rw
      (any_path (λ v. includes_string (status_text s) v) (λ v. contains v (status_text s))
        container_items (λ v. laws.finds s v))
      (IsUnlisted-cases s),
)
