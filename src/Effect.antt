-- ===== src/Effect.antt =====
-- What the handlers of the client ask of the libraries that they call: the notifications (sonner),
-- the query cache (TanStack Query), the router (TanStack Router), and the calls to send.
use mathlib.Core.List.{Memᴰ}
use dockstack.Prelude.{◌≡◌, ◌↔◌, ◌⊎◌, inl, inr, ap, Option, List, [], ◌∷◌, Text}
use dockstack.Api.{Call}
use dockstack.Api.Keys.{Key}

pub data Effect : Type 0 where
  toast_success toast_error toast_info : Text → Effect
  -- `queryClient.invalidateQueries({ queryKey })`
  invalidate : Key → Effect
  -- `queryClient.setQueryData(key, null)` and `queryClient.clear()`
  forget_query : Key → Effect
  clear_queries : Effect
  -- `router.invalidate()`
  invalidate_router : Effect
  -- a path and the `tab` of the search, if it is given
  navigate : (to : Text) → (tab : Option Text) → Effect
  -- `form.reset()`
  reset_form : Effect
  -- `mutation.mutate(...)`
  mutate : Call → Effect
  -- `window.location.href = ...`
  set_location : Text → Effect

-- The query with the key is refetched.
abbrev pub Refreshes : List Effect → Key → Type 0
Refreshes effects key = Memᴰ (invalidate key) effects

pub mem_cases {ℓ} : {A : Type ℓ} {x a : A} {xs : List A} → Memᴰ x (a ∷ xs) → (x ≡ a) ⊎ Memᴰ x xs
mem_cases (Memᴰ.head e) = inl e
mem_cases (Memᴰ.tail m) = inr m

pub invalidate_injective : (k j : Key) → invalidate k ≡ invalidate j → k ≡ j
invalidate_injective k j h = cc

-- Effects that show a success and then read one query again.
pub success-Refreshes :
    (m : Text) (j k : Key) → Refreshes (toast_success m ∷ invalidate j ∷ []) k ↔ (k ≡ j)
success-Refreshes m j k = (
  (λ h. elim (mem_cases h) [
    | inl e ↦ cc
    | inr h1 ↦ elim (mem_cases h1) [ inl e ↦ invalidate_injective k j e | inr z ↦ elim z [ ] ]
  ]),
  (λ e. Memᴰ.tail (Memᴰ.head (ap invalidate e))),
)
