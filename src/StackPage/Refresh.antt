-- ===== src/StackPage/Refresh.antt =====
-- Which queries an action refetches, from the page of a stack and from the list of stacks.
use mathlib.Core.List.{Memᴰ}
use dockstack.Prelude.{◌≡◌, ◌↔◌, ◌⊎◌, inl, inr, ap, Text}
use dockstack.Api.Keys.{Key, get_stacks_name_containers_query_key, get_stacks_name_query_key}
use dockstack.Effect.{invalidate, Refreshes, mem_cases, invalidate_injective}
use dockstack.StackPage.{invalidate_status}
use dockstack.Home.{invalidate_list}

-- When an action dialog of the page of the stack `name` is done, it refetches what a button of the
-- list of stacks does, and two more queries: the stack's status and its containers.
invalidate_status_iff :
    (name : Text) (k : Key)
    → Refreshes (invalidate_status name) k ↔ (
        Refreshes invalidate_list k
        ⊎ ((k ≡ get_stacks_name_query_key name) ⊎ (k ≡ get_stacks_name_containers_query_key name)))
unfolding invalidate_status invalidate_list
invalidate_status_iff name k = (
  (λ m. elim (mem_cases m) [
    | inl e ↦ inr (inl (invalidate_injective k (get_stacks_name_query_key name) e))
    | inr m' ↦ elim (mem_cases m') [
      | inl e ↦ inr (inr (invalidate_injective k (get_stacks_name_containers_query_key name) e))
      | inr m'' ↦ inl m''
    ]
  ]),
  (λ c. elim c [
    | inl m ↦ Memᴰ.tail (Memᴰ.tail m)
    | inr (inl e) ↦ Memᴰ.head (ap invalidate e)
    | inr (inr e) ↦ Memᴰ.tail (Memᴰ.head (ap invalidate e))
  ]),
)
