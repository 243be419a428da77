-- ===== src/Status/Classes.antt =====
-- The classes into which the parts of the client put a status, side by side.
use dockstack.Prelude.{
  ◌≡◌, ◌↔◌, ◌⊎◌, refl, true, false, some, any, includes, text_eq, arith, inl, inr,
}
use dockstack.Status.{
  StackStatus, running, healthy, unhealthy, starting, restarting, partial, stopped, down, unknown,
  missing, is_running, status_filter, filter_values, container_running, terminal_running,
}

-- The statuses that no value of the home page's filter but "all" selects.
abbrev pub IsUnfiltered : StackStatus → Type 0
IsUnfiltered unhealthy = Unit
IsUnfiltered starting = Unit
IsUnfiltered restarting = Unit
IsUnfiltered partial = Unit
IsUnfiltered unknown = Unit
IsUnfiltered missing = Unit
IsUnfiltered _ = ⊥

-- A stack is selected by none of the values of the home page's filter exactly when it is unhealthy,
-- starting, restarting, partial, unknown or missing.
status_filter_none :
    (s : StackStatus) → (any (λ v. status_filter v s) filter_values ≡ false) ↔ IsUnfiltered s
unfolding status_filter text_eq
status_filter_none running = ((λ h. cc), (λ h. elim h [ ]))
status_filter_none healthy = ((λ h. cc), (λ h. elim h [ ]))
status_filter_none unhealthy = ((λ h. tt), (λ h. refl))
status_filter_none starting = ((λ h. tt), (λ h. refl))
status_filter_none restarting = ((λ h. tt), (λ h. refl))
status_filter_none partial = ((λ h. tt), (λ h. refl))
status_filter_none stopped = ((λ h. cc), (λ h. elim h [ ]))
status_filter_none down = ((λ h. cc), (λ h. elim h [ ]))
status_filter_none unknown = ((λ h. tt), (λ h. refl))
status_filter_none missing = ((λ h. tt), (λ h. refl))

-- The statuses between the terminal's containers and the page's running stacks.
abbrev pub IsMoving : StackStatus → Type 0
IsMoving restarting = Unit
IsMoving partial = Unit
IsMoving _ = ⊥

-- Every status with which a container can be stopped is one that the terminal offers, every one of
-- those counts as running on the page of a stack, and the page counts two more: restarting, partial.
running_classes :
    (s : StackStatus)
    → (container_running s ≡ true → terminal_running s ≡ true)
      × ((is_running (some s) ≡ true) ↔ ((terminal_running s ≡ true) ⊎ IsMoving s))
unfolding container_running terminal_running is_running text_eq includes
running_classes running = ((λ h. refl), ((λ h. inl refl), (λ h. refl)))
running_classes healthy = ((λ h. refl), ((λ h. inl refl), (λ h. refl)))
running_classes unhealthy = ((λ h. refl), ((λ h. inl refl), (λ h. refl)))
running_classes starting = ((λ h. refl), ((λ h. inl refl), (λ h. refl)))
running_classes restarting = ((λ h. cc), ((λ h. inr tt), (λ h. refl)))
running_classes partial = ((λ h. cc), ((λ h. inr tt), (λ h. refl)))
running_classes stopped = ground arith
running_classes down = ground arith
running_classes unknown = ground arith
running_classes missing = ground arith
