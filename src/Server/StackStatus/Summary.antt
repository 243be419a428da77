-- ===== src/Server/StackStatus/Summary.antt =====
-- What the status of a stack says of its containers.
use dockstack.Prelude.{
  ◌+◌, ◌≡◌, inl, inr, refl, sym, ap, ◌∙◌, Bool, true, false, not, ◌&&◌, ◌||◌, List, [], ◌∷◌, any,
  keep, map, length, All, codes, contains, text_eq, ltb, ◌==◌, if◌then◌else◌, Bool-cases, arith,
}
use dockstack.Status.{
  StackStatus, running, healthy, unhealthy, starting, restarting, partial, stopped, down, unknown,
  missing,
}
use dockstack.Server.StackStatus.Counting.{both_empty, none_kept, length-keep-any, some_left}
use dockstack.Server.StackStatus.{
  Container, running_status, container_state_to_status, container_status, is_restarting, is_up,
  up_containers, restarting_containers, all_up_status, status_of, get_stack_status,
}

-- The status text of Docker names one state of health at most.
unfoldable pub HasOneMark : Container → Type 0
HasOneMark c =
    (contains (codes "(healthy)") c.status
        && (contains (codes "(unhealthy)") c.status
            || contains (codes "(health: starting)") c.status))
      || (contains (codes "(unhealthy)") c.status && contains (codes "(health: starting)") c.status)
    ≡ false

unfoldable pub is_unhealthy : StackStatus → Bool
is_unhealthy unhealthy = true
is_unhealthy _ = false

unfoldable pub is_starting : StackStatus → Bool
is_starting starting = true
is_starting _ = false

unfoldable pub is_healthy : StackStatus → Bool
is_healthy healthy = true
is_healthy _ = false

-- The status of a stack whose containers have these statuses: the worst of them, where all are up.
unfoldable pub summary : List StackStatus → StackStatus
summary [] = down
summary (s ∷ ss) =
    if not (any (λ t. is_up t || is_restarting t) (s ∷ ss))
    then stopped
    else (if not (any is_up (s ∷ ss))
        then restarting
        else (if any (λ t. not (is_up t)) (s ∷ ss)
            then partial
            else (if any is_unhealthy (s ∷ ss)
                then unhealthy
                else (if any is_starting (s ∷ ss)
                    then starting
                    else (if any (λ t. not (is_healthy t)) (s ∷ ss) then running else healthy)))))

-- The marks of a container against its status.
abbrev Marked : (ill begins well : Bool) → StackStatus → Type 0
Marked ill begins well s =
    (ill ≡ is_unhealthy s) × (begins ≡ is_starting s) × (not well ≡ not (is_healthy s))

mark_bits :
    (well ill begins : Bool)
    → (well && (ill || begins)) || (ill && begins) ≡ false
    → Marked ill begins well (
        if well
        then healthy
        else (if ill then unhealthy else (if begins then starting else running)))
unfolding is_unhealthy is_starting is_healthy
mark_bits true false false h = (refl, refl, refl)
mark_bits false true false h = (refl, refl, refl)
mark_bits false false true h = (refl, refl, refl)
mark_bits false false false h = (refl, refl, refl)
mark_bits true true begins h = absurd (ground (arith, h))
mark_bits true false true h = absurd (ground (arith, h))
mark_bits false true true h = absurd (ground (arith, h))

down_bits :
    (again ended gone : Bool)
    → is_up (
        if again then restarting else (if ended then stopped else (if gone then down else unknown)))
      ≡ false
unfolding is_up
down_bits true ended gone = refl
down_bits false true gone = refl
down_bits false false true = refl
down_bits false false false = refl

container-Marked :
    (c : Container)
    → HasOneMark c
    → is_up (container_status c) ≡ true
    → Marked
        (contains (codes "(unhealthy)") c.status)
        (contains (codes "(health: starting)") c.status)
        (contains (codes "(healthy)") c.status)
        (container_status c)
unfolding container_status container_state_to_status running_status HasOneMark
container-Marked c one up = elim (Bool-cases (text_eq c.state (codes "running"))) [
  | inl runs ↦ rw runs (mark_bits _ _ _ one)
  | inr idle ↦
      let dead : is_up (container_status c) ≡ false = rw idle (down_bits _ _ _) in
      absurd (ground (arith, dead, up))
]

any-map :
    (g : StackStatus → Bool) (cs : List Container)
    → any (λ c. g (container_status c)) cs ≡ any g (map container_status cs)
any-map g [] = refl
any-map g (c ∷ cs) = ap (λ b. g (container_status c) || b) (any-map g cs)

-- A test of the text that agrees with a test of the status, where all are up.
any_marked :
    (f : Container → Bool) (g : StackStatus → Bool) (cs : List Container)
    → ((c : Container)
        → HasOneMark c
        → is_up (container_status c) ≡ true
        → f c ≡ g (container_status c))
    → All HasOneMark cs
    → any (λ c. not (is_up (container_status c))) cs ≡ false
    → any f cs ≡ any g (map container_status cs)
any_marked f g [] agree marks up = refl
any_marked f g (c ∷ cs) agree (one, marks) up = elim (Bool-cases (is_up (container_status c))) [
  | inl met ↦
      let rest : any f cs ≡ any g (map container_status cs) =
        any_marked f g cs agree marks (ground (arith, met, up)) in
      ap (λ b. b || any f cs) (agree c one met) ∙ ap (λ b. g (container_status c) || b) rest
  | inr unmet ↦ absurd (ground (arith, unmet, up))
]

apart : (s : StackStatus) → is_up s ≡ true → is_restarting s ≡ false
unfolding is_up is_restarting
apart restarting h = absurd (ground (arith, h))
apart running h = refl
apart healthy h = refl
apart unhealthy h = refl
apart starting h = refl
apart partial h = refl
apart stopped h = refl
apart down h = refl
apart unknown h = refl
apart missing h = refl

choose : (none_live none_up some_left : Bool) (rest : StackStatus) → StackStatus
choose none_live none_up some_left rest =
    if none_live
    then stopped
    else (if none_up then restarting else (if some_left then partial else rest))

choose_same :
    (a b c : Bool) (s t : StackStatus) → (c ≡ false → s ≡ t) → choose a b c s ≡ choose a b c t
unfolding choose
choose_same true b c s t h = refl
choose_same false true c s t h = refl
choose_same false false true s t h = refl
choose_same false false false s t h = h refl

up_test : Container → Bool
up_test c = is_up (container_status c)

again_test : Container → Bool
again_test c = is_restarting (container_status c)

kept_all : (cs : List Container) → any (λ c. not (up_test c)) cs ≡ false → keep up_test cs ≡ cs
kept_all cs h = elim (length-keep-any up_test again_test cs) [
  | inl (all, same) ↦ same
  | inr (some_not, less) ↦ absurd (ground (arith, some_not, h))
]

-- The status of a stack whose containers are all up.
up_summary : List StackStatus → StackStatus
up_summary ss =
    if any is_unhealthy ss
    then unhealthy
    else (if any is_starting ss
        then starting
        else (if any (λ t. not (is_healthy t)) ss then running else healthy))

all_up_status-summary :
    (cs : List Container)
    → All HasOneMark cs
    → any (λ c. not (up_test c)) cs ≡ false
    → all_up_status (keep up_test cs) ≡ up_summary (map container_status cs)
unfolding all_up_status up_summary up_test
all_up_status-summary cs marks up =
    let ill =
      any_marked (λ (c : Container). contains (codes "(unhealthy)") c.status) is_unhealthy cs
        (λ c one h. (container-Marked c one h).0) marks up in
    let begins =
      any_marked (λ (c : Container). contains (codes "(health: starting)") c.status) is_starting cs
        (λ c one h. (container-Marked c one h).1) marks up in
    let plain =
      any_marked (λ (c : Container). not (contains (codes "(healthy)") c.status))
        (λ t. not (is_healthy t)) cs (λ c one h. (container-Marked c one h).2) marks up in
    ap all_up_status (kept_all cs up) ∙ rw (ill, begins, plain) refl

-- If each status text of Docker names one state of health at most, the status of a stack is the summary of
-- the statuses of its containers.
pub get_stack_status-summary :
    (cs : List Container)
    → All HasOneMark cs
    → get_stack_status cs ≡ summary (map container_status cs)
unfolding get_stack_status status_of up_containers restarting_containers summary choose up_summary
    up_test again_test
get_stack_status-summary [] marks = refl
get_stack_status-summary (c ∷ cs) marks =
    let all : List Container = c ∷ cs in
    let rest : StackStatus = all_up_status (keep up_test all) in
    let none_up : Bool = length (keep up_test all) == 0 in
    let left : Bool =
      ltb (length (keep up_test all) + length (keep again_test all)) (length all)
      || ltb 0 (length (keep again_test all)) in
    let stops : Bool = not (any (λ t. is_up t || is_restarting t) (map container_status all)) in
    let waits : Bool = not (any is_up (map container_status all)) in
    let left_same : left ≡ any (λ d. not (up_test d)) all =
      some_left up_test again_test all (λ d h. apart (container_status d) h) in
    ap (λ b. choose b none_up left rest)
      (both_empty up_test again_test all ∙ ap not (any-map (λ t. is_up t || is_restarting t) all))
    ∙ ap (λ b. choose stops b left rest)
        (none_kept up_test again_test all ∙ ap not (any-map is_up all))
    ∙ choose_same stops waits left rest (up_summary (map container_status all))
        (λ h. all_up_status-summary all marks (sym left_same ∙ h))
    ∙ ap (λ b. choose stops waits b (up_summary (map container_status all)))
        (left_same ∙ any-map (λ t. not (is_up t)) all)
