-- ===== src/Api/Mutations/Entries.antt =====
-- Lists of mutations: whether their keys are distinct, and whether each changes something.
use dockstack.Prelude.{
  ◌≡◌, ◌≢◌, refl, Bool, true, false, not, ◌&&◌, Option, none, some, List, [], ◌∷◌, All, text_eq,
  text_eq_self, ap, arith,
}
use dockstack.Api.{Call, Method, get, post, put, patch, delete}
use dockstack.Api.Keys.{Key}
use dockstack.Api.Hooks.{MutationOptions}

-- A mutation at its variables: its key, and the call that it makes.
pub record Entry : Type 0 where
  pub key : Key
  pub call : Option Call

unfoldable pub called : {V : Type 0} → Option (V → Call) → V → Option Call
called none v = none
called (some f) v = some (f v)

unfoldable pub entry : {V : Type 0} → MutationOptions V → V → Entry
unfolding called
entry options v = record { key = options.mutation_key; call = called options.mutation_fn v }

-- A call that changes something on the server.
abbrev pub IsChange : Option Call → Type 0
IsChange none = ⊥
IsChange (some call) = call.method ≢ get

-- No two elements are the same.
abbrev pub AllDistinct : List Key → Type 0
AllDistinct [] = Unit
AllDistinct (k ∷ ks) = All (λ j. k ≢ j) ks × AllDistinct ks

unfoldable pub key_eq : Key → Key → Bool
key_eq [] [] = true
key_eq (a ∷ as') (b ∷ bs) = text_eq a b && key_eq as' bs
key_eq _ _ = false

key_eq_self : (k : Key) → key_eq k k ≡ true
unfolding key_eq
key_eq_self [] = refl
key_eq_self (a ∷ as') = rw (text_eq_self a) (key_eq_self as')

unfoldable pub is_apart : Key → List Key → Bool
is_apart k [] = true
is_apart k (j ∷ js) = not (key_eq k j) && is_apart k js

is_apart_lem : (k : Key) (js : List Key) → is_apart k js ≡ true → All (λ j. k ≢ j) js
unfolding is_apart
is_apart_lem k [] h = tt
is_apart_lem k (j ∷ js) h = (
  (λ e. let same = ap (key_eq k) e in ground (arith, key_eq_self k)),
  is_apart_lem k js (ground arith),
)

unfoldable pub all_apart : List Key → Bool
all_apart [] = true
all_apart (k ∷ ks) = is_apart k ks && all_apart ks

pub all_apart_lem : (ks : List Key) → all_apart ks ≡ true → AllDistinct ks
unfolding all_apart
all_apart_lem [] h = tt
all_apart_lem (k ∷ ks) h = (is_apart_lem k ks (ground arith), all_apart_lem ks (ground arith))

unfoldable pub is_get : Method → Bool
is_get get = true
is_get post = false
is_get put = false
is_get patch = false
is_get delete = false

unfoldable pub is_change : Option Call → Bool
is_change none = false
is_change (some call) = not (is_get call.method)

is_change_lem : (c : Option Call) → is_change c ≡ true → IsChange c
unfolding is_change is_get
is_change_lem none h = cc
is_change_lem (some call) h = λ e. let same = ap is_get e in ground arith

unfoldable pub all_change : List Entry → Bool
all_change [] = true
all_change (e ∷ es) = is_change e.call && all_change es

pub all_change_lem : (es : List Entry) → all_change es ≡ true → All (λ e. IsChange e.call) es
unfolding all_change
all_change_lem [] h = tt
all_change_lem (e ∷ es) h = (is_change_lem e.call (ground arith), all_change_lem es (ground arith))
