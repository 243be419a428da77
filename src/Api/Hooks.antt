-- ===== src/Api/Hooks.antt =====
-- web/src/lib/api/generated/default/default.ts: what every generated query and mutation does with its
-- options. No caller gives options for the request itself.
use dockstack.Prelude.{Bool, Option, none, some, List, keep, not, text_eq, Text, codes}
use dockstack.Api.{Call}
use dockstack.Api.Keys.{Key}
use dockstack.Api.Request.{Slot, absent, undefined, present}

-- `options.query`: the properties that the generated code reads or sets itself
pub record QueryOverrides : Type 0 where
  pub query_key : Slot Key
  pub query_fn : Slot Call
  pub enabled : Slot Bool

-- What `useQuery` is given; `none` is `undefined`. The function of a query is the call that it makes.
pub record QueryOptions : Type 0 where
  pub query_key : Option Key
  pub query_fn : Option Call
  pub enabled : Option Bool

-- a property that is set before the spread of the overrides
spread {ℓ} : {A : Type ℓ} → Option A → Slot A → Option A
spread own absent = own
spread own undefined = none
spread own (present a) = some a

to_option {ℓ} : {A : Type ℓ} → Slot A → Option A
to_option absent = none
to_option undefined = none
to_option (present a) = some a

-- `queryOptions?.queryKey ?? getKey()`
own_key : Key → Slot Key → Key
own_key key (present k) = k
own_key key absent = key
own_key key undefined = key

overrides_or_none : Option QueryOverrides → QueryOverrides
overrides_or_none none = record { query_key = absent; query_fn = absent; enabled = absent }
overrides_or_none (some overrides) = overrides

-- `{ queryKey, queryFn, enabled, ...queryOptions }`; `enabled` is absent where the query has no name
unfoldable pub query_options :
    Key → Call → (enabled : Slot Bool) → Option QueryOverrides → QueryOptions
unfolding spread to_option own_key overrides_or_none
query_options key call enabled options =
    let o = overrides_or_none options in
    record {
      query_key = spread (some (own_key key o.query_key)) o.query_key;
      query_fn = spread (some call) o.query_fn;
      enabled = spread (to_option enabled) o.enabled;
    }

-- what `withQueryKey` makes of the properties of a query's result: all but `queryKey`, and that
pub record Result {ℓ} (A : Type ℓ) : Type ℓ where
  pub query_key : Option Key
  pub properties : List (Text × A)

pub with_query_key {ℓ} : {A : Type ℓ} → List (Text × A) → Option Key → Result A
with_query_key {A = A} query query_key = record {
  query_key = query_key;
  properties = keep (λ (p : Text × A). not (text_eq p.0 (codes "queryKey"))) query;
}

-- `options.mutation`, and what `useMutation` is given
pub record MutationOverrides (V : Type 0) : Type 0 where
  pub mutation_key : Slot Key
  pub mutation_fn : Slot (V → Call)

pub record MutationOptions (V : Type 0) : Type 0 where
  pub mutation_key : Key
  pub mutation_fn : Option (V → Call)

-- the key of the options wins if they have one: an array is never falsy
chosen_key : {V : Type 0} → Key → Option (MutationOverrides V) → Key
unfolding own_key
chosen_key key none = key
chosen_key key (some o) = own_key key o.mutation_key

chosen_fn : {V : Type 0} → (V → Call) → Option (MutationOverrides V) → Option (V → Call)
unfolding spread
chosen_fn call none = some call
chosen_fn call (some o) = spread (some call) o.mutation_fn

unfoldable pub mutation_options :
    {V : Type 0} → Key → (V → Call) → Option (MutationOverrides V) → MutationOptions V
unfolding chosen_key chosen_fn
mutation_options key call options = record {
  mutation_key = chosen_key key options;
  mutation_fn = chosen_fn call options;
}
