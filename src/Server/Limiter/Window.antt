-- ===== src/Server/Limiter/Window.antt =====
-- The calls of a limiter by requests that may overlap, followed for one key.
use dockstack.Prelude.{
  ℕ, ◌+◌, ◌-◌, ◌<◌, ◌≤◌, ◌≡◌, ◌⊎◌, inl, inr, refl, ◌∙◌, Bool, true, false, ◌&&◌, Option, none, some,
  List, [], ◌∷◌, keep, text_eq, text_eq_iff, text_eq_self, Text, if◌then◌else◌, Bool-cases, arith,
}
use dockstack.Server.Limiter.{
  Attempts, Limiter, find, put, is_stale, fresh_attempts, is_full, swept, entry_for, passes, hit,
}

-- The calls of the limiter that requests make, in the order of its lock: `asks` is the first one of a
-- request with this key, and `hits` the second one of a request that was let through.
pub data Call : Type 0 where
  asks hits : (key : Text) (now : ℕ) → Call

-- The limiter with what the requests of one key did: how many are between their two calls, the times at
-- which they were let through, and those at which they were noted, the latest first.
pub record Served : Type 0 where
  pub limiter : Limiter
  pub under_way : ℕ
  pub passed : List ℕ
  pub noted : List ℕ

unfoldable pub start : Limiter → Served
start l = record { limiter = l; under_way = 0; passed = []; noted = [] }

unfoldable pub asked : Bool → (now : ℕ) → Served → Served
asked true now g = record g { under_way = g.under_way + 1; passed = now ∷ g.passed }
asked false now g = g

unfoldable pub finished : Bool → (now : ℕ) → Served → Served
finished true now g = record g { under_way = g.under_way - 1; noted = now ∷ g.noted }
finished false now g = g

unfoldable pub step : Text → Call → Served → Served
step key (asks k now) g = asked (passes g.limiter k now && text_eq k key) now g
step key (hits k now) g = finished (text_eq k key) now (record g { limiter = hit g.limiter k now })

unfoldable pub run : Text → List Call → Served → Served
run key [] g = g
run key (c ∷ calls) g = run key calls (step key c g)

unfoldable pub no_entry : Option Attempts → Bool
no_entry none = true
no_entry (some e) = false

-- Whether `fail` finds no room for the key.
unfoldable pub is_refused : Limiter → Text → (now : ℕ) → Bool
is_refused l key now = let s = swept l now in no_entry (entry_for (find key s.entries) (is_full s))

unfoldable pub time_of : Call → ℕ
time_of (asks k now) = now
time_of (hits k now) = now

-- A second call of a request of the key is that of one under way, and finds its entry or room for it.
unfoldable pub IsFit : Text → Call → Served → Type 0
IsFit key (asks k now) g = Unit
IsFit key (hits k now) g =
    text_eq k key ≡ true → (0 < g.under_way) × (is_refused g.limiter k now ≡ false)

-- The times do not go back, each second call is fit, and at most `most` requests of the key are between
-- their two calls at a time.
unfoldable pub IsServed : Text → (most now : ℕ) → List Call → Served → Type 0
IsServed key most now [] g = Unit
IsServed key most now (c ∷ calls) g =
    (now ≤ time_of c)
    × IsFit key c g
    × ((step key c g).under_way ≤ most)
    × IsServed key most (time_of c) calls (step key c g)

-- The entry of a key, a fresh one where there is none.
unfoldable pub entry_or_fresh : Option Attempts → Attempts
entry_or_fresh none = fresh_attempts
entry_or_fresh (some e) = e

pub find-put :
    (key : Text) (e : Attempts) (es : List (Text × Attempts)) → find key (put key e es) ≡ some e
unfolding find put
find-put key e [] = rw (text_eq_self key) refl
find-put key e ((k, old) ∷ es) = elim (Bool-cases (text_eq k key)) [
  | inl h ↦ ground (arith, h)
  | inr h ↦ ground (arith, find-put key e es)
]

pub find-put_other :
    (key k : Text) (e : Attempts) (es : List (Text × Attempts))
    → text_eq k key ≡ false
    → find key (put k e es) ≡ find key es
unfolding find put
find-put_other key k e [] h = rw h refl
find-put_other key k e ((j, old) ∷ es) h =
    ground
      (arith, text_eq_iff j k, text_eq_iff j key, text_eq_iff k key, find-put_other key k e es h)

-- No other entry of the list has the key of one that has it.
unfoldable pub Single : Text → List (Text × Attempts) → Type 0
Single key [] = Unit
Single key ((k, e) ∷ es) = (text_eq k key ≡ true → find key es ≡ none) × Single key es

pub put-Single :
    (key k : Text) (e : Attempts) (es : List (Text × Attempts))
    → Single key es
    → Single key (put k e es)
unfolding Single put find
put-Single key k e [] h = ((λ _. refl), tt)
put-Single key k e ((j, old) ∷ es) (h, hs) = elim (Bool-cases (text_eq j k)) [
  | inl same ↦ rw same (h, hs)
  | inr other ↦ rw other (
    (λ g.
        find-put_other key k e es
          (ground (arith, text_eq_iff j k, text_eq_iff j key, text_eq_iff k key, g))
        ∙ h g),
    put-Single key k e es hs,
  )
]

-- The sweep leaves the entry of a key, or it is stale and goes.
unfoldable pub SweepsTo : Text → (now window : ℕ) → (before after : Option Attempts) → Type 0
SweepsTo key now window before after =
    (after ≡ before)
    ⊎ ((e : Attempts) × (before ≡ some e) × (is_stale now window e ≡ true) × (after ≡ none))

unfoldable pub unswept : (now window : ℕ) → Text × Attempts → Bool
unswept now window p = if is_stale now window p.1 then false else true

find-keep_absent :
    (key : Text) (p : Text × Attempts → Bool) (es : List (Text × Attempts))
    → find key es ≡ none
    → find key (keep p es) ≡ none
unfolding find
find-keep_absent key p [] h = refl
find-keep_absent key p ((k, e) ∷ es) h = ground (arith, find-keep_absent key p es)

pub keep-Single :
    (key : Text) (p : Text × Attempts → Bool) (es : List (Text × Attempts))
    → Single key es
    → Single key (keep p es)
unfolding Single
keep-Single key p [] h = tt
keep-Single key p ((k, e) ∷ es) (h, hs) = elim (Bool-cases (p (k, e))) [
  | inl kept ↦ rw kept ((λ g. find-keep_absent key p es (h g)), keep-Single key p es hs)
  | inr gone ↦ rw gone (keep-Single key p es hs)
]

SweepsTo-other :
    (key : Text) (now window : ℕ) (k : Text) (e : Attempts) (es : List (Text × Attempts))
    → text_eq k key ≡ false
    → SweepsTo key now window (find key es) (find key (keep (unswept now window) es))
    → SweepsTo key now window
        (find key ((k, e) ∷ es))
        (find key (keep (unswept now window) ((k, e) ∷ es)))
unfolding find unswept
SweepsTo-other key now window k e es other h = elim (Bool-cases (is_stale now window e)) [
  | inl stale ↦ rw (stale, other) h
  | inr live ↦ rw (live, other) h
]

SweepsTo-same :
    (key : Text) (now window : ℕ) (k : Text) (e : Attempts) (es : List (Text × Attempts))
    → text_eq k key ≡ true
    → find key es ≡ none
    → SweepsTo key now window
        (find key ((k, e) ∷ es))
        (find key (keep (unswept now window) ((k, e) ∷ es)))
unfolding find unswept SweepsTo
SweepsTo-same key now window k e es same none_else = elim (Bool-cases (is_stale now window e)) [
  | inl stale ↦
      inr
        (e, rw same refl, stale, rw stale (find-keep_absent key (unswept now window) es none_else))
  | inr live ↦ inl (rw (live, same) refl)
]

pub find-keep :
    (key : Text) (now window : ℕ) (es : List (Text × Attempts))
    → Single key es
    → SweepsTo key now window (find key es) (find key (keep (unswept now window) es))
unfolding Single SweepsTo
find-keep key now window [] h = inl refl
find-keep key now window ((k, e) ∷ es) (h, hs) = elim (Bool-cases (text_eq k key)) [
  | inl same ↦ SweepsTo-same key now window k e es same (h same)
  | inr other ↦ SweepsTo-other key now window k e es other (find-keep key now window es hs)
]
