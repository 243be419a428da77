-- ===== src/Server/Limiter/Noting.antt =====
-- bruteLimiter.fail: the entry of a key whose failures are all recent.
use dockstack.Prelude.{
  ℕ, ◌+◌, ◌≤◌, ◌<◌, ◌≡◌, inl, inr, refl, sym, subst, ap, ◌∙◌, true, false, Option, none, some, List,
  [], ◌∷◌, ◌++◌, All, text_eq, Text, ltb, Bool-cases, arith,
}
use mathlib.Core.Option.{some-injective}
use dockstack.Server.Limiter.{
  Attempts, Limiter, find, prune, fail_entry, last_failure, is_over, is_stale, sweep, is_full,
  swept, entry_for, store,
}
use dockstack.Server.Limiter.Window.{
  find-put, find-put_other, Single, put-Single, SweepsTo, unswept, keep-Single, find-keep,
}

-- The times are up to the last one, and less than a window before it.
abbrev pub AreRecent : (window last : ℕ) → List ℕ → Type 0
AreRecent window last times = All (λ t. (t ≤ last) × (last < t + window)) times

prune_all :
    (window last now : ℕ) (xs : List ℕ)
    → now ≤ last
    → AreRecent window last xs
    → prune now window xs ≡ xs
unfolding prune
prune_all window last now [] h recent = refl
prune_all window last now (x ∷ xs) h ((early, late), recent) =
    let live : ltb now (x + window) ≡ true = ground (arith, h, late) in
    rw live (ap (λ r. x ∷ r) (prune_all window last now xs h recent))

-- The key has an entry, with these failures.
pub record Holds (key : Text) (max window lockout : ℕ) (failures : List ℕ) (l : Limiter)
    : Type 0 where
  pub entry : Attempts
  pub at : find key l.entries ≡ some entry
  pub same : entry.failures ≡ failures
  pub single : Single key l.entries
  pub max_same : l.max ≡ max
  pub window_same : l.window ≡ window
  pub lockout_same : l.lockout ≡ lockout

recent_last :
    (window last now : ℕ) (x : ℕ) (xs : List ℕ)
    → now ≤ last
    → AreRecent window last (x ∷ xs)
    → is_over now window (last_failure (x ∷ xs)) ≡ false
unfolding is_over last_failure
recent_last window last now x [] h ((early, late), _) = ground (arith, h, late)
recent_last window last now x (y ∷ xs) h (_, recent) = recent_last window last now y xs h recent

pub recent_front :
    (window last : ℕ) (xs ys : List ℕ) → AreRecent window last (xs ++ ys) → AreRecent window last xs
recent_front window last [] ys h = tt
recent_front window last (x ∷ xs) ys (h, hs) = (h, recent_front window last xs ys hs)

module _ (key : Text) (max window lockout last : ℕ) where
  live_entry :
      (l : Limiter) (now x : ℕ) (xs : List ℕ)
      → now ≤ last
      → AreRecent window last (x ∷ xs)
      → (k : Holds key max window lockout (x ∷ xs) l) → is_stale now l.window k.entry ≡ false
  unfolding is_stale
  live_entry l now x xs h recent k =
      let late : is_over now l.window (last_failure k.entry.failures) ≡ false =
        ap (λ w. is_over now w (last_failure k.entry.failures)) k.window_same
        ∙ ap (λ fs. is_over now window (last_failure fs)) k.same
        ∙ recent_last window last now x xs h recent in
      ground (arith, late)

  pub swept-Holds :
      (l : Limiter) (now x : ℕ) (xs : List ℕ)
      → now ≤ last
      → AreRecent window last (x ∷ xs)
      → Holds key max window lockout (x ∷ xs) l
      → Holds key max window lockout (x ∷ xs) (swept l now)
  unfolding swept sweep SweepsTo unswept
  swept-Holds l now x xs h recent k = elim (Bool-cases (is_full l)) [
    | inl full ↦ rw full (record {
      entry = k.entry;
      at = elim (find-keep key now l.window l.entries k.single) [
        | inl unchanged ↦ unchanged ∙ k.at
        | inr (e, before, stale, gone) ↦
            let same : k.entry ≡ e = some-injective k.entry e (sym k.at ∙ before) in
            let live : is_stale now l.window e ≡ false =
              ap (is_stale now l.window) (sym same) ∙ live_entry l now x xs h recent k in
            absurd (ground (arith, live, stale))
      ];
      same = k.same;
      single = keep-Single key (unswept now l.window) l.entries k.single;
      max_same = k.max_same;
      window_same = k.window_same;
      lockout_same = k.lockout_same;
    })
    | inr room ↦ rw room k
  ]

  -- A failure of the key is noted with those before it.
  pub put_failure :
      (l : Limiter) (now x : ℕ) (xs : List ℕ)
      → now ≤ last
      → AreRecent window last (x ∷ xs)
      → (k : Holds key max window lockout (x ∷ xs) l)
      → (fail_entry l now k.entry).failures ≡ x ∷ xs ++ now ∷ []
  unfolding fail_entry
  put_failure l now x xs h recent k =
      ap (λ fs. prune now l.window fs ++ now ∷ []) k.same
      ∙ ap (λ w. prune now w (x ∷ xs) ++ now ∷ []) k.window_same
      ∙ ap (λ fs. fs ++ now ∷ []) (prune_all window last now (x ∷ xs) h recent)

  pub store-Holds :
      (l : Limiter) (now x : ℕ) (xs : List ℕ)
      → now ≤ last
      → AreRecent window last (x ∷ xs)
      → Holds key max window lockout (x ∷ xs) l
      → Holds key max window lockout
          (x ∷ xs ++ now ∷ [])
          (store l key now (entry_for (find key l.entries) (is_full l)))
  unfolding store entry_for
  store-Holds l now x xs h recent k =
      let failed : Attempts = fail_entry l now k.entry in
      subst
        (λ o.
          Holds key max window lockout (x ∷ xs ++ now ∷ [])
            (store l key now (entry_for o (is_full l))))
        (sym k.at)
        (record {
          entry = failed;
          at = find-put key failed l.entries;
          same = put_failure l now x xs h recent k;
          single = put-Single key key failed l.entries k.single;
          max_same = k.max_same;
          window_same = k.window_same;
          lockout_same = k.lockout_same;
        })

  pub store_other-Holds :
      (l : Limiter) (k : Text) (now : ℕ) (failures : List ℕ) (o : Option Attempts)
      → text_eq k key ≡ false
      → Holds key max window lockout failures l
      → Holds key max window lockout failures (store l k now o)
  unfolding store
  store_other-Holds l k now failures none other h = h
  store_other-Holds l k now failures (some e) other h = record {
    entry = h.entry;
    at = find-put_other key k (fail_entry l now e) l.entries other ∙ h.at;
    same = h.same;
    single = put-Single key k (fail_entry l now e) l.entries h.single;
    max_same = h.max_same;
    window_same = h.window_same;
    lockout_same = h.lockout_same;
  }
