-- ===== src/Server/Limiter/Locking.antt =====
-- bruteLimiter.fail over a run of failures: when a key gets blocked.
use dockstack.Prelude.{
  ℕ, ◌+◌, ◌-◌, ◌≤◌, ◌≡◌, refl, sym, subst, ap, ◌∙◌, Bool, true, false, List, [], ◌∷◌, ◌++◌, All,
  length, length-append, append_assoc, append-nil, text_eq, text_eq_iff, text_eq_self, Text, leb,
  if◌then◌else◌, arith,
}
use dockstack.Server.Limiter.{
  Attempts, Limiter, new_brute_limiter, find, put, remaining, blocked, prune, fail_entry,
  fresh_attempts, is_full, swept, entry_for, store, fail,
}
use dockstack.Server.Limiter.Window.{find-put, Single}
use dockstack.Server.Limiter.Noting.{
  AreRecent, recent_front, Holds, swept-Holds, put_failure, store-Holds, store_other-Holds,
}

-- Failures, each with its key and its time.
unfoldable pub fails : List (Text × ℕ) → Limiter → Limiter
fails [] l = l
fails ((k, now) ∷ events) l = fails events (fail l k now)

-- The times of the failures of one key.
unfoldable pub times_of : Text → List (Text × ℕ) → List ℕ
times_of key [] = []
times_of key ((k, now) ∷ events) =
    let rest = times_of key events in if text_eq k key then now ∷ rest else rest

module _ (key : Text) (max window lockout last : ℕ) where
  fail-Holds_own :
      (l : Limiter) (now x : ℕ) (xs : List ℕ)
      → now ≤ last
      → AreRecent window last (x ∷ xs)
      → Holds key max window lockout (x ∷ xs) l
      → Holds key max window lockout (x ∷ xs ++ now ∷ []) (fail l key now)
  unfolding fail
  fail-Holds_own l now x xs h recent k =
      store-Holds key max window lockout last (swept l now) now x xs h recent
        (swept-Holds key max window lockout last l now x xs h recent k)

  fails_step :
      (k : Text) (now x : ℕ) (xs later : List ℕ) (l : Limiter) (events : List (Text × ℕ)) (b : Bool)
      → ((l' : Limiter) (ys : List ℕ)
          → AreRecent window last (x ∷ ys ++ later)
          → Holds key max window lockout (x ∷ ys) l'
          → Holds key max window lockout (x ∷ ys ++ later) (fails events l'))
      → now ≤ last
      → text_eq k key ≡ b
      → AreRecent window last (x ∷ xs ++ (if b then now ∷ later else later))
      → Holds key max window lockout (x ∷ xs) l
      → Holds key max window lockout
          (x ∷ xs ++ (if b then now ∷ later else later))
          (fails events (fail l k now))
  unfolding fail
  fails_step k now x xs later l events true rest h own recent held =
      let here : k ≡ key = (text_eq_iff k key).0 own in
      let joined : (xs ++ now ∷ []) ++ later ≡ xs ++ now ∷ later =
        append_assoc xs (now ∷ []) later in
      subst (λ ys. Holds key max window lockout (x ∷ ys) (fails events (fail l k now))) joined
        (rest (fail l k now) (xs ++ now ∷ [])
          (subst (λ ys. AreRecent window last (x ∷ ys)) (sym joined) recent)
          (subst (λ j. Holds key max window lockout (x ∷ xs ++ now ∷ []) (fail l j now)) (sym here)
            (fail-Holds_own l now x xs h (recent_front window last (x ∷ xs) (now ∷ later) recent)
              held)))
  fails_step k now x xs later l events false rest h other recent held =
      rest (fail l k now) xs recent (
        store_other-Holds key max window lockout last (swept l now) k now (x ∷ xs) _ other (
          swept-Holds key max window lockout last l now x xs h
            (recent_front window last (x ∷ xs) later recent) held))

  -- The failures of a run of events are all noted.
  fails-Holds :
      (events : List (Text × ℕ)) (l : Limiter) (x : ℕ) (xs : List ℕ)
      → All (λ (p : Text × ℕ). p.1 ≤ last) events
      → AreRecent window last (x ∷ xs ++ times_of key events)
      → Holds key max window lockout (x ∷ xs) l
      → Holds key max window lockout (x ∷ xs ++ times_of key events) (fails events l)
  unfolding fails times_of
  fails-Holds [] l x xs early recent h =
      subst (λ ys. Holds key max window lockout ys l) (sym (append-nil (x ∷ xs))) h
  fails-Holds ((k, now) ∷ events) l x xs (here, early) recent h =
      fails_step k now x xs (times_of key events) l events (text_eq k key)
        (λ l' ys r g. fails-Holds events l' x ys early r g) here refl recent h

  fresh-Holds :
      (now : ℕ)
      → Holds key max window lockout
          (now ∷ [])
          (fail (new_brute_limiter max window lockout) key now)
  unfolding fail new_brute_limiter swept is_full store entry_for find put fail_entry prune Single
  fresh-Holds now = record {
    entry = fail_entry (new_brute_limiter max window lockout) now fresh_attempts;
    at = rw (text_eq_self key) refl;
    same = refl;
    single = ((λ _. refl), tt);
    max_same = refl;
    window_same = refl;
    lockout_same = refl;
  }

  -- One more failure that reaches the maximum locks the key.
  lock :
      (l : Limiter) (x now : ℕ) (xs : List ℕ)
      → AreRecent window last (x ∷ xs)
      → max ≤ length xs + 2
      → Holds key max window lockout (x ∷ xs) l
      → blocked (store l key last (entry_for (find key l.entries) (is_full l))) key now
        ≡ (last + lockout) - now
  unfolding store entry_for blocked remaining fail_entry
  lock l x now xs recent enough k =
      let failed : Attempts = fail_entry l last k.entry in
      let reached : leb l.max (length (fail_entry l last k.entry).failures) ≡ true = ground (
        arith,
        enough,
        k.max_same,
        ap length (put_failure key max window lockout last l last x xs (omega arith) recent k),
        length-append (x ∷ xs) (last ∷ []),
      ) in
      ap (λ o. remaining (find key (store l key last (entry_for o (is_full l))).entries) now) k.at
      ∙ ap (λ o. remaining o now) (find-put key failed l.entries)
      ∙ ap (λ b. (if b then last + l.lockout else k.entry.locked_until) - now) reached
      ∙ ap (λ d. (last + d) - now) k.lockout_same

-- After a first failure of a key, any failures of it and of other keys and a last failure of it, all less
-- than a window before the last one, and the failures of the key as many as the maximum or more, the key is
-- blocked from then on for the lockout: no failures of others can keep it free.
pub fails-blocked :
    (key : Text) (max window lockout first last now : ℕ) (events : List (Text × ℕ))
    → All (λ (p : Text × ℕ). p.1 ≤ last) events
    → AreRecent window last (first ∷ times_of key events)
    → max ≤ length (times_of key events) + 2
    → blocked
        (fail (fails events (fail (new_brute_limiter max window lockout) key first)) key last)
        key
        now
      ≡ (last + lockout) - now
unfolding fail
fails-blocked key max window lockout first last now events early recent enough =
    let held =
      fails-Holds key max window lockout last events
        (fail (new_brute_limiter max window lockout) key first) first [] early recent
        (fresh-Holds key max window lockout last first) in
    lock key max window lockout last _ first now (times_of key events) recent enough (
      swept-Holds key max window lockout last _ last first (times_of key events) (omega arith)
        recent held)
