-- ===== src/Server/Limiter/Bound.antt =====
-- requestGuard.limit over the calls of requests that may overlap: the limiter stays in order.
use dockstack.Prelude.{
  ℕ, suc, ◌+◌, ◌-◌, ◌≤◌, ◌<◌, ◌≡◌, inl, inr, refl, sym, subst, Bool, true, false, Option, none,
  some, List, [], ◌∷◌, length, text_eq, text_eq_iff, Text, Bool-cases, Option-cases, arith,
}
use dockstack.Server.Limiter.{
  Attempts, Limiter, new_brute_limiter, find, put, remaining, blocked, fail_entry, sweep,
  fresh_attempts, is_full, swept, entry_for, store, fail, hit, passes,
}
use dockstack.Server.Limiter.Entry.{
  counted, Tracks, fresh-Tracks, later-Tracks, ask-Tracks, fail-Tracks, stale-Tracks,
}
use dockstack.Server.Limiter.Window.{
  Call, asks, hits, Served, start, asked, finished, step, run, time_of, IsFit, is_refused, no_entry,
  IsServed, entry_or_fresh, find-put, find-put_other, Single, put-Single, SweepsTo, unswept,
  keep-Single, find-keep,
}

-- What the limiter knows of one key, of which the given times were noted, and so many requests are under
-- way, where at most `most` are at a time.
record InOrder (key : Text) (w m most under_way now : ℕ) (admitted : List ℕ) (l : Limiter)
    : Type 0 where
  tracks : Tracks l (m + most - 1) under_way now admitted (entry_or_fresh (find key l.entries))
  single : Single key l.entries
  window_same : l.window ≡ w
  max_same : l.max ≡ m
  positive : 0 < l.max
  long : l.window ≤ l.lockout

retrack :
    (l : Limiter) (es : List (Text × Attempts)) (bound under_way now : ℕ) (admitted : List ℕ)
    (e : Attempts)
    → Tracks l bound under_way now admitted e
    → Tracks (record l { entries = es }) bound under_way now admitted e
retrack l es bound under_way now admitted e k = record {
  same = k.same;
  past = k.past;
  room = k.room;
  ends = k.ends;
  live = k.live;
  bounded = k.bounded;
}

later-InOrder :
    (key : Text) (w m most under_way now later : ℕ) (admitted : List ℕ) (l : Limiter)
    → now ≤ later
    → InOrder key w m most under_way now admitted l
    → InOrder key w m most under_way later admitted l
later-InOrder key w m most under_way now later admitted l h i = record {
  tracks = later-Tracks l (m + most - 1) under_way now later admitted _ h i.tracks;
  single = i.single;
  window_same = i.window_same;
  max_same = i.max_same;
  positive = i.positive;
  long = i.long;
}

-- The entry of a key that is not blocked.
IsFree : Text → (now : ℕ) → Limiter → Type 0
IsFree key now l = (entry_or_fresh (find key l.entries)).locked_until ≤ now

passes-IsFree : (key : Text) (now : ℕ) (l : Limiter) → passes l key now ≡ true → IsFree key now l
unfolding IsFree passes blocked remaining entry_or_fresh
passes-IsFree key now l h = elim (Option-cases (find key l.entries)) [
  | inl e ↦ rw e (omega arith)
  | inr (a, e) ↦
      let left : blocked l key now ≡ a.locked_until - now = rw e refl in
      rw e (ground (arith, left, h))
]

module _ (key : Text) (w m most under_way now : ℕ) (admitted : List ℕ) where
  sweep_entry :
      (l : Limiter) (after : Option Attempts)
      → InOrder key w m most under_way now admitted l
      → SweepsTo key now l.window (find key l.entries) after
      → Tracks l (m + most - 1) under_way now admitted (entry_or_fresh after)
  unfolding SweepsTo entry_or_fresh
  sweep_entry l after i (inl same) = rw same i.tracks
  sweep_entry l after i (inr (e, before, stale, gone)) = rw gone (
      stale-Tracks l (m + most - 1) under_way now admitted e stale (
        subst (λ o. Tracks l (m + most - 1) under_way now admitted (entry_or_fresh o)) before
          i.tracks))

  swept-InOrder :
      (l : Limiter)
      → InOrder key w m most under_way now admitted l
      → InOrder key w m most under_way now admitted (swept l now)
  unfolding swept sweep unswept
  swept-InOrder l i = elim (Bool-cases (is_full l)) [
    | inl full ↦
        let after = sweep_entry l _ i (find-keep key now l.window l.entries i.single) in
        rw full (record {
          tracks = retrack l _ (m + most - 1) under_way now admitted _ after;
          single = keep-Single key (unswept now l.window) l.entries i.single;
          window_same = i.window_same;
          max_same = i.max_same;
          positive = i.positive;
          long = i.long;
        })
    | inr room ↦ rw room i
  ]

  -- A request of the key that the limiter lets go on.
  ask-InOrder :
      (l : Limiter)
      → InOrder key w m most under_way now admitted l
      → passes l key now ≡ true
      → suc under_way ≤ most
      → InOrder key w m most (suc under_way) now admitted l
  unfolding IsFree
  ask-InOrder l i free few = record {
    tracks =
        ask-Tracks l (m + most - 1) under_way now admitted _ i.positive
          (omega (arith, i.positive, i.max_same, few)) (passes-IsFree key now l free) i.tracks;
    single = i.single;
    window_same = i.window_same;
    max_same = i.max_same;
    positive = i.positive;
    long = i.long;
  }

  -- A call for another key.
  store_other :
      (k : Text) (l : Limiter) (o : Option Attempts)
      → text_eq k key ≡ false
      → InOrder key w m most under_way now admitted l
      → InOrder key w m most under_way now admitted (store l k now o)
  unfolding store
  store_other k l none other i = i
  store_other k l (some e) other i =
      let failed = fail_entry l now e in
      record {
        tracks =
            subst
              (λ o.
                Tracks (record l { entries = put k failed l.entries }) (m + most - 1) under_way now
                  admitted (entry_or_fresh o))
              (sym (find-put_other key k failed l.entries other))
              (retrack l _ (m + most - 1) under_way now admitted _ i.tracks);
        single = put-Single key k failed l.entries i.single;
        window_same = i.window_same;
        max_same = i.max_same;
        positive = i.positive;
        long = i.long;
      }

  hit-InOrder_other :
      (k : Text) (l : Limiter)
      → text_eq k key ≡ false
      → InOrder key w m most under_way now admitted l
      → InOrder key w m most under_way now admitted (hit l k now)
  unfolding hit fail
  hit-InOrder_other k l other i = store_other k (swept l now) _ other (swept-InOrder l i)

module _ (key : Text) (w m most under_way now : ℕ) (admitted : List ℕ) where
  store_some :
      (l : Limiter) (e : Attempts)
      → InOrder key w m most (suc under_way) now admitted l
      → Tracks l (m + most - 1) (suc under_way) now admitted e
      → InOrder key w m most under_way now
          (now ∷ admitted)
          (record l { entries = put key (fail_entry l now e) l.entries })
  unfolding entry_or_fresh
  store_some l e i known =
      let failed = fail_entry l now e in
      record {
        tracks =
            subst
              (λ o.
                Tracks (record l { entries = put key failed l.entries }) (m + most - 1) under_way
                  now (now ∷ admitted) (entry_or_fresh o))
              (sym (find-put key failed l.entries))
              (retrack l _ (m + most - 1) under_way now (now ∷ admitted) failed
                (fail-Tracks l (m + most - 1) under_way now admitted e i.long known));
        single = put-Single key key failed l.entries i.single;
        window_same = i.window_same;
        max_same = i.max_same;
        positive = i.positive;
        long = i.long;
      }

  store_entry :
      (l : Limiter) (full : Bool) (o : Option Attempts)
      → InOrder key w m most (suc under_way) now admitted l
      → find key l.entries ≡ o
      → no_entry (entry_for o full) ≡ false
      → InOrder key w m most under_way now (now ∷ admitted) (store l key now (entry_for o full))
  unfolding store entry_for no_entry entry_or_fresh
  store_entry l full (some e) i at served = store_some l e i (
      subst (λ o. Tracks l (m + most - 1) (suc under_way) now admitted (entry_or_fresh o)) at
        i.tracks)
  store_entry l true none i at served = absurd (ground (arith, served))
  store_entry l false none i at served = store_some l fresh_attempts i (
      subst (λ o. Tracks l (m + most - 1) (suc under_way) now admitted (entry_or_fresh o)) at
        i.tracks)

  -- A request under way that is noted.
  hit-InOrder :
      (l : Limiter)
      → InOrder key w m most (suc under_way) now admitted l
      → is_refused l key now ≡ false
      → InOrder key w m most under_way now (now ∷ admitted) (hit l key now)
  unfolding hit fail is_refused
  hit-InOrder l i served =
      let s = swept-InOrder key w m most (suc under_way) now admitted l i in
      store_entry (swept l now) (is_full (swept l now)) (find key (swept l now).entries) s refl
        served

-- What holds after each call.
abbrev Runs : Text → (w m most now : ℕ) → Served → Type 0
Runs key w m most now g = InOrder key w m most g.under_way now g.noted g.limiter

step-Runs :
    (key : Text) (w m most now : ℕ) (c : Call) (g : Served)
    → now ≤ time_of c
    → IsFit key c g
    → (step key c g).under_way ≤ most
    → Runs key w m most now g
    → Runs key w m most (time_of c) (step key c g)
unfolding step asked finished IsFit time_of
step-Runs key w m most now (asks k later) g h fit few i =
    let i' = later-InOrder key w m most g.under_way now later g.noted g.limiter h i in
    elim (Bool-cases (text_eq k key)) [
      | inl same ↦
          let k_key : k ≡ key = (text_eq_iff k key).0 same in
          elim (Bool-cases (passes g.limiter k later)) [
            | inl free ↦
                let more : suc g.under_way ≡ g.under_way + 1 = omega arith in
                let fits : g.under_way + 1 ≤ most = rw (free, same) at few in
                rw (free, same)
                  (subst (λ n. InOrder key w m most n later g.noted g.limiter) more
                    (ask-InOrder key w m most g.under_way later g.noted g.limiter i'
                      (subst (λ x. passes g.limiter x later ≡ true) k_key free)
                      (omega (arith, fits))))
            | inr wait ↦ rw wait i'
          ]
      | inr other ↦ elim (Bool-cases (passes g.limiter k later)) [
        | inl free ↦ rw (free, other) i'
        | inr wait ↦ rw wait i'
      ]
    ]
step-Runs key w m most now (hits k later) g h fit few i =
    let i' = later-InOrder key w m most g.under_way now later g.noted g.limiter h i in
    elim (Bool-cases (text_eq k key)) [
      | inl same ↦
          let k_key : k ≡ key = (text_eq_iff k key).0 same in
          let (some_way, served) = fit same in
          let fewer : g.under_way ≡ suc (g.under_way - 1) = omega (arith, some_way) in
          rw same (
            subst
              (λ x.
                InOrder key w m most (g.under_way - 1) later (later ∷ g.noted)
                  (hit g.limiter x later))
              (sym k_key)
              (hit-InOrder key w m most (g.under_way - 1) later g.noted g.limiter
                (subst (λ n. InOrder key w m most n later g.noted g.limiter) fewer i')
                (subst (λ x. is_refused g.limiter x later ≡ false) k_key served)))
      | inr other ↦
          rw other (hit-InOrder_other key w m most g.under_way later g.noted k g.limiter other i')
    ]

run_bounded :
    (key : Text) (w m most now : ℕ) (calls : List Call) (g : Served)
    → Runs key w m most now g
    → IsServed key most now calls g
    → (t : ℕ) → length (counted w t (run key calls g).noted) ≤ m + most - 1
unfolding run IsServed
run_bounded key w m most now [] g i served t = rw (sym i.window_same) (i.tracks.bounded t)
run_bounded key w m most now (c ∷ calls) g i (h, fit, few, served) t =
    run_bounded key w m most (time_of c) calls (step key c g)
      (step-Runs key w m most now c g h fit few i) served t

-- Take a limiter with a positive maximum and a lockout that is not shorter than the window, and calls of it
-- in an order in which the times do not go back, each request that is noted was let through before, and
-- the table has the key or room for it then. If at most `most` requests of the key are between their two
-- calls at a time, then in any window at most `most - 1` requests of the key more than the maximum are let
-- through and noted, so no more than the maximum if they do not overlap; however the keys are mixed.
pub run-counted :
    (max window lockout most : ℕ) (key : Text) (calls : List Call) (t : ℕ)
    → 0 < max
    → window ≤ lockout
    → IsServed key most 0 calls (start (new_brute_limiter max window lockout))
    → length (counted window t (run key calls (start (new_brute_limiter max window lockout))).noted)
      ≤ max + most - 1
unfolding new_brute_limiter find Single entry_or_fresh start
run-counted max window lockout most key calls t positive long served =
    let l = new_brute_limiter max window lockout in
    run_bounded key window max most 0 calls (start l)
      (record {
        tracks = fresh-Tracks l (max + most - 1) 0;
        single = tt;
        window_same = refl;
        max_same = refl;
        positive = positive;
        long = long;
      })
      served t
