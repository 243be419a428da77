-- ===== src/Server/Limiter/Entry.antt =====
-- The failures that an entry keeps, and those that were counted.
use dockstack.Prelude.{
  ℕ, suc, ◌+◌, ◌≤◌, ◌<◌, ◌≡◌, ◌⊎◌, inl, inr, refl, sym, ap, ◌∙◌, Bool, true, ◌&&◌, List, [], ◌∷◌,
  ◌++◌, All, All-append, All-keep, keep, keep-append, length, length-append, ltb, leb, Bool-cases,
  arith, some,
}
use dockstack.Server.Limiter.{
  Attempts, Limiter, prune, fail_entry, fresh_attempts, last_failure, is_over, is_stale,
}

-- The times of a list that count at a time: those up to then that are less than the window old.
abbrev pub counted : (window t : ℕ) → List ℕ → List ℕ
counted window t = keep (λ a. leb a t && ltb t (a + window))

length-keep : (p : ℕ → Bool) (xs : List ℕ) → length (keep p xs) ≤ length xs
length-keep p [] = omega arith
length-keep p (x ∷ xs) = ground (arith, length-keep p xs)

length-prune : (w now : ℕ) (xs : List ℕ) → length (prune now w xs) ≤ length xs
unfolding prune
length-prune w now xs = length-keep (λ a. ltb now (a + w)) xs

pub counted_le : (w t : ℕ) (xs : List ℕ) → length (counted w t xs) ≤ length (prune t w xs)
unfolding prune
counted_le w t [] = omega arith
counted_le w t (x ∷ xs) = ground (arith, counted_le w t xs)

prune-prune : (w now t : ℕ) (xs : List ℕ) → now ≤ t → prune t w (prune now w xs) ≡ prune t w xs
unfolding prune
prune-prune w now t [] h = refl
prune-prune w now t (x ∷ xs) h = ground (arith, prune-prune w now t xs h)

pub prune_none : (w now : ℕ) (xs : List ℕ) → All (λ a. a + w ≤ now) xs → prune now w xs ≡ []
unfolding prune
prune_none w now [] h = refl
prune_none w now (x ∷ xs) (h, hs) = ground (arith, prune_none w now xs hs)

pub All-weaken : (P Q : ℕ → Type 0) (xs : List ℕ) → ((a : ℕ) → P a → Q a) → All P xs → All Q xs
All-weaken P Q [] f h = tt
All-weaken P Q (x ∷ xs) f (h, hs) = (f x h, All-weaken P Q xs f hs)

last_failure-append : (xs : List ℕ) (t : ℕ) → last_failure (xs ++ t ∷ []) ≡ some t
unfolding last_failure
last_failure-append [] t = refl
last_failure-append (x ∷ []) t = refl
last_failure-append (x ∷ y ∷ xs) t = last_failure-append (y ∷ xs) t

-- No failure is later than the last one.
abbrev EndsLast : List ℕ → Type 0
EndsLast xs = (xs ≡ []) ⊎ ((t : ℕ) × (last_failure xs ≡ some t) × All (λ a. a ≤ t) xs)

over_none :
    (w now : ℕ) (xs : List ℕ)
    → EndsLast xs
    → is_over now w (last_failure xs) ≡ true
    → prune now w xs ≡ []
unfolding is_over
over_none w now xs (inl e) h = rw e (prune_none w now [] tt)
over_none w now xs (inr (t, e, all)) h =
    let late : t + w < now = (let g = ap (is_over now w) e in ground (arith, g, h)) in
    prune_none w now xs
      (All-weaken (λ a. a ≤ t) (λ a. a + w ≤ now) xs (λ a g. omega (arith, g, late)) all)

module _ (l : Limiter) (bound : ℕ) where
  -- What an entry knows of the times at which its key was noted, the latest first, with so many requests
  -- of the key under way that are not noted yet.
  pub record Tracks (under_way now : ℕ) (admitted : List ℕ) (e : Attempts) : Type 0 where
    pub same :
        (t : ℕ)
        → now ≤ t
        → length (prune t l.window admitted) ≡ length (prune t l.window e.failures)
    pub past : All (λ a. a ≤ now) e.failures
    pub room : (length e.failures < l.max) ⊎ All (λ a. a + l.window ≤ e.locked_until) e.failures
    pub ends : EndsLast e.failures
    pub live : length (prune now l.window e.failures) + under_way ≤ bound
    pub bounded : (t : ℕ) → length (counted l.window t admitted) ≤ bound

  pub fresh-Tracks : (now : ℕ) → Tracks 0 now [] fresh_attempts
  unfolding prune
  fresh-Tracks now = record {
    same = λ t h. refl;
    past = tt;
    room = inr tt;
    ends = inl refl;
    live = omega arith;
    bounded = λ t. omega arith;
  }

  pub later-Tracks :
      (under_way now later : ℕ) (admitted : List ℕ) (e : Attempts)
      → now ≤ later
      → Tracks under_way now admitted e
      → Tracks under_way later admitted e
  later-Tracks under_way now later admitted e h k = record {
    same = λ t g. k.same t (omega (arith, h, g));
    past =
        All-weaken (λ a. a ≤ now) (λ a. a ≤ later) e.failures (λ a g. omega (arith, g, h)) k.past;
    room = k.room;
    ends = k.ends;
    live =
        let fewer = ap length (prune-prune l.window now later e.failures h) in
        omega (arith, k.live, fewer, length-prune l.window later (prune now l.window e.failures));
    bounded = k.bounded;
  }

  prune-append :
      (t : ℕ) (xs ys : List ℕ)
      → prune t l.window (xs ++ ys) ≡ prune t l.window xs ++ prune t l.window ys
  unfolding prune
  prune-append t xs ys = keep-append (λ a. ltb t (a + l.window)) xs ys

  none_later :
      (now t : ℕ) (xs : List ℕ)
      → now ≤ t
      → prune now l.window xs ≡ []
      → prune t l.window xs ≡ prune t l.window []
  none_later now t xs h e = sym (prune-prune l.window now t xs h) ∙ ap (prune t l.window) e

  -- An entry that is not locked has room for one more.
  pruned_lt :
      (now : ℕ) (e : Attempts)
      → 0 < l.max
      → e.locked_until ≤ now
      → ((length e.failures < l.max) ⊎ All (λ a. a + l.window ≤ e.locked_until) e.failures)
      → length (prune now l.window e.failures) < l.max
  unfolding prune
  pruned_lt now e pos free (inl h) = omega (arith, h, length-prune l.window now e.failures)
  pruned_lt now e pos free (inr h) =
      let gone = prune_none l.window now e.failures (
        All-weaken (λ a. a + l.window ≤ e.locked_until) (λ a. a + l.window ≤ now) e.failures
          (λ a g. omega (arith, g, free)) h) in
      rw gone pos

  fail_same :
      (now t : ℕ) (admitted : List ℕ) (e : Attempts)
      → now ≤ t
      → length (prune t l.window admitted) ≡ length (prune t l.window e.failures)
      → length (prune t l.window (now ∷ admitted))
        ≡ length (prune t l.window (prune now l.window e.failures ++ now ∷ []))
  fail_same now t admitted e h k =
      let one : List ℕ = now ∷ [] in
      let apart : prune t l.window (prune now l.window e.failures ++ one)
          ≡ prune t l.window e.failures ++ prune t l.window one =
        prune-append t (prune now l.window e.failures) one
        ∙ ap (λ xs. xs ++ prune t l.window one) (prune-prune l.window now t e.failures h) in
      omega (
        arith,
        ap length apart,
        ap length (prune-append t one admitted),
        k,
        length-append (prune t l.window e.failures) (prune t l.window one),
        length-append (prune t l.window one) (prune t l.window admitted),
      )

  fail_bounded :
      (under_way now t : ℕ) (admitted : List ℕ) (e : Attempts)
      → Tracks (suc under_way) now admitted e
      → length (counted l.window t (now ∷ admitted)) ≤ bound
  fail_bounded under_way now t admitted e k = elim (Bool-cases (leb now t)) [
    | inl late ↦
        let h : now ≤ t = ground arith in
        let failures : List ℕ = prune now l.window e.failures ++ now ∷ [] in
        omega (
          arith,
          counted_le l.window t (now ∷ admitted),
          fail_same now t admitted e h (k.same t h),
          length-prune l.window t failures,
          length-append (prune now l.window e.failures) (now ∷ []),
          k.live,
        )
    | inr early ↦ ground (arith, k.bounded t)
  ]

  fail_past :
      (now : ℕ) (e : Attempts)
      → All (λ a. a ≤ now) e.failures
      → All (λ a. a ≤ now) (fail_entry l now e).failures
  unfolding fail_entry prune
  fail_past now e h =
      All-append (λ a. a ≤ now) (prune now l.window e.failures) (now ∷ [])
        (All-keep (λ a. a ≤ now) (λ a. ltb now (a + l.window)) e.failures h) (omega arith, tt)

  fail_room :
      (now : ℕ) (e : Attempts)
      → l.window ≤ l.lockout
      → All (λ a. a ≤ now) (fail_entry l now e).failures
      → (length (fail_entry l now e).failures < l.max)
        ⊎ All (λ a. a + l.window ≤ (fail_entry l now e).locked_until) (fail_entry l now e).failures
  unfolding fail_entry
  fail_room now e long past =
      elim (Bool-cases (leb l.max (length (prune now l.window e.failures ++ now ∷ [])))) [
        | inl full ↦ inr (
            rw full (
              All-weaken (λ a. a ≤ now) (λ a. a + l.window ≤ now + l.lockout) _
                (λ a g. omega (arith, g, long)) past))
        | inr free ↦ inl (ground arith)
      ]

  -- A request of a key that is not blocked is one more that is under way.
  pub ask-Tracks :
      (under_way now : ℕ) (admitted : List ℕ) (e : Attempts)
      → 0 < l.max
      → l.max + suc under_way ≤ suc bound
      → e.locked_until ≤ now
      → Tracks under_way now admitted e
      → Tracks (suc under_way) now admitted e
  ask-Tracks under_way now admitted e pos fits free k = record {
    same = k.same;
    past = k.past;
    room = k.room;
    ends = k.ends;
    live = omega (arith, pruned_lt now e pos free k.room, fits);
    bounded = k.bounded;
  }

  -- A request under way that is noted leaves its entry in order, locked or not.
  pub fail-Tracks :
      (under_way now : ℕ) (admitted : List ℕ) (e : Attempts)
      → l.window ≤ l.lockout
      → Tracks (suc under_way) now admitted e
      → Tracks under_way now (now ∷ admitted) (fail_entry l now e)
  unfolding fail_entry
  fail-Tracks under_way now admitted e long k =
      let failures : List ℕ = prune now l.window e.failures ++ now ∷ [] in
      record {
        same = λ t h. fail_same now t admitted e h (k.same t h);
        past = fail_past now e k.past;
        room = fail_room now e long (fail_past now e k.past);
        ends =
            inr (
              now,
              last_failure-append (prune now l.window e.failures) now,
              fail_past now e k.past,
            );
        live = omega (
          arith,
          k.live,
          length-prune l.window now failures,
          length-append (prune now l.window e.failures) (now ∷ []),
        );
        bounded = λ t. fail_bounded under_way now t admitted e k;
      }

  -- A stale entry can be forgotten.
  pub stale-Tracks :
      (under_way now : ℕ) (admitted : List ℕ) (e : Attempts)
      → is_stale now l.window e ≡ true
      → Tracks under_way now admitted e
      → Tracks under_way now admitted fresh_attempts
  unfolding is_stale prune
  stale-Tracks under_way now admitted e stale k =
      let over : is_over now l.window (last_failure e.failures) ≡ true = ground arith in
      record {
        same = λ t h.
            k.same t h
            ∙ ap length
                (none_later now t e.failures h (over_none l.window now e.failures k.ends over));
        past = tt;
        room = inr tt;
        ends = inl refl;
        live = omega (arith, k.live);
        bounded = k.bounded;
      }
