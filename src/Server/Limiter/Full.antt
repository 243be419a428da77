-- ===== src/Server/Limiter/Full.antt =====
-- bruteLimiter.fail with a table that is full.
use dockstack.Prelude.{
  ℕ, ◌≤◌, ◌≡◌, inl, inr, refl, sym, subst, ap, ◌∙◌, true, false, none, List, [], ◌∷◌, All, keep,
  text_eq, text_eq_self, Text, ltb, Bool-cases, arith,
}
use dockstack.Server.Limiter.{
  Attempts, Limiter, find, blocked, remaining, is_stale, sweep, is_full, swept, entry_for, store,
  fail, hit, passes,
}
use dockstack.Server.Limiter.Window.{
  Call, asks, hits, Served, start, asked, finished, step, run, unswept,
}

-- Each entry is locked up to the given time or longer.
unfoldable pub AreLocked : (last : ℕ) → List (Text × Attempts) → Type 0
AreLocked last entries = All (λ (p : Text × Attempts). last ≤ p.1.locked_until) entries

keep-unswept :
    (now last window : ℕ) (es : List (Text × Attempts))
    → now ≤ last
    → AreLocked last es
    → keep (unswept now window) es ≡ es
unfolding unswept is_stale AreLocked
keep-unswept now last window [] h locked = refl
keep-unswept now last window ((k, e) ∷ es) h (here, locked) =
    let live : ltb e.locked_until now ≡ false = ground (arith, h, here) in
    rw live (ap (λ xs. (k, e) ∷ xs) (keep-unswept now last window es h locked))

swept-unswept :
    (l : Limiter) (now last : ℕ) → now ≤ last → AreLocked last l.entries → swept l now ≡ l
unfolding swept sweep unswept
swept-unswept l now last h locked = elim (Bool-cases (is_full l)) [
  | inl full ↦
      rw full
        (ap (λ es. record l { entries = es }) (keep-unswept now last l.window l.entries h locked))
  | inr room ↦ rw room refl
]

note_full :
    (l : Limiter) (key : Text) (now last : ℕ)
    → now ≤ last
    → AreLocked last l.entries
    → is_full l ≡ true
    → find key l.entries ≡ none
    → hit l key now ≡ l
unfolding hit fail store entry_for
note_full l key now last h locked full absent =
    rw (swept-unswept l now last h locked, absent, full) refl

passes_full :
    (l : Limiter) (key : Text) (now : ℕ) → find key l.entries ≡ none → passes l key now ≡ true
unfolding passes blocked remaining
passes_full l key now absent = rw absent refl

-- A call of a request of the key, up to the given time.
unfoldable pub IsCallOf : Text → (last : ℕ) → Call → Type 0
IsCallOf key last (asks k now) = (k ≡ key) × (now ≤ last)
IsCallOf key last (hits k now) = (k ≡ key) × (now ≤ last)

-- The times of the requests, the latest first.
unfoldable pub asking : List Call → List ℕ → List ℕ
asking [] times = times
asking (asks k now ∷ calls) times = asking calls (now ∷ times)
asking (hits k now ∷ calls) times = asking calls times

step_full :
    (key : Text) (last : ℕ) (c : Call) (g : Served)
    → AreLocked last g.limiter.entries
    → is_full g.limiter ≡ true
    → find key g.limiter.entries ≡ none
    → IsCallOf key last c
    → ((step key c g).limiter ≡ g.limiter) × ((step key c g).passed ≡ asking (c ∷ []) g.passed)
unfolding step asked finished IsCallOf asking
step_full key last (asks k now) g locked full absent (e, h) =
    let free =
      subst (λ x. passes g.limiter x now ≡ true) (sym e) (passes_full g.limiter key now absent) in
    let same = subst (λ x. text_eq x key ≡ true) (sym e) (text_eq_self key) in
    rw (free, same) (refl, refl)
step_full key last (hits k now) g locked full absent (e, h) =
    let kept =
      subst (λ x. hit g.limiter x now ≡ g.limiter) (sym e)
        (note_full g.limiter key now last h locked full absent) in
    let same = subst (λ x. text_eq x key ≡ true) (sym e) (text_eq_self key) in
    rw (same, kept) (refl, refl)

asking-step :
    (c : Call) (calls : List Call) (times : List ℕ)
    → asking calls (asking (c ∷ []) times) ≡ asking (c ∷ calls) times
unfolding asking
asking-step (asks k now) calls times = refl
asking-step (hits k now) calls times = refl

run_full :
    (key : Text) (last : ℕ) (calls : List Call) (g : Served)
    → AreLocked last g.limiter.entries
    → is_full g.limiter ≡ true
    → find key g.limiter.entries ≡ none
    → All (IsCallOf key last) calls
    → ((run key calls g).limiter ≡ g.limiter) × ((run key calls g).passed ≡ asking calls g.passed)
unfolding run asking
run_full key last [] g locked full absent early = (refl, refl)
run_full key last (c ∷ calls) g locked full absent (h, early) =
    let (same, more) = step_full key last c g locked full absent h in
    let rest =
      run_full key last calls (step key c g)
        (subst (λ l. AreLocked last l.entries) (sym same) locked)
        (subst (λ l. is_full l ≡ true) (sym same) full)
        (subst (λ l. find key l.entries ≡ none) (sym same) absent) early in
    (rest.0 ∙ same, rest.1 ∙ ap (asking calls) more ∙ asking-step c calls g.passed)

-- If the table is full and every key of it is locked up to some time or longer, every request up to then of
-- any other key is let through, however many they are and however their calls of the limiter follow one
-- another, and the limiter stays as it is.
pub run-unlimited :
    (l : Limiter) (key : Text) (last : ℕ) (calls : List Call)
    → AreLocked last l.entries
    → is_full l ≡ true
    → find key l.entries ≡ none
    → All (IsCallOf key last) calls
    → ((run key calls (start l)).limiter ≡ l) × ((run key calls (start l)).passed ≡ asking calls [])
unfolding start
run-unlimited l key last calls locked full absent early =
    run_full key last calls (start l) locked full absent early
