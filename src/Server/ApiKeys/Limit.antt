-- ===== src/Server/ApiKeys/Limit.antt =====
-- Store.RateLimit over the requests of one key.
use dockstack.Prelude.{
  ℕ, subst, ◌+◌, ◌≤◌, ◌<◌, ◌≡◌, inl, inr, refl, sym, ap, ◌∙◌, true, Option, none, some, List, [],
  ◌∷◌, All, length, ltb, leb, Bool-cases, arith,
}
use mathlib.Core.Bool.{or-true}
use dockstack.Server.ApiKeys.{ApiKey, take_request, is_quiet}
use dockstack.Server.Limiter.{prune}
use dockstack.Server.Limiter.Entry.{counted, counted_le, prune_none, All-weaken}

-- The row after a request, and the times that were let through, the latest first.
unfoldable pub taken : ApiKey → Option ApiKey → ApiKey
taken key none = key
taken key (some new) = new

unfoldable pub let_through : (now : ℕ) → Option ApiKey → List ℕ → List ℕ
let_through now none admitted = admitted
let_through now (some new) admitted = now ∷ admitted

unfoldable pub requests : (max window : ℕ) → List ℕ → ApiKey → List ℕ → List ℕ
requests max window [] key admitted = admitted
requests max window (now ∷ times) key admitted =
    let row = take_request max window now key in
    requests max window times (taken key row) (let_through now row admitted)

-- The times do not go back.
unfoldable pub AreOrdered : (now : ℕ) → List ℕ → Type 0
AreOrdered now [] = Unit
AreOrdered now (t ∷ times) = (now ≤ t) × AreOrdered t times

-- All times are up to the last one.
PastOf : Option ℕ → List ℕ → Type 0
PastOf none admitted = admitted ≡ []
PastOf (some last) admitted = All (λ a. a ≤ last) admitted

quiet_none :
    (window now : ℕ) (last : Option ℕ) (admitted : List ℕ) (t : ℕ)
    → is_quiet last now window ≡ true
    → PastOf last admitted
    → now ≤ t
    → prune t window admitted ≡ []
unfolding is_quiet PastOf
quiet_none window now none admitted t quiet past h =
    ap (prune t window) past ∙ prune_none window t [] tt
quiet_none window now (some last) admitted t quiet past h = prune_none window t admitted (
    All-weaken (λ a. a ≤ last) (λ a. a + window ≤ t) admitted
      (λ a g. (let late : last + window < now = ground (arith, quiet) in omega (arith, g, h, late)))
      past)

module _ (max window : ℕ) where
  -- What the row knows of the times let through.
  record Counts (now : ℕ) (admitted : List ℕ) (key : ApiKey) : Type 0 where
    recent : (t : ℕ) → now ≤ t → length (prune t window admitted) ≤ key.request_count
    past : PastOf key.last_request_at admitted
    until : All (λ a. a ≤ now) admitted
    room : key.request_count ≤ max
    bounded : (t : ℕ) → length (counted window t admitted) ≤ max

  later-Counts :
      (now later : ℕ) (admitted : List ℕ) (key : ApiKey)
      → now ≤ later
      → Counts now admitted key
      → Counts later admitted key
  later-Counts now later admitted key h k = record {
    recent = λ t g. k.recent t (omega (arith, h, g));
    past = k.past;
    until =
        All-weaken (λ a. a ≤ now) (λ a. a ≤ later) admitted (λ a g. omega (arith, g, h)) k.until;
    room = k.room;
    bounded = k.bounded;
  }

  -- One more time is let through, and the new count covers the recent ones.
  more_bounded :
      (now count t : ℕ) (admitted : List ℕ)
      → ((u : ℕ) → now ≤ u → length (prune u window admitted) < count)
      → count ≤ max
      → length (counted window t admitted) ≤ max
      → length (counted window t (now ∷ admitted)) ≤ max
  more_bounded now count t admitted recent room h = elim (Bool-cases (leb now t)) [
    | inl late ↦
        let h' : now ≤ t = ground (arith, late) in
        ground (arith, counted_le window t admitted, recent t h', room)
    | inr early ↦ ground (arith, h)
  ]

  take-Counts :
      (now count : ℕ) (admitted : List ℕ) (key : ApiKey)
      → Counts now admitted key
      → ((u : ℕ) → now ≤ u → length (prune u window admitted) < count)
      → count ≤ max
      → Counts now
          (now ∷ admitted)
          (record key { request_count = count; last_request_at = some now })
  unfolding PastOf prune
  take-Counts now count admitted key k recent room = record {
    recent = λ t h. ground (arith, recent t h);
    past = (omega arith, k.until);
    until = (omega arith, k.until);
    room = room;
    bounded = λ t. more_bounded now count t admitted recent room (k.bounded t);
  }

  request-Counts :
      (now : ℕ) (admitted : List ℕ) (key : ApiKey)
      → 0 < max
      → Counts now admitted key
      → Counts now
          (let_through now (take_request max window now key) admitted)
          (taken key (take_request max window now key))
  unfolding take_request taken let_through
  request-Counts now admitted key positive k =
      elim (Bool-cases (is_quiet key.last_request_at now window)) [
        | inl quiet ↦
            rw (quiet, or-true (ltb key.request_count max))
              (take-Counts now 1 admitted key k
                (λ u h.
                  (let gone = quiet_none window now key.last_request_at admitted u quiet k.past h in
                    omega (arith, ap length gone)))
                positive)
        | inr busy ↦ elim (Bool-cases (ltb key.request_count max)) [
          | inl free ↦
              rw (busy, free)
                (take-Counts now (key.request_count + 1) admitted key k
                  (λ u h. omega (arith, k.recent u h)) (ground (arith, free)))
          | inr full ↦ rw (busy, full) k
        ]
      ]

  requests_bounded :
      (now : ℕ) (times admitted : List ℕ) (key : ApiKey)
      → 0 < max
      → Counts now admitted key
      → AreOrdered now times
      → (t : ℕ) → length (counted window t (requests max window times key admitted)) ≤ max
  unfolding requests AreOrdered
  requests_bounded now [] admitted key positive k ordered t = k.bounded t
  requests_bounded now (later ∷ times) admitted key positive k (h, ordered) t =
      requests_bounded later times _ _ positive
        (request-Counts later admitted key positive (later-Counts now later admitted key h k))
        ordered t

-- In no window are more than the maximum of the requests of a new key let through, if the maximum is
-- positive and the times do not go back.
pub requests-counted :
    (max window : ℕ) (times : List ℕ) (key : ApiKey) (t : ℕ)
    → 0 < max
    → key.last_request_at ≡ none
    → key.request_count ≡ 0
    → AreOrdered 0 times
    → length (counted window t (requests max window times key [])) ≤ max
unfolding PastOf prune
requests-counted max window times key t positive new_key unused ordered =
    requests_bounded max window 0 times [] key positive
      (record {
        recent = λ u h. omega arith;
        past = subst (λ o. PastOf o []) (sym new_key) refl;
        until = tt;
        room = omega (arith, unused);
        bounded = λ u. omega arith;
      })
      ordered t
