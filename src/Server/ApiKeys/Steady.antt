-- ===== src/Server/ApiKeys/Steady.antt =====
-- Store.RateLimit over requests at equal distances.
use dockstack.Prelude.{
  ℕ, zero, suc, ◌+◌, ◌-◌, ◌≤◌, ◌<◌, ◌≡◌, refl, sym, ap, ◌∙◌, true, false, Option, none, some, List,
  [], ◌∷◌, ltb, arith,
}
use mathlib.Core.Bool.{or-true}
use dockstack.Server.ApiKeys.{ApiKey, take_request, is_quiet}
use dockstack.Server.ApiKeys.Limit.{taken, let_through, requests}

-- `n` requests, the first at `start` and each `gap` after the one before.
unfoldable pub steady : (n start gap : ℕ) → List ℕ
steady zero start gap = []
steady (suc n) start gap = start ∷ steady n (start + gap) gap

-- The times in the order in which `requests` lists those that are let through.
unfoldable pub latest_first : (times admitted : List ℕ) → List ℕ
latest_first [] admitted = admitted
latest_first (t ∷ times) admitted = latest_first times (t ∷ admitted)

module _ (max window gap : ℕ) where
  busy_row :
      (last : ℕ) (key : ApiKey)
      → gap ≤ window
      → key.last_request_at ≡ some last
      → is_quiet key.last_request_at (last + gap) window ≡ false
  unfolding is_quiet
  busy_row last key h at = rw at (ground (arith, h))

  requests_step :
      (now : ℕ) (times admitted : List ℕ) (key : ApiKey) (row : Option ApiKey)
      → take_request max window now key ≡ row
      → requests max window (now ∷ times) key admitted
        ≡ requests max window times (taken key row) (let_through now row admitted)
  unfolding requests
  requests_step now times admitted key row e =
      ap (λ r. requests max window times (taken key r) (let_through now r admitted)) e

  -- The first requests use up what is left of the count, and the next one is refused.
  steady_rest :
      (n last : ℕ) (key : ApiKey) (admitted : List ℕ)
      → gap ≤ window
      → key.last_request_at ≡ some last
      → key.request_count + n ≡ max
      → requests max window (steady (suc n) (last + gap) gap) key admitted
        ≡ latest_first (steady n (last + gap) gap) admitted
  unfolding requests steady latest_first take_request taken let_through
  steady_rest zero last key admitted h at left =
      let used : ltb key.request_count max ≡ false = ground (arith, left) in
      requests_step (last + gap) [] admitted key none (rw (busy_row last key h at, used) refl)
  steady_rest (suc n) last key admitted h at left =
      let unused : ltb key.request_count max ≡ true = ground (arith, left) in
      let row : ApiKey = record key {
        request_count = key.request_count + 1;
        last_request_at = some (last + gap);
      } in
      requests_step (last + gap) (steady (suc n) (last + gap + gap) gap) admitted key (some row)
        (rw (busy_row last key h at, unused) refl)
      ∙ steady_rest n (last + gap) row ((last + gap) ∷ admitted) h refl (omega (arith, left))

  -- Of one more request than the maximum, each within the window after the one before, a new key has
  -- exactly the first ones let through, and the last one refused: at one request in each window too.
  pub requests-steady :
      (start : ℕ) (key : ApiKey)
      → 0 < max
      → gap ≤ window
      → key.last_request_at ≡ none
      → requests max window (steady (suc max) start gap) key []
        ≡ latest_first (steady max start gap) []
  unfolding requests steady latest_first take_request taken let_through is_quiet
  requests-steady start key positive h new_key =
      let row : ApiKey = record key { request_count = 1; last_request_at = some start } in
      let first : take_request max window start key ≡ some row =
        rw (new_key, or-true (ltb key.request_count max)) refl in
      let more : suc (max - 1) ≡ max = omega (arith, positive) in
      requests_step start (steady max (start + gap) gap) [] key (some row) first
      ∙ ap (λ n. requests max window (steady n (start + gap) gap) row (start ∷ [])) (sym more)
      ∙ steady_rest (max - 1) start row (start ∷ []) h refl (omega (arith, positive))
      ∙ ap (λ n. latest_first (steady n start gap) []) more
