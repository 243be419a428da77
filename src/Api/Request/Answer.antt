-- ===== src/Api/Request/Answer.antt =====
-- What the caller gets for an answer.
use dockstack.Prelude.{◌≡◌, ◌≢◌, true, false, none, some, Text, arith}
use dockstack.Logs.Json.{Json}
use dockstack.Api.Request.{
  Response, undefined_result, result, api_error, parse_error, is_ok, error_message, outcome,
}

module _ (show : Json → Text) where
  -- An answer outside 200 to 299 is an error with its status, whatever its body is, and only such
  -- an answer is; one with status 204 gives no value and its body is not read; any other gives the
  -- value of its body, or fails if that is no JSON.
  outcome_cases :
      (res : Response)
      → (is_ok res.status ≡ false → (m : Text) × (outcome show res ≡ api_error res.status m))
        × (res.status ≡ 204 → outcome show res ≡ undefined_result)
        × (is_ok res.status ≡ true
            → res.status ≢ 204
            → ((v : Json) → res.json ≡ some v → outcome show res ≡ result v)
              × (res.json ≡ none → outcome show res ≡ parse_error))
  unfolding outcome
  outcome_cases res = (
    (λ h. (error_message show res.status_text res.json, rw h)),
    (λ h. rw h),
    (λ h ne. ((λ v e. ground arith), (λ e. ground arith))),
  )
