-- ===== src/Tests/ServerTests.antt =====
-- Runs of the server's parts, and their theorems at concrete inputs.
use dockstack.Prelude.{
  ℕ, ◌+◌, ◌-◌, All, ◌≤◌, ◌≡◌, refl, true, none, List, [], ◌∷◌, length, Text, text_eq, zero, suc,
  arith,
}
use dockstack.Server.Limiter.{
  Attempts, Limiter, new_brute_limiter, find, put, is_full, passes, hit, blocked, fail, entry_for,
  swept, fail_entry,
}
use dockstack.Server.Limiter.Entry.{counted}
use dockstack.Server.Limiter.Window.{
  Call, asks, hits, start, step, asked, finished, run, time_of, IsFit, IsServed, is_refused,
  no_entry,
}
use dockstack.Server.Limiter.Bound.{run-counted}
use dockstack.Server.Limiter.Full.{IsCallOf, asking, AreLocked, run-unlimited}

abbrev client : Text
client = 1 ∷ []

-- Requests one after the other, the fourth of them refused, with one of another key among them.
abbrev one_by_one : List Call
one_by_one =
    asks client 5
    ∷ hits client 5
    ∷ asks (2 ∷ []) 6
    ∷ asks client 7
    ∷ hits (2 ∷ []) 7
    ∷ hits client 8
    ∷ asks client 8
    ∷ asks client 30
    ∷ hits client 31
    ∷ []

-- Three requests that are all let through before the first of them is noted, where two are allowed.
abbrev overlapping : List Call
overlapping =
    asks client 5
    ∷ asks client 5
    ∷ asks client 6
    ∷ hits client 6
    ∷ hits client 7
    ∷ hits client 7
    ∷ asks client 8
    ∷ []

one_by_one-run : (run client one_by_one (start (new_brute_limiter 2 10 20))).noted ≡ 31 ∷ 8 ∷ 5 ∷ []
unfolding run start step asked finished passes hit blocked find new_brute_limiter fail entry_for
    swept is_full put text_eq fail_entry
one_by_one-run = refl

overlapping-run :
    (run client overlapping (start (new_brute_limiter 2 10 20))).noted ≡ 7 ∷ 7 ∷ 6 ∷ []
unfolding run start step asked finished passes hit blocked find new_brute_limiter fail entry_for
    swept is_full put text_eq fail_entry
overlapping-run = refl

overlapping-IsServed : IsServed client 3 0 overlapping (start (new_brute_limiter 2 10 20))
unfolding IsServed IsFit time_of is_refused no_entry run start step asked finished passes hit
    blocked find new_brute_limiter fail entry_for swept is_full put text_eq fail_entry
overlapping-IsServed = (
  omega arith,
  tt,
  omega arith,
  (
    omega arith,
    tt,
    omega arith,
    (
      omega arith,
      tt,
      omega arith,
      (
        omega arith,
        (λ e. (omega arith, refl)),
        omega arith,
        (
          omega arith,
          (λ e. (omega arith, refl)),
          omega arith,
          (
            omega arith,
            (λ e. (omega arith, refl)),
            omega arith,
            (omega arith, tt, omega arith, tt),
          ),
        ),
      ),
    ),
  ),
)

run-counted_example :
    length (counted 10 9 (run client overlapping (start (new_brute_limiter 2 10 20))).noted)
    ≤ 2 + 3 - 1
run-counted_example =
    run-counted 2 10 20 3 client overlapping 9 (omega arith) (omega arith) overlapping-IsServed

-- The first keys, each locked up to the same time.
locked_keys : (n until : ℕ) → List (Text × Attempts)
locked_keys zero until = []
locked_keys (suc n) until =
    (n ∷ [], record { failures = []; locked_until = until }) ∷ locked_keys n until

abbrev full_limiter : Limiter
full_limiter = record { entries = locked_keys 100 50; window = 10; lockout = 20; max = 2 }

locked_keys-AreLocked : (n until : ℕ) → AreLocked until (locked_keys n until)
unfolding AreLocked locked_keys
locked_keys-AreLocked zero until = tt
locked_keys-AreLocked (suc n) until = (omega arith, locked_keys-AreLocked n until)

length-locked_keys : (n until : ℕ) → length (locked_keys n until) ≡ n
unfolding locked_keys
length-locked_keys zero until = omega arith
length-locked_keys (suc n) until = omega (arith, length-locked_keys n until)

full_limiter_full : is_full full_limiter ≡ true
unfolding is_full
full_limiter_full = ground (arith, length-locked_keys 100 50)

full_limiter_absent : find [] full_limiter.entries ≡ none
unfolding find locked_keys text_eq
full_limiter_absent = refl

abbrev two_requests : List Call
two_requests = asks [] 1 ∷ asks [] 2 ∷ hits [] 2 ∷ hits [] 3 ∷ []

two_requests-IsCallOf : All (IsCallOf [] 50) two_requests
unfolding IsCallOf
two_requests-IsCallOf =
    ((refl, omega arith), ((refl, omega arith), ((refl, omega arith), ((refl, omega arith), tt))))

run-unlimited_example :
    ((run [] two_requests (start full_limiter)).limiter ≡ full_limiter)
    × ((run [] two_requests (start full_limiter)).passed ≡ asking two_requests [])
run-unlimited_example =
    run-unlimited full_limiter [] 50 two_requests (locked_keys-AreLocked 100 50) full_limiter_full
      full_limiter_absent two_requests-IsCallOf
