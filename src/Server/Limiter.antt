-- ===== src/Server/Limiter.antt =====
-- internal/server/api/auth/ratelimit.go: the limiter of sign-ins and of other requests. Time is an
-- argument of each call, in nanoseconds; the zero time is 0. Each call holds the limiter's
-- lock, so that those of several requests come one after another; the wait that `fail` returns is left
-- out, which is only logged.
pub mod Entry
pub mod Window
pub mod Bound
pub mod Full
pub mod Noting
pub mod Locking
use Prim.Native.Nat.{◌/◌}
use dockstack.Prelude.{
  ℕ, ◌+◌, ◌-◌, Bool, true, false, ◌&&◌, Option, none, some, List, [], ◌∷◌, ◌++◌, keep, length,
  text_eq, Text, ltb, leb, if◌then◌else◌,
}

-- `signInAttempts`
pub record Attempts : Type 0 where
  pub failures : List ℕ
  pub locked_until : ℕ

-- `bruteLimiter`; the map of entries is a list, and no key is in it twice
pub record Limiter : Type 0 where
  pub entries : List (Text × Attempts)
  pub window : ℕ
  pub lockout : ℕ
  pub max : ℕ

abbrev pub second : ℕ
second = 1_000_000_000

abbrev pub sign_in_failure_window : ℕ
sign_in_failure_window = 900_000_000_000

abbrev pub sign_in_lockout : ℕ
sign_in_lockout = 900_000_000_000

abbrev pub sign_in_max_entries : ℕ
sign_in_max_entries = 100

unfoldable pub new_brute_limiter : (max window lockout : ℕ) → Limiter
new_brute_limiter max window lockout = record {
  entries = [];
  window = window;
  lockout = lockout;
  max = max;
}

-- `l.entries[key]`
unfoldable pub find : Text → List (Text × Attempts) → Option Attempts
find key [] = none
find key ((k, e) ∷ entries) = if text_eq k key then some e else find key entries

-- `l.entries[key] = e`
unfoldable pub put : Text → Attempts → List (Text × Attempts) → List (Text × Attempts)
put key e [] = (key, e) ∷ []
put key e ((k, old) ∷ entries) =
    if text_eq k key then (k, e) ∷ entries else (k, old) ∷ put key e entries

-- `delete(l.entries, key)`
unfoldable pub remove : Text → List (Text × Attempts) → List (Text × Attempts)
remove key entries = keep (λ (p : Text × Attempts). if text_eq p.0 key then false else true) entries

unfoldable pub remaining : Option Attempts → ℕ → ℕ
remaining none now = 0
remaining (some e) now = e.locked_until - now

-- `blocked`: how long the key is blocked from now on, 0 if it is not
unfoldable pub blocked : Limiter → Text → (now : ℕ) → ℕ
unfolding remaining
blocked l key now = remaining (find key l.entries) now

-- `prune`: the failures that are less than the window old
unfoldable pub prune : (now window : ℕ) → List ℕ → List ℕ
prune now window failures = keep (λ t. ltb now (t + window)) failures

-- the rest of `fail`, for the entry of the key
unfoldable pub fail_entry : Limiter → (now : ℕ) → Attempts → Attempts
unfolding prune
fail_entry l now e =
    let failures = prune now l.window e.failures ++ now ∷ [] in
    record {
      failures = failures;
      locked_until = if leb l.max (length failures) then now + l.lockout else e.locked_until;
    }

unfoldable pub last_failure : List ℕ → Option ℕ
last_failure [] = none
last_failure (t ∷ []) = some t
last_failure (t ∷ u ∷ ts) = last_failure (u ∷ ts)

is_over : (now window : ℕ) → Option ℕ → Bool
is_over now window none = true
is_over now window (some t) = ltb (t + window) now

unfoldable pub is_stale : (now window : ℕ) → Attempts → Bool
unfolding is_over
is_stale now window e = ltb e.locked_until now && is_over now window (last_failure e.failures)

-- `sweep`
unfoldable pub sweep : Limiter → (now : ℕ) → Limiter
sweep l now = record l {
  entries =
      keep (λ (p : Text × Attempts). if is_stale now l.window p.1 then false else true) l.entries;
}

abbrev pub fresh_attempts : Attempts
fresh_attempts = record { failures = []; locked_until = 0 }

-- whether there is no room for another key
unfoldable pub is_full : Limiter → Bool
is_full l = leb sign_in_max_entries (length l.entries)

unfoldable pub swept : Limiter → (now : ℕ) → Limiter
swept l now = if is_full l then sweep l now else l

-- the entry that `fail` goes on with, if it does
unfoldable pub entry_for : Option Attempts → (full : Bool) → Option Attempts
entry_for (some e) full = some e
entry_for none true = none
entry_for none false = some fresh_attempts

unfoldable pub store : Limiter → Text → (now : ℕ) → Option Attempts → Limiter
store l key now none = l
store l key now (some e) = record l { entries = put key (fail_entry l now e) l.entries }

-- `fail`
unfoldable pub fail : Limiter → Text → (now : ℕ) → Limiter
unfolding store
fail l key now = let s = swept l now in store s key now (entry_for (find key s.entries) (is_full s))

-- `reset`
unfoldable pub reset : Limiter → Text → Limiter
reset l key = record l { entries = remove key l.entries }

-- `requestGuard.limit` makes two calls of the limiter, each with a lock and a time of the clock of its
-- own: `passes` is whether the first one lets the request go on, and `hit` is the second one, which then
-- notes the request
unfoldable pub passes : Limiter → Text → (now : ℕ) → Bool
passes l key now = if ltb 0 (blocked l key now) then false else true

unfoldable pub hit : Limiter → Text → (now : ℕ) → Limiter
unfolding fail
hit l key now = fail l key now

-- `signInGuard`
pub record SignInGuard : Type 0 where
  pub ip : Limiter
  pub id : Limiter

unfoldable pub new_sign_in_guard : SignInGuard
unfolding new_brute_limiter
new_sign_in_guard = record {
  ip = new_brute_limiter 10 sign_in_failure_window sign_in_lockout;
  id = new_brute_limiter 5 sign_in_failure_window sign_in_lockout;
}

-- `check`: how long to wait, 0 if the sign-in may go on
unfoldable pub check : SignInGuard → (ip_key id_key : Text) → (now : ℕ) → ℕ
check g ip_key id_key now =
    let wait = blocked g.ip ip_key now in if ltb 0 wait then wait else blocked g.id id_key now

unfoldable pub record_failure : SignInGuard → (ip_key id_key : Text) → (now : ℕ) → SignInGuard
record_failure g ip_key id_key now = record { ip = fail g.ip ip_key now; id = fail g.id id_key now }

unfoldable pub clear : SignInGuard → (ip_key id_key : Text) → SignInGuard
clear g ip_key id_key = record { ip = reset g.ip ip_key; id = reset g.id id_key }

-- the `Retry-After` of `tooManyRequests`: the wait in seconds, rounded, and 1 at least
unfoldable pub retry_after : (wait : ℕ) → ℕ
retry_after wait = let secs = (wait + 500_000_000) / second in if ltb secs 1 then 1 else secs
