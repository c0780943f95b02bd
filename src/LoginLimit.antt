-- ===== src/LoginLimit.antt =====
-- apps/api/src/middleware/login-rate-limit.ts: the attempts to sign in from one address. A request is
-- one step, from its arrival to the end of its response.
use employee_attendance.Prelude.{
  ℕ, ◌+◌, ◌≤◌, Bool, true, false, ◌&&◌, Option, none, some, ltb, leb, if◌then◌else◌, arith,
}

pub record Attempt : Type 0 where
  pub count : ℕ
  pub reset_at : ℕ

unfoldable pub max_attempts : ℕ
max_attempts = 10

unfoldable pub window_ms : ℕ
window_ms = 900_000

abbrev new_attempt : ℕ → Attempt
new_attempt now = record { count = 0; reset_at = now + window_ms }

-- The attempt that counts at an instant.
unfoldable pub attempt_at : Option Attempt → ℕ → Attempt
attempt_at none now = new_attempt now
attempt_at (some a) now = if leb a.reset_at now then new_attempt now else a

-- `loginRateLimit`: the stored attempt after a request and whether the request went on, from whether
-- the limit is off in the environment, the instant, and the status of the response.
unfoldable pub login_rate_limit : Bool → ℕ → ℕ → Option Attempt → Option Attempt × Bool
login_rate_limit is_off now status current =
    let a = attempt_at current now in
    let failed = leb 400 status && ltb status 500 in
    if is_off
    then (current, true)
    else if leb max_attempts a.count
    then (current, false)
    else if failed
    then (some (record a { count = a.count + 1 }), true)
    else (current, true)

abbrev pub counted : Option Attempt → ℕ
counted none = 0
counted (some a) = a.count

-- No more failed attempts than the maximum are ever counted.
pub login_rate_limit-le-max_attempts :
    (is_off : Bool) (now status : ℕ) (current : Option Attempt)
    → counted current ≤ max_attempts
    → counted (login_rate_limit is_off now status current).0 ≤ max_attempts
unfolding login_rate_limit attempt_at max_attempts
login_rate_limit-le-max_attempts is_off now status current h = ground arith
