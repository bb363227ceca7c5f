-- ===== src/Limiter.antt =====
-- src/rateLimiter.ts: a fixed-window rate limiter for each key. The clock's reading `now_ms` is an
-- argument of `check`, and the map's record, which the source updates in place, is set again.
pub mod Windows
use ambit.Common.{
  ℕ, ◌+◌, ◌-◌, Bool, true, false, Option, none, some, String, ltb, leb, if◌then◌else◌, Dict, lookup,
  insert,
}

pub record RateLimitResult : Type 0 where
  pub allowed : Bool
  pub retry_after_ms : ℕ

pub record WindowState : Type 0 where
  pub count : ℕ
  pub window_started_at : ℕ

pub record RateLimiter : Type 0 where
  pub window_ms : ℕ
  pub max_requests : ℕ
  pub windows : Dict WindowState

-- The first `if`: there is no window, or `nowMs - windowStartedAt >= windowMs`.
abbrev pub is_over : ℕ → ℕ → Option WindowState → Bool
is_over now window none = true
is_over now window (some w) = leb (w.window_started_at + window) now

abbrev pub fresh_window : ℕ → WindowState
fresh_window now = record { count = 1; window_started_at = now }

abbrev pub pass_result : RateLimitResult
pass_result = record { allowed = true; retry_after_ms = 0 }

-- What becomes of the key's window (`none` if it is left alone), and the answer.
unfoldable pub check_window : ℕ → ℕ → ℕ → Option WindowState → Option WindowState × RateLimitResult
check_window window limit now none = (some (fresh_window now), pass_result)
check_window window limit now (some w) =
    if is_over now window (some w)
    then (some (fresh_window now), pass_result)
    else (if ltb w.count limit then (some (record w { count = w.count + 1 }), pass_result) else (
      none,
      record { allowed = false; retry_after_ms = w.window_started_at + window - now },
    ))

abbrev write_window : String → Option WindowState → RateLimiter → RateLimiter
write_window key none r = r
write_window key (some w) r = record r { windows = insert key w r.windows }

unfoldable pub check : String → ℕ → RateLimiter → RateLimiter × RateLimitResult
unfolding check_window
check key now r =
    let (w, answer) = check_window r.window_ms r.max_requests now (lookup key r.windows) in
    (write_window key w r, answer)
