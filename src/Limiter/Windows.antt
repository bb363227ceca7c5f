-- ===== src/Limiter/Windows.antt =====
-- The guarantee of src/rateLimiter.ts: within one window a key is let through at most
-- `max_requests` times, and a blocked caller is told when the window ends.
use ambit.Common.{
  ap, ℕ, suc, ◌+◌, ◌-◌, ◌≤◌, ◌<◌, ◌≡◌, ◌≢◌, true, false, some, List, [], ◌∷◌, String, arith, lookup,
  insert, lookup-insert_self, lookup-insert_ne, if◌then◌else◌, min, length, All, Bool-cases, ltb,
  inl, inr,
}
use ambit.Limiter.{WindowState, RateLimiter, is_over, check}

-- The number of requests that are let through in a sequence of calls at the given times.
unfoldable pub passes : String → List ℕ → RateLimiter → ℕ
passes key [] r = 0
passes key (now ∷ times) r =
    let (r', answer) = check key now r in
    let rest = passes key times r' in if answer.allowed then suc rest else rest

abbrev counted_once : String → WindowState → RateLimiter → RateLimiter
counted_once key w r = record r {
  windows = insert key (record w { count = w.count + 1 }) r.windows;
}

check-counts :
    (key : String) (now : ℕ) (r : RateLimiter) (w : WindowState)
    → lookup key r.windows ≡ some w
    → now < w.window_started_at + r.window_ms
    → w.count < r.max_requests
    → check key now r ≡ (counted_once key w r, record { allowed = true; retry_after_ms = 0 })
unfolding check
check-counts key now r w e h l = ground arith

-- A blocked call changes nothing, and the wait that it reports, which is not 0, ends with the window.
pub check-blocked :
    (key : String) (now : ℕ) (r : RateLimiter) (w : WindowState)
    → lookup key r.windows ≡ some w
    → now < w.window_started_at + r.window_ms
    → r.max_requests ≤ w.count
    → ((check key now r).0 ≡ r)
      × ((check key now r).1.allowed ≡ false)
      × (0 < (check key now r).1.retry_after_ms)
      × (now + (check key now r).1.retry_after_ms ≡ w.window_started_at + r.window_ms)
unfolding check
check-blocked key now r w e h l = ground arith

-- Within one window, a key that has been let through `w.count` times is let through exactly as
-- often as it calls, until the limit is reached; all later calls are blocked.
pub passes-window :
    (key : String) (times : List ℕ) (r : RateLimiter) (w : WindowState)
    → lookup key r.windows ≡ some w
    → All (λ now. now < w.window_started_at + r.window_ms) times
    → passes key times r ≡ min (length times) (r.max_requests - w.count)
unfolding passes
passes-window key [] r w e h = omega arith
passes-window key (now ∷ times) r w e h = elim (Bool-cases (ltb w.count r.max_requests)) [
  | inl below ↦
      let w' : WindowState = record w { count = w.count + 1 } in
      let found = lookup-insert_self key w' r.windows in
      let ih = passes-window key times (counted_once key w r) w' found h.1 in
      rw (check-counts key now r w e h.0 (ground arith), ih) (ground arith)
  | inr full ↦
      let (same, blocked, _, _) = check-blocked key now r w e h.0 (ground arith) in
      let ih = passes-window key times r w e h.1 in rw (same, blocked, ih) (ground arith)
]

check-fresh :
    (key : String) (now : ℕ) (r : RateLimiter)
    → is_over now r.window_ms (lookup key r.windows) ≡ true
    → check key now r ≡ (
      record r { windows = insert key (record { count = 1; window_started_at = now }) r.windows },
      record { allowed = true; retry_after_ms = 0 },
    )
unfolding check
check-fresh key now r e = ground arith

-- A key without a window, or whose window is over, is let through, and a window opens at that call:
-- of all its calls within that window exactly the first `max_requests` pass (the first one even if
-- the limit is 0).
pub passes-fresh :
    (key : String) (now : ℕ) (times : List ℕ) (r : RateLimiter)
    → is_over now r.window_ms (lookup key r.windows) ≡ true
    → All (λ t. t < now + r.window_ms) times
    → passes key (now ∷ times) r ≡ suc (min (length times) (r.max_requests - 1))
unfolding passes
passes-fresh key now times r e h =
    let w : WindowState = record { count = 1; window_started_at = now } in
    let r' : RateLimiter = record r { windows = insert key w r.windows } in
    rw (check-fresh key now r e)
      (ap suc (passes-window key times r' w (lookup-insert_self key w r.windows) h))

-- A key's calls leave every other key's window alone.
pub check-other :
    (key j : String) (now : ℕ) (r : RateLimiter)
    → key ≢ j
    → lookup j (check key now r).0.windows ≡ lookup j r.windows
unfolding check
check-other key j now r h = grind (arith, lookup-insert_ne)
