-- ===== src/RateLimit/Window.antt =====
-- How many requests one bucket lets through: the requests that a window's length of time can still
-- see allowed fall by one with each that is.
use aitp_control_plane.Prelude.{
  ℕ, ◌+◌, ◌-◌, ◌≤◌, ◌<◌, Option, none, some, arith, leb, if◌then◌else◌,
}
use aitp_control_plane.RateLimit.Buckets.{Bucket, is_stale, hit}
use aitp_control_plane.Prelude.Maps.{unless}

-- What a bucket can still let through before the time `end`: a bucket whose window lasts that
-- long has its own remainder, and an older one can be followed by one more full window.
abbrev pub budget : ℕ → ℕ → Option Bucket → ℕ
budget limit end none = limit
budget limit end (some b) = if leb end b.reset_at then limit - b.count else limit - b.count + limit

pub budget-hit :
    (limit window start now : ℕ) (found : Option Bucket)
    → 0 < limit
    → start ≤ now
    → now < start + window
    → (if (hit limit window now found).1.allowed then 1 else 0)
        + budget limit (start + window) (some (hit limit window now found).0)
      ≤ budget limit (start + window) found
unfolding hit
budget-hit limit window start now found h k j = ground arith

pub budget-collect :
    (limit end now : ℕ) (found : Option Bucket)
    → now < end
    → budget limit end (unless (is_stale now) found) ≤ budget limit end found
budget-collect limit end now found h = ground arith
