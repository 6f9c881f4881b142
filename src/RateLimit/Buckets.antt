-- ===== src/RateLimit/Buckets.antt =====
-- One bucket of the rate limiter and one request against it: the part of `check` in
-- src/lib/rate-limit.ts between the look-up of the bucket and the answer.
use aitp_control_plane.Prelude.{
  ℕ, ◌+◌, ◌-◌, Bool, true, false, Option, none, some, leb, if◌then◌else◌,
}

pub record Bucket : Type 0 where
  pub count : ℕ
  pub reset_at : ℕ

pub record Decision : Type 0 where
  pub allowed : Bool
  pub remaining : Option ℕ
  pub reset_at : ℕ
  pub limit : ℕ

abbrev pub is_stale : ℕ → Bucket → Bool
is_stale now b = leb b.reset_at now

-- `if (!bucket || bucket.resetAt <= now) bucket = { count: 0, resetAt: now + windowMs }`
unfoldable pub current : ℕ → ℕ → Option Bucket → Bucket
current window now none = record { count = 0; reset_at = now + window }
current window now (some b) =
    if is_stale now b then (record { count = 0; reset_at = now + window }) else b

unfoldable pub admit : ℕ → Bucket → Bucket × Decision
admit limit b =
    if leb limit b.count
    then (b, record { allowed = false; remaining = some 0; reset_at = b.reset_at; limit = limit })
    else (
      record b { count = b.count + 1 },
      record {
        allowed = true;
        remaining = some (limit - (b.count + 1));
        reset_at = b.reset_at;
        limit = limit;
      },
    )

unfoldable pub hit : ℕ → ℕ → ℕ → Option Bucket → Bucket × Decision
unfolding current admit
hit limit window now found = admit limit (current window now found)
