-- ===== src/RateLimit.antt =====
-- The in-memory fixed-window rate limiter, src/lib/rate-limit.ts. `Date.now()` is the argument
-- `now` in milliseconds; a limit or a remaining count that the source makes infinite is `none`.
pub mod Buckets
pub mod Window
pub mod Quota
pub mod Gc
pub mod Drops
pub mod Events
mod Tests
use Prim.Native.String
use aitp_control_plane.Prelude.{
  ℕ, ◌+◌, Bool, true, Option, none, some, String, leb, ◌==◌, or_else, if◌then◌else◌, [], ◌++◌,
}
use aitp_control_plane.Prelude.Maps.{Map, get, put, delete_where}
use Buckets.{Bucket, Decision, hit, is_stale}

pub record Limiter : Type 0 where
  pub buckets : Map Bucket
  pub drops : Map ℕ

-- `${bucketName}:${key}`
abbrev pub full_key : String → String → String
full_key bucket_name key = String.◌++◌ bucket_name (String.◌++◌ ":" key)

abbrev pub booked : String → Bool → Map ℕ → Map ℕ
booked bucket_name allowed drops =
    if allowed then drops else put bucket_name (or_else (get bucket_name drops) 0 + 1) drops

-- `check`: with a limit of 0 nothing is looked up or booked. (A limit below 0 is as one of 0.)
unfoldable pub check : String → String → ℕ → ℕ → ℕ → Limiter → Limiter × Decision
check bucket_name key limit window now l =
    if limit == 0
    then (l, record { allowed = true; remaining = none; reset_at = 0; limit = limit })
    else let (bucket, decision) = hit limit window now (get (full_key bucket_name key) l.buckets) in
      (
        record {
          buckets = put (full_key bucket_name key) bucket l.buckets;
          drops = booked bucket_name decision.allowed l.drops;
        },
        decision,
      )

unfoldable pub get_drop_totals : Limiter → Map ℕ
get_drop_totals l = l.drops

unfoldable pub gc : ℕ → Limiter → Limiter
gc now l = record l { buckets = delete_where (is_stale now) l.buckets }

unfoldable pub reset : Limiter → Limiter
reset l = record { buckets = []; drops = [] }
