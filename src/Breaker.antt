-- ===== src/Breaker.antt =====
-- The per-webhook circuit breaker, src/lib/webhooks/circuit-breaker.ts. An entry's methods take
-- the entry that `entry` finds and return the new one; the methods of the class look it up in the
-- `states` map and write it back. `Date.now()` is the argument `now`, in milliseconds.
pub mod State
pub mod Laws
pub mod Trace
pub mod Recovery
pub mod Store
mod Tests
use aitp_control_plane.Prelude.{ℕ, ◌+◌, Bool, true, false, Option, none, some, String, or_else}
use aitp_control_plane.Prelude.Maps.{Map, get, put}
use State.{Entry, Config, BreakerState, opened, fresh, attempt, success, failure}

pub record Snapshot : Type 0 where
  pub state : BreakerState
  pub failures : ℕ
  pub consecutive_successes : ℕ
  pub opened_at : Option ℕ
  pub next_probe_at : Option ℕ

-- `entry`: the entry of a webhook, a fresh one where the map has none. (The method also stores
-- the fresh one, as every caller below does by writing the entry back.)
unfoldable pub entry : String → Map Entry → Entry
entry id states = or_else (get id states) fresh

unfoldable pub should_attempt : Config → ℕ → String → Map Entry → Map Entry × Bool
should_attempt cfg now id states =
    let (e, granted) = attempt cfg now (entry id states) in (put id e states, granted)

unfoldable pub record_success : Config → String → Map Entry → Map Entry
record_success cfg id states = put id (success cfg (entry id states)) states

unfoldable pub record_failure : Config → ℕ → String → Map Entry → Map Entry
record_failure cfg now id states = put id (failure cfg now (entry id states)) states

unfoldable pub reset : String → Map Entry → Map Entry
reset id states = put id fresh states

-- `nextProbeAt`: only an open entry has one.
abbrev pub next_probe : Config → BreakerState → Option ℕ → Option ℕ
next_probe cfg opened (some t) = some (t + cfg.reset_timeout_ms)
next_probe cfg _ _ = none

abbrev pub snapshot_of : Config → Entry → Snapshot
snapshot_of cfg e = record {
  state = e.state;
  failures = e.failures;
  consecutive_successes = e.consecutive_successes;
  opened_at = e.opened_at;
  next_probe_at = next_probe cfg e.state e.opened_at;
}

unfoldable pub get_snapshot : Config → String → Map Entry → Map Entry × Snapshot
get_snapshot cfg id states = let e = entry id states in (put id e states, snapshot_of cfg e)
