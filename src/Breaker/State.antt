-- ===== src/Breaker/State.antt =====
-- One breaker entry and its transitions: the bodies of `shouldAttempt`, `recordSuccess`,
-- `recordFailure` and `reset` of src/lib/webhooks/circuit-breaker.ts.
use aitp_control_plane.Prelude.{ℕ, ◌+◌, Bool, true, false, Option, none, some, leb, if◌then◌else◌}

pub data BreakerState : Type 0 where
  closed opened half_open : BreakerState

pub record Config : Type 0 where
  pub failure_threshold : ℕ
  pub reset_timeout_ms : ℕ
  pub success_threshold_to_close : ℕ

abbrev pub default_config : Config
default_config = record {
  failure_threshold = 5;
  reset_timeout_ms = 60000;
  success_threshold_to_close = 1;
}

pub record Entry : Type 0 where
  pub state : BreakerState
  pub failures : ℕ
  pub consecutive_successes : ℕ
  pub opened_at : Option ℕ
  pub probe_in_flight : Bool

abbrev pub fresh : Entry
fresh = record {
  state = closed;
  failures = 0;
  consecutive_successes = 0;
  opened_at = none;
  probe_in_flight = false;
}

-- `e.openedAt !== null && Date.now() - e.openedAt >= resetTimeoutMs`, over the integers.
abbrev pub timer_elapsed : Config → ℕ → Option ℕ → Bool
timer_elapsed cfg now none = false
timer_elapsed cfg now (some t) = leb (t + cfg.reset_timeout_ms) now

attempt_in : BreakerState → Config → ℕ → Entry → Entry × Bool
attempt_in closed cfg now e = (e, true)
attempt_in opened cfg now e =
    if timer_elapsed cfg now e.opened_at
    then (record e { state = half_open; probe_in_flight = true }, true)
    else (e, false)
attempt_in half_open cfg now e =
    if e.probe_in_flight then (e, false) else (record e { probe_in_flight = true }, true)

unfoldable pub attempt : Config → ℕ → Entry → Entry × Bool
unfolding attempt_in
attempt cfg now e = attempt_in e.state cfg now e

success_in : BreakerState → Config → Entry → Entry
success_in half_open cfg e =
    let n = e.consecutive_successes + 1 in
    if leb cfg.success_threshold_to_close n
    then (record e {
      state = closed;
      failures = 0;
      consecutive_successes = n;
      opened_at = none;
      probe_in_flight = false;
    })
    else (record e { consecutive_successes = n; probe_in_flight = false })
success_in _ cfg e = record e { failures = 0; consecutive_successes = 0; probe_in_flight = false }

unfoldable pub success : Config → Entry → Entry
unfolding success_in
success cfg e = success_in e.state cfg e

failure_in : BreakerState → Config → ℕ → Entry → Entry
failure_in closed cfg now e =
    if leb cfg.failure_threshold e.failures
    then (record e { state = opened; opened_at = some now })
    else e
failure_in half_open cfg now e = record e { state = opened; opened_at = some now }
failure_in opened cfg now e = e

unfoldable pub failure : Config → ℕ → Entry → Entry
unfolding failure_in
failure cfg now e =
    failure_in e.state cfg now
      (record e { failures = e.failures + 1; consecutive_successes = 0; probe_in_flight = false })
