-- ===== src/Breaker/Laws.antt =====
-- What holds of a breaker entry between two calls, and what each call does to the others.
use aitp_control_plane.Prelude.{ℕ, ◌<◌, ◌≡◌, false, none, arith, ◌≢◌}
use aitp_control_plane.Breaker.State.{
  Entry, Config, closed, opened, half_open, fresh, attempt, success, failure,
}

pub record IsConfigured (cfg : Config) : Type 0 where
  pub opens_late : 0 < cfg.failure_threshold
  pub closes_late : 0 < cfg.success_threshold_to_close

-- The invariant of an entry.
pub record Inv (cfg : Config) (e : Entry) : Type 0 where
  pub below : e.state ≡ closed → e.failures < cfg.failure_threshold
  pub closed_clean : e.state ≡ closed → (e.opened_at ≡ none) × (e.probe_in_flight ≡ false)
  pub stamped : e.state ≢ closed → e.opened_at ≢ none
  pub open_idle : e.state ≡ opened → (e.probe_in_flight ≡ false) × (e.consecutive_successes ≡ 0)
  pub probing : e.state ≡ half_open → e.consecutive_successes < cfg.success_threshold_to_close

pub fresh-Inv : {cfg : Config} → IsConfigured cfg → Inv cfg fresh
fresh-Inv ok = ground arith

pub attempt-Inv :
    (cfg : Config) (now : ℕ) (e : Entry)
    → IsConfigured cfg
    → Inv cfg e
    → Inv cfg (attempt cfg now e).0
unfolding attempt
attempt-Inv cfg now e ok h = ground arith

pub success-Inv :
    (cfg : Config) (e : Entry) → IsConfigured cfg → Inv cfg e → Inv cfg (success cfg e)
unfolding success
success-Inv cfg e ok h = ground arith

pub failure-Inv :
    (cfg : Config) (now : ℕ) (e : Entry)
    → IsConfigured cfg
    → Inv cfg e
    → Inv cfg (failure cfg now e)
unfolding failure
failure-Inv cfg now e ok h = ground arith
