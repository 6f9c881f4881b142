-- ===== src/Breaker/Recovery.antt =====
-- When a breaker opens, when an open one lets a probe through, and how it closes again.
use aitp_control_plane.Prelude.{
  ℕ, ◌+◌, ◌≤◌, ◌<◌, ◌≡◌, ◌↔◌, true, false, none, some, List, [], ◌∷◌, arith, length,
}
use aitp_control_plane.Breaker.State.{
  Entry, Config, closed, opened, half_open, attempt, success, failure,
}

-- Failures at the given times, one after the other.
unfoldable pub failures_at : Config → Entry → List ℕ → Entry
failures_at cfg e [] = e
failures_at cfg e (t ∷ ts) = failures_at cfg (failure cfg t e) ts

failure_below :
    (cfg : Config) (t : ℕ) (e : Entry)
    → e.state ≡ closed
    → e.failures + 1 < cfg.failure_threshold
    → ((failure cfg t e).state ≡ closed) × ((failure cfg t e).failures ≡ e.failures + 1)
unfolding failure
failure_below cfg t e s h = ground arith

failure_last :
    (cfg : Config) (t : ℕ) (e : Entry)
    → e.state ≡ closed
    → e.failures + 1 ≡ cfg.failure_threshold
    → ((failure cfg t e).state ≡ opened) × ((failure cfg t e).opened_at ≡ some t)
unfolding failure
failure_last cfg t e s h = ground arith

failures_at_below :
    (cfg : Config) (e : Entry) (ts : List ℕ)
    → e.state ≡ closed
    → e.failures + length ts < cfg.failure_threshold
    → ((failures_at cfg e ts).state ≡ closed)
      × ((failures_at cfg e ts).failures ≡ e.failures + length ts)
unfolding failures_at
failures_at_below cfg e [] s h = (s, omega arith)
failures_at_below cfg e (t ∷ ts) s h =
    let (s', n) = failure_below cfg t e s (omega arith) in
    let (s'', n') = failures_at_below cfg (failure cfg t e) ts s' (omega arith) in
    (s'', omega arith)

-- A closed breaker stays closed up to the failure before the threshold, and opens at the failure
-- that reaches it, stamped with that failure's time.
opens_at_threshold :
    (cfg : Config) (e : Entry) (ts : List ℕ) (t : ℕ)
    → e.state ≡ closed
    → e.failures + length ts + 1 ≡ cfg.failure_threshold
    → ((failures_at cfg e ts).state ≡ closed)
      × ((failure cfg t (failures_at cfg e ts)).state ≡ opened)
      × ((failure cfg t (failures_at cfg e ts)).opened_at ≡ some t)
opens_at_threshold cfg e ts t s h =
    let (s', n) = failures_at_below cfg e ts s (omega arith) in
    let (o, stamp) = failure_last cfg t (failures_at cfg e ts) s' (omega arith) in (s', o, stamp)

-- An open breaker grants an attempt exactly when the reset timeout has passed since it opened,
-- and a refused attempt leaves it unchanged.
open_grants_iff :
    (cfg : Config) (e : Entry) (t now : ℕ)
    → e.state ≡ opened
    → e.opened_at ≡ some t
    → (((attempt cfg now e).1 ≡ true) ↔ (t + cfg.reset_timeout_ms ≤ now))
      × (((attempt cfg now e).1 ≡ false) ↔ (attempt cfg now e ≡ (e, false)))
unfolding attempt
open_grants_iff cfg e t now s o = ground arith

-- Probes at the given times, each of which succeeds.
unfoldable pub probes_at : Config → Entry → List ℕ → Entry
probes_at cfg e [] = e
probes_at cfg e (t ∷ ts) = probes_at cfg (success cfg (attempt cfg t e).0) ts

abbrev IsIdleProbing : Entry → ℕ → Type 0
IsIdleProbing e n =
    (e.state ≡ half_open) × (e.probe_in_flight ≡ false) × (e.consecutive_successes ≡ n)

abbrev IsRecovered : Entry → Type 0
IsRecovered e = (e.state ≡ closed) × (e.failures ≡ 0) × (e.opened_at ≡ none)

probe_more :
    (cfg : Config) (t n : ℕ) (e : Entry)
    → IsIdleProbing e n
    → n + 1 < cfg.success_threshold_to_close
    → IsIdleProbing (success cfg (attempt cfg t e).0) (n + 1)
unfolding attempt success
probe_more cfg t n e h k = ground arith

probe_last :
    (cfg : Config) (t n : ℕ) (e : Entry)
    → IsIdleProbing e n
    → n + 1 ≡ cfg.success_threshold_to_close
    → IsRecovered (success cfg (attempt cfg t e).0)
unfolding attempt success
probe_last cfg t n e h k = ground arith

probe_first :
    (cfg : Config) (t now : ℕ) (e : Entry)
    → e.state ≡ opened
    → e.opened_at ≡ some t
    → e.consecutive_successes ≡ 0
    → t + cfg.reset_timeout_ms ≤ now
    → 1 < cfg.success_threshold_to_close
    → IsIdleProbing (success cfg (attempt cfg now e).0) 1
unfolding attempt success
probe_first cfg t now e s o c h k = ground arith

probe_only :
    (cfg : Config) (t now : ℕ) (e : Entry)
    → e.state ≡ opened
    → e.opened_at ≡ some t
    → e.consecutive_successes ≡ 0
    → t + cfg.reset_timeout_ms ≤ now
    → 1 ≡ cfg.success_threshold_to_close
    → IsRecovered (success cfg (attempt cfg now e).0)
unfolding attempt success
probe_only cfg t now e s o c h k = ground arith

probes_at_idle :
    (cfg : Config) (e : Entry) (n t : ℕ) (ts : List ℕ)
    → IsIdleProbing e n
    → n + length (t ∷ ts) ≡ cfg.success_threshold_to_close
    → IsRecovered (probes_at cfg e (t ∷ ts))
unfolding probes_at
probes_at_idle cfg e n t [] h k = probe_last cfg t n e h (omega arith)
probes_at_idle cfg e n t (t' ∷ ts) h k =
    probes_at_idle cfg (success cfg (attempt cfg t e).0) (n + 1) t' ts
      (probe_more cfg t n e h (omega arith)) (omega arith)

-- An open breaker whose reset timeout has passed, with no successful probe counted yet, closes after
-- as many successful probes as the configuration asks for, with its failures cleared.
pub probes_close :
    (cfg : Config) (e : Entry) (t now : ℕ) (ts : List ℕ)
    → e.state ≡ opened
    → e.opened_at ≡ some t
    → e.consecutive_successes ≡ 0
    → t + cfg.reset_timeout_ms ≤ now
    → length (now ∷ ts) ≡ cfg.success_threshold_to_close
    → ((probes_at cfg e (now ∷ ts)).state ≡ closed)
      × ((probes_at cfg e (now ∷ ts)).failures ≡ 0)
      × ((probes_at cfg e (now ∷ ts)).opened_at ≡ none)
unfolding probes_at
probes_close cfg e t now [] s o c h k = probe_only cfg t now e s o c h (omega arith)
probes_close cfg e t now (t' ∷ ts) s o c h k =
    probes_at_idle cfg (success cfg (attempt cfg now e).0) 1 t' ts
      (probe_first cfg t now e s o c h (omega arith)) (omega arith)
