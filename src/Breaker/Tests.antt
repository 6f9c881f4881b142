-- ===== src/Breaker/Tests.antt =====
-- The theorems on the circuit breaker at concrete entries, with the default configuration.
use aitp_control_plane.Prelude.{
  ◌≡◌, ◌≢◌, refl, true, false, some, none, String, List, [], ◌∷◌, arith, eq_iff,
}
use aitp_control_plane.Breaker.State.{
  Entry, default_config, closed, opened, fresh, attempt, success, failure,
}
use aitp_control_plane.Breaker.Trace.{
  Call, attempted, succeeded, failed, apply, run, Edge, apply-Edge, any_granted, probe_exclusive,
}
use aitp_control_plane.Breaker.Recovery.{probes_at, probes_close}

abbrev tripped : Entry
tripped = record {
  state = opened;
  failures = 5;
  consecutive_successes = 0;
  opened_at = some 1000;
  probe_in_flight = false;
}

abbrev calls : List Call
calls =
    failed 10
    ∷ failed 20
    ∷ failed 30
    ∷ failed 40
    ∷ failed 50
    ∷ attempted 100
    ∷ attempted 60050
    ∷ succeeded
    ∷ []

run-trips :
    (run default_config fresh
      (failed 10 ∷ failed 20 ∷ failed 30 ∷ failed 40 ∷ failed 50 ∷ [])).state
    ≡ opened
unfolding run apply failure
run-trips = refl

run-recovers : run default_config fresh calls ≡ record fresh { consecutive_successes = 1 }
unfolding run apply failure attempt success
run-recovers = refl

apply-Edge_example :
    Edge default_config tripped
      (attempted 61000)
      (apply default_config tripped (attempted 61000)).state
apply-Edge_example = apply-Edge default_config tripped (attempted 61000)

attempt-granted : (attempt default_config 61000 tripped).1 ≡ true
unfolding attempt
attempt-granted = refl

tripped-not_closed : opened ≢ closed
tripped-not_closed e = ground (arith, e)

probe_exclusive_example :
    any_granted default_config (attempt default_config 61000 tripped).0 (61001 ∷ 900000 ∷ [])
    ≡ false
probe_exclusive_example =
    probe_exclusive default_config 61000 tripped (61001 ∷ 900000 ∷ []) tripped-not_closed
      attempt-granted

probes_close_example :
    ((probes_at default_config tripped (61000 ∷ [])).state ≡ closed)
    × ((probes_at default_config tripped (61000 ∷ [])).failures ≡ 0)
    × ((probes_at default_config tripped (61000 ∷ [])).opened_at ≡ none)
probes_close_example =
    probes_close default_config tripped 1000 61000 [] refl refl refl (omega arith) refl

abbrev w1 : String
w1 = "w1"

abbrev w2 : String
w2 = "w2"

names_differ : w2 ≢ w1
names_differ e = ground (arith, (eq_iff w2 w1).1 e)
