-- ===== src/Breaker/Store.antt =====
-- The calls of the class of src/lib/webhooks/circuit-breaker.ts on the map of several entries.
use aitp_control_plane.Prelude.{ℕ, ◌≡◌, ◌≢◌, String, str_eq, arith, eq_iff, if◌then◌else◌}
use aitp_control_plane.Prelude.Maps.{Map, put, get-put}
use aitp_control_plane.Breaker.{
  entry, should_attempt, record_success, record_failure, reset, get_snapshot,
}
use aitp_control_plane.Breaker.State.{Entry, Config, fresh, attempt, success, failure}

-- The calls of the class, each with what its entry becomes.
pub data Method : Type 0 where
  should_attempt_at : ℕ → Method
  record_success_at : Method
  record_failure_at : ℕ → Method
  reset_at : Method
  get_snapshot_at : Method

unfoldable pub call : Config → Method → String → Map Entry → Map Entry
call cfg (should_attempt_at now) id states = (should_attempt cfg now id states).0
call cfg record_success_at id states = record_success cfg id states
call cfg (record_failure_at now) id states = record_failure cfg now id states
call cfg reset_at id states = reset id states
call cfg get_snapshot_at id states = (get_snapshot cfg id states).0

unfoldable pub transition : Config → Method → Entry → Entry
transition cfg (should_attempt_at now) e = (attempt cfg now e).0
transition cfg record_success_at e = success cfg e
transition cfg (record_failure_at now) e = failure cfg now e
transition cfg reset_at e = fresh
transition cfg get_snapshot_at e = e

entry-put :
    (j k : String) (e : Entry) (states : Map Entry)
    → entry j (put k e states) ≡ (if str_eq k j then e else entry j states)
unfolding entry
entry-put j k e states = rw get-put (ground arith)

pub entry-call :
    (cfg : Config) (m : Method) (j k : String) (states : Map Entry)
    → entry j (call cfg m k states)
      ≡ (if str_eq k j then transition cfg m (entry k states) else entry j states)
unfolding call transition should_attempt record_success record_failure reset get_snapshot
entry-call cfg (should_attempt_at now) j k states = entry-put j k _ states
entry-call cfg record_success_at j k states = entry-put j k _ states
entry-call cfg (record_failure_at now) j k states = entry-put j k _ states
entry-call cfg reset_at j k states = entry-put j k _ states
entry-call cfg get_snapshot_at j k states = entry-put j k _ states

-- Every method of the class makes its transition on the webhook it is called for, and changes no
-- other webhook's entry.
call_isolated :
    (cfg : Config) (m : Method) (k j : String) (states : Map Entry)
    → k ≢ j
    → (entry k (call cfg m k states) ≡ transition cfg m (entry k states))
      × (entry j (call cfg m k states) ≡ entry j states)
call_isolated cfg m k j states h =
    ground (arith, entry-call cfg m k k states, entry-call cfg m j k states, eq_iff k k, eq_iff k j)
