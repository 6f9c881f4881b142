-- ===== src/Sessions/Tests.antt =====
-- The theorems on sessions at concrete events.
use aitp_control_plane.Prelude.{◌≡◌, refl, none, some, String, [], ◌∷◌}
use aitp_control_plane.Webhooks.Rows.{AuditEvent}
use aitp_control_plane.Webhooks.Samples.{event}
use aitp_control_plane.Sessions.{Session}
use aitp_control_plane.Sessions.Laws.{status_of}
use aitp_control_plane.Sessions.Trace.{on_events, status_after, status-on_events, resent_complete}

abbrev handshake : String → AuditEvent
handshake type = record event { type = type; session_id = some "s1" }

abbrev row : Session
row = record {
  session_id = "s1";
  aid_a = none;
  aid_b = none;
  status = "started";
  grants = [];
  run_id = none;
  boundary = none;
  error = none;
  started_at = none;
  completed_at = none;
  created_at = "t0";
  updated_at = "t0";
}

status-on_events_example :
    status_of "s1" (
      on_events
        (("t1", handshake "handshake.started") ∷ ("t2", handshake "handshake.failed") ∷ [])
        [])
    ≡ status_after "s1"
        (("t1", handshake "handshake.started") ∷ ("t2", handshake "handshake.failed") ∷ [])
        (status_of "s1" [])
status-on_events_example =
    status-on_events "s1"
      (("t1", handshake "handshake.started") ∷ ("t2", handshake "handshake.failed") ∷ []) [] refl

resent_complete_example :
    (status_of "s1" (
        on_events
          (("t1", handshake "handshake.complete") ∷ ("t2", handshake "handshake.failed") ∷ [])
          (row ∷ []))
      ≡ some "failed")
    × (status_of "s1" (
          on_events
            (("t1", handshake "handshake.complete")
              ∷ ("t2", handshake "handshake.failed")
              ∷ ("t3", handshake "handshake.complete")
              ∷ [])
            (row ∷ []))
        ≡ some "complete")
resent_complete_example =
    resent_complete "s1" "t1" "t2" "t3" "started" (handshake "handshake.complete")
      (handshake "handshake.failed") (row ∷ []) refl (unfold status_of in refl) refl refl refl refl
