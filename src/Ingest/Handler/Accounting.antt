-- ===== src/Ingest/Handler/Accounting.antt =====
-- What a batch of `POST /api/events` (src/app/api/events/route.ts) adds to the tables and to the
-- bus, and the numbers that the answer gives.
use aitp_control_plane.Prelude.{
  ℕ, ◌≡◌, ◌+◌, min, refl, Option, none, some, String, List, [], ◌++◌, length,
}
use aitp_control_plane.Json.{Json}
use aitp_control_plane.Webhooks.Rows.{AuditEvent}
use aitp_control_plane.Ingest.Batch.{
  Runtime, max_reported_errors, Candidate, candidates, Sorted, unique_from,
}
use aitp_control_plane.Ingest.Handler.{
  Plane, Calls, touch_last_seen, fan_out, Ingested, Answer, ok, store_items, store_sorted,
}
use aitp_control_plane.Ingest.Handler.Reported.{reported, news, sessions_after, tokens_after}
use aitp_control_plane.Ingest.Handler.Projected.{publish_all}
use aitp_control_plane.Ingest.Handler.Inserts.{
  HasDistinctIds, ids_of, fresh, unique_from-HasDistinctIds, ingest_events-fresh,
}

-- Every candidate is kept or dropped, and the first drops are reported.
record IsSorted (n : ℕ) (s : Sorted) : Type 0 where
  pub all_counted : length s.normalized + s.dropped ≡ n
  pub reported : length s.errors ≡ min max_reported_errors s.dropped

-- An accepted batch of `n` candidates, of which `m` are kept, with `events` once each and `new` that
-- no row holds yet: the new events, and they alone, are stored, published and fanned out; all of
-- them reach the monitors and the agents that they name; and the answer and the counters account
-- for every candidate.
pub record IsAccounted (calls : Calls) (now : String) (n m : ℕ) (events new : List AuditEvent)
    (p p' : Plane) (a : Ingested) : Type 0 where
  pub stored : p'.audit_events ≡ p.audit_events ++ new
  pub distinct : HasDistinctIds p'.audit_events
  pub published : p'.bus ≡ publish_all new p.bus
  pub enqueued : p'.deliveries ≡ p.deliveries ++ fan_out calls new
  pub sessions : p'.sessions ≡ sessions_after now events p.sessions
  pub tokens : p'.tokens ≡ tokens_after calls.monitor events p.tokens
  pub agents : p'.agents ≡ touch_last_seen now events p.agents
  pub inserted : a.inserted ≡ length new
  pub duplicates : a.inserted + a.duplicates ≡ a.ingested
  pub ingested : a.ingested ≡ m
  pub candidates : a.ingested + a.dropped ≡ n
  pub errors : length a.errors ≡ min max_reported_errors a.dropped
  pub dropped_total : p'.events_dropped_total ≡ p.events_dropped_total + a.dropped
  pub duplicate_total : p'.events_duplicate_total ≡ p.events_duplicate_total + a.duplicates

abbrev IsStored :
    Calls → String → ℕ → ℕ → List AuditEvent → List AuditEvent → Plane → Plane × Answer → Type 0
IsStored calls now n m events new p (p', ok a) = IsAccounted calls now n m events new p p' a
IsStored calls now n m events new p (p', _) = p' ≡ p

-- The same with the events that the items of the batch report.
abbrev pub IsAnswered : Calls → String → ℕ → List AuditEvent → Plane → Plane × Answer → Type 0
IsAnswered calls now n es p r =
    IsStored calls now n (length es) (news [] es) (news p.audit_events es) p r

pub store_sorted-fresh :
    (calls : Calls) (now : String) (s : Sorted) (p : Plane)
    → store_sorted calls now s p
      ≡ store_items calls now s
          (unique_from [] s.normalized)
          (p.audit_events ++ fresh p.audit_events (unique_from [] s.normalized))
          (ids_of (fresh p.audit_events (unique_from [] s.normalized)))
          p
store_sorted-fresh calls now s p =
    let distinct = unique_from-HasDistinctIds [] s.normalized tt in
    rw (ingest_events-fresh (unique_from [] s.normalized) p.audit_events distinct) refl

module _ (calls : Calls) (now : String) (n : ℕ) (s : Sorted) (p : Plane) where
  unique : List AuditEvent
  unique = unique_from [] s.normalized

  new_events : List AuditEvent
  new_events = fresh p.audit_events unique

-- The candidates of a body.
abbrev pub candidates_of : Runtime → String → Option (List Json) → List Candidate
candidates_of run now none = []
candidates_of run now (some es) = candidates run now 0 es
