-- ===== src/Ingest/Handler.antt =====
-- The handler of `POST /api/events` (src/app/api/events/route.ts), the part that `withIdempotency`
-- wraps, with `ingestEvents` of src/lib/audit/event-store.ts, `touchLastSeenBatch` of
-- src/lib/registry/store.ts and the counters of src/lib/audit/ingest-metrics.ts.
pub mod Inserts
pub mod Reported
pub mod Projected
pub mod Accounting
pub mod Resend
use aitp_control_plane.Prelude.{
  ℕ, ◌+◌, ◌-◌, Bool, true, false, Option, none, some, String, List, [], ◌∷◌, ◌++◌, ltb, any, length,
  map, str_eq, if◌then◌else◌,
}
use aitp_control_plane.Prelude.Tables.{select_where, update_where}
use aitp_control_plane.Json.{Json, Fields, end, as_object}
use aitp_control_plane.Uuid.{Uuid, uuid_eq}
use aitp_control_plane.Webhooks.Rows.{AuditEvent, Webhook, Delivery}
use aitp_control_plane.Webhooks.Signing.{Crypto}
use aitp_control_plane.Webhooks.Dispatch.{dispatch_with_list}
use aitp_control_plane.Events.{EventBus, publish}
use aitp_control_plane.Sessions.{Session}
use aitp_control_plane.Sessions
use aitp_control_plane.Tcts.Store.{Store, Report, Monitor}
use aitp_control_plane.Tcts.Revoke
use aitp_control_plane.Ingest.Batch.{
  Runtime, Request, max_batch_events, raw_events, Candidate, candidates, oversized, ItemError,
  Sorted, sort_items, nothing_sorted, has_id, unique_from,
}

-- The columns of `agents` that are touched.
pub record SeenAgent : Type 0 where
  pub aid : String
  pub last_seen_at : Option String

-- The tables and the memory that the handler writes.
pub record Plane : Type 0 where
  pub audit_events : List AuditEvent
  pub agents : List SeenAgent
  pub sessions : List Session
  pub tokens : Store
  pub bus : EventBus
  pub deliveries : List Delivery
  pub events_dropped_total : ℕ
  pub events_duplicate_total : ℕ

-- What the handler's calls depend on: the clocks, the ids of the deliveries of an event, and the
-- active webhooks, which are none when they cannot be listed.
pub record Calls : Type 0 where
  pub monitor : Monitor
  pub crypto : Crypto
  pub now_ms : ℕ
  pub stored : ℕ
  pub delivery_ids : AuditEvent → List String
  pub active_webhooks : List Webhook

-- `insert … on conflict do nothing returning id`, row by row: the table and the ids.
unfoldable pub ingest_events : List AuditEvent → List AuditEvent → List AuditEvent × List Uuid
ingest_events [] rows = (rows, [])
ingest_events (e ∷ es) rows =
    let (later, ids) = ingest_events es (rows ++ e ∷ []) in
    let unchanged = ingest_events es rows in
    if has_id e.id rows then unchanged else (later, e.id ∷ ids)

abbrev pub is_inserted : List Uuid → AuditEvent → Bool
is_inserted ids e = any (λ id. uuid_eq id e.id) ids

-- `seenAids`, as far as a test of an agent goes.
abbrev names_aid : String → Option String → Bool
names_aid aid none = false
names_aid aid (some s) = if str_eq s "" then false else str_eq s aid

abbrev pub is_seen : List AuditEvent → SeenAgent → Bool
is_seen events a =
    any (λ e. if names_aid a.aid e.aid_a then true else names_aid a.aid e.aid_b) events

unfoldable pub touch_last_seen : String → List AuditEvent → List SeenAgent → List SeenAgent
touch_last_seen now events agents =
    update_where (is_seen events) (λ a. record a { last_seen_at = some now }) agents

-- What the monitor of tokens reads of an event.
abbrev fields_of : Option Fields → Fields
fields_of none = end
fields_of (some fs) = fs

abbrev pub report_of : AuditEvent → Report
report_of e = record {
  type = e.type;
  ts = e.ts;
  session_id = e.session_id;
  payload = fields_of (as_object e.payload);
}

-- The body of the loop over `unique`.
abbrev pub project_event : Calls → String → List Uuid → AuditEvent → Plane → Plane
project_event calls now inserted e p = record p {
  bus = if is_inserted inserted e then (publish e p.bus).0 else p.bus;
  sessions = Sessions.on_event now e p.sessions;
  tokens = Revoke.on_event calls.monitor (report_of e) p.tokens;
}

unfoldable pub project_events : Calls → String → List Uuid → List AuditEvent → Plane → Plane
project_events calls now inserted [] p = p
project_events calls now inserted (e ∷ es) p =
    project_events calls now inserted es (project_event calls now inserted e p)

-- The rows that the fan-out of the new events adds.
unfoldable pub fan_out : Calls → List AuditEvent → List Delivery
fan_out calls [] = []
fan_out calls (e ∷ es) =
    dispatch_with_list calls.crypto calls.now_ms calls.stored (calls.delivery_ids e) e
      calls.active_webhooks
    ++ fan_out calls es

pub record Ingested : Type 0 where
  pub ingested : ℕ
  pub dropped : ℕ
  pub errors : List ItemError
  pub inserted : ℕ
  pub duplicates : ℕ

pub data Answer : Type 0 where
  body_invalid : Answer
  too_many_events : ℕ → Answer
  payload_too_large : ℕ → String → Answer
  ok : Ingested → Answer

-- `new Set(ids).size`
unfoldable pub distinct_ids : List Uuid → List Uuid
distinct_ids [] = []
distinct_ids (id ∷ ids) =
    let rest = distinct_ids ids in if any (λ j. uuid_eq j id) ids then rest else id ∷ rest

-- From `ingestEvents` on. There are no fewer normalized events than inserted ones.
abbrev pub store_items :
    Calls → String → Sorted → List AuditEvent → List AuditEvent → List Uuid → Plane → Plane × Answer
store_items calls now s unique rows ids p =
    let inserted = length (distinct_ids ids) in
    let duplicates = length s.normalized - inserted in
    let touched : Plane = record p {
      audit_events = rows;
      agents = touch_last_seen now unique p.agents;
      events_dropped_total = p.events_dropped_total + s.dropped;
      events_duplicate_total = p.events_duplicate_total + duplicates;
    } in
    let projected = project_events calls now ids unique touched in
    (
      record projected {
        deliveries = projected.deliveries ++ fan_out calls (select_where (is_inserted ids) unique);
      },
      ok (record {
        ingested = length s.normalized;
        dropped = s.dropped;
        errors = s.errors;
        inserted = inserted;
        duplicates = duplicates;
      }),
    )

abbrev pub store_sorted : Calls → String → Sorted → Plane → Plane × Answer
store_sorted calls now s p =
    let unique = unique_from [] s.normalized in
    let (rows, ids) = ingest_events unique p.audit_events in
    store_items calls now s unique rows ids p

abbrev pub handle_sized :
    Runtime → Calls → Request → List Candidate → Option (ℕ × String) → Plane → Plane × Answer
handle_sized run calls req cs (some (size, type)) p = (p, payload_too_large size type)
handle_sized run calls req cs none p =
    store_sorted calls req.now (sort_items run req cs nothing_sorted) p

abbrev pub handle_events : Runtime → Calls → Request → Option (List Json) → Plane → Plane × Answer
handle_events run calls req none p = (p, body_invalid)
handle_events run calls req (some es) p =
    let cs = candidates run req.now 0 es in
    let answer = handle_sized run calls req cs (oversized run cs) p in
    if ltb max_batch_events (length es) then (p, too_many_events (length es)) else answer

unfoldable pub post_events : Runtime → Calls → Request → Plane → Plane × Answer
post_events run calls req p = handle_events run calls req (raw_events req.body) p
