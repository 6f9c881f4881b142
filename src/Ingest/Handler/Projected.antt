-- ===== src/Ingest/Handler/Projected.antt =====
-- What the loop of `POST /api/events` (src/app/api/events/route.ts) over the events of a batch does
-- to the parts of the plane.
use aitp_control_plane.Prelude.{◌≡◌, refl, ◌∙◌, String, List, [], ◌∷◌, Bool-cases, inl, inr}
use aitp_control_plane.Prelude.Tables.{select_where}
use aitp_control_plane.Uuid.{Uuid}
use aitp_control_plane.Webhooks.Rows.{AuditEvent}
use aitp_control_plane.Events.{EventBus, publish}
use aitp_control_plane.Ingest.Handler.{Plane, Calls, is_inserted, project_event, project_events}
use aitp_control_plane.Ingest.Handler.Reported.{sessions_after, tokens_after}

-- The bus after several publications.
abbrev pub publish_all : List AuditEvent → EventBus → EventBus
publish_all [] bus = bus
publish_all (e ∷ es) bus = publish_all es (publish e bus).0

-- What the loop over the events leaves alone, and what it publishes.
pub project_events-audit :
    (calls : Calls) (now : String) (ids : List Uuid) (es : List AuditEvent) (p : Plane)
    → (project_events calls now ids es p).audit_events ≡ p.audit_events
unfolding project_events
project_events-audit calls now ids [] p = refl
project_events-audit calls now ids (e ∷ es) p =
    project_events-audit calls now ids es (project_event calls now ids e p)

pub project_events-deliveries :
    (calls : Calls) (now : String) (ids : List Uuid) (es : List AuditEvent) (p : Plane)
    → (project_events calls now ids es p).deliveries ≡ p.deliveries
unfolding project_events
project_events-deliveries calls now ids [] p = refl
project_events-deliveries calls now ids (e ∷ es) p =
    project_events-deliveries calls now ids es (project_event calls now ids e p)

pub project_events-dropped :
    (calls : Calls) (now : String) (ids : List Uuid) (es : List AuditEvent) (p : Plane)
    → (project_events calls now ids es p).events_dropped_total ≡ p.events_dropped_total
unfolding project_events
project_events-dropped calls now ids [] p = refl
project_events-dropped calls now ids (e ∷ es) p =
    project_events-dropped calls now ids es (project_event calls now ids e p)

pub project_events-duplicate :
    (calls : Calls) (now : String) (ids : List Uuid) (es : List AuditEvent) (p : Plane)
    → (project_events calls now ids es p).events_duplicate_total ≡ p.events_duplicate_total
unfolding project_events
project_events-duplicate calls now ids [] p = refl
project_events-duplicate calls now ids (e ∷ es) p =
    project_events-duplicate calls now ids es (project_event calls now ids e p)

pub project_events-bus :
    (calls : Calls) (now : String) (ids : List Uuid) (es : List AuditEvent) (p : Plane)
    → (project_events calls now ids es p).bus
      ≡ publish_all (select_where (is_inserted ids) es) p.bus
unfolding project_events select_where
project_events-bus calls now ids [] p = refl
project_events-bus calls now ids (e ∷ es) p = elim (Bool-cases (is_inserted ids e)) [
  | inl new ↦ project_events-bus calls now ids es (project_event calls now ids e p) ∙ rw new refl
  | inr old ↦ project_events-bus calls now ids es (project_event calls now ids e p) ∙ rw old refl
]

pub project_events-agents :
    (calls : Calls) (now : String) (ids : List Uuid) (es : List AuditEvent) (p : Plane)
    → (project_events calls now ids es p).agents ≡ p.agents
unfolding project_events
project_events-agents calls now ids [] p = refl
project_events-agents calls now ids (e ∷ es) p =
    project_events-agents calls now ids es (project_event calls now ids e p)

pub project_events-sessions :
    (calls : Calls) (now : String) (ids : List Uuid) (es : List AuditEvent) (p : Plane)
    → (project_events calls now ids es p).sessions ≡ sessions_after now es p.sessions
unfolding project_events sessions_after
project_events-sessions calls now ids [] p = refl
project_events-sessions calls now ids (e ∷ es) p =
    project_events-sessions calls now ids es (project_event calls now ids e p)

pub project_events-tokens :
    (calls : Calls) (now : String) (ids : List Uuid) (es : List AuditEvent) (p : Plane)
    → (project_events calls now ids es p).tokens ≡ tokens_after calls.monitor es p.tokens
unfolding project_events tokens_after
project_events-tokens calls now ids [] p = refl
project_events-tokens calls now ids (e ∷ es) p =
    project_events-tokens calls now ids es (project_event calls now ids e p)
