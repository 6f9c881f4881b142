-- ===== src/Webhooks/Rows.antt =====
-- The rows of the tables `webhooks` and `webhook_deliveries` (src/lib/db/schema.ts) and the audit
-- event they are made from (src/lib/audit/stream.ts). A timestamp of a row is a number of
-- milliseconds, that of an event its ISO text.
use aitp_control_plane.Prelude.{ℕ, Bool, true, false, Option, String, List}
use aitp_control_plane.Json.{Json}
use aitp_control_plane.Uuid.{Uuid}

pub record Webhook : Type 0 where
  pub id : String
  pub url : String
  pub events : List String
  pub secret : String
  pub active : Bool
  pub updated_at : ℕ

pub data Status : Type 0 where
  pending delivered failed : Status

abbrev pub is_pending : Status → Bool
is_pending pending = true
is_pending _ = false

abbrev pub is_delivered : Status → Bool
is_delivered delivered = true
is_delivered _ = false

pub record AuditEvent : Type 0 where
  pub id : Uuid
  pub type : String
  pub ts : String
  pub aid_a : Option String
  pub aid_b : Option String
  pub session_id : Option String
  pub run_id : Option String
  pub grants : Option (List String)
  pub payload : Json
  pub source : Option String

-- `payload` holds the whole event.
pub record Delivery : Type 0 where
  pub id : String
  pub webhook_id : String
  pub event_type : String
  pub payload : AuditEvent
  pub body : Option String
  pub signature : Option String
  pub status : Status
  pub attempts : ℕ
  pub status_code : Option ℕ
  pub error : Option String
  pub delivered_at : Option ℕ
  pub next_retry_at : Option ℕ
  pub created_at : ℕ
