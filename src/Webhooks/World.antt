-- ===== src/Webhooks/World.antt =====
-- What the delivery code reads and writes: the two tables, the breakers of the process, the admin
-- audit rows and retry timers that it adds, and the requests that it sends.
use aitp_control_plane.Prelude.{ℕ, String, List}
use aitp_control_plane.Prelude.Maps.{Map}
use aitp_control_plane.Breaker.State.{Entry, Config}
use aitp_control_plane.Webhooks.Rows.{Webhook, Delivery}

-- One POST. `attempt` is the value that the row's counter was given for it, which is not sent.
pub record Post : Type 0 where
  pub attempt : ℕ
  pub url : String
  pub event_header : String
  pub delivery_header : String
  pub signature_header : String
  pub timestamp_header : String
  pub timestamp_signature_header : String
  pub body : String

-- The audit row `webhook.unsubscribed`.
pub record Unsubscribed : Type 0 where
  pub target_id : String
  pub url : String
  pub delivery_id : String
  pub status_code : ℕ

pub record Timer : Type 0 where
  pub delivery_id : String
  pub delay_ms : ℕ

pub record World : Type 0 where
  pub breakers : Map Entry
  pub webhooks : List Webhook
  pub deliveries : List Delivery
  pub audit : List Unsubscribed
  pub timers : List Timer
  pub posts : List Post

pub record Settings : Type 0 where
  pub breaker : Config
  pub retry_attempts : ℕ
