-- ===== src/Webhooks/Attempt/Stages.antt =====
-- How far an attempt has come, and what the outside decides for it.
use aitp_control_plane.Prelude.{ℕ, Bool, String, Option}
use aitp_control_plane.Webhooks.Rows.{Webhook, Delivery}

-- What `assertSafeWebhookUrl` says of the target.
pub data Verdict : Type 0 where
  safe : Verdict
  unsafe : String → Verdict
  raised : Verdict

-- What `fetch` brings back: a status and `text.slice(0, 200)` of the body, or the message of an
-- error.
pub data Reply : Type 0 where
  response : ℕ → String → Reply
  no_response : String → Reply

pub record Script : Type 0 where
  pub delivery_id : String
  pub jitter_ms : ℕ
  pub verdict : Verdict
  pub reply : Reply

-- What an answer leads to, with the timestamps that are taken before the next await. `disabling`,
-- `draining` and `auditing` are the further updates of the 410 branch.
pub data Outcome : Type 0 where
  succeeded : ℕ → ℕ → Outcome
  gone : ℕ → Option String → Outcome
  disabling : ℕ → ℕ → Outcome
  draining : Bool → ℕ → Outcome
  auditing : Bool → ℕ → Outcome
  exhausted : Option ℕ → Option String → Outcome
  backing_off : ℕ → ℕ → Option ℕ → Option String → Outcome

pub data Progress : Type 0 where
  idle : Progress
  selected : Delivery → Progress
  missing : Delivery → Progress
  refusing : Delivery → String → ℕ → Progress
  claiming : Delivery → Webhook → Progress
  claimed : Delivery → Webhook → Progress
  blocking : Delivery → String → Progress
  sent : Delivery → Webhook → Progress
  settling : Delivery → Webhook → Outcome → Progress
  finished : Progress
