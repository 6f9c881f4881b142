-- ===== src/Webhooks/Samples.antt =====
-- A webhook, a delivery, an event and the answers that the tests of src/lib/webhooks use.
use aitp_control_plane.Prelude.{ℕ, ◌+◌, true, false, some, none, [], ◌∷◌}
use aitp_control_plane.Prelude.Maps.{Map}
use aitp_control_plane.Json.{null}
use aitp_control_plane.Breaker.State.{Entry, default_config, opened}
use aitp_control_plane.Webhooks.Rows.{Webhook, Delivery, AuditEvent, Status}
use aitp_control_plane.Webhooks.Signing.{Crypto}
use aitp_control_plane.Webhooks.World.{World, Settings}
use aitp_control_plane.Webhooks.Attempt.Stages.{Script, Verdict, Reply, safe, unsafe, response}

abbrev pub settings : Settings
settings = record { breaker = default_config; retry_attempts = 3 }

abbrev pub crypto : Crypto
crypto = record { hmac = λ k t. t; stringify = λ e. e.delivery_id; decimal = λ n. "n" }

abbrev pub hook_row : Webhook
hook_row = record {
  id = "w1";
  url = "https://example.com/in";
  events = [];
  secret = "s";
  active = true;
  updated_at = 0;
}

abbrev pub event : AuditEvent
event = record {
  id = 14 ∷ 1 ∷ [];
  type = "tct.revoked";
  ts = "2026-01-01T00:00:00.005Z";
  aid_a = none;
  aid_b = none;
  session_id = none;
  run_id = none;
  grants = none;
  payload = null;
  source = none;
}

abbrev pub queued : Status → Delivery
queued status = record {
  id = "d1";
  webhook_id = "w1";
  event_type = "tct.revoked";
  payload = event;
  body = some "d1";
  signature = some "d1";
  status = status;
  attempts = 0;
  status_code = none;
  error = none;
  delivered_at = none;
  next_retry_at = none;
  created_at = 5;
}

abbrev pub world_with : Map Entry → Status → World
world_with breakers status = record {
  breakers = breakers;
  webhooks = hook_row ∷ [];
  deliveries = queued status ∷ [];
  audit = [];
  timers = [];
  posts = [];
}

abbrev pub script : Verdict → Reply → Script
script verdict reply = record {
  delivery_id = "d1";
  jitter_ms = 7;
  verdict = verdict;
  reply = reply;
}

abbrev pub accepting : Script
accepting = script safe (response 200 "")

abbrev pub leaving : Script
leaving = script safe (response 410 "bye")

abbrev pub blocked : Script
blocked = script (unsafe "private address") (response 200 "")

-- Every step reads the clock at its own second.
abbrev pub clock : ℕ → ℕ
clock i = 100000 + i

abbrev pub tripped : Entry
tripped = record {
  state = opened;
  failures = 5;
  consecutive_successes = 0;
  opened_at = some 1000;
  probe_in_flight = false;
}
