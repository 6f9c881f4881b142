-- ===== src/Webhooks/Dispatch.antt =====
-- Fan-out of an audit event to the webhooks that want it (`dispatchWebhooks`,
-- `dispatchWebhooksWithList`, `enqueueDelivery` of src/lib/webhooks/service.ts). The random ids of
-- the new rows are drawn from a list, one for each matching webhook; `stored` is the clock of the
-- database, which fills `created_at`.
pub mod Laws
mod Tests
use aitp_control_plane.Prelude.{
  ℕ, Bool, true, false, none, some, String, ◌&&◌, ◌||◌, str_eq, if◌then◌else◌, List, [], ◌∷◌, any,
}
use aitp_control_plane.Prelude.Tables.{select_where}
use aitp_control_plane.Webhooks.Rows.{AuditEvent, Webhook, Delivery, pending}
use aitp_control_plane.Webhooks.Signing.{Crypto, sign_payload, build_canonical_body}

abbrev pub deliverable_event_types : List String
deliverable_event_types =
    "agent.registered" ∷ "agent.expired" ∷ "agent.deregistered" ∷ "handshake.complete"
    ∷ "handshake.failed" ∷ "tct.revoked" ∷ []

abbrev pub includes : List String → String → Bool
includes texts s = any (λ t. str_eq t s) texts

abbrev pub is_empty : List String → Bool
is_empty [] = true
is_empty (x ∷ xs) = false

-- The test of the filter over the candidates.
abbrev pub wants : AuditEvent → Webhook → Bool
wants event w = w.active && (is_empty w.events || includes w.events event.type)

-- The row that `enqueueDelivery` inserts.
unfoldable pub enqueued : Crypto → ℕ → ℕ → String → AuditEvent → Webhook → Delivery
enqueued c now stored id event w =
    let body = build_canonical_body c id event now in
    record {
      id = id;
      webhook_id = w.id;
      event_type = event.type;
      payload = event;
      body = some body;
      signature = some (sign_payload c w.secret body);
      status = pending;
      attempts = 0;
      status_code = none;
      error = none;
      delivered_at = none;
      next_retry_at = none;
      created_at = stored;
    }

-- `Promise.all(matching.map(enqueueDelivery))`: the rows inserted, each with an id of its own.
unfoldable pub enqueue_all :
    Crypto → ℕ → ℕ → List String → AuditEvent → List Webhook → List Delivery
enqueue_all c now stored (id ∷ ids) event (w ∷ ws) =
    enqueued c now stored id event w ∷ enqueue_all c now stored ids event ws
enqueue_all c now stored ids event ws = []

-- What `dispatchWebhooksWithList` adds to `webhook_deliveries`.
unfoldable pub dispatch_with_list :
    Crypto → ℕ → ℕ → List String → AuditEvent → List Webhook → List Delivery
dispatch_with_list c now stored ids event candidates =
    if includes deliverable_event_types event.type
    then enqueue_all c now stored ids event (select_where (wants event) candidates)
    else []

unfoldable pub dispatch : Crypto → ℕ → ℕ → List String → AuditEvent → List Webhook → List Delivery
dispatch c now stored ids event webhooks =
    if includes deliverable_event_types event.type
    then dispatch_with_list c now stored ids event (select_where (λ w. w.active) webhooks)
    else []
