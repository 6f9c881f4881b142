-- ===== src/Webhooks/Signing.antt =====
-- The body and the signatures of a delivery (`signPayload`, `signTimestampedPayload`,
-- `buildCanonicalBody` of src/lib/webhooks/service.ts). HMAC-SHA256 and `JSON.stringify` are not
-- the program's own: they are the fields of `Crypto`.
use Prim.Native.String
use aitp_control_plane.Prelude.{
  ℕ, Bool, false, Option, none, some, String, ◌&&◌, not, str_eq, if◌then◌else◌,
}
use aitp_control_plane.Webhooks.Rows.{AuditEvent, Webhook, Delivery}

-- The object literal that is signed, its members in the order that the source writes them.
pub record Envelope : Type 0 where
  pub delivery_id : String
  pub event_type : String
  pub payload : AuditEvent
  pub enqueued_at : ℕ

pub record Crypto : Type 0 where
  -- `createHmac('sha256', secret).update(text).digest('hex')`
  pub hmac : String → String → String
  pub stringify : Envelope → String
  -- `String(n)`
  pub decimal : ℕ → String

unfoldable pub sign_payload : Crypto → String → String → String
sign_payload c secret body = c.hmac secret body

unfoldable pub sign_timestamped_payload : Crypto → String → String → String → String
sign_timestamped_payload c secret timestamp body =
    c.hmac secret (String.◌++◌ timestamp (String.◌++◌ "." body))

unfoldable pub build_canonical_body : Crypto → String → AuditEvent → ℕ → String
build_canonical_body c delivery_id event enqueued_at = c.stringify (record {
  delivery_id = delivery_id;
  event_type = event.type;
  payload = event;
  enqueued_at = enqueued_at;
})

-- `delivery.body && delivery.signature`: both there and not empty.
abbrev pub is_set : Option String → Bool
is_set none = false
is_set (some s) = not (str_eq s "")

abbrev pub text_of : Option String → String
text_of none = ""
text_of (some s) = s

-- The body and the body signature of an attempt: those of the row, or for a row older than these
-- columns, made from the row and signed with the webhook's present secret.
unfoldable pub signed_body : Crypto → Webhook → Delivery → String × String
signed_body c w d =
    let fresh = build_canonical_body c d.id d.payload d.created_at in
    if is_set d.body && is_set d.signature
    then (text_of d.body, text_of d.signature)
    else (fresh, sign_payload c w.secret fresh)
