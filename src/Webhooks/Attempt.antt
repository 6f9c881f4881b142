-- ===== src/Webhooks/Attempt.antt =====
-- One delivery attempt, `attemptDelivery` of src/lib/webhooks/service.ts, cut at its awaits: each
-- step runs to the next await with nothing of another attempt in between, and any number of steps
-- of other attempts may run between two steps. A step reads the clock as `now`.
pub mod Stages
pub mod Settle
pub mod Laws
pub mod OwnRow
pub mod Alone
pub mod Fate
pub mod Refused
pub mod Gone
use Prim.Native.String
use aitp_control_plane.Prelude.{
  ℕ, ◌+◌, ◌*◌, ◌/◌, ◌^◌, ◌-◌, Bool, true, false, Option, none, some, String, ◌&&◌, ◌==◌, str_eq,
  if◌then◌else◌, List, [], ◌∷◌, or_else, leb,
}
use aitp_control_plane.Prelude.Tables.{find_where, update_where, count_where}
use aitp_control_plane.Breaker.{should_attempt, get_snapshot, Snapshot}
use aitp_control_plane.Breaker.State.{BreakerState, closed, opened, half_open}
use aitp_control_plane.Webhooks.Rows.{
  Webhook, Delivery, Status, pending, delivered, failed, is_pending, is_delivered,
}
use aitp_control_plane.Webhooks.Signing.{Crypto, signed_body, sign_timestamped_payload}
use aitp_control_plane.Webhooks.World.{World, Post, Settings}
use Stages.{
  Progress, Script, Verdict, safe, unsafe, raised, idle, selected, missing, refusing, claiming,
  claimed, blocking, sent, settling, finished,
}
use Settle.{outcome_of, settle_breaker, settle_step}

abbrev pub state_name : BreakerState → String
state_name closed = "closed"
state_name opened = "open"
state_name half_open = "half_open"

-- After the first select: nothing to do for a missing or a delivered row.
unfoldable pub on_row : Option Delivery → Progress
on_row none = finished
on_row (some d) = if is_delivered d.status then finished else selected d

-- After the second select, up to the next await: the breaker is asked for an active webhook.
-- `Math.floor(Math.random() * 30_000)` is the script's `jitter_ms`.
unfoldable pub gate : Settings → Script → ℕ → Delivery → Webhook → World → Progress × World
gate cfg s now d w world =
    let (breakers, granted) = should_attempt cfg.breaker now w.id world.breakers in
    let (breakers', snap) = get_snapshot cfg.breaker w.id breakers in
    if granted then (claiming d w, record world { breakers = breakers }) else (
      refusing d (String.◌++◌ "circuit breaker " (state_name snap.state))
          (or_else snap.next_probe_at (now + 60000) + s.jitter_ms),
      record world { breakers = breakers' },
    )

unfoldable pub on_webhook :
    Settings → Script → ℕ → Delivery → Option Webhook → World → Progress × World
on_webhook cfg s now d none world = (missing d, world)
on_webhook cfg s now d (some w) world =
    if w.active then gate cfg s now d w world else (missing d, world)

-- `update … where id`: the update of the delivery's own row.
abbrev pub set_row : Delivery → (Delivery → Delivery) → World → World
set_row d f world = record world {
  deliveries = update_where (λ r. str_eq r.id d.id) f world.deliveries;
}

-- The claim: the row still has the attempts that were read and is pending.
abbrev pub is_claimable : Delivery → Delivery → Bool
is_claimable d r = str_eq r.id d.id && (r.attempts == d.attempts) && is_pending r.status

unfoldable pub claim : Delivery → Webhook → World → Progress × World
claim d w world =
    if count_where (is_claimable d) world.deliveries == 0 then (finished, world) else (
      claimed d w,
      record world {
        deliveries =
            update_where (is_claimable d)
              (λ r. record r { attempts = d.attempts + 1; status = pending }) world.deliveries;
      },
    )

unfoldable pub post_of : Crypto → ℕ → Delivery → Webhook → Post
post_of c now d w =
    let (body, signature) = signed_body c w d in
    let timestamp = c.decimal (now / 1000) in
    record {
      attempt = d.attempts + 1;
      url = w.url;
      event_header = d.event_type;
      delivery_header = d.id;
      signature_header = String.◌++◌ "sha256=" signature;
      timestamp_header = timestamp;
      timestamp_signature_header =
          String.◌++◌ "sha256=" (sign_timestamped_payload c w.secret timestamp body);
      body = body;
    }

-- After the verdict of `assertSafeWebhookUrl` the request is sent; an error of another kind leaves
-- the attempt.
unfoldable pub on_verdict : Crypto → ℕ → Delivery → Webhook → Verdict → World → Progress × World
on_verdict c now d w safe world =
    (sent d w, record world { posts = post_of c now d w ∷ world.posts })
on_verdict c now d w (unsafe message) world = (blocking d message, world)
on_verdict c now d w raised world = (finished, world)

unfoldable pub step : Settings → Crypto → Script → ℕ → Progress → World → Progress × World
step cfg c s now idle world =
    (on_row (find_where (λ r. str_eq r.id s.delivery_id) world.deliveries), world)
step cfg c s now (selected d) world =
    on_webhook cfg s now d (find_where (λ w. str_eq w.id d.webhook_id) world.webhooks) world
step cfg c s now (missing d) world = (
  finished,
  set_row d (λ r. record r { status = failed; error = some "webhook missing or inactive" }) world,
)
step cfg c s now (refusing d message retry_at) world = (
  finished,
  set_row d
      (λ r. record r { status = pending; error = some message; next_retry_at = some retry_at })
      world,
)
step cfg c s now (claiming d w) world = claim d w world
step cfg c s now (claimed d w) world = on_verdict c now d w s.verdict world
step cfg c s now (blocking d message) world = (
  finished,
  set_row d
      (λ r. record r {
        status = failed;
        error = some (String.◌++◌ "unsafe target: " message);
        next_retry_at = none;
      })
      world,
)
step cfg c s now (sent d w) world =
    let o = outcome_of cfg c now s.reply (d.attempts + 1) in
    (settling d w o, settle_breaker cfg now w.id o world)
step cfg c s now (settling d w o) world = settle_step now d w o world
step cfg c s now finished world = (finished, world)
