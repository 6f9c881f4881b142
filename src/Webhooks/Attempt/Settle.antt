-- ===== src/Webhooks/Attempt/Settle.antt =====
-- What an attempt does with the answer: the part of `attemptDelivery` below the `fetch`.
use Prim.Native.String
use aitp_control_plane.Prelude.{
  ℕ, ◌+◌, ◌*◌, ◌^◌, ◌-◌, Bool, false, Option, none, some, String, ◌&&◌, not, ◌==◌, str_eq,
  if◌then◌else◌, ◌∷◌, leb, ltb,
}
use aitp_control_plane.Prelude.Tables.{update_where, count_where}
use aitp_control_plane.Breaker.{record_success, record_failure, reset}
use aitp_control_plane.Webhooks.Rows.{Webhook, Delivery, pending, delivered, failed, is_pending}
use aitp_control_plane.Webhooks.Signing.{Crypto}
use aitp_control_plane.Webhooks.World.{World, Settings}
use aitp_control_plane.Webhooks.Attempt.Stages.{
  Progress, Reply, response, no_response, Outcome, succeeded, gone, disabling, draining, auditing,
  exhausted, backing_off, settling, finished,
}

-- `res.ok`
abbrev pub is_ok : ℕ → Bool
is_ok code = leb 200 code && ltb code 300

-- `30_000 * Math.pow(4, attempts - 1)`
abbrev pub backoff_ms : ℕ → ℕ
backoff_ms attempts = 30000 * 4 ^ (attempts - 1)

abbrev pub retry_or_fail : Settings → ℕ → ℕ → Option ℕ → Option String → Outcome
retry_or_fail cfg now attempts code error =
    if leb cfg.retry_attempts attempts
    then exhausted code error
    else backing_off (backoff_ms attempts) (now + backoff_ms attempts) code error

-- `non-2xx (${res.status}): ${text.slice(0, 200)}`
abbrev pub non_2xx : Crypto → ℕ → String → String
non_2xx c code text =
    String.◌++◌ "non-2xx (" (String.◌++◌ (c.decimal code) (String.◌++◌ "): " text))

-- The branch that an answer takes.
unfoldable pub outcome_of : Settings → Crypto → ℕ → Reply → ℕ → Outcome
outcome_of cfg c now (no_response message) attempts =
    retry_or_fail cfg now attempts none (some message)
outcome_of cfg c now (response code text) attempts =
    if is_ok code
    then succeeded code now
    else if code == 410
    then gone code (some (non_2xx c code text))
    else retry_or_fail cfg now attempts (some code) (some (non_2xx c code text))

-- The breaker call, made as soon as the answer is known.
unfoldable pub settle_breaker : Settings → ℕ → String → Outcome → World → World
settle_breaker cfg now id (succeeded code at) world = record world {
  breakers = record_success cfg.breaker id world.breakers;
}
settle_breaker cfg now id (gone code error) world = record world {
  breakers = reset id world.breakers;
}
settle_breaker cfg now id _ world = record world {
  breakers = record_failure cfg.breaker now id world.breakers;
}

abbrev pub own_row : Delivery → (Delivery → Delivery) → World → World
own_row d f world = record world {
  deliveries = update_where (λ r. str_eq r.id d.id) f world.deliveries;
}

abbrev pub is_enabled : Webhook → Webhook → Bool
is_enabled w v = str_eq v.id w.id && v.active

abbrev pub is_queued_for : Webhook → Delivery → Bool
is_queued_for w r = str_eq r.webhook_id w.id && is_pending r.status

unfoldable pub settle_step : ℕ → Delivery → Webhook → Outcome → World → Progress × World
settle_step now d w (succeeded code at) world = (
  finished,
  own_row d
      (λ r. record r {
        status = delivered;
        status_code = some code;
        error = none;
        delivered_at = some at;
        next_retry_at = none;
      })
      world,
)
settle_step now d w (gone code error) world = (
  settling d w (disabling code now),
  own_row d
      (λ r. record r {
        status = failed;
        status_code = some code;
        error = error;
        next_retry_at = none;
      })
      world,
)
settle_step now d w (disabling code at) world = (
  settling d w (draining (not (count_where (is_enabled w) world.webhooks == 0)) code),
  record world {
    webhooks =
        update_where (is_enabled w) (λ v. record v { active = false; updated_at = at })
          world.webhooks;
  },
)
settle_step now d w (draining flipped code) world = (
  settling d w (auditing flipped code),
  record world {
    deliveries =
        update_where (is_queued_for w)
          (λ r. record r {
            status = failed;
            error = some "webhook unsubscribed (410 Gone)";
            next_retry_at = none;
          })
          world.deliveries;
  },
)
settle_step now d w (auditing flipped code) world = (
  finished,
  (if flipped
      then (record world {
        audit =
            record { target_id = w.id; url = w.url; delivery_id = d.id; status_code = code }
            ∷ world.audit;
      })
      else world),
)
settle_step now d w (exhausted code error) world = (
  finished,
  own_row d
      (λ r. record r { status = failed; status_code = code; error = error; next_retry_at = none })
      world,
)
settle_step now d w (backing_off delay retry_at code error) world =
    let stored =
      own_row d
        (λ r. record r {
          status = pending;
          status_code = code;
          error = error;
          next_retry_at = some retry_at;
        })
        world in
    (
      finished,
      record stored { timers = record { delivery_id = d.id; delay_ms = delay } ∷ world.timers },
    )
