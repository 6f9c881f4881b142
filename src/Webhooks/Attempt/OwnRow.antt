-- ===== src/Webhooks/Attempt/OwnRow.antt =====
-- What the steps of an attempt do to the delivery's own row, found by its id.
use aitp_control_plane.Prelude.{
  ℕ, ◌+◌, ◌≡◌, refl, true, false, Option, none, some, String, arith, ◌==◌, str_eq, eq_iff, eq_refl,
  if◌then◌else◌, ap, ◌∙◌,
}
use aitp_control_plane.Prelude.Tables.{
  count_where, find_where, find-update_some, count_where-pos, find_where_sound,
}
use aitp_control_plane.Webhooks.Rows.{Webhook, Delivery, pending, delivered, failed}
use aitp_control_plane.Webhooks.World.{World}
use aitp_control_plane.Webhooks.Attempt.{claim, is_claimable, set_row}
use aitp_control_plane.Webhooks.Attempt.Settle.{settle_step, is_queued_for}
use aitp_control_plane.Webhooks.Attempt.Stages.{
  claimed, Outcome, succeeded, gone, disabling, draining, auditing, exhausted, backing_off,
}

-- `select … where id limit 1` on the two tables.
abbrev pub row : String → World → Option Delivery
row id world = find_where (λ r. str_eq r.id id) world.deliveries

abbrev pub hook : String → World → Option Webhook
hook id world = find_where (λ w. str_eq w.id id) world.webhooks

pub row-id : (id : String) (world : World) {d : Delivery} → row id world ≡ some d → d.id ≡ id
row-id id world {d} h =
    (eq_iff d.id id).0 (find_where_sound (λ r. str_eq r.id id) world.deliveries h)

pub row-set_row :
    (d x : Delivery) (f : Delivery → Delivery) (world : World)
    → ((r : Delivery) → (f r).id ≡ r.id)
    → row d.id world ≡ some x
    → row d.id (set_row d f world) ≡ some (f x)
row-set_row d x f world same h =
    let found = row-id d.id world h in
    find-update_some (λ r. str_eq r.id d.id) (λ r. str_eq r.id d.id) f world.deliveries
      (λ r. ap (λ k. str_eq k d.id) (same r)) h
    ∙ rw (found, eq_refl) refl

is_claimable_self : (d : Delivery) → d.status ≡ pending → is_claimable d d ≡ true
is_claimable_self d p = ground (arith, eq_iff d.id d.id)

is_found :
    (d : Delivery) (world : World)
    → row d.id world ≡ some d
    → d.status ≡ pending
    → (count_where (is_claimable d) world.deliveries == 0) ≡ false
is_found d world h p =
    count_where-pos (λ r. str_eq r.id d.id) (is_claimable d) world.deliveries d h
      (is_claimable_self d p)

-- The claim of a pending row that still has the attempts read succeeds, and adds one to them.
pub claim_lem :
    (d : Delivery) (w : Webhook) (world : World)
    → row d.id world ≡ some d
    → d.status ≡ pending
    → (claim d w world).0 ≡ claimed d w
unfolding claim
claim_lem d w world h p = rw (is_found d world h p)

pub row-claim :
    (d : Delivery) (w : Webhook) (world : World)
    → row d.id world ≡ some d
    → d.status ≡ pending
    → row d.id (claim d w world).1 ≡ some (record d { attempts = d.attempts + 1; status = pending })
unfolding claim
row-claim d w world h p = rw (is_found d world h p) (
    find-update_some (λ r. str_eq r.id d.id) (is_claimable d)
      (λ r. record r { attempts = d.attempts + 1; status = pending }) world.deliveries (λ r. refl) h
    ∙ simp (is_claimable_self d p))

pub claim-webhooks :
    (d : Delivery) (w : Webhook) (world : World)
    → ((claim d w world).1.webhooks ≡ world.webhooks)
      × ((claim d w world).1.breakers ≡ world.breakers)
      × ((claim d w world).1.posts ≡ world.posts)
unfolding claim
claim-webhooks d w world = ground arith

-- What the update of an outcome makes of the row.
abbrev pub settled : Webhook → Outcome → Delivery → Delivery
settled w (succeeded code at) r = record r {
  status = delivered;
  status_code = some code;
  error = none;
  delivered_at = some at;
  next_retry_at = none;
}
settled w (gone code error) r = record r {
  status = failed;
  status_code = some code;
  error = error;
  next_retry_at = none;
}
settled w (exhausted code error) r = record r {
  status = failed;
  status_code = code;
  error = error;
  next_retry_at = none;
}
settled w (backing_off delay retry_at code error) r = record r {
  status = pending;
  status_code = code;
  error = error;
  next_retry_at = some retry_at;
}
settled w (draining flipped code) r =
    if is_queued_for w r
    then (record r {
      status = failed;
      error = some "webhook unsubscribed (410 Gone)";
      next_retry_at = none;
    })
    else r
settled w _ r = r

pub row-settle_step :
    (now : ℕ) (d x : Delivery) (w : Webhook) (o : Outcome) (world : World)
    → row d.id world ≡ some x
    → row d.id (settle_step now d w o world).1 ≡ some (settled w o x)
unfolding settle_step
row-settle_step now d x w (succeeded code at) world h = row-set_row d x _ world (λ r. refl) h
row-settle_step now d x w (gone code error) world h = row-set_row d x _ world (λ r. refl) h
row-settle_step now d x w (disabling code at) world h = h
row-settle_step now d x w (draining flipped code) world h =
    find-update_some (λ r. str_eq r.id d.id) (is_queued_for w) _ world.deliveries (λ r. refl) h
row-settle_step now d x w (auditing true code) world h = h
row-settle_step now d x w (auditing false code) world h = h
row-settle_step now d x w (exhausted code error) world h = row-set_row d x _ world (λ r. refl) h
row-settle_step now d x w (backing_off delay at code error) world h =
    row-set_row d x _ world (λ r. refl) h
