-- ===== src/Webhooks/Tests.antt =====
-- The theorems on delivery attempts at a concrete webhook, delivery and answer.
use aitp_control_plane.Prelude.{◌+◌, ◌≤◌, ◌≡◌, ◌≢◌, refl, false, some, List, [], ◌∷◌, arith, All}
use aitp_control_plane.Prelude.Maps.{get, put}
use aitp_control_plane.Prelude.Tables.{find_where, update_where, count_where}
use aitp_control_plane.Breaker.{entry, should_attempt, get_snapshot}
use aitp_control_plane.Breaker.State.{default_config, fresh, closed, opened, attempt}
use aitp_control_plane.Breaker.Trace.{any_granted}
use aitp_control_plane.Webhooks.Rows.{pending}
use aitp_control_plane.Webhooks.Signing.{
  signed_body, build_canonical_body, sign_payload, sign_timestamped_payload,
}
use aitp_control_plane.Webhooks.Attempt.Stages.{Script, response}
use aitp_control_plane.Webhooks.Attempt.Settle.{is_enabled, is_queued_for}
use aitp_control_plane.Webhooks.Attempt.OwnRow.{row}
use aitp_control_plane.Webhooks.Attempt.Alone.{attempt_delivery, IsGranted}
use aitp_control_plane.Webhooks.Attempt.Fate.{answered, attempt_fate}
use aitp_control_plane.Webhooks.Attempt.Gone.{unsubscribed, gone_unsubscribes}
use aitp_control_plane.Webhooks.Attempt.Refused.{blocked_row, blocked_probe_stuck}
use aitp_control_plane.Webhooks.Outbox.{System, Turn, start, advance, advance_at, turn, turns}
use aitp_control_plane.Webhooks.Attempt.{step, on_row, on_webhook, gate, claim, on_verdict, post_of}
use aitp_control_plane.Webhooks.Outbox.Claims.{posts_for, attempts_of, held, turns-Paid}
use aitp_control_plane.Webhooks.Samples.{
  settings, crypto, hook_row, queued, world_with, accepting, leaving, blocked, clock, tripped,
}

fresh-IsGranted :
    (s : Script)
    → s.delivery_id ≡ "d1"
    → IsGranted settings s 100001 (world_with [] pending) (queued pending) hook_row
unfolding should_attempt entry attempt get find_where
fresh-IsGranted s e = record {
  found = rw e refl;
  is_pending = refl;
  hooked = refl;
  active = refl;
  granted = refl;
}

probe-IsGranted :
    IsGranted settings blocked 100001
      (world_with (("w1", tripped) ∷ []) pending)
      (queued pending)
      hook_row
unfolding should_attempt entry attempt get find_where
probe-IsGranted = record {
  found = refl;
  is_pending = refl;
  hooked = refl;
  active = refl;
  granted = refl;
}

-- Two attempts on one delivery that both read the row before either claims it.
abbrev racing : List Turn
racing =
    start accepting
    ∷ start accepting
    ∷ advance 0 1
    ∷ advance 1 1
    ∷ advance 0 2
    ∷ advance 1 2
    ∷ advance 1 3
    ∷ advance 0 3
    ∷ advance 1 4
    ∷ advance 0 4
    ∷ []

abbrev at_rest : System
at_rest = record { workers = []; world = world_with [] pending }

one_request : posts_for "d1" (turns settings crypto at_rest racing).world.posts ≡ 1
unfolding posts_for turns turn advance_at step on_row on_webhook gate claim on_verdict post_of
    signed_body build_canonical_body sign_payload sign_timestamped_payload should_attempt
    get_snapshot entry attempt get put find_where update_where count_where
one_request = refl

turns-Paid_example :
    posts_for "d1" (turns settings crypto at_rest racing).world.posts
      + held "d1" (turns settings crypto at_rest racing).workers
    ≤ attempts_of "d1" (turns settings crypto at_rest racing).world.deliveries
unfolding posts_for held attempts_of
turns-Paid_example = turns-Paid "d1" settings crypto at_rest racing (omega arith)

attempt_fate_example :
    row "d1" (attempt_delivery settings crypto accepting clock (world_with [] pending))
    ≡ some (
        answered settings crypto 100004
          (response 200 "")
          (record (queued pending) { attempts = 1 }))
attempt_fate_example =
    attempt_fate settings crypto accepting clock (world_with [] pending) (queued pending) hook_row
      (fresh-IsGranted accepting refl) refl

gone_unsubscribes_example :
    let after = attempt_delivery settings crypto leaving clock (world_with [] pending) in
    All (λ v. is_enabled hook_row v ≡ false) after.webhooks
    × All (λ r. is_queued_for hook_row r ≡ false) after.deliveries
    × (entry "w1" after.breakers ≡ fresh)
    × (after.audit ≡ unsubscribed (queued pending) hook_row ∷ [])
gone_unsubscribes_example =
    gone_unsubscribes settings crypto leaving clock (world_with [] pending) (queued pending)
      hook_row "bye" (fresh-IsGranted leaving refl) refl refl

tripped-not_closed : opened ≢ closed
tripped-not_closed e = ground (arith, e)

blocked_probe_stuck_example :
    let world = world_with (("w1", tripped) ∷ []) pending in
    (row "d1" (attempt_delivery settings crypto blocked clock world)
      ≡ some (blocked_row "private address" (queued pending)))
    × (any_granted default_config
          (entry "w1" (attempt_delivery settings crypto blocked clock world).breakers)
          (200000 ∷ 900000000 ∷ [])
        ≡ false)
unfolding entry get
blocked_probe_stuck_example =
    blocked_probe_stuck settings crypto blocked clock (world_with (("w1", tripped) ∷ []) pending)
      (queued pending) hook_row "private address" (200000 ∷ 900000000 ∷ []) probe-IsGranted refl
      tripped-not_closed
