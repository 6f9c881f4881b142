-- ===== src/Webhooks/Attempt/Refused.antt =====
-- Attempts that are granted and then blocked because the target is not safe.
use Prim.Native.String
use aitp_control_plane.Prelude.{
  ℕ, ◌+◌, ◌≡◌, refl, ◌≢◌, false, none, some, String, List, ap, ◌∙◌, sym, subst, eq_refl,
}
use aitp_control_plane.Breaker.{entry, should_attempt}
use aitp_control_plane.Breaker.State.{closed, attempt}
use aitp_control_plane.Breaker.Store.{entry-call, call, transition, should_attempt_at}
use aitp_control_plane.Breaker.Trace.{any_granted, probe_exclusive}
use aitp_control_plane.Webhooks.Rows.{Webhook, Delivery, failed}
use aitp_control_plane.Webhooks.Signing.{Crypto}
use aitp_control_plane.Webhooks.World.{World, Settings}
use aitp_control_plane.Webhooks.Attempt.{claim, on_verdict, step, set_row}
use aitp_control_plane.Webhooks.Attempt.Laws.{run_after, run_finished}
use aitp_control_plane.Webhooks.Attempt.OwnRow.{row, row-id, row-set_row, row-claim, claim-webhooks}
use aitp_control_plane.Webhooks.Attempt.Alone.{
  attempt_delivery, IsGranted, granted_world, own_row_found, run_to_claim,
}
use aitp_control_plane.Webhooks.Attempt.Stages.{Script, unsafe, claimed, blocking, finished}

module _ (cfg : Settings) (c : Crypto) (s : Script) where
  blocked_step :
      (now : ℕ) (world : World) (d : Delivery) (w : Webhook) (message : String)
      → s.verdict ≡ unsafe message
      → step cfg c s now (claimed d w) world ≡ (blocking d message, world)
  unfolding step on_verdict
  blocked_step now world d w message h = rw h refl

  blocking_step :
      (now : ℕ) (world : World) (d : Delivery) (message : String)
      → step cfg c s now (blocking d message) world ≡ (
        finished,
        set_row d
            (λ r. record r {
              status = failed;
              error = some (String.◌++◌ "unsafe target: " message);
              next_retry_at = none;
            })
            world,
      )
  unfolding step
  blocking_step now world d message = refl

-- What a blocked attempt leaves of the row that it claimed.
abbrev pub blocked_row : String → Delivery → Delivery
blocked_row message r = record r {
  attempts = r.attempts + 1;
  status = failed;
  error = some (String.◌++◌ "unsafe target: " message);
  next_retry_at = none;
}

probe_left :
    (cfg : Settings) (now : ℕ) (w : Webhook) (world : World)
    → entry w.id (granted_world cfg now w world).breakers
      ≡ (attempt cfg.breaker now (entry w.id world.breakers)).0
unfolding call transition
probe_left cfg now w world =
    entry-call cfg.breaker (should_attempt_at now) w.id w.id world.breakers ∙ rw eq_refl

grant_asked :
    (cfg : Settings) (now : ℕ) (w : Webhook) (world : World)
    → (should_attempt cfg.breaker now w.id world.breakers).1
      ≡ (attempt cfg.breaker now (entry w.id world.breakers)).1
unfolding should_attempt
grant_asked cfg now w world = refl

-- What a blocked attempt leaves: the claimed world with the row failed.
blocked_world : Settings → (ℕ → ℕ) → Delivery → Webhook → String → World → World
blocked_world cfg clock d w message world =
    set_row d
      (λ r. record r {
        status = failed;
        error = some (String.◌++◌ "unsafe target: " message);
        next_retry_at = none;
      })
      (claim d w (granted_world cfg (clock 1) w world)).1

run_blocked :
    (cfg : Settings) (c : Crypto) (s : Script) (clock : ℕ → ℕ) (world : World) (d : Delivery)
    (w : Webhook) (message : String)
    → IsGranted cfg s (clock 1) world d w
    → s.verdict ≡ unsafe message
    → attempt_delivery cfg c s clock world ≡ blocked_world cfg clock d w message world
unfolding attempt_delivery blocked_world
run_blocked cfg c s clock world d w message g blocked =
    ap (λ q. q.1)
      (run_to_claim cfg c s clock world d w g
        ∙ run_after cfg c s (clock 3) _ (claimed d w) _
            (blocked_step cfg c s (clock 3) _ d w message blocked)
        ∙ run_after cfg c s (clock 4) _ (blocking d message) _
            (blocking_step cfg c s (clock 4) _ d message)
        ∙ run_finished cfg c s _ _)

-- An attempt granted as the probe of a breaker that is not closed, and then blocked because its
-- target is not safe, leaves the probe claimed: the row has failed, and the breaker refuses every
-- later attempt on the webhook, with no outcome recorded and no reset in between, however much time
-- passes.
pub blocked_probe_stuck :
    (cfg : Settings) (c : Crypto) (s : Script) (clock : ℕ → ℕ) (world : World) (d : Delivery)
    (w : Webhook) (message : String) (times : List ℕ)
    → IsGranted cfg s (clock 1) world d w
    → s.verdict ≡ unsafe message
    → (entry w.id world.breakers).state ≢ closed
    → (row s.delivery_id (attempt_delivery cfg c s clock world) ≡ some (blocked_row message d))
      × (any_granted cfg.breaker (entry w.id (attempt_delivery cfg c s clock world).breakers) times
          ≡ false)
unfolding blocked_world
blocked_probe_stuck cfg c s clock world d w message times g blocked tripped =
    let same = row-id s.delivery_id world g.found in
    let own = own_row_found cfg c s clock world d w g in
    let asked = granted_world cfg (clock 1) w world in
    let left = (claim-webhooks d w asked).1 in
    rw (run_blocked cfg c s clock world d w message g blocked) (
      subst (λ k. row k (blocked_world cfg clock d w message world) ≡ some (blocked_row message d))
          same
          (row-set_row d _ _ (claim d w asked).1 (λ r. refl)
            (row-claim d w asked own g.is_pending)),
      rw (left, probe_left cfg (clock 1) w world)
          (probe_exclusive cfg.breaker (clock 1) (entry w.id world.breakers) times tripped
            (sym (grant_asked cfg (clock 1) w world) ∙ g.granted)),
    )
