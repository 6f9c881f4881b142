-- ===== src/Webhooks/Attempt/Alone.antt =====
-- One attempt with nothing in between its steps: the steps as equations, and the run of a granted
-- attempt up to its claim and up to the answer.
use aitp_control_plane.Prelude.{
  ℕ, ◌+◌, ◌≡◌, refl, true, false, some, [], ◌∷◌, arith, ap, ◌∙◌, sym, subst,
}
use aitp_control_plane.Breaker.{should_attempt}
use aitp_control_plane.Webhooks.Rows.{Webhook, Delivery, is_delivered, pending}
use aitp_control_plane.Webhooks.Signing.{Crypto}
use aitp_control_plane.Webhooks.World.{World, Settings}
use aitp_control_plane.Webhooks.Attempt.{on_row, on_webhook, gate, claim, on_verdict, post_of, step}
use aitp_control_plane.Webhooks.Attempt.Laws.{run_steps, run_after}
use aitp_control_plane.Webhooks.Attempt.OwnRow.{row, hook, row-id, claim_lem}
use aitp_control_plane.Webhooks.Attempt.Settle.{settle_breaker, outcome_of}
use aitp_control_plane.Webhooks.Attempt.Stages.{
  Script, safe, idle, selected, claiming, claimed, sent, settling,
}

-- `attemptDelivery` with nothing in between its steps; `clock i` is the time at step `i`.
unfoldable pub attempt_delivery : Settings → Crypto → Script → (ℕ → ℕ) → World → World
attempt_delivery cfg c s clock world =
    (run_steps cfg c s
      (clock 0 ∷ clock 1 ∷ clock 2 ∷ clock 3 ∷ clock 4 ∷ clock 5 ∷ clock 6 ∷ clock 7 ∷ clock 8 ∷ [])
      idle world).1

module _ (cfg : Settings) (c : Crypto) (s : Script) where
  pub step-select :
      (now : ℕ) (world : World) (d : Delivery)
      → row s.delivery_id world ≡ some d
      → is_delivered d.status ≡ false
      → step cfg c s now idle world ≡ (selected d, world)
  unfolding step on_row
  step-select now world d h p = rw h (simp p)

  pub step-gate :
      (now : ℕ) (world : World) (d : Delivery) (w : Webhook)
      → hook d.webhook_id world ≡ some w
      → w.active ≡ true
      → step cfg c s now (selected d) world ≡ gate cfg s now d w world
  unfolding step on_webhook
  step-gate now world d w h p = rw h (simp p)

  pub gate_granted :
      (now : ℕ) (world : World) (d : Delivery) (w : Webhook)
      → (should_attempt cfg.breaker now w.id world.breakers).1 ≡ true
      → gate cfg s now d w world ≡ (
        claiming d w,
        record world { breakers = (should_attempt cfg.breaker now w.id world.breakers).0 },
      )
  unfolding gate
  gate_granted now world d w h = rw h refl

  pub step-claim :
      (now : ℕ) (world : World) (d : Delivery) (w : Webhook)
      → row d.id world ≡ some d
      → d.status ≡ pending
      → step cfg c s now (claiming d w) world ≡ (claimed d w, (claim d w world).1)
  unfolding step
  step-claim now world d w h p = ap (λ q. (q, (claim d w world).1)) (claim_lem d w world h p)

  pub step_post :
      (now : ℕ) (world : World) (d : Delivery) (w : Webhook)
      → s.verdict ≡ safe
      → step cfg c s now (claimed d w) world
        ≡ (sent d w, record world { posts = post_of c now d w ∷ world.posts })
  unfolding step on_verdict
  step_post now world d w h = rw h refl

  pub step_sent :
      (now : ℕ) (world : World) (d : Delivery) (w : Webhook)
      → let o = outcome_of cfg c now s.reply (d.attempts + 1) in
        step cfg c s now (sent d w) world ≡ (settling d w o, settle_breaker cfg now w.id o world)
  unfolding step
  step_sent now world d w = refl

-- The world once the breaker has granted the attempt, once the row is claimed and the request
-- sent, and once the answer has reached the breaker.
abbrev pub granted_world : Settings → ℕ → Webhook → World → World
granted_world cfg now w world = record world {
  breakers = (should_attempt cfg.breaker now w.id world.breakers).0;
}

abbrev pub posted_world : Settings → Crypto → (ℕ → ℕ) → Delivery → Webhook → World → World
posted_world cfg c clock d w world =
    let held = (claim d w (granted_world cfg (clock 1) w world)).1 in
    record held { posts = post_of c (clock 3) d w ∷ held.posts }

-- What the theorems on a granted attempt assume: the row is found and pending, its webhook is
-- found and active, and the breaker grants the attempt.
pub record IsGranted (cfg : Settings) (s : Script) (now : ℕ) (world : World) (d : Delivery)
    (w : Webhook) : Type 0 where
  pub found : row s.delivery_id world ≡ some d
  pub is_pending : d.status ≡ pending
  pub hooked : hook d.webhook_id world ≡ some w
  pub active : w.active ≡ true
  pub granted : (should_attempt cfg.breaker now w.id world.breakers).1 ≡ true

module _ (cfg : Settings) (c : Crypto) (s : Script) (clock : ℕ → ℕ) (world : World) (d : Delivery)
    (w : Webhook) (g : IsGranted cfg s (clock 1) world d w) where
  pub own_row_found : row d.id world ≡ some d
  own_row_found =
      subst (λ k. row k world ≡ some d) (sym (row-id s.delivery_id world g.found)) g.found

  -- The steps up to the claim, and from there to the answer.
  pub run_to_claim :
      run_steps cfg c s
        (clock 0
          ∷ clock 1
          ∷ clock 2
          ∷ clock 3
          ∷ clock 4
          ∷ clock 5
          ∷ clock 6
          ∷ clock 7
          ∷ clock 8
          ∷ [])
        idle
        world
      ≡ run_steps cfg c s
          (clock 3 ∷ clock 4 ∷ clock 5 ∷ clock 6 ∷ clock 7 ∷ clock 8 ∷ [])
          (claimed d w)
          (claim d w (granted_world cfg (clock 1) w world)).1
  run_to_claim =
      run_after cfg c s (clock 0) _ idle world
        (step-select cfg c s (clock 0) world d g.found (ground (arith, g.is_pending)))
      ∙ run_after cfg c s (clock 1) _ (selected d) world (
          step-gate cfg c s (clock 1) world d w g.hooked g.active
          ∙ gate_granted cfg c s (clock 1) world d w g.granted)
      ∙ run_after cfg c s (clock 2) _ (claiming d w) (granted_world cfg (clock 1) w world) (
          step-claim cfg c s (clock 2) (granted_world cfg (clock 1) w world) d w own_row_found
            g.is_pending)

  pub run_to_answer :
      s.verdict ≡ safe
      → let o = outcome_of cfg c (clock 4) s.reply (d.attempts + 1) in
        run_steps cfg c s
          (clock 3 ∷ clock 4 ∷ clock 5 ∷ clock 6 ∷ clock 7 ∷ clock 8 ∷ [])
          (claimed d w)
          (claim d w (granted_world cfg (clock 1) w world)).1
        ≡ run_steps cfg c s
            (clock 5 ∷ clock 6 ∷ clock 7 ∷ clock 8 ∷ [])
            (settling d w o)
            (settle_breaker cfg (clock 4) w.id o (posted_world cfg c clock d w world))
  run_to_answer safe_target =
      run_after cfg c s (clock 3) _ (claimed d w) _ (step_post cfg c s (clock 3) _ d w safe_target)
      ∙ run_after cfg c s (clock 4) _ (sent d w) (posted_world cfg c clock d w world)
          (step_sent cfg c s (clock 4) (posted_world cfg c clock d w world) d w)
