-- ===== src/Webhooks/Attempt/Gone.antt =====
-- An attempt that is answered by 410 Gone.
use aitp_control_plane.Prelude.{
  ℕ, ◌+◌, ◌≡◌, refl, Bool, false, Option, some, String, [], ◌∷◌, arith, ap, ◌∙◌, sym, not, str_eq,
  eq_iff, eq_refl, ◌==◌, All, subst,
}
use aitp_control_plane.Prelude.Tables.{
  update_where, count_where, count_where-pos, update_where-clears,
}
use aitp_control_plane.Breaker.{entry, reset}
use aitp_control_plane.Breaker.State.{fresh}
use aitp_control_plane.Breaker.Store.{entry-call, call, transition, reset_at}
use aitp_control_plane.Webhooks.Rows.{Webhook, Delivery}
use aitp_control_plane.Webhooks.Signing.{Crypto}
use aitp_control_plane.Webhooks.World.{World, Settings, Unsubscribed}
use aitp_control_plane.Webhooks.Attempt.{step, claim}
use aitp_control_plane.Webhooks.Attempt.Settle.{
  settle_step, settle_breaker, outcome_of, non_2xx, is_enabled, is_queued_for,
}
use aitp_control_plane.Webhooks.Attempt.Laws.{run_steps}
use aitp_control_plane.Webhooks.Attempt.Alone.{
  attempt_delivery, IsGranted, posted_world, run_to_claim, run_to_answer,
}
use aitp_control_plane.Webhooks.Attempt.Stages.{
  Script, Reply, response, safe, settling, finished, gone, disabling, draining, auditing,
}

-- The audit row of the branch.
abbrev pub unsubscribed : Delivery → Webhook → Unsubscribed
unsubscribed d w = record { target_id = w.id; url = w.url; delivery_id = d.id; status_code = 410 }

outcome_gone :
    (cfg : Settings) (c : Crypto) (now n : ℕ) (reply : Reply) (text : String)
    → reply ≡ response 410 text
    → outcome_of cfg c now reply n ≡ gone 410 (some (non_2xx c 410 text))
unfolding outcome_of
outcome_gone cfg c now n reply text h = rw h refl

-- The worlds after each of the branch's updates, from the one in which the request was sent.
module _ (cfg : Settings) (c : Crypto) (s : Script) (clock : ℕ → ℕ) (d : Delivery) (w : Webhook)
    (e : Option String) (posted : World) where
  abbrev rearmed : World
  rearmed = settle_breaker cfg (clock 4) w.id (gone 410 e) posted

  abbrev failed_own : World
  failed_own = (settle_step (clock 5) d w (gone 410 e) rearmed).1

  abbrev disabled : World
  disabled = (settle_step (clock 6) d w (disabling 410 (clock 5)) failed_own).1

  abbrev flipped : Bool
  flipped = not (count_where (is_enabled w) failed_own.webhooks == 0)

  abbrev drained : World
  drained = (settle_step (clock 7) d w (draining flipped 410) disabled).1

  abbrev audited : World
  audited = (settle_step (clock 8) d w (auditing flipped 410) drained).1

  run_gone :
      run_steps cfg c s
        (clock 5 ∷ clock 6 ∷ clock 7 ∷ clock 8 ∷ [])
        (settling d w (gone 410 e))
        rearmed
      ≡ (finished, audited)
  unfolding run_steps step settle_step
  run_gone = refl

  audited_webhooks :
      audited.webhooks
      ≡ update_where
          (is_enabled w)
          (λ v. record v { active = false; updated_at = clock 5 })
          posted.webhooks
  unfolding settle_step settle_breaker
  audited_webhooks = ground arith

  audited_deliveries : audited.deliveries ≡ drained.deliveries
  unfolding settle_step
  audited_deliveries = ground arith

  audited_breakers : audited.breakers ≡ reset w.id posted.breakers
  unfolding settle_step settle_breaker
  audited_breakers = ground arith

  audited_breaker : entry w.id audited.breakers ≡ fresh
  unfolding call transition
  audited_breaker =
      ap (entry w.id) audited_breakers
      ∙ entry-call cfg.breaker reset_at w.id w.id posted.breakers
      ∙ rw eq_refl

  audited_audit :
      (count_where (is_enabled w) posted.webhooks == 0) ≡ false
      → audited.audit ≡ unsubscribed d w ∷ posted.audit
  unfolding settle_step settle_breaker
  audited_audit h = rw h refl

  drained_rows : All (λ r. is_queued_for w r ≡ false) drained.deliveries
  unfolding settle_step
  drained_rows = update_where-clears (is_queued_for w) _ disabled.deliveries (λ r. ground arith)

module _ (cfg : Settings) (c : Crypto) (s : Script) (clock : ℕ → ℕ) (world : World) (d : Delivery)
    (w : Webhook) (text : String) (g : IsGranted cfg s (clock 1) world d w) where
  posted-webhooks :
      ((posted_world cfg c clock d w world).webhooks ≡ world.webhooks)
      × ((posted_world cfg c clock d w world).audit ≡ world.audit)
  unfolding claim
  posted-webhooks = ground arith

  is_enabled-found :
      (count_where (is_enabled w) (posted_world cfg c clock d w world).webhooks == 0) ≡ false
  is_enabled-found = rw posted-webhooks.0 (
      count_where-pos (λ v. str_eq v.id d.webhook_id) (is_enabled w) world.webhooks w g.hooked
        (ground (arith, eq_iff w.id w.id, g.active)))

  attempt_gone :
      s.verdict ≡ safe
      → s.reply ≡ response 410 text
      → attempt_delivery cfg c s clock world
        ≡ audited cfg c s clock d w (some (non_2xx c 410 text)) (posted_world cfg c clock d w world)
  unfolding attempt_delivery
  attempt_gone safe_target reply =
      let posted = posted_world cfg c clock d w world in
      let told = outcome_gone cfg c (clock 4) (d.attempts + 1) s.reply text reply in
      ap (λ q. q.1)
        (run_to_claim cfg c s clock world d w g
          ∙ run_to_answer cfg c s clock world d w g safe_target
          ∙ ap
              (λ o.
                run_steps cfg c s (clock 5 ∷ clock 6 ∷ clock 7 ∷ clock 8 ∷ []) (settling d w o)
                  (settle_breaker cfg (clock 4) w.id o posted))
              told
          ∙ run_gone cfg c s clock d w (some (non_2xx c 410 text)) posted)

-- A granted attempt answered by 410 disables the webhook, leaves none of its deliveries pending,
-- resets its breaker and writes one audit row.
pub gone_unsubscribes :
    (cfg : Settings) (c : Crypto) (s : Script) (clock : ℕ → ℕ) (world : World) (d : Delivery)
    (w : Webhook) (text : String)
    → IsGranted cfg s (clock 1) world d w
    → s.verdict ≡ safe
    → s.reply ≡ response 410 text
    → let after = attempt_delivery cfg c s clock world in
      All (λ v. is_enabled w v ≡ false) after.webhooks
      × All (λ r. is_queued_for w r ≡ false) after.deliveries
      × (entry w.id after.breakers ≡ fresh)
      × (after.audit ≡ unsubscribed d w ∷ world.audit)
gone_unsubscribes cfg c s clock world d w text g safe_target reply =
    let e = some (non_2xx c 410 text) in
    let posted = posted_world cfg c clock d w world in
    let found = is_enabled-found cfg c s clock world d w text g in
    let kept = (posted-webhooks cfg c s clock world d w text g).1 in
    subst
      (λ after.
        All (λ v. is_enabled w v ≡ false) after.webhooks
        × All (λ r. is_queued_for w r ≡ false) after.deliveries
        × (entry w.id after.breakers ≡ fresh)
        × (after.audit ≡ unsubscribed d w ∷ world.audit))
      (sym (attempt_gone cfg c s clock world d w text g safe_target reply))
      (
        subst (All (λ v. is_enabled w v ≡ false))
            (sym (audited_webhooks cfg c s clock d w e posted))
            (update_where-clears (is_enabled w) _ posted.webhooks (λ v. ground arith)),
        subst (All (λ r. is_queued_for w r ≡ false))
            (sym (audited_deliveries cfg c s clock d w e posted))
            (drained_rows cfg c s clock d w e posted),
        audited_breaker cfg c s clock d w e posted,
        audited_audit cfg c s clock d w e posted found ∙ ap (λ rows. unsubscribed d w ∷ rows) kept,
      )
