-- ===== src/Webhooks/Attempt/Fate.antt =====
-- One attempt from start to end, alone: what becomes of the row.
use aitp_control_plane.Prelude.{
  ℕ, ◌+◌, ◌-◌, ◌*◌, ◌^◌, ◌≡◌, refl, Bool, none, some, String, [], ◌∷◌, arith, ◌==◌, if◌then◌else◌,
  ◌&&◌, ◌||◌, leb, ltb, Bool-cases, inl, inr, ap, ◌∙◌, not, sym, subst,
}
use aitp_control_plane.Prelude.Tables.{count_where}
use aitp_control_plane.Webhooks.Rows.{Webhook, Delivery, pending, delivered, failed}
use aitp_control_plane.Webhooks.Signing.{Crypto}
use aitp_control_plane.Webhooks.World.{World, Settings}
use aitp_control_plane.Webhooks.Attempt.{step}
use aitp_control_plane.Webhooks.Attempt.Laws.{run_steps}
use aitp_control_plane.Webhooks.Attempt.Alone.{
  attempt_delivery, IsGranted, granted_world, posted_world, own_row_found, run_to_claim,
  run_to_answer,
}
use aitp_control_plane.Webhooks.Attempt.OwnRow.{row, row-id, row-claim, settled, row-settle_step}
use aitp_control_plane.Webhooks.Attempt.Settle.{
  settle_step, settle_breaker, outcome_of, non_2xx, is_ok, is_enabled,
}
use aitp_control_plane.Webhooks.Attempt.Stages.{
  Script, Reply, response, no_response, safe, settling, Outcome, succeeded, gone, disabling,
  draining, auditing, exhausted, backing_off,
}

module _ (cfg : Settings) (c : Crypto) (s : Script) where
  -- The outcomes that an answer has.
  abbrev IsAnswer : Outcome → Type 0
  IsAnswer (succeeded code at) = Unit
  IsAnswer (gone code error) = Unit
  IsAnswer (exhausted code error) = Unit
  IsAnswer (backing_off delay at code error) = Unit
  IsAnswer _ = ⊥

  draining_failed :
      (w : Webhook) (x : Delivery) (b : Bool) (code : ℕ)
      → x.status ≡ failed
      → settled w (draining b code) x ≡ x
  draining_failed w x b code h = ground arith

  settle_tail :
      (t₁ t₂ t₃ t₄ : ℕ) (world : World) (d x : Delivery) (w : Webhook) (o : Outcome)
      → IsAnswer o
      → row d.id world ≡ some x
      → row d.id (run_steps cfg c s (t₁ ∷ t₂ ∷ t₃ ∷ t₄ ∷ []) (settling d w o) world).1
        ≡ some (settled w o x)
  unfolding run_steps step settle_step
  settle_tail t₁ t₂ t₃ t₄ world d x w (succeeded code at) ok h =
      row-settle_step t₁ d x w (succeeded code at) world h
  settle_tail t₁ t₂ t₃ t₄ world d x w (exhausted code e) ok h =
      row-settle_step t₁ d x w (exhausted code e) world h
  settle_tail t₁ t₂ t₃ t₄ world d x w (backing_off delay at code e) ok h =
      row-settle_step t₁ d x w (backing_off delay at code e) world h
  settle_tail t₁ t₂ t₃ t₄ world d x w (gone code e) ok h =
      let world' = (settle_step t₁ d w (gone code e) world).1 in
      let x' = settled w (gone code e) x in
      let failed_row = row-settle_step t₁ d x w (gone code e) world h in
      let disabled = (settle_step t₂ d w (disabling code t₁) world').1 in
      let flag = not (count_where (is_enabled w) world.webhooks == 0) in
      let drained = row-settle_step t₃ d x' w (draining flag code) disabled failed_row in
      row-settle_step t₄ d x' w (auditing flag code)
        (settle_step t₃ d w (draining flag code) disabled).1
        (drained ∙ ap some (draining_failed w x' flag code refl))
  settle_tail t₁ t₂ t₃ t₄ world d x w _ ok h = absurd ok

  IsAnswer-outcome_of : (now n : ℕ) (r : Reply) → IsAnswer (outcome_of cfg c now r n)
  unfolding outcome_of
  IsAnswer-outcome_of now n (no_response m) = ground arith
  IsAnswer-outcome_of now n (response code text) = ground arith

-- What an answer makes of a row whose attempt has been counted: delivered on a 2xx, failed on a
-- 410 and on the last allowed attempt, else pending again with a retry due after 30 s, 2 min,
-- 8 min and so on.
abbrev pub answered : Settings → Crypto → ℕ → Reply → Delivery → Delivery
answered cfg c now (no_response message) r =
    if leb cfg.retry_attempts r.attempts
    then (record r {
      status = failed;
      status_code = none;
      error = some message;
      next_retry_at = none;
    })
    else (record r {
      status = pending;
      status_code = none;
      error = some message;
      next_retry_at = some (now + 30000 * 4 ^ (r.attempts - 1));
    })
answered cfg c now (response code text) r =
    if leb 200 code && ltb code 300
    then (record r {
      status = delivered;
      status_code = some code;
      error = none;
      delivered_at = some now;
      next_retry_at = none;
    })
    else if code == 410 || leb cfg.retry_attempts r.attempts
    then (record r {
      status = failed;
      status_code = some code;
      error = some (non_2xx c code text);
      next_retry_at = none;
    })
    else (record r {
      status = pending;
      status_code = some code;
      error = some (non_2xx c code text);
      next_retry_at = some (now + 30000 * 4 ^ (r.attempts - 1));
    })

row-settle_breaker :
    (cfg : Settings) (now : ℕ) (k id : String) (o : Outcome) (world : World)
    → row id (settle_breaker cfg now k o world) ≡ row id world
unfolding settle_breaker
row-settle_breaker cfg now k id (succeeded code at) world = refl
row-settle_breaker cfg now k id _ world = refl

settled-outcome_of :
    (cfg : Settings) (c : Crypto) (now : ℕ) (reply : Reply) (w : Webhook) (r : Delivery)
    → settled w (outcome_of cfg c now reply r.attempts) r ≡ answered cfg c now reply r
unfolding outcome_of
settled-outcome_of cfg c now (no_response m) w r =
    elim (Bool-cases (leb cfg.retry_attempts r.attempts)) [
      | inl last ↦ simp last
      | inr more ↦ simp more
    ]
settled-outcome_of cfg c now (response code text) w r = elim (Bool-cases (is_ok code)) [
  | inl ok ↦ simp ok
  | inr other ↦ elim (Bool-cases (code == 410)) [
    | inl gone_code ↦ simp (other, gone_code)
    | inr kept ↦ elim (Bool-cases (leb cfg.retry_attempts r.attempts)) [
      | inl last ↦ simp (other, kept, last)
      | inr more ↦ simp (other, kept, more)
    ]
  ]
]

-- An attempt run without interruption on a pending row, whose webhook is active, whose breaker
-- grants it and whose target is safe, counts the attempt and leaves the row as the answer says.
pub attempt_fate :
    (cfg : Settings) (c : Crypto) (s : Script) (clock : ℕ → ℕ) (world : World) (d : Delivery)
    (w : Webhook)
    → IsGranted cfg s (clock 1) world d w
    → s.verdict ≡ safe
    → row s.delivery_id (attempt_delivery cfg c s clock world)
      ≡ some (answered cfg c (clock 4) s.reply (record d { attempts = d.attempts + 1 }))
unfolding attempt_delivery
attempt_fate cfg c s clock world d w g safe_target =
    let same = row-id s.delivery_id world g.found in
    let own = own_row_found cfg c s clock world d w g in
    let o = outcome_of cfg c (clock 4) s.reply (d.attempts + 1) in
    let posted = posted_world cfg c clock d w world in
    let counted : Delivery = record d { attempts = d.attempts + 1; status = pending } in
    let tail =
      settle_tail cfg c s (clock 5) (clock 6) (clock 7) (clock 8)
        (settle_breaker cfg (clock 4) w.id o posted) d counted w o
        (IsAnswer-outcome_of cfg c s (clock 4) (d.attempts + 1) s.reply)
        (row-settle_breaker cfg (clock 4) w.id d.id o posted
          ∙ row-claim d w (granted_world cfg (clock 1) w world) own g.is_pending) in
    let told =
      settled-outcome_of cfg c (clock 4) s.reply w counted
      ∙ ap
          (λ st.
            answered cfg c (clock 4) s.reply (record d { attempts = d.attempts + 1; status = st }))
          (sym g.is_pending) in
    let ran =
      run_to_claim cfg c s clock world d w g
      ∙ run_to_answer cfg c s clock world d w g safe_target in
    subst
      (λ k.
        row k (attempt_delivery cfg c s clock world)
        ≡ some (answered cfg c (clock 4) s.reply (record d { attempts = d.attempts + 1 })))
      same (ap (λ q. row d.id q.1) ran ∙ tail ∙ ap some told)
