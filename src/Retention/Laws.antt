-- ===== src/Retention/Laws.antt =====
-- What a sweep of src/lib/retention.ts deletes, counts and leaves.
use aitp_control_plane.Prelude.{
  ℕ, ◌+◌, ◌-◌, ◌<◌, ◌≡◌, refl, Bool, true, false, List, [], ◌∷◌, not, leb, arith, length, ◌∙◌,
  Bool-cases, inl, inr,
}
use aitp_control_plane.Prelude.Tables.{select_where, count_where}
use aitp_control_plane.Webhooks.Rows.{Delivery, is_pending}
use aitp_control_plane.Retention.Batch.{
  purge_where, select-purge_where, length-purge_where, count-purge_where,
}
use aitp_control_plane.Retention.{
  SweepStatus, disabled, skipped, none_deleted, Tables, Settings, SweepResult, is_older, unless_off,
  purge_audit_events, is_spent_delivery, purge_webhook_deliveries, purge_admin_audit,
  purge_idempotency_keys, is_expired, purge_enrollment_jtis, is_retired, purge_deregistered_agents,
  sweep, run_retention_sweep,
}

module _ {ℓ} {A : Type ℓ} where
  select-unless_off :
      (days : ℕ) (q : A → Bool) (rows : List A) (purged : List A × ℕ)
      → select_where q purged.0 ≡ select_where q rows
      → select_where q (unless_off days rows purged).0 ≡ select_where q rows
  select-unless_off days q rows (left, n) h = ground arith

  length-unless_off :
      (days : ℕ) (rows : List A) (purged : List A × ℕ)
      → length purged.0 + purged.1 ≡ length rows
      → length (unless_off days rows purged).0 + (unless_off days rows purged).1 ≡ length rows
  length-unless_off days rows (left, n) h = ground arith

  count-unless_off :
      (days : ℕ) (p : A → Bool) (rows : List A) (purged : List A × ℕ)
      → 0 < days
      → count_where p (unless_off days rows purged).0 ≡ count_where p purged.0
  count-unless_off days p rows (left, n) h = ground arith

  -- A filter after a filter that keeps all it picks.
  select_again :
      (p q : A → Bool) (rows : List A)
      → ((x : A) → p x ≡ true → q x ≡ false)
      → select_where q (select_where (λ x. not (p x)) rows) ≡ select_where q rows
  unfolding select_where
  select_again p q [] spares = refl
  select_again p q (x ∷ xs) spares = elim (Bool-cases (p x)) [
    | inl picked ↦ rw (picked, spares x picked) (select_again p q xs spares)
    | inr left ↦ rw (left, select_again p q xs spares) refl
  ]

  length-select_where :
      (p : A → Bool) (rows : List A)
      → length (select_where (λ x. not (p x)) rows) + count_where p rows ≡ length rows
  unfolding select_where count_where
  length-select_where p [] = omega arith
  length-select_where p (x ∷ xs) = ground (arith, length-select_where p xs)

-- The rows that a sweep may not touch.
abbrev pub is_live_delivery : Delivery → Bool
is_live_delivery r = is_pending r.status

-- Of the tables before and after a sweep: what is kept of each.
pub record IsSpared (cfg : Settings) (clock : ℕ → ℕ) (t after : Tables) : Type 0 where
  pub events :
      select_where (λ r. not (is_older cfg.audit_events_ttl_days (clock 1) r.ts)) after.audit_events
      ≡ select_where (λ r. not (is_older cfg.audit_events_ttl_days (clock 1) r.ts)) t.audit_events
  pub pending_deliveries :
      select_where is_live_delivery after.webhook_deliveries
      ≡ select_where is_live_delivery t.webhook_deliveries
  pub registered_agents :
      select_where (λ r. not r.is_deregistered) after.agents
      ≡ select_where (λ r. not r.is_deregistered) t.agents
  pub keys :
      select_where
        (λ r. not (is_older cfg.idempotency_key_ttl_days (clock 5) r.created_at))
        after.idempotency_keys
      ≡ select_where
          (λ r. not (is_older cfg.idempotency_key_ttl_days (clock 5) r.created_at))
          t.idempotency_keys
  pub jtis :
      select_where (λ r. leb (clock 6) r.expires_at) after.enrollment_jtis
      ≡ select_where (λ r. leb (clock 6) r.expires_at) t.enrollment_jtis

sweep-IsSpared :
    (cfg : Settings) (clock : ℕ → ℕ) (t : Tables) → IsSpared cfg clock t (sweep cfg clock t).0
unfolding sweep purge_audit_events purge_webhook_deliveries purge_idempotency_keys
    purge_enrollment_jtis purge_deregistered_agents
sweep-IsSpared cfg clock t = record {
  events =
      select-unless_off cfg.audit_events_ttl_days _ t.audit_events _ (
        select-purge_where _ _ cfg.retention_batch_limit t.audit_events (λ x h. ground (arith, h)));
  pending_deliveries = select-unless_off cfg.webhook_delivery_ttl_days _ t.webhook_deliveries _ (
      select-purge_where _ _ cfg.retention_batch_limit t.webhook_deliveries
        (λ x h. ground (arith, h)));
  registered_agents =
      select-unless_off cfg.expired_agent_grace_days _ t.agents _
        (select_again (is_retired cfg (clock 4)) _ t.agents (λ x h. ground (arith, h)));
  keys = select-unless_off cfg.idempotency_key_ttl_days _ t.idempotency_keys _ (
      select-purge_where _ _ cfg.retention_batch_limit t.idempotency_keys
        (λ x h. ground (arith, h)));
  jtis =
      select-purge_where _ _ cfg.retention_batch_limit t.enrollment_jtis (λ x h. ground (arith, h));
}

-- A run is a sweep, or leaves the tables as they are.
run_retention_sweep_lem {κ} :
    (cfg : Settings) (clock : ℕ → ℕ) (got : Bool) (t : Tables) (Q : Tables × SweepResult → Type κ)
    → ((status : SweepStatus) (n : ℕ) → Q (t, none_deleted status n))
    → Q (sweep cfg clock t)
    → Q (run_retention_sweep cfg clock got t)
unfolding run_retention_sweep
run_retention_sweep_lem cfg clock got t Q idle swept = elim (Bool-cases cfg.retention_enabled) [
  | inr off ↦ simp off (idle disabled 0)
  | inl on ↦ elim (Bool-cases got) [
    | inl held ↦ simp (on, held) swept
    | inr busy ↦ simp (on, busy) (idle skipped (clock 7 - clock 0))
  ]
]

-- Whether it runs, finds the lock taken or is off, a sweep keeps, in their order, every audit event
-- and idempotency key within its TTL, every pending delivery, every agent that is not
-- deregistered, and every enrollment jti that has not expired.
pub sweep_spares :
    (cfg : Settings) (clock : ℕ → ℕ) (got : Bool) (t : Tables)
    → IsSpared cfg clock t (run_retention_sweep cfg clock got t).0
sweep_spares cfg clock got t =
    run_retention_sweep_lem cfg clock got t (λ q. IsSpared cfg clock t q.0)
      (λ status n. record {
        events = refl;
        pending_deliveries = refl;
        registered_agents = refl;
        keys = refl;
        jtis = refl;
      })
      (sweep-IsSpared cfg clock t)

-- The counts of a result against the tables before and after.
pub record IsAccounted (t after : Tables) (r : SweepResult) : Type 0 where
  pub events : length after.audit_events + r.audit_events_deleted ≡ length t.audit_events
  pub deliveries :
      length after.webhook_deliveries + r.webhook_deliveries_deleted ≡ length t.webhook_deliveries
  pub admin : length after.admin_audit_log + r.admin_audit_deleted ≡ length t.admin_audit_log
  pub agents : length after.agents + r.agents_deleted ≡ length t.agents
  pub keys : length after.idempotency_keys + r.idempotency_keys_deleted ≡ length t.idempotency_keys
  pub jtis : length after.enrollment_jtis + r.enrollment_jtis_deleted ≡ length t.enrollment_jtis

sweep-IsAccounted :
    (cfg : Settings) (clock : ℕ → ℕ) (t : Tables)
    → IsAccounted t (sweep cfg clock t).0 (sweep cfg clock t).1
unfolding sweep purge_audit_events purge_webhook_deliveries purge_admin_audit purge_idempotency_keys
    purge_enrollment_jtis purge_deregistered_agents
sweep-IsAccounted cfg clock t =
    let n = cfg.retention_batch_limit in
    record {
      events =
          length-unless_off cfg.audit_events_ttl_days t.audit_events _
            (length-purge_where _ n t.audit_events).0;
      deliveries =
          length-unless_off cfg.webhook_delivery_ttl_days t.webhook_deliveries _
            (length-purge_where _ n t.webhook_deliveries).0;
      admin =
          length-unless_off cfg.admin_audit_ttl_days t.admin_audit_log _
            (length-purge_where _ n t.admin_audit_log).0;
      agents =
          length-unless_off cfg.expired_agent_grace_days t.agents _
            (length-select_where (is_retired cfg (clock 4)) t.agents);
      keys =
          length-unless_off cfg.idempotency_key_ttl_days t.idempotency_keys _
            (length-purge_where _ n t.idempotency_keys).0;
      jtis = (length-purge_where _ n t.enrollment_jtis).0;
    }

-- The counts that a sweep reports are the numbers of rows that each table has lost.
sweep_accounts :
    (cfg : Settings) (clock : ℕ → ℕ) (got : Bool) (t : Tables)
    → IsAccounted t (run_retention_sweep cfg clock got t).0 (run_retention_sweep cfg clock got t).1
sweep_accounts cfg clock got t =
    run_retention_sweep_lem cfg clock got t (λ q. IsAccounted t q.0 q.1) (λ status n. ground arith)
      (sweep-IsAccounted cfg clock t)

run_retention_sweep-held :
    (cfg : Settings) (clock : ℕ → ℕ) (t : Tables)
    → cfg.retention_enabled ≡ true
    → run_retention_sweep cfg clock true t ≡ sweep cfg clock t
unfolding run_retention_sweep
run_retention_sweep-held cfg clock t on = simp on refl

-- A sweep that is enabled and gets the lock deletes as many spent deliveries and expired jtis as
-- the batch limit lets it, when deliveries have a TTL.
pub sweep_drains :
    (cfg : Settings) (clock : ℕ → ℕ) (t : Tables)
    → cfg.retention_enabled ≡ true
    → 0 < cfg.webhook_delivery_ttl_days
    → let after = (run_retention_sweep cfg clock true t).0 in
      (count_where (is_spent_delivery cfg (clock 2)) after.webhook_deliveries
        ≡ count_where (is_spent_delivery cfg (clock 2)) t.webhook_deliveries
          - cfg.retention_batch_limit)
      × (count_where (is_expired (clock 6)) after.enrollment_jtis
          ≡ count_where (is_expired (clock 6)) t.enrollment_jtis - cfg.retention_batch_limit)
unfolding sweep purge_webhook_deliveries purge_enrollment_jtis
sweep_drains cfg clock t on kept =
    let spent = is_spent_delivery cfg (clock 2) in
    let n = cfg.retention_batch_limit in
    rw (run_retention_sweep-held cfg clock t on) (
      count-unless_off cfg.webhook_delivery_ttl_days spent t.webhook_deliveries
            (purge_where spent n t.webhook_deliveries) kept
          ∙ count-purge_where spent n t.webhook_deliveries,
      count-purge_where (is_expired (clock 6)) n t.enrollment_jtis,
    )
