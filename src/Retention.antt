-- ===== src/Retention.antt =====
-- The retention sweep, src/lib/retention.ts: the six purges and `runRetentionSweep`. A row has the
-- columns that the purges read. `clock i` is the time at the i-th purge, `clock 0` and `clock 7` are
-- those at the start and the end.
pub mod Batch
pub mod Laws
mod Tests
use aitp_control_plane.Prelude.{
  ℕ, ◌+◌, ◌*◌, ◌-◌, Bool, true, false, Option, none, some, String, List, ◌&&◌, not, if◌then◌else◌,
  ◌==◌, ltb,
}
use aitp_control_plane.Prelude.Tables.{select_where, count_where}
use aitp_control_plane.Webhooks.Rows.{Delivery, is_pending}
use aitp_control_plane.Registry.{JtiRow}
use Batch.{purge_where}

pub record AuditRow : Type 0 where
  pub id : String
  pub ts : ℕ

pub record AdminAuditRow : Type 0 where
  pub id : String
  pub created_at : ℕ

pub record KeyRow : Type 0 where
  pub scope : String
  pub key : String
  pub created_at : ℕ

pub record AgentRow : Type 0 where
  pub aid : String
  -- `status = 'deregistered'`
  pub is_deregistered : Bool
  pub last_seen_at : Option ℕ
  pub registered_at : ℕ

pub record Tables : Type 0 where
  pub audit_events : List AuditRow
  pub webhook_deliveries : List Delivery
  pub admin_audit_log : List AdminAuditRow
  pub agents : List AgentRow
  pub idempotency_keys : List KeyRow
  pub enrollment_jtis : List JtiRow

pub record Settings : Type 0 where
  pub retention_enabled : Bool
  pub retention_batch_limit : ℕ
  pub audit_events_ttl_days : ℕ
  pub webhook_delivery_ttl_days : ℕ
  pub admin_audit_ttl_days : ℕ
  pub expired_agent_grace_days : ℕ
  pub idempotency_key_ttl_days : ℕ

pub data SweepStatus : Type 0 where
  completed skipped disabled : SweepStatus

pub record SweepResult : Type 0 where
  pub status : SweepStatus
  pub audit_events_deleted : ℕ
  pub webhook_deliveries_deleted : ℕ
  pub admin_audit_deleted : ℕ
  pub agents_deleted : ℕ
  pub idempotency_keys_deleted : ℕ
  pub enrollment_jtis_deleted : ℕ
  pub duration_ms : ℕ

-- `t < daysAgoIso(days)`
unfoldable pub is_older : ℕ → ℕ → ℕ → Bool
is_older days now t = ltb (t + days * 86400000) now

-- `if (ttlDays <= 0) return 0`
abbrev unless_off {ℓ} : {A : Type ℓ} → ℕ → List A → List A × ℕ → List A × ℕ
unless_off days rows purged = if days == 0 then (rows, 0) else purged

unfoldable pub purge_audit_events : Settings → ℕ → List AuditRow → List AuditRow × ℕ
purge_audit_events cfg now rows =
    unless_off cfg.audit_events_ttl_days rows (
      purge_where (λ r. is_older cfg.audit_events_ttl_days now r.ts) cfg.retention_batch_limit rows)

abbrev pub is_spent_delivery : Settings → ℕ → Delivery → Bool
is_spent_delivery cfg now r =
    not (is_pending r.status) && is_older cfg.webhook_delivery_ttl_days now r.created_at

unfoldable pub purge_webhook_deliveries : Settings → ℕ → List Delivery → List Delivery × ℕ
purge_webhook_deliveries cfg now rows =
    unless_off cfg.webhook_delivery_ttl_days rows
      (purge_where (is_spent_delivery cfg now) cfg.retention_batch_limit rows)

unfoldable pub purge_admin_audit : Settings → ℕ → List AdminAuditRow → List AdminAuditRow × ℕ
purge_admin_audit cfg now rows = unless_off cfg.admin_audit_ttl_days rows (
    purge_where (λ r. is_older cfg.admin_audit_ttl_days now r.created_at) cfg.retention_batch_limit
      rows)

unfoldable pub purge_idempotency_keys : Settings → ℕ → List KeyRow → List KeyRow × ℕ
purge_idempotency_keys cfg now rows = unless_off cfg.idempotency_key_ttl_days rows (
    purge_where (λ r. is_older cfg.idempotency_key_ttl_days now r.created_at)
      cfg.retention_batch_limit rows)

abbrev pub is_expired : ℕ → JtiRow → Bool
is_expired now r = ltb r.expires_at now

unfoldable pub purge_enrollment_jtis : Settings → ℕ → List JtiRow → List JtiRow × ℕ
purge_enrollment_jtis cfg now rows = purge_where (is_expired now) cfg.retention_batch_limit rows

-- When an agent was last seen, or registered if it never was.
abbrev pub last_sign : Option ℕ → ℕ → ℕ
last_sign none registered_at = registered_at
last_sign (some t) registered_at = t

abbrev pub is_retired : Settings → ℕ → AgentRow → Bool
is_retired cfg now r =
    r.is_deregistered
    && is_older cfg.expired_agent_grace_days now (last_sign r.last_seen_at r.registered_at)

-- This purge has no batch limit.
unfoldable pub purge_deregistered_agents : Settings → ℕ → List AgentRow → List AgentRow × ℕ
purge_deregistered_agents cfg now rows =
    unless_off cfg.expired_agent_grace_days rows
      (select_where (λ r. not (is_retired cfg now r)) rows, count_where (is_retired cfg now) rows)

abbrev pub none_deleted : SweepStatus → ℕ → SweepResult
none_deleted status duration = record {
  status = status;
  audit_events_deleted = 0;
  webhook_deliveries_deleted = 0;
  admin_audit_deleted = 0;
  agents_deleted = 0;
  idempotency_keys_deleted = 0;
  enrollment_jtis_deleted = 0;
  duration_ms = duration;
}

-- The transaction of a sweep that holds the lock.
unfoldable pub sweep : Settings → (ℕ → ℕ) → Tables → Tables × SweepResult
sweep cfg clock t =
    let events = purge_audit_events cfg (clock 1) t.audit_events in
    let deliveries = purge_webhook_deliveries cfg (clock 2) t.webhook_deliveries in
    let admin = purge_admin_audit cfg (clock 3) t.admin_audit_log in
    let agents = purge_deregistered_agents cfg (clock 4) t.agents in
    let keys = purge_idempotency_keys cfg (clock 5) t.idempotency_keys in
    let jtis = purge_enrollment_jtis cfg (clock 6) t.enrollment_jtis in
    (
      record {
        audit_events = events.0;
        webhook_deliveries = deliveries.0;
        admin_audit_log = admin.0;
        agents = agents.0;
        idempotency_keys = keys.0;
        enrollment_jtis = jtis.0;
      },
      record {
        status = completed;
        audit_events_deleted = events.1;
        webhook_deliveries_deleted = deliveries.1;
        admin_audit_deleted = admin.1;
        agents_deleted = agents.1;
        idempotency_keys_deleted = keys.1;
        enrollment_jtis_deleted = jtis.1;
        duration_ms = clock 7 - clock 0;
      },
    )

-- `got` says whether the advisory lock was free.
unfoldable pub run_retention_sweep : Settings → (ℕ → ℕ) → Bool → Tables → Tables × SweepResult
run_retention_sweep cfg clock got t =
    if not cfg.retention_enabled
    then (t, none_deleted disabled 0)
    else if got
    then sweep cfg clock t
    else (t, none_deleted skipped (clock 7 - clock 0))
