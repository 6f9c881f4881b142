-- ===== src/Retention/Tests.antt =====
-- The theorems on the retention sweep at concrete tables.
use aitp_control_plane.Prelude.{ℕ, ◌+◌, ◌-◌, ◌*◌, ◌≡◌, refl, true, false, none, [], ◌∷◌, arith}
use aitp_control_plane.Prelude.Tables.{count_where, select_where}
use aitp_control_plane.Retention.{
  Tables, Settings, run_retention_sweep, sweep, is_spent_delivery, is_expired, is_older,
  purge_audit_events, purge_webhook_deliveries, purge_admin_audit, purge_idempotency_keys,
  purge_enrollment_jtis, purge_deregistered_agents,
}
use aitp_control_plane.Retention.Batch.{purge_where}
use aitp_control_plane.Retention.Laws.{IsSpared, sweep_spares, sweep_drains}

abbrev weekly : Settings
weekly = record {
  retention_enabled = true;
  retention_batch_limit = 1;
  audit_events_ttl_days = 7;
  webhook_delivery_ttl_days = 7;
  admin_audit_ttl_days = 0;
  expired_agent_grace_days = 7;
  idempotency_key_ttl_days = 1;
}

-- Day 30.
abbrev clock : ℕ → ℕ
clock i = 30 * 86400000 + i

abbrev tables : Tables
tables = record {
  audit_events = [];
  webhook_deliveries = [];
  admin_audit_log = [];
  agents =
      record { aid = "a"; is_deregistered = true; last_seen_at = none; registered_at = 5 }
      ∷ record { aid = "b"; is_deregistered = false; last_seen_at = none; registered_at = 5 }
      ∷ [];
  idempotency_keys = record { scope = "s"; key = "k"; created_at = 9 } ∷ [];
  enrollment_jtis =
      record { jti = "x"; expires_at = 1 }
      ∷ record { jti = "y"; expires_at = 2 }
      ∷ record { jti = "z"; expires_at = 31 * 86400000 }
      ∷ [];
}

swept_counts :
    let r = (run_retention_sweep weekly clock true tables).1 in
    (r.agents_deleted ≡ 1) × (r.idempotency_keys_deleted ≡ 1) × (r.enrollment_jtis_deleted ≡ 1)
unfolding run_retention_sweep sweep purge_audit_events purge_webhook_deliveries purge_admin_audit
    purge_idempotency_keys purge_enrollment_jtis purge_deregistered_agents purge_where is_older
    select_where count_where
swept_counts = (refl, refl, refl)

sweep_spares_example : IsSpared weekly clock tables (run_retention_sweep weekly clock true tables).0
sweep_spares_example = sweep_spares weekly clock true tables

sweep_drains_example :
    let after = (run_retention_sweep weekly clock true tables).0 in
    (count_where (is_spent_delivery weekly (clock 2)) after.webhook_deliveries
      ≡ count_where (is_spent_delivery weekly (clock 2)) tables.webhook_deliveries - 1)
    × (count_where (is_expired (clock 6)) after.enrollment_jtis
        ≡ count_where (is_expired (clock 6)) tables.enrollment_jtis - 1)
sweep_drains_example = sweep_drains weekly clock tables refl (omega arith)
