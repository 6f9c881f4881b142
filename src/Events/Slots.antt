-- ===== src/Events/Slots.antt =====
-- The slot counters of the event streams, src/lib/audit/sse-metrics.ts. A global that is not set yet
-- reads as 0.
use aitp_control_plane.Prelude.{ℕ, ◌+◌, ◌-◌}

pub record Slots : Type 0 where
  pub open_count : ℕ
  pub opened_total : ℕ
  pub rejected_total : ℕ

unfoldable pub acquire_slot : Slots → Slots × ℕ
acquire_slot s = (
  record s { open_count = s.open_count + 1; opened_total = s.opened_total + 1 },
  s.open_count + 1,
)

-- Floored at 0.
unfoldable pub release_slot : Slots → Slots
release_slot s = record s { open_count = s.open_count - 1 }

unfoldable pub record_rejected : Slots → Slots
record_rejected s = record s { rejected_total = s.rejected_total + 1 }

unfoldable pub get_open_count : Slots → ℕ
get_open_count s = s.open_count

unfoldable pub reset_metrics : Slots → Slots
reset_metrics s = record { open_count = 0; opened_total = 0; rejected_total = 0 }
