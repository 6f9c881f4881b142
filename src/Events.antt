-- ===== src/Events.antt =====
-- The in-memory event bus, `EventBus` of src/lib/audit/stream.ts. A listener is a number, which
-- stands for the function's identity in the `Set`; what a listener does, or throws, stays with it.
pub mod Slots
pub mod Streams
pub mod Laws
mod Tests
use aitp_control_plane.Prelude.{
  ℕ, ◌+◌, ◌-◌, Bool, List, [], ◌∷◌, ◌++◌, ltb, ◌==◌, if◌then◌else◌, length, drop, any, not,
}
use aitp_control_plane.Prelude.Tables.{select_where}
use aitp_control_plane.Webhooks.Rows.{AuditEvent}

pub record EventBus : Type 0 where
  pub listeners : List ℕ
  pub backlog : List AuditEvent
  pub max_backlog : ℕ
  pub dropped : ℕ

unfoldable pub create : ℕ → EventBus
create max_backlog = record { listeners = []; backlog = []; max_backlog = max_backlog; dropped = 0 }

-- The bus after `publish`, and the listeners that are called, in order.
unfoldable pub publish : AuditEvent → EventBus → EventBus × List ℕ
publish event bus =
    let pushed = bus.backlog ++ event ∷ [] in
    (
      (if ltb bus.max_backlog (length pushed)
          then (record bus { backlog = drop 1 pushed; dropped = bus.dropped + 1 })
          else (record bus { backlog = pushed })),
      bus.listeners,
    )

-- A listener that is there already keeps its place.
unfoldable pub subscribe : ℕ → EventBus → EventBus
subscribe listener bus =
    if any (λ l. l == listener) bus.listeners
    then bus
    else (record bus { listeners = bus.listeners ++ listener ∷ [] })

-- The function that `subscribe` returns.
unfoldable pub unsubscribe : ℕ → EventBus → EventBus
unsubscribe listener bus = record bus {
  listeners = select_where (λ l. not (l == listener)) bus.listeners;
}

-- `this.backlog.slice(-limit)`: `slice(-0)` is the whole list.
unfoldable pub get_backlog : ℕ → EventBus → List AuditEvent
get_backlog limit bus =
    if limit == 0 then bus.backlog else drop (length bus.backlog - limit) bus.backlog

unfoldable pub get_dropped_count : EventBus → ℕ
get_dropped_count bus = bus.dropped
