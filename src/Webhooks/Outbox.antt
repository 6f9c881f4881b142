-- ===== src/Webhooks/Outbox.antt =====
-- Any number of attempts on the outbox at once: the process starts attempts (on enqueue, from the
-- reaper, from a retry timer) and, at each turn, lets one of those under way do its next step.
pub mod Claims
use aitp_control_plane.Prelude.{ℕ, zero, suc, Option, none, some, List, [], ◌∷◌, ◌++◌}
use aitp_control_plane.Webhooks.Signing.{Crypto}
use aitp_control_plane.Webhooks.World.{World, Settings}
use aitp_control_plane.Webhooks.Attempt.{step}
use aitp_control_plane.Webhooks.Attempt.Stages.{Progress, Script, idle}

pub record Worker : Type 0 where
  pub script : Script
  pub progress : Progress

pub record System : Type 0 where
  pub workers : List Worker
  pub world : World

pub data Turn : Type 0 where
  start : Script → Turn
  advance : ℕ → ℕ → Turn

-- The worker in place `i` does one step; there is none past the end.
unfoldable pub advance_at : Settings → Crypto → ℕ → ℕ → List Worker → World → List Worker × World
advance_at cfg c i now [] world = ([], world)
advance_at cfg c zero now (w ∷ ws) world =
    let (p, world') = step cfg c w.script now w.progress world in
    (record w { progress = p } ∷ ws, world')
advance_at cfg c (suc i) now (w ∷ ws) world =
    let (ws', world') = advance_at cfg c i now ws world in (w ∷ ws', world')

unfoldable pub turn : Settings → Crypto → System → Turn → System
turn cfg c sys (start s) = record sys {
  workers = record { script = s; progress = idle } ∷ sys.workers;
}
turn cfg c sys (advance i now) =
    let (workers, world) = advance_at cfg c i now sys.workers sys.world in
    record { workers = workers; world = world }

unfoldable pub turns : Settings → Crypto → System → List Turn → System
turns cfg c sys [] = sys
turns cfg c sys (t ∷ ts) = turns cfg c (turn cfg c sys t) ts
