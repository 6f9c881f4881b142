-- ===== src/Webhooks/Attempt/Laws.antt =====
-- An attempt run by itself: it ends, in a bounded number of steps.
use aitp_control_plane.Prelude.{ℕ, suc, ◌+◌, ◌≤◌, ◌<◌, ◌≡◌, refl, List, [], ◌∷◌, arith, length, ap}
use aitp_control_plane.Webhooks.Rows.{Webhook, Delivery}
use aitp_control_plane.Webhooks.Signing.{Crypto}
use aitp_control_plane.Webhooks.World.{World, Settings}
use aitp_control_plane.Webhooks.Attempt.{on_row, gate, on_webhook, claim, on_verdict, step}
use aitp_control_plane.Webhooks.Attempt.Settle.{outcome_of, settle_step}
use aitp_control_plane.Webhooks.Attempt.Stages.{
  Progress, Script, Reply, response, no_response, idle, selected, claiming, claimed, sent, settling,
  finished, Outcome, gone, disabling, draining,
}

-- The steps of an attempt, each with the clock that it reads.
unfoldable pub run_steps : Settings → Crypto → Script → List ℕ → Progress → World → Progress × World
run_steps cfg c s [] p world = (p, world)
run_steps cfg c s (now ∷ nows) p world =
    let (p', world') = step cfg c s now p world in run_steps cfg c s nows p' world'

pub run_after :
    (cfg : Settings) (c : Crypto) (s : Script) (now : ℕ) (nows : List ℕ) (p : Progress)
    (world : World) {p' : Progress} {world' : World}
    → step cfg c s now p world ≡ (p', world')
    → run_steps cfg c s (now ∷ nows) p world ≡ run_steps cfg c s nows p' world'
unfolding run_steps
run_after cfg c s now nows p world e = ap (λ q. run_steps cfg c s nows q.0 q.1) e

pub run_finished :
    (cfg : Settings) (c : Crypto) (s : Script) (nows : List ℕ) (world : World)
    → run_steps cfg c s nows finished world ≡ (finished, world)
unfolding run_steps step
run_finished cfg c s [] world = refl
run_finished cfg c s (now ∷ nows) world = run_finished cfg c s nows world

outcome_rank : Outcome → ℕ
outcome_rank (gone code error) = 4
outcome_rank (disabling code at) = 3
outcome_rank (draining flipped code) = 2
outcome_rank _ = 1

-- A bound on the steps left.
rank : Progress → ℕ
unfolding outcome_rank
rank finished = 0
rank (sent d w) = 5
rank (claimed d w) = 6
rank (claiming d w) = 7
rank (selected d) = 8
rank idle = 9
rank (settling d w o) = outcome_rank o
rank _ = 1

rank-outcome_of :
    (cfg : Settings) (c : Crypto) (now : ℕ) (r : Reply) (n : ℕ)
    → outcome_rank (outcome_of cfg c now r n) ≤ 4
unfolding outcome_of outcome_rank
rank-outcome_of cfg c now (response code text) n = ground arith
rank-outcome_of cfg c now (no_response m) n = ground arith

rank-settle_step :
    (now : ℕ) (d : Delivery) (w : Webhook) (o : Outcome) (world : World)
    → rank (settle_step now d w o world).0 < outcome_rank o
unfolding rank settle_step
rank-settle_step now d w (gone code error) world = omega arith
rank-settle_step now d w _ world = omega arith

rank-step :
    (cfg : Settings) (c : Crypto) (s : Script) (now k : ℕ) (p : Progress) (world : World)
    → rank p ≤ suc k
    → rank (step cfg c s now p world).0 ≤ k
unfolding step on_row gate on_webhook claim on_verdict rank
rank-step cfg c s now k idle world h = ground arith
rank-step cfg c s now k (selected d) world h = ground arith
rank-step cfg c s now k (claiming d w) world h = ground arith
rank-step cfg c s now k (claimed d w) world h = ground arith
rank-step cfg c s now k (sent d w) world h =
    omega (arith, rank-outcome_of cfg c now s.reply (d.attempts + 1))
rank-step cfg c s now k (settling d w o) world h = omega (arith, rank-settle_step now d w o world)
rank-step cfg c s now k _ world h = omega arith

run_steps-rank :
    (cfg : Settings) (c : Crypto) (s : Script) (nows : List ℕ) (p : Progress) (world : World)
    → rank p ≤ length nows
    → rank (run_steps cfg c s nows p world).0 ≤ 0
unfolding run_steps
run_steps-rank cfg c s [] p world h = h
run_steps-rank cfg c s (now ∷ nows) p world h =
    run_steps-rank cfg c s nows _ _ (rank-step cfg c s now (length nows) p world h)

finished_of_rank : (p : Progress) → rank p ≤ 0 → p ≡ finished
unfolding rank
finished_of_rank finished h = refl
finished_of_rank (settling d w (gone code error)) h = absurd (omega arith)
finished_of_rank (settling d w (disabling code error)) h = absurd (omega arith)
finished_of_rank (settling d w (draining code error)) h = absurd (omega arith)
finished_of_rank (settling d w _) h = absurd (omega arith)
finished_of_rank _ h = absurd (omega arith)

-- Nine steps or more finish any attempt, whatever the target's verdict, the answer and the state
-- of the tables and breakers.
pub attempt_terminates :
    (cfg : Settings) (c : Crypto) (s : Script) (nows : List ℕ) (world : World)
    → 9 ≤ length nows
    → (run_steps cfg c s nows idle world).0 ≡ finished
unfolding rank
attempt_terminates cfg c s nows world h =
    finished_of_rank _ (run_steps-rank cfg c s nows idle world h)
