-- ===== src/Webhooks/Outbox/Claims.antt =====
-- The optimistic claim on `attempts` in `attemptDelivery` of src/lib/webhooks/service.ts: the
-- requests sent for a delivery, the claims held on it and its row's counter.
use aitp_control_plane.Prelude.{
  ℕ, zero, suc, ◌+◌, ◌≤◌, ◌≡◌, refl, Bool, true, false, Option, none, some, String, List, [], ◌∷◌,
  arith, ◌==◌, str_eq, eq_iff, if◌then◌else◌, Bool-cases, inl, inr,
}
use aitp_control_plane.Prelude.Tables.{update_where, count_where, find_where}
use aitp_control_plane.Webhooks.Rows.{Webhook, Delivery, pending}
use aitp_control_plane.Webhooks.Signing.{Crypto}
use aitp_control_plane.Webhooks.World.{World, Settings, Post}
use aitp_control_plane.Webhooks.Attempt.{
  on_row, gate, on_webhook, claim, is_claimable, on_verdict, post_of, step, set_row,
}
use aitp_control_plane.Webhooks.Attempt.Settle.{outcome_of, settle_step, settle_breaker}
use aitp_control_plane.Webhooks.Attempt.Stages.{
  Progress, Script, Verdict, safe, idle, selected, missing, refusing, claiming, claimed, blocking,
  sent, settling, finished, Outcome, succeeded, disabling, auditing,
}
use aitp_control_plane.Webhooks.Outbox.{
  Worker, System, Turn, start, advance, advance_at, turn, turns,
}

-- The requests sent for a delivery.
unfoldable pub posts_for : String → List Post → ℕ
posts_for id [] = 0
posts_for id (p ∷ ps) = (if str_eq p.delivery_header id then 1 else 0) + posts_for id ps

-- The counter of a delivery's row.
unfoldable pub attempts_of : String → List Delivery → ℕ
attempts_of id [] = 0
attempts_of id (r ∷ rs) = (if str_eq r.id id then r.attempts else 0) + attempts_of id rs

-- A worker that has claimed the delivery and not yet sent its request.
abbrev pub holds : String → Progress → ℕ
holds id (claimed d w) = if str_eq d.id id then 1 else 0
holds id _ = 0

unfoldable pub held : String → List Worker → ℕ
held id [] = 0
held id (w ∷ ws) = holds id w.progress + held id ws

attempts_of-update :
    (id : String) (p : Delivery → Bool) (f : Delivery → Delivery) (rs : List Delivery)
    → ((r : Delivery) → (f r).id ≡ r.id)
    → ((r : Delivery) → (f r).attempts ≡ r.attempts)
    → attempts_of id (update_where p f rs) ≡ attempts_of id rs
unfolding attempts_of update_where
attempts_of-update id p f [] same_id same = refl
attempts_of-update id p f (r ∷ rs) same_id same =
    ground (arith, same_id r, same r, attempts_of-update id p f rs same_id same)

-- The claim adds one to each row that it takes.
attempts_of-claim :
    (id : String) (d : Delivery) (rs : List Delivery)
    → attempts_of id (
        update_where
          (is_claimable d)
          (λ r. record r { attempts = d.attempts + 1; status = pending })
          rs)
      ≡ attempts_of id rs + (if str_eq d.id id then count_where (is_claimable d) rs else 0)
unfolding attempts_of update_where count_where
attempts_of-claim id d [] = ground arith
attempts_of-claim id d (r ∷ rs) =
    ground (arith, attempts_of-claim id d rs, eq_iff d.id id, eq_iff r.id d.id, eq_iff r.id id)

-- A step that touches neither counters nor requests.
abbrev Keeps : String → World → World → Type 0
Keeps id world world' =
    (attempts_of id world'.deliveries ≡ attempts_of id world.deliveries)
    × (world'.posts ≡ world.posts)

settle_step-Keeps :
    (id : String) (now : ℕ) (d : Delivery) (w : Webhook) (o : Outcome) (world : World)
    → Keeps id world (settle_step now d w o world).1
unfolding settle_step
settle_step-Keeps id now d w (succeeded code at) world =
    (attempts_of-update id _ _ world.deliveries (λ r. refl) (λ r. refl), refl)
settle_step-Keeps id now d w (disabling code at) world = (refl, refl)
settle_step-Keeps id now d w (auditing true code) world = (refl, refl)
settle_step-Keeps id now d w (auditing false code) world = (refl, refl)
settle_step-Keeps id now d w _ world =
    (attempts_of-update id _ _ world.deliveries (λ r. refl) (λ r. refl), refl)

settle_step-holds :
    (id : String) (now : ℕ) (d : Delivery) (w : Webhook) (o : Outcome) (world : World)
    → holds id (settle_step now d w o world).0 ≡ 0
unfolding settle_step
settle_step-holds id now d w (succeeded code at) world = refl
settle_step-holds id now d w _ world = refl

settle_breaker-Keeps :
    (id k : String) (cfg : Settings) (now : ℕ) (o : Outcome) (world : World)
    → Keeps id world (settle_breaker cfg now k o world)
unfolding settle_breaker
settle_breaker-Keeps id k cfg now (succeeded code at) world = (refl, refl)
settle_breaker-Keeps id k cfg now _ world = (refl, refl)

-- What holds of a step: requests and claims grow no faster than the counters.
abbrev IsPaid : String → Progress → World → Progress × World → Type 0
IsPaid id p world (p', world') =
    posts_for id world'.posts + holds id p' + attempts_of id world.deliveries
    ≤ posts_for id world.posts + holds id p + attempts_of id world'.deliveries

set_row-IsPaid :
    (id : String) (d : Delivery) (f : Delivery → Delivery) (p : Progress) (world : World)
    → ((r : Delivery) → (f r).id ≡ r.id)
    → ((r : Delivery) → (f r).attempts ≡ r.attempts)
    → IsPaid id p world (finished, set_row d f world)
set_row-IsPaid id d f p world same_id same =
    omega (arith, attempts_of-update id (λ r. str_eq r.id d.id) f world.deliveries same_id same)

gate-IsPaid :
    (id : String) (cfg : Settings) (s : Script) (now : ℕ) (d : Delivery) (w : Webhook)
    (world : World)
    → IsPaid id (selected d) world (gate cfg s now d w world)
unfolding gate
gate-IsPaid id cfg s now d w world = ground arith

on_webhook-IsPaid :
    (id : String) (cfg : Settings) (s : Script) (now : ℕ) (d : Delivery) (o : Option Webhook)
    (world : World)
    → IsPaid id (selected d) world (on_webhook cfg s now d o world)
unfolding on_webhook
on_webhook-IsPaid id cfg s now d none world = omega arith
on_webhook-IsPaid id cfg s now d (some w) world = elim (Bool-cases w.active) [
  | inl on ↦ simp on (gate-IsPaid id cfg s now d w world)
  | inr off ↦ simp off (omega arith)
]

claim-IsPaid :
    (id : String) (d : Delivery) (w : Webhook) (world : World)
    → IsPaid id (claiming d w) world (claim d w world)
unfolding claim
claim-IsPaid id d w world = elim (Bool-cases (count_where (is_claimable d) world.deliveries == 0)) [
  | inl lost ↦ rw lost (omega arith)
  | inr won ↦ rw won (ground (arith, attempts_of-claim id d world.deliveries))
]

on_verdict-IsPaid :
    (id : String) (c : Crypto) (now : ℕ) (d : Delivery) (w : Webhook) (v : Verdict) (world : World)
    → IsPaid id (claimed d w) world (on_verdict c now d w v world)
unfolding on_verdict posts_for post_of
on_verdict-IsPaid id c now d w safe world = ground arith
on_verdict-IsPaid id c now d w _ world = omega arith

step-IsPaid :
    (id : String) (cfg : Settings) (c : Crypto) (s : Script) (now : ℕ) (p : Progress)
    (world : World)
    → IsPaid id p world (step cfg c s now p world)
unfolding step on_row
step-IsPaid id cfg c s now idle world = ground arith
step-IsPaid id cfg c s now (selected d) world =
    on_webhook-IsPaid id cfg s now d (find_where (λ w. str_eq w.id d.webhook_id) world.webhooks)
      world
step-IsPaid id cfg c s now (missing d) world =
    set_row-IsPaid id d _ (missing d) world (λ r. refl) (λ r. refl)
step-IsPaid id cfg c s now (refusing d m t) world =
    set_row-IsPaid id d _ (refusing d m t) world (λ r. refl) (λ r. refl)
step-IsPaid id cfg c s now (blocking d m) world =
    set_row-IsPaid id d _ (blocking d m) world (λ r. refl) (λ r. refl)
step-IsPaid id cfg c s now (claiming d w) world = claim-IsPaid id d w world
step-IsPaid id cfg c s now (claimed d w) world = on_verdict-IsPaid id c now d w s.verdict world
step-IsPaid id cfg c s now (sent d w) world =
    let (kept, posts) =
      settle_breaker-Keeps id w.id cfg now (outcome_of cfg c now s.reply (d.attempts + 1)) world in
    rw (kept, posts) (omega arith)
step-IsPaid id cfg c s now (settling d w o) world =
    let (kept, posts) = settle_step-Keeps id now d w o world in
    rw (kept, posts, settle_step-holds id now d w o world) (omega arith)
step-IsPaid id cfg c s now finished world = omega arith

advance_at-IsPaid :
    (id : String) (cfg : Settings) (c : Crypto) (i now : ℕ) (ws : List Worker) (world : World)
    → let (ws', world') = advance_at cfg c i now ws world in
      posts_for id world'.posts + held id ws' + attempts_of id world.deliveries
      ≤ posts_for id world.posts + held id ws + attempts_of id world'.deliveries
unfolding advance_at held
advance_at-IsPaid id cfg c i now [] world = omega arith
advance_at-IsPaid id cfg c zero now (w ∷ ws) world =
    omega (arith, step-IsPaid id cfg c w.script now w.progress world)
advance_at-IsPaid id cfg c (suc i) now (w ∷ ws) world =
    omega (arith, advance_at-IsPaid id cfg c i now ws world)

-- The requests sent and the claims held for a delivery are paid for by its counter.
abbrev pub Paid : String → System → Type 0
Paid id sys =
    posts_for id sys.world.posts + held id sys.workers ≤ attempts_of id sys.world.deliveries

turn-Paid :
    (id : String) (cfg : Settings) (c : Crypto) (sys : System) (t : Turn)
    → Paid id sys
    → Paid id (turn cfg c sys t)
unfolding turn held
turn-Paid id cfg c sys (start s) h = omega arith
turn-Paid id cfg c sys (advance i now) h =
    omega (arith, advance_at-IsPaid id cfg c i now sys.workers sys.world)

-- If a delivery's counter is at least the number of its requests sent plus the number of attempts
-- that hold a claim on it, then it still is after any turns, however the attempts interleave.
pub turns-Paid :
    (id : String) (cfg : Settings) (c : Crypto) (sys : System) (ts : List Turn)
    → posts_for id sys.world.posts + held id sys.workers ≤ attempts_of id sys.world.deliveries
    → posts_for id (turns cfg c sys ts).world.posts + held id (turns cfg c sys ts).workers
      ≤ attempts_of id (turns cfg c sys ts).world.deliveries
unfolding turns
turns-Paid id cfg c sys [] h = h
turns-Paid id cfg c sys (t ∷ ts) h =
    turns-Paid id cfg c (turn cfg c sys t) ts (turn-Paid id cfg c sys t h)
