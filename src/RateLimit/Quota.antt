-- ===== src/RateLimit/Quota.antt =====
-- The quota of one bucket of src/lib/rate-limit.ts over a stretch of time.
use aitp_control_plane.Prelude.{
  ℕ, ◌+◌, ◌*◌, ◌-◌, ◌≤◌, ◌<◌, ◌≡◌, Option, some, String, List, [], ◌∷◌, arith, str_eq, eq_iff, All,
  Bool-cases, inl, inr,
}
use aitp_control_plane.Prelude.Maps.{get, get-delete_where, HasDistinctKeys}
use aitp_control_plane.RateLimit.{Limiter, gc}
use aitp_control_plane.RateLimit.Buckets.{Bucket, is_stale}
use aitp_control_plane.RateLimit.Window.{budget, budget-hit, budget-collect}
use aitp_control_plane.RateLimit.Events.{
  Request, Event, request, collect, named, checked, step, allowed_on, tally, get-checked,
  step-HasDistinctKeys,
}

-- The events happen between `start` and `start + window`, and the requests on the bucket `k`
-- carry one limit and that window. Requests on other buckets carry any positive limit.
abbrev pub IsWithin : String → ℕ → ℕ → ℕ → Event → Type 0
IsWithin k limit window start (request r) =
    (0 < r.limit)
    × (start ≤ r.now)
    × (r.now < start + window)
    × (named r ≡ k → (r.limit ≡ limit) × (r.window ≡ window))
IsWithin k limit window start (collect now) = now < start + window

module _ (k : String) (limit window start : ℕ) where
  budget-checked :
      (l : Limiter) (r : Request)
      → IsWithin k limit window start (request r)
      → allowed_on k l (request r) + budget limit (start + window) (get k (checked r l).0.buckets)
        ≤ budget limit (start + window) (get k l.buckets)
  unfolding allowed_on
  budget-checked l r (pos, after, before, same) =
      let (stored, decided) = get-checked r k l (ground arith) in
      elim (Bool-cases (str_eq (named r) k)) [
        | inl here ↦
            let e = (eq_iff (named r) k).0 here in
            let (lim, win) = same e in
            ground (arith, budget-hit limit window start r.now (get k l.buckets))
        | inr other ↦ rw (stored, other) (omega arith)
      ]

  budget-step :
      (l : Limiter) (e : Event)
      → HasDistinctKeys l.buckets
      → IsWithin k limit window start e
      → allowed_on k l e + budget limit (start + window) (get k (step l e).buckets)
        ≤ budget limit (start + window) (get k l.buckets)
  unfolding step allowed_on gc
  budget-step l (request r) h w = budget-checked l r w
  budget-step l (collect now) h w =
      rw (get-delete_where (is_stale now) k l.buckets h)
        (omega (arith, budget-collect limit (start + window) now (get k l.buckets) w))

  tally-budget :
      (l : Limiter) (es : List Event)
      → HasDistinctKeys l.buckets
      → All (IsWithin k limit window start) es
      → tally k l es ≤ budget limit (start + window) (get k l.buckets)
  unfolding tally
  tally-budget l [] h ws = omega arith
  tally-budget l (e ∷ es) h (w, ws) =
      omega (arith, budget-step l e h w, tally-budget (step l e) es (step-HasDistinctKeys l e h) ws)

budget-le : (limit end : ℕ) (found : Option Bucket) → budget limit end found ≤ 2 * limit
budget-le limit end found = ground arith

-- In any stretch of time as long as the window, at most twice the limit of requests on one bucket
-- are allowed, if all of them carry that limit and that window, whatever collections and requests
-- with a positive limit on other buckets come between.
pub tally_twice :
    (k : String) (limit window start : ℕ) (l : Limiter) (es : List Event)
    → HasDistinctKeys l.buckets
    → All (IsWithin k limit window start) es
    → tally k l es ≤ 2 * limit
tally_twice k limit window start l es h ws = omega (
  arith,
  tally-budget k limit window start l es h ws,
  budget-le limit (start + window) (get k l.buckets),
)

-- On a bucket whose window ends no sooner than the stretch, as one that began with it, at most the
-- limit less what the bucket has counted are allowed, under the same conditions.
tally_once :
    (k : String) (limit window start : ℕ) (b : Bucket) (l : Limiter) (es : List Event)
    → HasDistinctKeys l.buckets
    → get k l.buckets ≡ some b
    → start + window ≤ b.reset_at
    → All (IsWithin k limit window start) es
    → tally k l es ≤ limit - b.count
tally_once k limit window start b l es h found late ws =
    ground (arith, tally-budget k limit window start l es h ws)
