-- ===== src/RateLimit/Gc.antt =====
-- `gc` of src/lib/rate-limit.ts against the requests that follow it.
use aitp_control_plane.Prelude.{
  ℕ, ◌≤◌, ◌≡◌, refl, Option, String, List, [], ◌∷◌, arith, All, Bool-cases, inl, inr, ◌==◌, true,
}
use aitp_control_plane.Prelude.Maps.{get, unless, get-delete_where, HasDistinctKeys}
use aitp_control_plane.RateLimit.{Limiter, check, gc}
use aitp_control_plane.RateLimit.Buckets.{Bucket, Decision, is_stale, hit}
use aitp_control_plane.RateLimit.Events.{Request, named, checked, get-checked}

-- The answers to a sequence of requests.
unfoldable pub decisions : Limiter → List Request → List Decision
decisions l [] = []
decisions l (r ∷ rs) = (checked r l).1 ∷ decisions (checked r l).0 rs

-- Two limiters agree on every bucket that is not stale at the time `g`.
abbrev Alike : ℕ → Limiter → Limiter → Type 0
Alike g l m =
    (k : String) → unless (is_stale g) (get k l.buckets) ≡ unless (is_stale g) (get k m.buckets)

hit_alike :
    (limit window now g : ℕ) (a b : Option Bucket)
    → g ≤ now
    → unless (is_stale g) a ≡ unless (is_stale g) b
    → hit limit window now a ≡ hit limit window now b
unfolding hit
hit_alike limit window now g a b h e = ground arith

checked_off : (r : Request) (l : Limiter) → (r.limit == 0) ≡ true → (checked r l).0 ≡ l
unfolding check
checked_off r l off = rw off

decision-Alike :
    (g : ℕ) (r : Request) (l m : Limiter)
    → g ≤ r.now
    → Alike g l m
    → (checked r l).1 ≡ (checked r m).1
unfolding check
decision-Alike g r l m h alike = ground (
  arith,
  hit_alike r.limit r.window r.now g (get (named r) l.buckets) (get (named r) m.buckets) h
      (alike (named r)),
)

checked-Alike :
    (g : ℕ) (r : Request) (l m : Limiter)
    → g ≤ r.now
    → Alike g l m
    → Alike g (checked r l).0 (checked r m).0
checked-Alike g r l m h alike k = elim (Bool-cases (r.limit == 0)) [
  | inl off ↦ rw (checked_off r l off, checked_off r m off) (alike k)
  | inr on ↦
      let same =
        hit_alike r.limit r.window r.now g (get (named r) l.buckets) (get (named r) m.buckets) h
          (alike (named r)) in
      rw ((get-checked r k l on).0, (get-checked r k m on).0, same) (ground (arith, alike k))
]

decisions-Alike :
    (g : ℕ) (l m : Limiter) (rs : List Request)
    → All (λ r. g ≤ r.now) rs
    → Alike g l m
    → decisions l rs ≡ decisions m rs
unfolding decisions
decisions-Alike g l m [] h alike = refl
decisions-Alike g l m (r ∷ rs) (late, h) alike =
    rw
      (
        decision-Alike g r l m late alike,
        decisions-Alike g (checked r l).0 (checked r m).0 rs h (checked-Alike g r l m late alike),
      )
      refl

gc-Alike : (g : ℕ) (l : Limiter) → HasDistinctKeys l.buckets → Alike g (gc g l) l
unfolding gc
gc-Alike g l h k = rw (get-delete_where (is_stale g) k l.buckets h) (ground (arith))

-- Requests made at or after a collection are all answered as they would have been without it, if
-- the map of buckets holds every key once.
gc_transparent :
    (g : ℕ) (l : Limiter) (rs : List Request)
    → HasDistinctKeys l.buckets
    → All (λ r. g ≤ r.now) rs
    → decisions (gc g l) rs ≡ decisions l rs
gc_transparent g l rs h late = decisions-Alike g (gc g l) l rs late (gc-Alike g l h)
