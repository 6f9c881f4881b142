-- ===== src/RateLimit/Events.antt =====
-- The limiter over any sequence of requests and collections, on any buckets.
use aitp_control_plane.Prelude.{
  ℕ, ◌+◌, ◌≡◌, false, some, String, List, [], ◌∷◌, str_eq, if◌then◌else◌, ◌==◌, refl, Bool-cases,
  inl, inr,
}
use aitp_control_plane.Prelude.Maps.{
  get, get-put, HasDistinctKeys, put-HasDistinctKeys, delete_where-HasDistinctKeys,
}
use aitp_control_plane.RateLimit.{Limiter, full_key, check, gc}
use aitp_control_plane.RateLimit.Buckets.{Decision, hit}

pub record Request : Type 0 where
  pub bucket_name : String
  pub key : String
  pub limit : ℕ
  pub window : ℕ
  pub now : ℕ

pub data Event : Type 0 where
  request : Request → Event
  collect : ℕ → Event

abbrev pub named : Request → String
named r = full_key r.bucket_name r.key

abbrev pub checked : Request → Limiter → Limiter × Decision
checked r l = check r.bucket_name r.key r.limit r.window r.now l

unfoldable pub step : Limiter → Event → Limiter
step l (request r) = (checked r l).0
step l (collect now) = gc now l

-- 1 for a request on the bucket `k` that is allowed, else 0.
unfoldable pub allowed_on : String → Limiter → Event → ℕ
allowed_on k l (request r) =
    if str_eq (named r) k then (if (checked r l).1.allowed then 1 else 0) else 0
allowed_on k l (collect now) = 0

-- How many requests on the bucket `k` a sequence of events lets through.
unfoldable pub tally : String → Limiter → List Event → ℕ
tally k l [] = 0
tally k l (e ∷ es) = allowed_on k l e + tally k (step l e) es

-- A request on an enabled bucket is a hit on that bucket, and is the only thing that changes it.
pub get-checked :
    (r : Request) (k : String) (l : Limiter)
    → (r.limit == 0) ≡ false
    → (get k (checked r l).0.buckets ≡ (
        if str_eq (named r) k
        then some (hit r.limit r.window r.now (get (named r) l.buckets)).0
        else get k l.buckets))
      × ((checked r l).1 ≡ (hit r.limit r.window r.now (get (named r) l.buckets)).1)
unfolding check
get-checked r k l h = rw h (get-put k (named r) _ l.buckets, refl)

pub step-HasDistinctKeys :
    (l : Limiter) (e : Event) → HasDistinctKeys l.buckets → HasDistinctKeys (step l e).buckets
unfolding step check gc
step-HasDistinctKeys l (request r) h = elim (Bool-cases (r.limit == 0)) [
  | inl off ↦ rw (off, HasDistinctKeys) h
  | inr on ↦ rw (on, HasDistinctKeys) (put-HasDistinctKeys (named r) _ l.buckets h)
]
step-HasDistinctKeys l (collect now) h = delete_where-HasDistinctKeys _ _ h
