-- ===== src/RateLimit/Drops.antt =====
-- The drop counters that the metrics endpoint reads.
use aitp_control_plane.Prelude.{
  ℕ, ◌+◌, ◌≡◌, Bool, String, List, [], ◌∷◌, arith, str_eq, if◌then◌else◌, ◌&&◌, not, ◌==◌, eq_iff,
  true, false, or_else, Bool-cases, inl, inr,
}
use aitp_control_plane.Prelude.Maps.{Map, get, get-put}
use aitp_control_plane.RateLimit.{Limiter, check, get_drop_totals, booked}
use aitp_control_plane.RateLimit.Events.{Request, checked}

abbrev pub drop_count : String → Limiter → ℕ
drop_count name l = or_else (get name (get_drop_totals l)) 0

-- How many of a sequence of requests under one bucket name are refused.
unfoldable pub refused : String → Limiter → List Request → ℕ
refused name l [] = 0
refused name l (r ∷ rs) =
    (if str_eq r.bucket_name name && not (checked r l).1.allowed then 1 else 0)
    + refused name (checked r l).0 rs

unfoldable pub after : Limiter → List Request → Limiter
after l [] = l
after l (r ∷ rs) = after (checked r l).0 rs

drop_count-booked :
    (name j : String) (allowed : Bool) (drops : Map ℕ)
    → or_else (get name (booked j allowed drops)) 0
      ≡ or_else (get name drops) 0 + (if str_eq j name && not allowed then 1 else 0)
drop_count-booked name j true drops = ground arith
drop_count-booked name j false drops = rw get-put (ground (arith, eq_iff j name))

drop_count-checked :
    (name : String) (r : Request) (l : Limiter)
    → drop_count name (checked r l).0
      ≡ drop_count name l
        + (if str_eq r.bucket_name name && not (checked r l).1.allowed then 1 else 0)
unfolding check get_drop_totals
drop_count-checked name r l = elim (Bool-cases (r.limit == 0)) [
  | inl off ↦ rw off (ground arith)
  | inr on ↦ rw on (drop_count-booked name r.bucket_name _ l.drops)
]

-- The counter of a bucket name grows, over any requests, by exactly the number of requests under
-- that name that were refused.
drop_count-after :
    (name : String) (l : Limiter) (rs : List Request)
    → drop_count name (after l rs) ≡ drop_count name l + refused name l rs
unfolding refused after
drop_count-after name l [] = omega arith
drop_count-after name l (r ∷ rs) =
    omega (arith, drop_count-checked name r l, drop_count-after name (checked r l).0 rs)
