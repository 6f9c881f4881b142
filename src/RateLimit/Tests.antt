-- ===== src/RateLimit/Tests.antt =====
-- The theorems on the rate limiter at concrete requests.
use aitp_control_plane.Prelude.{ℕ, ◌*◌, ◌≤◌, ◌≡◌, refl, some, List, [], ◌∷◌, arith, All}
use aitp_control_plane.Prelude.Maps.{put, get, delete_where, HasDistinctKeys}
use aitp_control_plane.RateLimit.{Limiter, check, gc}
use aitp_control_plane.RateLimit.Buckets.{hit}
use aitp_control_plane.RateLimit.Events.{Request, Event, request, collect, step, allowed_on, tally}
use aitp_control_plane.RateLimit.Quota.{IsWithin, tally_twice}

abbrev at : ℕ → Request
at now = record { bucket_name = "api-key"; key = "k"; limit = 2; window = 60; now = now }

abbrev empty : Limiter
empty = record { buckets = []; drops = [] }

abbrev counted : Limiter
counted = record { buckets = ("api-key:k", record { count = 1; reset_at = 160 }) ∷ []; drops = [] }

abbrev burst : List Event
burst = request (at 100) ∷ request (at 110) ∷ collect 111 ∷ request (at 120) ∷ []

tally-burst : tally "api-key:k" empty burst ≡ 2
unfolding tally allowed_on step check hit gc put get delete_where
tally-burst = refl

within : (t : ℕ) → 100 ≤ t → t ≤ 150 → IsWithin "api-key:k" 2 60 100 (request (at t))
within t a b = (omega arith, a, omega arith, λ e. (refl, refl))

burst-IsWithin : All (IsWithin "api-key:k" 2 60 100) burst
burst-IsWithin = (
  within 100 (omega arith) (omega arith),
  (
    within 110 (omega arith) (omega arith),
    (omega arith, (within 120 (omega arith) (omega arith), tt)),
  ),
)

tally_twice_example : tally "api-key:k" empty burst ≤ 2 * 2
tally_twice_example = tally_twice "api-key:k" 2 60 100 empty burst tt burst-IsWithin

counted-HasDistinctKeys : HasDistinctKeys counted.buckets
unfolding get
counted-HasDistinctKeys = (refl, tt)

counted-get : get "api-key:k" counted.buckets ≡ some (record { count = 1; reset_at = 160 })
unfolding get
counted-get = refl
