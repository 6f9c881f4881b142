-- ===== src/Idempotency/Tests.antt =====
-- The theorems on idempotency keys at a concrete key and table.
use aitp_control_plane.Prelude.{◌≡◌, refl, true, false, some, [], ◌∷◌}
use aitp_control_plane.Json.{null, bool}
use aitp_control_plane.Idempotency.{Storage, answered, begin, is_cacheable}
use aitp_control_plane.Idempotency.Key.{Text, normalize_key, trim, trim_start}
use aitp_control_plane.Idempotency.Laws.{as_replay, completed, replay_answers_alike, racers_agree}

-- A database that gives every value back as it is, and compares no two values as different.
abbrev exact : Storage
exact = record { jsonb = λ j. j; deep_equal = λ a b. true }

abbrev raw_key : Text
raw_key = 32 ∷ b'a' ∷ b'b' ∷ []

abbrev key : Text
key = b'a' ∷ b'b' ∷ []

normalize-raw_key : normalize_key raw_key ≡ some key
unfolding normalize_key trim trim_start
normalize-raw_key = refl

stable-201 : is_cacheable 201 ≡ true
unfolding is_cacheable
stable-201 = refl

stable-409 : is_cacheable 409 ≡ true
unfolding is_cacheable
stable-409 = refl

unstable-500 : is_cacheable 500 ≡ false
unfolding is_cacheable
unstable-500 = refl

replay_answers_alike_example :
    begin null (some raw_key) "enroll" (completed exact "enroll" key 201 (bool true) []).0
    ≡ answered (as_replay (completed exact "enroll" key 201 (bool true) []).1)
replay_answers_alike_example =
    replay_answers_alike exact null "enroll" raw_key key 201 (bool true) []
      (completed exact "enroll" key 201 (bool true) []).0 stable-201 normalize-raw_key refl

racers_agree_example :
    let first = completed exact "enroll" key 201 (bool true) [] in
    let second = completed exact "enroll" key 409 (bool false) first.0 in
    (second.0 ≡ first.0) × (second.1.status ≡ first.1.status) × (second.1.body ≡ first.1.body)
racers_agree_example =
    racers_agree exact "enroll" key 201 409 (bool true) (bool false) [] stable-201 stable-409
