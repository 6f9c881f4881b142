-- ===== src/Bodies/Tests.antt =====
-- Concrete bodies.
use aitp_control_plane.Prelude.{
  ◌≡◌, refl, true, Option, none, some, String, [], ◌∷◌, length, if◌then◌else◌, ◌==◌, str_eq,
}
use aitp_control_plane.Json.{Json, obj, end, null}
use aitp_control_plane.Bodies.{
  Bytes, Stream, done, fails, value, no_value, Coding, too_large, exceeds, declared, at,
  read_limited_body, pump, ok, payload_too_large, failed, read_json_object, admin_json_max_bytes,
  read_body_text_with_limit, concat,
}
use aitp_control_plane.Bodies.Within.{
  whole, bytes_of, is_ended, IsWithin, streamed, read_limited_body-IsWithin,
}

-- The length of a body decides its text.
abbrev decode : Bytes → String
decode bs = if length bs == 2 then "{}" else "null"

abbrev coding : Coding
coding = record { byte_length = λ s. 2; decode = decode }

abbrev parse : String → Option Json
parse t = if str_eq t "{}" then some (obj end) else some null

abbrev braces : Stream
braces = value (b'{' ∷ []) (no_value (value (b'}' ∷ []) done))

read_limited_body-IsWithin_example :
    (read_limited_body coding 1 (streamed none braces)
      ≡ (if exceeds 1 (declared none) then too_large 1 else whole coding 1 braces))
    × IsWithin 1 (bytes_of braces) (is_ended braces) (pump 1 0 [] braces)
read_limited_body-IsWithin_example = read_limited_body-IsWithin coding 1 none braces

two_chunks : read_json_object coding parse 2 (streamed none braces) ≡ ok end
unfolding read_json_object read_limited_body read_body_text_with_limit pump concat
two_chunks = refl

too_long_for_one : read_json_object coding parse 1 (streamed none braces) ≡ payload_too_large 1
unfolding read_json_object read_limited_body read_body_text_with_limit pump concat
too_long_for_one = refl

one_more_declared :
    read_json_object coding parse admin_json_max_bytes
      (streamed (some (at admin_json_max_bytes true)) braces)
    ≡ payload_too_large admin_json_max_bytes
unfolding read_json_object read_limited_body
one_more_declared = refl

broken_off : read_json_object coding parse 2 (streamed none (value [] fails)) ≡ failed
unfolding read_json_object read_limited_body read_body_text_with_limit pump concat
broken_off = refl
