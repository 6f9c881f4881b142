-- ===== src/Bodies.antt =====
-- How the body of a request is read: src/lib/http/read-body.ts and `readJsonObject` of
-- src/lib/http/validate.ts. A byte is a number; the decoder of texts and the measure of a text in
-- UTF-8 are arguments.
pub mod Within
mod Tests
use aitp_control_plane.Prelude.{
  ℕ, ◌+◌, ◌*◌, Bool, true, false, Option, none, some, String, List, [], ◌∷◌, ◌++◌, leb, ltb, length,
  if◌then◌else◌,
}
use aitp_control_plane.Json.{Json, Fields, obj}

abbrev pub Bytes : Type 0
Bytes = List ℕ

-- What `reader.read()` answers, one after the other: the end, an exception, a value, or neither an
-- end nor a value.
pub data Stream : Type 0 where
  done fails : Stream
  value : Bytes → Stream → Stream
  no_value : Stream → Stream

-- How the loop ends, with `chunks`: at the end of the stream, at a value that is too much and the
-- part of the stream that is cancelled, or by an exception.
pub data Pumped : Type 0 where
  complete : List Bytes → Pumped
  over : List Bytes → Bytes → Stream → Pumped
  broken : List Bytes → Pumped

unfoldable pub pump : ℕ → ℕ → List Bytes → Stream → Pumped
pump max total chunks done = complete chunks
pump max total chunks fails = broken chunks
pump max total chunks (no_value s) = pump max total chunks s
pump max total chunks (value v s) =
    let rest = pump max (total + length v) (chunks ++ v ∷ []) s in
    if ltb max (total + length v) then over chunks v s else rest

-- `Buffer.concat`
unfoldable pub concat : List Bytes → Bytes
concat [] = []
concat (v ∷ vs) = v ++ concat vs

pub record Coding : Type 0 where
  pub byte_length : String → ℕ
  pub decode : Bytes → String

-- `req.body`: a stream, or none and what `req.text()` answers.
pub data Body : Type 0 where
  no_stream : String → Body
  stream : Stream → Body

-- A text, a BodyTooLargeError, or another exception.
pub data Read : Type 0 where
  text : String → Read
  too_large : ℕ → Read
  thrown : Read

abbrev pub text_of : Coding → ℕ → Pumped → Read
text_of c max (complete chunks) = text (c.decode (concat chunks))
text_of c max (over chunks v s) = too_large max
text_of c max (broken chunks) = thrown

unfoldable pub read_body_text_with_limit : Coding → ℕ → Body → Read
read_body_text_with_limit c max (no_stream t) =
    if ltb max (c.byte_length t) then too_large max else text t
read_body_text_with_limit c max (stream s) = text_of c max (pump max 0 [] s)

abbrev pub manifest_body_max_bytes : ℕ
manifest_body_max_bytes = 256 * 1024

abbrev pub admin_json_max_bytes : ℕ
admin_json_max_bytes = 64 * 1024

-- What `Number` makes of a header: NaN or an infinity, a number below 0, or one with a whole part
-- and perhaps a fraction.
pub data Number : Type 0 where
  not_finite negative : Number
  at : (whole : ℕ) (has_fraction : Bool) → Number

abbrev pub exceeds : ℕ → Number → Bool
exceeds max not_finite = false
exceeds max negative = false
exceeds max (at whole has_fraction) = if has_fraction then leb max whole else ltb max whole

-- `Number(null)` is 0.
abbrev pub declared : Option Number → Number
declared none = at 0 false
declared (some n) = n

pub record Request : Type 0 where
  pub content_length : Option Number
  pub body : Body

-- A BodyTooLargeError becomes the answer 413.
unfoldable pub read_limited_body : Coding → ℕ → Request → Read
read_limited_body c max req =
    if exceeds max (declared req.content_length)
    then too_large max
    else read_body_text_with_limit c max req.body

pub data JsonObjectResult : Type 0 where
  ok : Fields → JsonObjectResult
  payload_too_large : ℕ → JsonObjectResult
  not_json not_an_object failed : JsonObjectResult

abbrev pub as_json_object : Option Json → JsonObjectResult
as_json_object none = not_json
as_json_object (some (obj fs)) = ok fs
as_json_object (some _) = not_an_object

abbrev pub parse_read : (String → Option Json) → Read → JsonObjectResult
parse_read parse (text t) = as_json_object (parse t)
parse_read parse (too_large max) = payload_too_large max
parse_read parse thrown = failed

unfoldable pub read_json_object : Coding → (String → Option Json) → ℕ → Request → JsonObjectResult
read_json_object c parse max req = parse_read parse (read_limited_body c max req)
