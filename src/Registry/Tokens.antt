-- ===== src/Registry/Tokens.antt =====
-- Enrollment tokens: `manifestDigest`, `sign`, `verify` and `validateToken` of
-- src/lib/registry/enrollment.ts, with the test of the secret of
-- src/lib/registry/enrollment-config.ts. The payload stays the JSON value that it was parsed to.
pub mod Laws
use Prim.Native.String
use aitp_control_plane.Prelude.{
  ℕ, Bool, true, false, Option, none, some, String, List, [], ◌∷◌, ◌&&◌, not, ltb, ◌+◌, str_eq,
  if◌then◌else◌,
}
use aitp_control_plane.Json.{
  Json, null, bool, overflow, str, num, obj, end, field, Fields, member, object_at,
}
use aitp_control_plane.Audit.SignedContent.{split_dots, is_segment}
use aitp_control_plane.Tcts.Read.{filled_string}

-- `EnrollmentPayload`, `iat` and `exp` in seconds.
pub record EnrollmentPayload : Type 0 where
  pub sub : String
  pub iat : ℕ
  pub exp : ℕ
  pub jti : String
  pub msh : String

-- The payload as `JSON.parse` returns it, `decimal` being the text of a number.
abbrev pub json_of : (ℕ → String) → EnrollmentPayload → Json
json_of decimal p = obj (
    field "sub" (str p.sub) (
      field "scope" (str "register") (
        field "iat" (num (decimal p.iat)) (
          field "exp" (num (decimal p.exp))
            (field "jti" (str p.jti) (field "msh" (str p.msh) end))))))

-- What Node does: HMAC-SHA-256 and base64url of a text, SHA-256 in hexadecimal, the text that
-- `JSON.stringify` writes for a payload, decoding and parsing a segment, which is `none` when that
-- throws, and whether a number is greater than a JSON value as JavaScript compares the two.
pub record Primitives : Type 0 where
  pub hmac : String → String → String
  pub base64url : String → String
  pub sha256_hex : String → String
  pub stringify : EnrollmentPayload → String
  pub decode_segment : String → Option Json
  pub is_over : ℕ → Option Json → Bool

pub data TokenProblem : Type 0 where
  malformed bad_signature not_json wrong_scope expired wrong_subject no_jti unbound other_manifest :
      TokenProblem

pub data Checked {ℓ} (A : Type ℓ) : Type ℓ where
  refused : TokenProblem → Checked A
  accepted : A → Checked A

abbrev pub token_lifetime_secs : ℕ
token_lifetime_secs = 300

unfoldable pub manifest_digest : Primitives → String → String
manifest_digest n body = n.sha256_hex body

unfoldable pub sign : Primitives → String → EnrollmentPayload → String
sign n secret payload =
    let data' = n.base64url (n.stringify payload) in
    String.◌++◌ data' (String.◌++◌ "." (n.hmac secret data'))

-- The payload that `verifyAndIssueToken` signs, at a time in seconds.
abbrev pub payload_for : Primitives → ℕ → String → String → String → EnrollmentPayload
payload_for n now jti aid body = record {
  sub = aid;
  iat = now;
  exp = now + token_lifetime_secs;
  jti = jti;
  msh = manifest_digest n body;
}

abbrev pub decoded : Option Json → Checked Json
decoded none = refused not_json
decoded (some v) = accepted v

abbrev pub verify_parts : Primitives → String → List String → Checked Json
verify_parts n secret (data' ∷ sig ∷ []) =
    if is_segment data' && is_segment sig
    then if str_eq sig (n.hmac secret data')
      then decoded (n.decode_segment data')
      else refused bad_signature
    else refused malformed
verify_parts n secret _ = refused malformed

unfoldable pub verify : Primitives → String → String → Checked Json
verify n secret token = verify_parts n secret (split_dots token)

abbrev pub at : String → Json → Option Json
at k v = elim (object_at (some v)) [ none ↦ none | some fs ↦ member k fs ]

abbrev pub is_text : String → Option Json → Bool
is_text t (some (str s)) = str_eq s t
is_text t _ = false

-- `a === b` of two values that were parsed; two objects are never the same.
abbrev pub is_same : Json → Option Json → Bool
is_same (str s) v = is_text s v
is_same (num s) (some (num t)) = str_eq t s
is_same (bool true) (some (bool b)) = b
is_same (bool false) (some (bool b)) = not b
is_same null (some null) = true
is_same overflow (some overflow) = true
is_same _ v = false

-- What registration takes from the payload.
pub record Validated : Type 0 where
  pub jti : String
  pub exp : Option Json

abbrev pub check_msh : Primitives → String → Json → String → Option String → Checked Validated
check_msh n body v jti none = refused unbound
check_msh n body v jti (some msh) =
    if str_eq msh (manifest_digest n body)
    then accepted (record { jti = jti; exp = at "exp" v })
    else refused other_manifest

abbrev pub check_jti : Primitives → String → Json → Option String → Checked Validated
check_jti n body v none = refused no_jti
check_jti n body v (some jti) = check_msh n body v jti (filled_string (at "msh" v))

-- The checks of a payload. One that is `null` has no `scope` either: it is refused as well.
abbrev pub check_payload : Primitives → ℕ → Json → String → Json → Checked Validated
check_payload n now aid body v =
    if not (is_text "register" (at "scope" v))
    then refused wrong_scope
    else if n.is_over now (at "exp" v)
    then refused expired
    else if not (is_same aid (at "sub" v))
    then refused wrong_subject
    else check_jti n body v (filled_string (at "jti" v))

abbrev pub then_check : Checked Json → (Json → Checked Validated) → Checked Validated
then_check (refused p) f = refused p
then_check (accepted v) f = f v

-- `aid` is the manifest's, `body` the request's, `now` in seconds.
unfoldable pub validate_token : Primitives → String → ℕ → String → Json → String → Checked Validated
validate_token n secret now token aid body =
    then_check (verify n secret token) (check_payload n now aid body)
