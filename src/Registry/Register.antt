-- ===== src/Registry/Register.antt =====
-- `POST /api/registry/agents` (src/app/api/registry/agents/route.ts), the part that
-- `withIdempotency` wraps, up to the answer: what it checks, in which order, and the registration.
-- The audit event and the audit row are told of, not stored.
pub mod Admission
use aitp_control_plane.Prelude.{
  ℕ, ◌/◌, Bool, true, false, Option, none, some, String, List, [], ◌∷◌, ◌&&◌, not, str_eq, or_else,
  if◌then◌else◌,
}
use aitp_control_plane.Json.{
  Json, null, bool, num, overflow, str, arr, obj, Items, nil, cons, Fields, member, object_at,
}
use aitp_control_plane.Validate.{ColumnProblem, check_column_string}
use aitp_control_plane.Registry.{RegisterInput, Registry, register_consuming_jti}
use aitp_control_plane.Registry.Expiry.{supported_manifest_version}
use aitp_control_plane.Registry.Tokens.{
  Primitives, TokenProblem, Checked, refused, accepted, Validated, validate_token,
}
use aitp_control_plane.Registry.Columns.{
  Readings, ManifestProblem, check_manifest_columns, given, display_name_of,
}

pub data Answer : Type 0 where
  body_invalid missing_aid misconfigured version_unsupported manifest_expired namespace_not_a_string
        token_replayed :
      Answer
  token_invalid : TokenProblem → Answer
  header_namespace : ColumnProblem → Answer
  own_namespace : ColumnProblem → Answer
  manifest_invalid : ManifestProblem → Answer
  -- With the event `agent.registered`: the aid, the display name and the namespace.
  registered : String → String → String → Answer

-- The service, when its secret can be used, and what JavaScript does with numbers and texts:
-- `JSON.parse`, which is `none` when it throws, and the time of a token's `exp`.
pub record Service : Type 0 where
  pub secret : Option String
  pub primitives : Primitives
  pub readings : Readings
  pub parse : String → Option Json
  pub exp_millis : Option Json → ℕ

pub record Request : Type 0 where
  pub token : String
  pub body : String
  pub header_namespace : Option String
  -- `Date.now()` and the clock of the database
  pub now : ℕ
  pub stored : ℕ

abbrev namespace_max : ℕ
namespace_max = 128

-- `!v`
abbrev pub is_falsy : Readings → Option Json → Bool
is_falsy r none = true
is_falsy r (some null) = true
is_falsy r (some (bool b)) = not b
is_falsy r (some (num t)) = r.is_zero t
is_falsy r (some (str s)) = str_eq s ""
is_falsy r (some _) = false

-- `manifest.aid` where the manifest is an object.
abbrev pub inner : String → Option Fields → Option Json
inner k none = none
inner k (some m) = member k m

abbrev pub text_or : String → Json → String
text_or other (str s) = s
text_or other _ = other

-- Read only of a manifest whose columns were checked: an array of texts, or nothing.
unfoldable pub texts : Items → List String
texts nil = []
texts (cons (str s) vs) = s ∷ texts vs
texts (cons _ vs) = texts vs

abbrev caps_of : Option Json → List String
caps_of (some (arr vs)) = texts vs
caps_of _ = []

abbrev endpoint_of : Option Json → String
endpoint_of (some v) = text_or "" v
endpoint_of none = ""

-- `manifest.expires_at ? … : null`
abbrev pub expires_of : Readings → Option Json → Option ℕ
expires_of r (some (num t)) = if r.is_zero t then none else some (r.millis t)
expires_of r _ = none

abbrev pub expires_soon : Readings → ℕ → Option Json → Bool
expires_soon r now (some (num t)) = not (r.is_zero t) && r.is_soon now t
expires_soon r now _ = false

abbrev is_version : Option Json → Bool
is_version (some (str s)) = str_eq s supported_manifest_version
is_version _ = false

abbrev pub register_input : Service → Request → Fields → Json → Option String → RegisterInput
register_input sv req m aid namespace = record {
  aid = text_or "" aid;
  display_name = text_or "" (display_name_of m aid);
  handshake_endpoint = endpoint_of (member "handshake_endpoint" m);
  offered_caps = caps_of (given (member "offered_capabilities" m));
  manifest_json = req.body;
  manifest_expires_at = expires_of sv.readings (member "expires_at" m);
  org = none;
  cloud = none;
  namespace = namespace;
}

abbrev pub answer_of : RegisterInput → Registry × Bool → Registry × Answer
answer_of input (r, true) =
    (r, registered input.aid input.display_name (or_else input.namespace "default"))
answer_of input (r, false) = (r, token_replayed)

abbrev pub consume :
    Service → Request → Fields → Json → Validated → Option String → Registry → Registry × Answer
consume sv req m aid v namespace r =
    let input = register_input sv req m aid namespace in
    answer_of input (register_consuming_jti req.now req.stored v.jti (sv.exp_millis v.exp) input r)

-- `headerNamespace ?? extNamespace`, the latter checked only when there is no header.
abbrev pub with_own :
    Service
    → Request
    → Fields
    → Json
    → Validated
    → String
    → Option ColumnProblem
    → Registry
    → Registry × Answer
with_own sv req m aid v s (some p) r = (r, own_namespace p)
with_own sv req m aid v s none r = consume sv req m aid v (some s) r

abbrev pub with_namespace :
    Service
    → Request
    → Fields
    → Json
    → Validated
    → Option Json
    → Option String
    → Registry
    → Registry × Answer
with_namespace sv req m aid v none header r = consume sv req m aid v header r
with_namespace sv req m aid v (some (str s)) none r =
    with_own sv req m aid v s (check_column_string s namespace_max none 0) r
with_namespace sv req m aid v (some (str s)) (some h) r = consume sv req m aid v (some h) r
with_namespace sv req m aid v (some _) header r = (r, namespace_not_a_string)

abbrev pub checked :
    Service
    → Request
    → Fields
    → Json
    → Validated
    → Option ManifestProblem
    → Registry
    → Registry × Answer
checked sv req m aid v (some p) r = (r, manifest_invalid p)
checked sv req m aid v none r =
    if not (is_version (member "version" m))
    then (r, version_unsupported)
    else if expires_soon sv.readings req.now (member "expires_at" m)
    then (r, manifest_expired)
    else with_namespace sv req m aid v (inner "namespace" (object_at (member "extensions" m)))
        req.header_namespace r

abbrev pub header_problem : Option String → Option ColumnProblem
header_problem none = none
header_problem (some h) = check_column_string h namespace_max none 0

abbrev pub validated :
    Service
    → Request
    → Fields
    → Json
    → Option ColumnProblem
    → Checked Validated
    → Registry
    → Registry × Answer
validated sv req m aid header (refused p) r = (r, token_invalid p)
validated sv req m aid (some p) (accepted v) r = (r, header_namespace p)
validated sv req m aid none (accepted v) r =
    checked sv req m aid v (check_manifest_columns sv.readings (obj m)) r

abbrev pub with_secret :
    Service → Request → Fields → Json → Option String → Registry → Registry × Answer
with_secret sv req m aid none r = (r, misconfigured)
with_secret sv req m aid (some secret) r =
    validated sv req m aid (header_problem req.header_namespace)
      (validate_token sv.primitives secret (req.now / 1000) req.token aid req.body) r

-- `if (!manifest?.aid)`
abbrev pub with_aid : Service → Request → Fields → Option Json → Registry → Registry × Answer
with_aid sv req m none r = (r, missing_aid)
with_aid sv req m (some aid) r =
    let rest = with_secret sv req m aid sv.secret r in
    if is_falsy sv.readings (some aid) then (r, missing_aid) else rest

abbrev pub with_manifest : Service → Request → Option Fields → Registry → Registry × Answer
with_manifest sv req none r = (r, missing_aid)
with_manifest sv req (some m) r = with_aid sv req m (member "aid" m) r

abbrev pub parsed_body : Service → Request → Option Json → Registry → Registry × Answer
parsed_body sv req (some (obj envelope)) r =
    with_manifest sv req (object_at (member "manifest" envelope)) r
parsed_body sv req _ r = (r, body_invalid)

unfoldable pub post_agents : Service → Request → Registry → Registry × Answer
post_agents sv req r = parsed_body sv req (sv.parse req.body) r
