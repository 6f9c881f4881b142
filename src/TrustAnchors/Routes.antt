-- ===== src/TrustAnchors/Routes.antt =====
-- `POST /api/trust-anchors` (src/app/api/trust-anchors/route.ts) without its idempotency layer, with
-- src/lib/trust-anchors/columns.ts and existing.ts.
pub mod Posted
mod Tests
use aitp_control_plane.Prelude.{
  ℕ, Bool, true, false, Option, none, some, String, List, ◌∷◌, ◌||◌, str_eq, if◌then◌else◌,
}
use aitp_control_plane.Prelude.Tables.{find_where}
use aitp_control_plane.Json.{Json, Fields, str, member}
use aitp_control_plane.Validate.{ColumnProblem, check_column_string}
use aitp_control_plane.ApiKeys.{is_prefix}
use aitp_control_plane.Bodies.{
  Coding, Request, JsonObjectResult, ok, read_json_object, admin_json_max_bytes,
}
use aitp_control_plane.TrustAnchors.{Anchor, new_anchor, insert_anchor, holds}

-- `isHttpUrl` of a text.
unfoldable pub is_http_url : String → Bool
is_http_url s = is_prefix "http://" s || is_prefix "https://" s

abbrev pub name_max : ℕ
name_max = 128

abbrev pub url_max : ℕ
url_max = 2048

unfoldable pub check_issuer_url : Coding → String → Option ColumnProblem
check_issuer_url c v = check_column_string v url_max (some url_max) (c.byte_length v)

unfoldable pub check_jwks_url : Coding → String → Option ColumnProblem
check_jwks_url c v = check_column_string v url_max none (c.byte_length v)

-- The answers 400 of the fields.
pub data Invalid : Type 0 where
  issuer_not_http jwks_not_http : Invalid
  issuer_invalid namespace_invalid jwks_invalid label_invalid : ColumnProblem → Invalid

pub record Draft : Type 0 where
  pub namespace : String
  pub issuer_url : String
  pub jwks_url : Option String
  pub label : Option String

-- `typeof v === 'string' && v.length > 0`
abbrev non_empty : Option Json → Option String
non_empty (some (str s)) = if str_eq s "" then none else some s
non_empty _ = none

abbrev or_default : Option String → String
or_default none = "default"
or_default (some s) = s

abbrev text_at : Option Json → Option String
text_at (some (str s)) = some s
text_at _ = none

abbrev pub draft_of : String → Fields → Draft
draft_of issuer fs = record {
  namespace = or_default (non_empty (member "namespace" fs));
  issuer_url = issuer;
  jwks_url = non_empty (member "jwksUrl" fs);
  label = text_at (member "label" fs);
}

-- A problem of a column, else the next one.
abbrev pub or_next :
    (ColumnProblem → Invalid) → Option ColumnProblem → Option Invalid → Option Invalid
or_next f (some problem) next = some (f problem)
or_next f none next = next

abbrev pub label_problem : Coding → Option String → Option Invalid
label_problem c none = none
label_problem c (some s) =
    or_next label_invalid (check_column_string s name_max none (c.byte_length s)) none

abbrev pub jwks_problem : Coding → Option String → Option Invalid → Option Invalid
jwks_problem c none next = next
jwks_problem c (some s) next =
    if is_http_url s then or_next jwks_invalid (check_jwks_url c s) next else some jwks_not_http

-- The first problem of the fields in the order of the handler.
unfoldable pub field_problem : Coding → Draft → Option Invalid
field_problem c d =
    if is_http_url d.issuer_url
    then or_next issuer_invalid (check_issuer_url c d.issuer_url) (
        or_next namespace_invalid
          (check_column_string d.namespace name_max none (c.byte_length d.namespace))
          (jwks_problem c d.jwks_url (label_problem c d.label)))
    else some issuer_not_http

-- An entry of the admin log, without the context of the request.
pub record Entry : Type 0 where
  pub action : String
  pub target_id : String
  pub namespace : String
  pub issuer_url : String

pub record Plane : Type 0 where
  pub anchors : List Anchor
  pub admin_audit : List Entry

-- What the handler's calls answer: the parser, the new id, the caller and the database's clock.
pub record Calls : Type 0 where
  pub coding : Coding
  pub parse : String → Option Json
  pub id : String
  pub added_by : Option String
  pub stored : ℕ

pub data Answer : Type 0 where
  body_refused : JsonObjectResult → Answer
  invalid : Invalid → Answer
  already_exists : Option String → Answer
  created : Anchor → Answer

abbrev pub id_of : Option Anchor → Option String
id_of none = none
id_of (some a) = some a.id

unfoldable pub find_anchor_id_by_issuer : String → String → List Anchor → Option String
find_anchor_id_by_issuer namespace issuer anchors =
    id_of (find_where (holds namespace issuer) anchors)

abbrev pub row_of : Calls → Draft → Anchor
row_of calls d =
    new_anchor calls.id d.namespace d.issuer_url d.jwks_url d.label calls.added_by calls.stored

abbrev pub with_row : Plane → Anchor → List Anchor × Bool → Plane × Answer
with_row p a (rows, inserted) =
    if inserted
    then (
      record {
        anchors = rows;
        admin_audit =
            record {
              action = "trust-anchor.create";
              target_id = a.id;
              namespace = a.namespace;
              issuer_url = a.issuer_url;
            }
            ∷ p.admin_audit;
      },
      created a,
    )
    else (p, already_exists (find_anchor_id_by_issuer a.namespace a.issuer_url p.anchors))

abbrev pub with_problem : Calls → Draft → Option Invalid → Plane → Plane × Answer
with_problem calls d (some problem) p = (p, invalid problem)
with_problem calls d none p = with_row p (row_of calls d) (insert_anchor (row_of calls d) p.anchors)

abbrev pub with_issuer : Calls → Fields → Option Json → Plane → Plane × Answer
with_issuer calls fs (some (str issuer)) p =
    with_problem calls (draft_of issuer fs) (field_problem calls.coding (draft_of issuer fs)) p
with_issuer calls fs _ p = (p, invalid issuer_not_http)

abbrev pub with_body : Calls → JsonObjectResult → Plane → Plane × Answer
with_body calls (ok fs) p = with_issuer calls fs (member "issuerUrl" fs) p
with_body calls refused p = (p, body_refused refused)

unfoldable pub post_anchor : Calls → Request → Plane → Plane × Answer
post_anchor calls req p =
    with_body calls (read_json_object calls.coding calls.parse admin_json_max_bytes req) p
