-- ===== src/TrustAnchors/Routes/Tests.antt =====
-- Posts of anchors at a concrete table.
use aitp_control_plane.Prelude.{
  ◌≡◌, refl, Option, none, some, String, [], ◌∷◌, ◌==◌, str_eq, length, if◌then◌else◌,
}
use aitp_control_plane.Prelude.Tables.{find_where}
use aitp_control_plane.Json.{Json, str, obj, end, field, member}
use aitp_control_plane.Validate.{check_column_string, has_nul, count_chars}
use aitp_control_plane.ApiKeys.{is_prefix}
use aitp_control_plane.Bodies.{
  Bytes, done, value, Request, stream, read_json_object, read_limited_body,
  read_body_text_with_limit, pump, concat,
}
use aitp_control_plane.TrustAnchors.{insert_anchor}
use aitp_control_plane.TrustAnchors.Routes.{
  Plane, Calls, Answer, created, already_exists, invalid, jwks_not_http, row_of, draft_of,
  post_anchor, field_problem, is_http_url, check_issuer_url, find_anchor_id_by_issuer,
}
use aitp_control_plane.TrustAnchors.Routes.Posted.{IsPosted, post_anchor-IsPosted}

-- The length of a body decides its text: one byte is a body with a JWKS URL that is no URL.
abbrev decode : Bytes → String
decode bs = if length bs == 1 then "ftp" else "plain"

abbrev parse : String → Option Json
parse t = some (
    obj (
      field "issuerUrl" (str "https://a")
        (if str_eq t "ftp" then field "jwksUrl" (str "ftp://a") end else end)))

abbrev calls : Calls
calls = record {
  coding = record { byte_length = count_chars; decode = decode };
  parse = parse;
  id = "1";
  added_by = none;
  stored = 5;
}

abbrev posting : Bytes → Request
posting bs = record { content_length = none; body = stream (value bs done) }

abbrev empty : Plane
empty = record { anchors = []; admin_audit = [] }

post_anchor-IsPosted_example :
    IsPosted calls.coding empty (post_anchor calls (posting (b'{' ∷ b'}' ∷ [])) empty)
post_anchor-IsPosted_example = post_anchor-IsPosted calls (posting (b'{' ∷ b'}' ∷ [])) empty

abbrev once : Plane × Answer
once = post_anchor calls (posting (b'{' ∷ b'}' ∷ [])) empty

is_created :
    once.1 ≡ created (row_of calls (draft_of "https://a" (field "issuerUrl" (str "https://a") end)))
unfolding post_anchor read_json_object read_limited_body read_body_text_with_limit pump concat
    field_problem is_http_url is_prefix check_issuer_url check_column_string has_nul count_chars
    insert_anchor member
is_created = refl

is_held : (post_anchor calls (posting (b'{' ∷ b'}' ∷ [])) once.0).1 ≡ already_exists (some "1")
unfolding post_anchor read_json_object read_limited_body read_body_text_with_limit pump concat
    field_problem is_http_url is_prefix check_issuer_url check_column_string has_nul count_chars
    insert_anchor member find_anchor_id_by_issuer find_where
is_held = refl

is_no_url : (post_anchor calls (posting (0 ∷ [])) empty).1 ≡ invalid jwks_not_http
unfolding post_anchor read_json_object read_limited_body read_body_text_with_limit pump concat
    field_problem is_http_url is_prefix check_issuer_url check_column_string has_nul count_chars
    member
is_no_url = refl
