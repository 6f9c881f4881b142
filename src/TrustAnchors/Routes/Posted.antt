-- ===== src/TrustAnchors/Routes/Posted.antt =====
-- What `POST /api/trust-anchors` (src/app/api/trust-anchors/route.ts) makes of the table.
use aitp_control_plane.Prelude.{
  ℕ, ◌≤◌, ◌≡◌, refl, Bool, true, false, Option, none, some, String, List, [], ◌∷◌, any,
  if◌then◌else◌, arith, eq_refl,
}
use aitp_control_plane.Prelude.Tables.{find_where}
use aitp_control_plane.Json.{Json, Fields, str, member}
use aitp_control_plane.Validate.{ColumnProblem, check_column_string, count_chars, has_nul}
use aitp_control_plane.Bodies.{
  Coding, Request, JsonObjectResult, ok, read_json_object, admin_json_max_bytes,
}
use aitp_control_plane.TrustAnchors.{Anchor, insert_anchor, holds, has_id}
use aitp_control_plane.TrustAnchors.Routes.{
  is_http_url, name_max, url_max, check_issuer_url, check_jwks_url, Invalid, Draft, draft_of,
  or_next, label_problem, jwks_problem, field_problem, Plane, Calls, Answer, body_refused, invalid,
  already_exists, created, row_of, with_row, with_problem, with_issuer, with_body, post_anchor,
  find_anchor_id_by_issuer, id_of,
}

-- A text that a column of `max` characters can hold.
abbrev pub Fits : ℕ → String → Type 0
Fits max s = (has_nul s ≡ false) × (count_chars s ≤ max)

abbrev pub FitsOptional : ℕ → Option String → Type 0
FitsOptional max none = Unit
FitsOptional max (some s) = Fits max s

abbrev pub HttpOptional : Option String → Type 0
HttpOptional none = Unit
HttpOptional (some s) = is_http_url s ≡ true

pub record IsStorable (c : Coding) (a : Anchor) : Type 0 where
  pub issuer_scheme : is_http_url a.issuer_url ≡ true
  pub issuer_fits : Fits url_max a.issuer_url
  pub issuer_bytes : c.byte_length a.issuer_url ≤ url_max
  pub namespace_fits : Fits name_max a.namespace
  pub jwks_scheme : HttpOptional a.jwks_url
  pub jwks_fits : FitsOptional url_max a.jwks_url
  pub label_fits : FitsOptional name_max a.label

-- Whether an id is that of a row.
abbrev pub is_named : Option String → List Anchor → Bool
is_named none anchors = false
is_named (some id) anchors = any (has_id id) anchors

-- What a post has done.
abbrev pub IsPosted : Coding → Plane → Plane × Answer → Type 0
IsPosted c p (p', created a) =
    (p'.anchors ≡ a ∷ p.anchors)
    × (any (holds a.namespace a.issuer_url) p.anchors ≡ false)
    × IsStorable c a
IsPosted c p (p', already_exists id) = (p' ≡ p) × (is_named id p.anchors ≡ true)
IsPosted c p (p', body_refused r) = p' ≡ p
IsPosted c p (p', invalid problem) = p' ≡ p

check_column_string-Fits :
    (s : String) (max : ℕ) (bytes : Option ℕ) (n : ℕ)
    → check_column_string s max bytes n ≡ none
    → Fits max s
unfolding check_column_string
check_column_string-Fits s max bytes n e = ground arith

column_bytes :
    (s : String) (max most n : ℕ) → check_column_string s max (some most) n ≡ none → n ≤ most
unfolding check_column_string
column_bytes s max most n e = ground arith

or_next_clear :
    (f : ColumnProblem → Invalid) (o : Option ColumnProblem) (next : Option Invalid)
    → or_next f o next ≡ none
    → (o ≡ none) × (next ≡ none)
or_next_clear f none next e = (refl, e)
or_next_clear f (some problem) next e = ground arith

guard_clear :
    (b : Bool) (x : Option Invalid) (i : Invalid)
    → (if b then x else some i) ≡ none
    → (b ≡ true) × (x ≡ none)
guard_clear true x i e = (refl, e)
guard_clear false x i e = ground arith

label_clear :
    (c : Coding) (label : Option String)
    → label_problem c label ≡ none
    → FitsOptional name_max label
label_clear c none e = tt
label_clear c (some s) e = check_column_string-Fits s name_max none _ (or_next_clear _ _ none e).0

jwks_clear :
    (c : Coding) (jwks : Option String) (next : Option Invalid)
    → jwks_problem c jwks next ≡ none
    → HttpOptional jwks × FitsOptional url_max jwks × (next ≡ none)
unfolding check_jwks_url
jwks_clear c none next e = (tt, tt, e)
jwks_clear c (some s) next e =
    let (scheme, k) = guard_clear (is_http_url s) _ _ e in
    let (fits, l) = or_next_clear _ _ next k in
    (scheme, check_column_string-Fits s url_max none _ fits, l)

field_problem-IsStorable :
    (calls : Calls) (d : Draft)
    → field_problem calls.coding d ≡ none
    → IsStorable calls.coding (row_of calls d)
unfolding field_problem check_issuer_url
field_problem-IsStorable calls d e =
    let (scheme, e1) = guard_clear (is_http_url d.issuer_url) _ _ e in
    let (issuer, e2) = or_next_clear _ _ _ e1 in
    let (namespace, e3) = or_next_clear _ _ _ e2 in
    let (jwks_scheme, jwks, e4) = jwks_clear calls.coding d.jwks_url _ e3 in
    record {
      issuer_scheme = scheme;
      issuer_fits = check_column_string-Fits d.issuer_url url_max _ _ issuer;
      issuer_bytes = column_bytes d.issuer_url url_max url_max _ issuer;
      namespace_fits = check_column_string-Fits d.namespace name_max _ _ namespace;
      jwks_scheme = jwks_scheme;
      jwks_fits = jwks;
      label_fits = label_clear calls.coding d.label e4;
    }

named_before :
    (h : Bool) (a : Anchor) (anchors : List Anchor) (found : Option Anchor)
    → (h ≡ false → is_named (id_of found) anchors ≡ true)
    → is_named (id_of (if h then some a else found)) (a ∷ anchors) ≡ true
named_before true a anchors found k = ground (arith, eq_refl a.id)
named_before false a anchors none k = ground (arith, k refl)
named_before false a anchors (some x) k = ground (arith, k refl)

any-named :
    (namespace issuer : String) (anchors : List Anchor)
    → any (holds namespace issuer) anchors ≡ true
    → is_named (id_of (find_where (holds namespace issuer) anchors)) anchors ≡ true
unfolding find_where
any-named namespace issuer [] e = ground arith
any-named namespace issuer (a ∷ anchors) e =
    named_before (holds namespace issuer a) a anchors (find_where (holds namespace issuer) anchors)
      (λ h. any-named namespace issuer anchors (ground (arith, h, e)))

row-IsPosted :
    (calls : Calls) (d : Draft) (p : Plane) (b : Bool)
    → IsStorable calls.coding (row_of calls d)
    → any (holds d.namespace d.issuer_url) p.anchors ≡ b
    → IsPosted calls.coding p (
        with_row p
          (row_of calls d)
          (if b then (p.anchors, false) else (row_of calls d ∷ p.anchors, true)))
unfolding find_anchor_id_by_issuer
row-IsPosted calls d p true k e = (refl, any-named d.namespace d.issuer_url p.anchors e)
row-IsPosted calls d p false k e = (refl, e, k)

problem-IsPosted :
    (calls : Calls) (d : Draft) (p : Plane) (o : Option Invalid)
    → field_problem calls.coding d ≡ o
    → IsPosted calls.coding p (with_problem calls d o p)
unfolding insert_anchor
problem-IsPosted calls d p (some problem) e = refl
problem-IsPosted calls d p none e =
    row-IsPosted calls d p _ (field_problem-IsStorable calls d e) refl

issuer-IsPosted :
    (calls : Calls) (fs : Fields) (o : Option Json) (p : Plane)
    → IsPosted calls.coding p (with_issuer calls fs o p)
issuer-IsPosted calls fs (some (str issuer)) p =
    problem-IsPosted calls (draft_of issuer fs) p _ refl
issuer-IsPosted calls fs _ p = refl

body-IsPosted :
    (calls : Calls) (r : JsonObjectResult) (p : Plane)
    → IsPosted calls.coding p (with_body calls r p)
body-IsPosted calls (ok fs) p = issuer-IsPosted calls fs (member "issuerUrl" fs) p
body-IsPosted calls _ p = refl

-- A post of an anchor that is refused changes nothing; a conflict names a row of the table; and a
-- created anchor is one new row with a namespace and an issuer that no other row has, http(s)
-- URLs and texts that the columns and the index can hold.
pub post_anchor-IsPosted :
    (calls : Calls) (req : Request) (p : Plane) → IsPosted calls.coding p (post_anchor calls req p)
unfolding post_anchor
post_anchor-IsPosted calls req p = body-IsPosted calls _ p

-- An object whose fields have no problem is stored when no row has its namespace and issuer.
post_anchor-created :
    (calls : Calls) (req : Request) (p : Plane) (fs : Fields) (issuer : String)
    → read_json_object calls.coding calls.parse admin_json_max_bytes req ≡ ok fs
    → member "issuerUrl" fs ≡ some (str issuer)
    → field_problem calls.coding (draft_of issuer fs) ≡ none
    → any (holds (draft_of issuer fs).namespace issuer) p.anchors ≡ false
    → (post_anchor calls req p).1 ≡ created (row_of calls (draft_of issuer fs))
unfolding post_anchor insert_anchor
post_anchor-created calls req p fs issuer e1 e2 e3 e4 = rw (e1, e2, e3, e4) refl
