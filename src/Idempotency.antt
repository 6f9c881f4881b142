-- ===== src/Idempotency.antt =====
-- Idempotency keys, src/lib/idempotency.ts. A header value is the list of its UTF-16 units. The
-- handler runs between the look-up of the key and the insert of its result, and other requests may
-- have changed the table meanwhile: the look-up and what follows the handler are two functions.
pub mod Key
pub mod Laws
mod Tests
use aitp_control_plane.Prelude.{
  ℕ, Bool, true, false, Option, none, some, String, List, [], ◌∷◌, ◌++◌, ◌&&◌, not, ◌==◌, str_eq,
  if◌then◌else◌,
}
use aitp_control_plane.Prelude.Tables.{find_where}
use aitp_control_plane.Json.{Json, null}
use Key.{Text, text_eq, normalize_key}

-- A handler's body: what `JSON.parse(JSON.stringify(body))` makes of it, or one that JSON cannot
-- represent.
pub data Body : Type 0 where
  encodable : Json → Body
  unencodable : Body

pub record IdempotentResult : Type 0 where
  pub status : ℕ
  pub body : Body

pub record Row : Type 0 where
  pub scope : String
  pub key : Text
  pub response_status : ℕ
  pub response_body : Json

pub record Reply : Type 0 where
  pub status : ℕ
  pub body : Option Json
  pub replayed : Bool

abbrev pub among : List ℕ → ℕ → Bool
among [] n = false
among (k ∷ ks) n = if k == n then true else among ks n

abbrev pub cacheable_statuses : List ℕ
cacheable_statuses = 200 ∷ 201 ∷ 202 ∷ 204 ∷ 400 ∷ 409 ∷ 422 ∷ []

abbrev pub null_body_statuses : List ℕ
null_body_statuses = 101 ∷ 204 ∷ 205 ∷ 304 ∷ []

unfoldable pub is_cacheable : ℕ → Bool
is_cacheable status = among cacheable_statuses status

abbrev pub normalize_body : Body → Option Json
normalize_body (encodable j) = some j
normalize_body unencodable = none

-- `makeResponse`: a status that takes no body has none, and a body that JSON cannot represent is
-- sent as null.
unfoldable pub make_response : ℕ → Body → Bool → Reply
make_response status body replayed =
    if among null_body_statuses status
    then (record { status = status; body = none; replayed = replayed })
    else (record {
      status = status;
      body = some (elim (normalize_body body) [ none ↦ null | some j ↦ j ]);
      replayed = replayed;
    })

abbrev pub of_row : Row → Bool → Reply
of_row r replayed = make_response r.response_status (encodable r.response_body) replayed

abbrev pub is_keyed : String → Text → Row → Bool
is_keyed scope key r = str_eq r.scope scope && text_eq r.key key

unfoldable pub find_row : String → Text → List Row → Option Row
find_row scope key rows = find_where (is_keyed scope key) rows

-- How a request starts: answered at once, or its handler is to run, under a key or without one.
pub data Start : Type 0 where
  answered : Reply → Start
  unkeyed : Start
  keyed : Text → Start

-- The `400 IDEMPOTENCY_KEY_INVALID` answer, whose body is the argument.
unfoldable pub begin : Json → Option Text → String → List Row → Start
begin invalid none scope rows = unkeyed
begin invalid (some raw) scope rows = elim (normalize_key raw) [
  | none ↦ answered (make_response 400 (encodable invalid) false)
  | some key ↦ elim (find_row scope key rows) [
    | some r ↦ answered (of_row r true)
    | none ↦ keyed key
  ]
]

-- The database, which the program does not implement: how `jsonb` gives a value back, and
-- `isDeepStrictEqual`.
pub record Storage : Type 0 where
  pub jsonb : Json → Json
  pub deep_equal : Json → Json → Bool

-- `insert … on conflict do nothing`
unfoldable pub insert_row : Storage → String → Text → ℕ → Json → List Row → List Row
insert_row st scope key status body rows = elim (find_row scope key rows) [
  | some r ↦ rows
  | none ↦
      rows
      ++ record {
        scope = scope;
        key = key;
        response_status = status;
        response_body = st.jsonb body;
      }
        ∷ []
]

-- After the insert, the row that is there is the answer: ours, or that of a racing peer.
unfoldable pub answer_of_winner : Storage → String → Text → ℕ → Json → List Row → Reply
answer_of_winner st scope key status body rows = elim (find_row scope key rows) [
  | some r ↦ of_row r (not (r.response_status == status && st.deep_equal r.response_body body))
  | none ↦ make_response status (encodable body) false
]

-- The rest of `withIdempotency` after the handler of a keyed request; `stored` says whether the
-- insert went through or threw.
unfoldable pub conclude :
    Storage → Bool → String → Text → IdempotentResult → List Row → List Row × Reply
conclude st stored scope key result rows =
    if is_cacheable result.status
    then elim (normalize_body result.body) [
      | none ↦ (rows, make_response result.status result.body false)
      | some body ↦
          let rows' = insert_row st scope key result.status body rows in
          if stored
          then (rows', answer_of_winner st scope key result.status body rows')
          else (rows, make_response result.status (encodable body) false)
    ]
    else (rows, make_response result.status result.body false)
