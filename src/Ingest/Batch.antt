-- ===== src/Ingest/Batch.antt =====
-- What `POST /api/events` (src/app/api/events/route.ts) makes of a parsed body before it stores
-- anything: the list of events, the candidates, the items that are dropped and those that remain.
use aitp_control_plane.Prelude.{
  ℕ, suc, ◌+◌, Bool, true, false, Option, none, some, String, List, [], ◌∷◌, ◌++◌, ltb, any, length,
  or_else, if◌then◌else◌,
}
use aitp_control_plane.Json.{Json, null, arr, obj, Fields, member, items, as_object}
use aitp_control_plane.Uuid.{Uuid, uuid_eq}
use aitp_control_plane.Webhooks.Rows.{AuditEvent}
use aitp_control_plane.Audit.EventId.{Ids, event_id_for}
use aitp_control_plane.Ingest.Normalize.{normalize}
use aitp_control_plane.Ingest.Items.{Reason, ItemProblem, item_problem}

-- What JavaScript and Node provide: the event ids' parts, `isWellFormed`, and the length of the
-- text that `JSON.stringify` gives.
pub record Runtime : Type 0 where
  pub ids : Ids
  pub is_well_formed : String → Bool
  pub stringify_length : Json → ℕ

-- One request: the key of its sender, the text of `new Date()`, and what `randomUUID` returns for
-- the item at an index.
pub record Request : Type 0 where
  pub body : Json
  pub producer_key : Option String
  pub now : String
  pub random : ℕ → Uuid

abbrev pub max_batch_events : ℕ
max_batch_events = 500

abbrev pub max_event_payload_bytes : ℕ
max_event_payload_bytes = 65536

abbrev pub max_reported_errors : ℕ
max_reported_errors = 20

abbrev events_in : Option Json → Option (List Json)
events_in none = some []
events_in (some null) = some []
events_in (some (arr xs)) = some (items xs)
events_in (some _) = none

-- `rawEvents`; none for `events` that are not an array.
unfoldable pub raw_events : Json → Option (List Json)
raw_events (arr xs) = some (items xs)
raw_events (obj fs) = events_in (member "events" fs)
raw_events _ = some []

pub record Candidate : Type 0 where
  pub index : ℕ
  pub raw : Json
  pub fields : Fields
  pub event : AuditEvent
  pub problem : Option ItemProblem

abbrev pub candidate_of : Runtime → String → ℕ → Json → Fields → Candidate
candidate_of run now index raw fields =
    let event = normalize run.ids.dates now raw fields [] in
    record {
      index = index;
      raw = raw;
      fields = fields;
      event = event;
      problem = item_problem run.is_well_formed event;
    }

-- An item that is not an object is passed over.
abbrev pub push_candidate :
    Runtime → String → ℕ → Json → Option Fields → List Candidate → List Candidate
push_candidate run now index raw none rest = rest
push_candidate run now index raw (some fields) rest = candidate_of run now index raw fields ∷ rest

unfoldable pub candidates : Runtime → String → ℕ → List Json → List Candidate
candidates run now index [] = []
candidates run now index (e ∷ es) =
    push_candidate run now index e (as_object e) (candidates run now (suc index) es)

abbrev pub is_measured : Option ItemProblem → Bool
is_measured none = true
is_measured (some p) = if p.too_deep then false else true

-- The size and the type of the first event over the limit.
unfoldable pub oversized : Runtime → List Candidate → Option (ℕ × String)
oversized run [] = none
oversized run (c ∷ cs) =
    let size = run.stringify_length c.event.payload in
    let later = oversized run cs in
    if is_measured c.problem
    then if ltb max_event_payload_bytes size then some (size, c.event.type) else later
    else later

pub record ItemError : Type 0 where
  pub index : ℕ
  pub field : String
  pub reason : Reason

-- `normalized`, `errors` and `dropped`
pub record Sorted : Type 0 where
  pub normalized : List AuditEvent
  pub errors : List ItemError
  pub dropped : ℕ

-- The canonical JSON of an event is always written, so that the default is not taken.
abbrev pub event_id : Runtime → Request → Candidate → Uuid
event_id run req c =
    let random = req.random c.index in
    or_else (event_id_for run.ids c.fields req.producer_key random) random

abbrev pub accept : Runtime → Request → Candidate → Sorted → Sorted
accept run req c s = record s {
  normalized = s.normalized ++ record c.event { id = event_id run req c } ∷ [];
}

abbrev pub drop_item : Candidate → ItemProblem → Sorted → Sorted
drop_item c p s = record s {
  dropped = s.dropped + 1;
  errors =
      if ltb (length s.errors) max_reported_errors
      then s.errors ++ record { index = c.index; field = p.field; reason = p.reason } ∷ []
      else s.errors;
}

abbrev pub sort_item : Runtime → Request → Candidate → Option ItemProblem → Sorted → Sorted
sort_item run req c none s = accept run req c s
sort_item run req c (some p) s = drop_item c p s

unfoldable pub sort_items : Runtime → Request → List Candidate → Sorted → Sorted
sort_items run req [] s = s
sort_items run req (c ∷ cs) s = sort_items run req cs (sort_item run req c c.problem s)

abbrev pub nothing_sorted : Sorted
nothing_sorted = record { normalized = []; errors = []; dropped = 0 }

abbrev pub has_id : Uuid → List AuditEvent → Bool
has_id id events = any (λ e. uuid_eq e.id id) events

-- The loop over `normalized` with `unique`, whose ids `seenIds` holds.
unfoldable pub unique_from : List AuditEvent → List AuditEvent → List AuditEvent
unique_from unique [] = unique
unique_from unique (e ∷ es) =
    unique_from (if has_id e.id unique then unique else unique ++ e ∷ []) es
