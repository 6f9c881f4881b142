-- ===== src/Ingest/Normalize.antt =====
-- `normalize` of src/app/api/events/route.ts: the audit event that a reported object becomes.
use aitp_control_plane.Prelude.{Option, none, some, String, List, [], ◌∷◌, or_else}
use aitp_control_plane.Json.{Json, str, Fields, member, as_object, object_at}
use aitp_control_plane.Uuid.{Uuid}
use aitp_control_plane.Webhooks.Rows.{AuditEvent}
use aitp_control_plane.Audit.EventId.{Dates, parse_event_timestamp}
use aitp_control_plane.Tcts.Read.{or_option, filled_string, string_array}

unfoldable pub pick_string : List (Option Json) → Option String
pick_string [] = none
pick_string (v ∷ vs) = or_option (filled_string v) (pick_string vs)

unfoldable pub pick_string_array : Option Json → Option (List String)
pick_string_array value = string_array value

-- `now` is the text of `new Date()`.
unfoldable pub normalize_timestamp : Dates → String → Option Json → String
normalize_timestamp dates now raw = or_else (parse_event_timestamp dates raw) now

abbrev pub type_of : Option Json → String
type_of (some (str s)) = s
type_of _ = "unknown"

abbrev in_fields : String → Option Fields → Option Json
in_fields k none = none
in_fields k (some fs) = member k fs

-- `raw.payload` when it is an object, else the whole of `raw`.
abbrev pub own_payload : Option Json → Option Json
own_payload none = none
own_payload (some v) = elim (as_object v) [ none ↦ none | some fs ↦ some v ]

abbrev pub payload_of : Json → Fields → Json
payload_of raw fs = or_else (own_payload (member "payload" fs)) raw

-- `fs` are the members of `raw`: an array has none of those that are read.
unfoldable pub normalize : Dates → String → Json → Fields → Uuid → AuditEvent
normalize dates now raw fs id = record {
  id = id;
  type = type_of (member "type" fs);
  ts = normalize_timestamp dates now (member "ts" fs);
  aid_a = pick_string (member "aidA" fs ∷ member "aid_a" fs ∷ member "initiator" fs ∷ []);
  aid_b = pick_string (member "aidB" fs ∷ member "aid_b" fs ∷ member "target" fs ∷ []);
  session_id = pick_string (member "sessionId" fs ∷ member "session_id" fs ∷ []);
  run_id = pick_string (
      member "runId" fs
      ∷ member "run_id" fs
      ∷ in_fields "run_id" (object_at (member "playground" fs))
      ∷ []);
  grants = pick_string_array (member "grants" fs);
  payload = payload_of raw fs;
  source = some (or_else (pick_string (member "source" fs ∷ [])) "playground");
}
