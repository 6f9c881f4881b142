-- ===== src/Sessions.antt =====
-- The projection of handshake sessions, src/lib/sessions/monitor.ts, on the table
-- `handshake_sessions` (src/lib/db/schema.ts). `now` is the text of `new Date()`; the columns that
-- the database fills by itself, `created_at` and `updated_at` of a new row, get it too.
pub mod Laws
pub mod Trace
mod Tests
use aitp_control_plane.Prelude.{
  Bool, true, Option, none, some, String, List, [], ◌∷◌, ◌++◌, any, str_eq, or_else, leb,
  if◌then◌else◌,
}
use aitp_control_plane.Prelude.Tables.{update_where}
use aitp_control_plane.Json.{Json, str, Fields, member, as_object}
use aitp_control_plane.Validate.{count_chars}
use aitp_control_plane.Webhooks.Rows.{AuditEvent}
use aitp_control_plane.Tcts.Read.{as_string}

pub record Session : Type 0 where
  pub session_id : String
  pub aid_a : Option String
  pub aid_b : Option String
  pub status : String
  pub grants : List String
  pub run_id : Option String
  pub boundary : Option String
  pub error : Option String
  pub started_at : Option String
  pub completed_at : Option String
  pub created_at : String
  pub updated_at : String

-- A member of the payload that is a string.
abbrev string_in : String → Option Fields → Option String
string_in k none = none
string_in k (some fs) = as_string (member k fs)

unfoldable pub derive_boundary : AuditEvent → Option String
derive_boundary event = string_in "boundary" (as_object event.payload)

abbrev pub started : String → String → AuditEvent → Session
started now sid event = record {
  session_id = sid;
  aid_a = event.aid_a;
  aid_b = event.aid_b;
  status = "started";
  grants = [];
  run_id = event.run_id;
  boundary = derive_boundary event;
  error = none;
  started_at = some event.ts;
  completed_at = none;
  created_at = now;
  updated_at = now;
}

-- The column `boundary` holds 32 characters; the error of an insert over that is caught.
abbrev pub fits_boundary : Option String → Bool
fits_boundary none = true
fits_boundary (some s) = leb (count_chars s) 32

abbrev pub is_session : String → Session → Bool
is_session sid s = str_eq s.session_id sid

-- `insert … on conflict do nothing`
unfoldable pub insert_session : Session → List Session → List Session
insert_session s sessions =
    if any (is_session s.session_id) sessions then sessions else sessions ++ s ∷ []

abbrev pub complete : String → AuditEvent → Session → Session
complete now event s = record s {
  status = "complete";
  completed_at = some event.ts;
  grants = or_else event.grants [];
  updated_at = now;
}

abbrev pub fail : String → AuditEvent → Session → Session
fail now event s = record s {
  status = "failed";
  error = string_in "error" (as_object event.payload);
  updated_at = now;
}

abbrev pub project_session : String → String → AuditEvent → List Session → List Session
project_session now sid event sessions =
    if str_eq event.type "handshake.started"
    then (if fits_boundary (derive_boundary event)
        then insert_session (started now sid event) sessions
        else sessions)
    else if str_eq event.type "handshake.complete"
    then update_where (is_session sid) (complete now event) sessions
    else if str_eq event.type "handshake.failed"
    then update_where (is_session sid) (fail now event) sessions
    else sessions

-- `if (!sid) return`: an empty id is none.
abbrev pub for_session :
    Option String → (String → List Session → List Session) → List Session → List Session
for_session none f sessions = sessions
for_session (some sid) f sessions = if str_eq sid "" then sessions else f sid sessions

unfoldable pub on_event : String → AuditEvent → List Session → List Session
on_event now event sessions =
    for_session event.session_id (λ sid. project_session now sid event) sessions
