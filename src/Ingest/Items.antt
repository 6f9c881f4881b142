-- ===== src/Ingest/Items.antt =====
-- `itemProblem` of src/app/api/events/route.ts: the first reason why an event cannot be stored.
use aitp_control_plane.Prelude.{
  ℕ, Bool, true, false, Option, none, some, String, List, [], ◌∷◌, or_else, if◌then◌else◌,
}
use aitp_control_plane.Json.{Json, str, arr, Items, nil, cons}
use aitp_control_plane.Validate.{ColumnProblem, check_column_string}
use aitp_control_plane.Webhooks.Rows.{AuditEvent}
use aitp_control_plane.Ingest.Values.{ValueProblem, too_deep, json_value_problem}

-- A field of an event with the characters that its column holds.
pub record TextField : Type 0 where
  pub name : String
  pub text : AuditEvent → Option String
  pub max : ℕ

abbrev pub text_field_limits : List TextField
text_field_limits =
    record { name = "type"; text = λ e. some e.type; max = 128 }
    ∷ record { name = "aidA"; text = λ e. e.aid_a; max = 512 }
    ∷ record { name = "aidB"; text = λ e. e.aid_b; max = 512 }
    ∷ record { name = "sessionId"; text = λ e. e.session_id; max = 255 }
    ∷ record { name = "runId"; text = λ e. e.run_id; max = 255 }
    ∷ record { name = "source"; text = λ e. e.source; max = 128 }
    ∷ []

pub data Reason : Type 0 where
  value : ValueProblem → Reason
  column : ColumnProblem → Reason

pub record ItemProblem : Type 0 where
  pub field : String
  pub reason : Reason
  pub too_deep : Bool

abbrev pub is_too_deep : ValueProblem → Bool
is_too_deep too_deep = true
is_too_deep _ = false

abbrev pub value_at : String → ValueProblem → ItemProblem
value_at field p = record { field = field; reason = value p; too_deep = is_too_deep p }

-- The walk always answers, so that the default is not taken.
abbrev pub problem_in : (String → Bool) → Json → Option ValueProblem
problem_in w v = or_else (json_value_problem w v) none

abbrev column_problem : TextField → Option String → Option ItemProblem
column_problem f none = none
column_problem f (some s) = elim (check_column_string s f.max none 0) [
  | none ↦ none
  | some p ↦ some (record { field = f.name; reason = column p; too_deep = false })
]

-- The first text field over its limit.
unfoldable pub text_problem : List TextField → AuditEvent → Option ItemProblem
text_problem [] event = none
text_problem (f ∷ fs) event = elim (column_problem f (f.text event)) [
  | some p ↦ some p
  | none ↦ text_problem fs event
]

abbrev pub json_strings : List String → Items
json_strings [] = nil
json_strings (s ∷ ss) = cons (str s) (json_strings ss)

abbrev value_problem_at : String → Option ValueProblem → Option ItemProblem
value_problem_at field none = none
value_problem_at field (some p) = some (value_at field p)

abbrev grants_problem : (String → Bool) → Option (List String) → Option ItemProblem
grants_problem w none = none
grants_problem w (some grants) =
    value_problem_at "grants" (problem_in w (arr (json_strings grants)))

abbrev first_of : Option ItemProblem → Option ItemProblem → Option ItemProblem
first_of (some p) later = some p
first_of none later = later

-- The rest, when the payload is not too deep.
abbrev other_problem : (String → Bool) → AuditEvent → Option ValueProblem → Option ItemProblem
other_problem w event payload_problem =
    first_of (text_problem text_field_limits event)
      (first_of (grants_problem w event.grants) (value_problem_at "payload" payload_problem))

abbrev ranked : (String → Bool) → AuditEvent → Option ValueProblem → Option ItemProblem
ranked w event none = other_problem w event none
ranked w event (some p) =
    let rest = other_problem w event (some p) in
    if is_too_deep p then some (value_at "payload" p) else rest

unfoldable pub item_problem : (String → Bool) → AuditEvent → Option ItemProblem
item_problem w event = ranked w event (problem_in w event.payload)
