-- ===== src/Audit/EventId.antt =====
-- Event ids and event times, src/lib/audit/event-id.ts. JavaScript's dates, SHA-256 and
-- `randomUUID` are parameters.
pub mod Laws
use Prim.Native.String
use mathlib.Core.Option
use aitp_control_plane.Prelude.{
  ℕ, Bool, true, false, Option, none, some, String, List, [], ◌∷◌, ◌&&◌, leb, or_else,
  if◌then◌else◌,
}
use aitp_control_plane.Json.{Json, str, num, obj, Fields, member}
use aitp_control_plane.Uuid.{Uuid, uuid_from_digest}
use aitp_control_plane.Audit.Canonical.{Printer, canonical_json}

-- A year counted from the year 0, or backwards from it.
pub data Year : Type 0 where
  from_zero before_zero : ℕ → Year

pub record UtcDate : Type 0 where
  pub utc_full_year : Year
  pub iso_string : String

-- `new Date`, which is `none` for an Invalid Date, of a text and of a number's text: of the number
-- itself and of a thousand times it. A number that is not finite is not among the numbers.
pub record Dates : Type 0 where
  pub of_text : String → Option UtcDate
  pub is_below_1e12 : String → Bool
  pub of_millis : String → Option UtcDate
  pub of_seconds : String → Option UtcDate

abbrev in_storable_year : Year → Bool
in_storable_year (from_zero y) = leb 1 y && leb y 9999
in_storable_year (before_zero y) = false

unfoldable pub in_storable_range : Option UtcDate → Bool
in_storable_range none = false
in_storable_range (some d) = in_storable_year d.utc_full_year

abbrev storable_iso : Option UtcDate → Option String
storable_iso d = if in_storable_range d then Option.map (λ d. d.iso_string) d else none

unfoldable pub parse_event_timestamp : Dates → Option Json → Option String
parse_event_timestamp dates (some (str s)) = storable_iso (dates.of_text s)
parse_event_timestamp dates (some (num n)) =
    storable_iso (if dates.is_below_1e12 n then dates.of_seconds n else dates.of_millis n)
parse_event_timestamp dates _ = none

pub record Ids : Type 0 where
  pub dates : Dates
  pub quote : String → String
  pub decode_segment : String → Option Json
  pub sha256 : String → List ℕ

abbrev pub signed_printer : Ids → Printer
signed_printer ids = record {
  quote = ids.quote;
  decode_segment = ids.decode_segment;
  signed_content = true;
}

-- What is hashed before the event.
abbrev pub event_id_prefix : Option String → String
event_id_prefix producer_key =
    String.◌++◌ "aitp-event:v2\0" (String.◌++◌ (or_else producer_key "") "\0")

abbrev pub content_id : Ids → Option String → String → Uuid
content_id ids producer_key canonical =
    uuid_from_digest 8 (ids.sha256 (String.◌++◌ (event_id_prefix producer_key) canonical))

abbrev pub id_at : Ids → Fields → Option String → Uuid → Option String → Option Uuid
id_at ids raw producer_key random none = some random
id_at ids raw producer_key random (some ts) =
    Option.map (content_id ids producer_key) (canonical_json (signed_printer ids) (obj raw))

-- `random` is what `randomUUID` returns.
unfoldable pub event_id_for : Ids → Fields → Option String → Uuid → Option Uuid
event_id_for ids raw producer_key random =
    id_at ids raw producer_key random (parse_event_timestamp ids.dates (member "ts" raw))
