-- ===== src/Revocations/Entries.antt =====
-- The operator's revocation entries, POST /api/revocation/entries
-- (src/app/api/revocation/entries/route.ts), and their relay to the issuers, GET /api/revocations
-- (src/app/api/revocations/route.ts).
use aitp_control_plane.Prelude.{
  Bool, false, Option, none, some, String, List, not, str_eq, if◌then◌else◌,
}
use aitp_control_plane.Prelude.Tables.{select_where, find_where}
use aitp_control_plane.Json.{Json, null, str, Fields, end, field}
use aitp_control_plane.Uuid.{Uuid, uuid_eq}
use aitp_control_plane.Tcts.Read.{or_option}
use aitp_control_plane.Tcts.Store.{TctRow, RevocationEntry, Store, Report, Monitor}
use aitp_control_plane.Tcts.Revoke.{insert_entry, on_event}
use aitp_control_plane.Revocations.{Checked, refused, found, Clock, Draft, is_aid, read_draft}

abbrev pub aid_of : Option TctRow → Option String
aid_of none = none
aid_of (some r) = if is_aid r.tct.issuer_aid then some r.tct.issuer_aid else none

-- `projectedIss`
unfoldable pub projected_iss : Uuid → Store → Option String
projected_iss jti s = aid_of (find_where (λ r. uuid_eq r.tct.jti jti) s.issued_tcts)

abbrev pub entry_iss : Option RevocationEntry → Option String
entry_iss none = none
entry_iss (some e) = e.iss

-- `storedIss`
unfoldable pub stored_iss : Uuid → Store → Option String
stored_iss jti s = entry_iss (find_where (λ e. uuid_eq e.jti jti) s.revocation_entries)

-- Both are known and they differ.
abbrev pub disagree : Option String → Option String → Bool
disagree (some a) (some b) = not (str_eq a b)
disagree _ _ = false

abbrev required : Option String → Checked String
required none = refused 400 "ISS_REQUIRED"
required (some iss) = found iss

unfoldable pub resolve_iss : Option String → Option String → Option String → Checked String
resolve_iss projected stored given =
    if disagree projected stored
    then refused 409 "ISS_MISMATCH"
    else if disagree (or_option projected stored) given
    then refused 409 "ISS_MISMATCH"
    else required (or_option (or_option projected stored) given)

abbrev reason_json : Option String → Json
reason_json none = null
reason_json (some s) = str s

-- The event that the route makes, as far as the monitor reads it.
abbrev pub revoked_event : Draft → String → Report
revoked_event d iss = record {
  type = "tct.revoked";
  ts = d.revoked_at;
  session_id = none;
  payload =
      field "jti" (str d.text) (field "reason" (reason_json d.reason) (field "iss" (str iss) end));
}

abbrev pub entry_of : Draft → String → RevocationEntry
entry_of d iss = record {
  jti = d.jti;
  revoked_at = d.revoked_at;
  reason = d.reason;
  iss = some iss;
}

abbrev pub post_draft : Monitor → Draft → Checked String → Store → Checked RevocationEntry × Store
post_draft m d (refused status code) s = (refused status code, s)
post_draft m d (found iss) s =
    (found (entry_of d iss), on_event m (revoked_event d iss) (insert_entry (entry_of d iss) s))

abbrev pub post_checked : Monitor → Checked Draft → Store → Checked RevocationEntry × Store
post_checked m (refused status code) s = (refused status code, s)
post_checked m (found d) s =
    post_draft m d (resolve_iss (projected_iss d.jti s) (stored_iss d.jti s) d.iss) s

-- POST. The history row, the bus, the webhooks and the admin audit row of the event are left out.
unfoldable pub post_entry : Monitor → Clock → Fields → Store → Checked RevocationEntry × Store
post_entry m c body s = post_checked m (read_draft c body) s

abbrev pub is_iss : String → RevocationEntry → Bool
is_iss iss e = elim e.iss [ none ↦ false | some i ↦ str_eq i iss ]

-- GET, with the issuer that the key is bound to. The order of the entries is not fixed.
abbrev relay_to : String → Store → Checked (List RevocationEntry)
relay_to iss s = found (select_where (is_iss iss) s.revocation_entries)

abbrev bound_elsewhere : Option String → String → Bool
bound_elsewhere none iss = false
bound_elsewhere (some bound) iss = not (str_eq bound iss)

unfoldable pub get_revocations :
    Option String → Option String → Store → Checked (List RevocationEntry)
get_revocations none bound s = refused 400 "ISS_INVALID"
get_revocations (some iss) bound s =
    if not (is_aid iss)
    then refused 400 "ISS_INVALID"
    else if bound_elsewhere bound iss
    then refused 403 "ISSUER_MISMATCH"
    else relay_to iss s
