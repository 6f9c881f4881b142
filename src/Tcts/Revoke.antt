-- ===== src/Tcts/Revoke.antt =====
-- The revocations of `TctMonitorService` in src/lib/tcts/monitor.ts with their cascades, its
-- `onEvent`, and the part of `POST /api/revocation/entries` that reaches the projection.
pub mod Sealed
pub mod Steps
pub mod Inserts
pub mod Trace
pub mod Replay
use Prim.Native.String
use aitp_control_plane.Prelude.{
  Bool, true, false, Option, none, some, String, List, [], ◌∷◌, ◌&&◌, not, any, str_eq,
  if◌then◌else◌,
}
use aitp_control_plane.Prelude.Tables.{update_where}
use aitp_control_plane.Json.{Fields}
use aitp_control_plane.Uuid.{Uuid, uuid_eq}
use aitp_control_plane.Tcts.Read.{read_string}
use aitp_control_plane.Tcts.Parse.{jti_of}
use aitp_control_plane.Tcts.Store.{
  is_known, TctRow, DelegationRow, RevocationEntry, Store, Report, Monitor, record_issued_tcts,
  record_delegation,
}
use aitp_control_plane.Tcts.Descend.{is_among, descendants}

abbrev pub is_active_tct : Uuid → TctRow → Bool
is_active_tct jti r = uuid_eq r.tct.jti jti && not r.revoked

-- `revoked = false and jti in (…descendants…)`
abbrev pub is_struck : List Uuid → DelegationRow → Bool
is_struck found r = not r.revoked && is_among r.delegation.jti found

abbrev pub strike : String → DelegationRow → DelegationRow
strike at r = record r {
  revoked = true;
  revoked_at = some at;
  revoked_reason = some "parent_revoked";
}

-- The recursive update below a jti.
unfoldable pub cascade : Uuid → String → List DelegationRow → List DelegationRow
cascade jti at rows = update_where (is_struck (descendants rows jti)) (strike at) rows

unfoldable pub revoke_tct : Uuid → String → Store → Store
revoke_tct jti at s = record s {
  issued_tcts =
      update_where (is_active_tct jti) (λ r. record r { revoked = true; revoked_at = some at })
        s.issued_tcts;
  delegations = cascade jti at s.delegations;
}

abbrev pub is_active_delegation : Uuid → DelegationRow → Bool
is_active_delegation jti r = uuid_eq r.delegation.jti jti && not r.revoked

abbrev pub strike_explicit : String → DelegationRow → DelegationRow
strike_explicit at r = record r {
  revoked = true;
  revoked_at = some at;
  revoked_reason = some "explicit";
}

unfoldable pub revoke_delegation : Uuid → String → Store → Store
revoke_delegation jti at s = record s {
  delegations =
      cascade jti at (update_where (is_active_delegation jti) (strike_explicit at) s.delegations);
}

-- A report with no valid jti does nothing.
abbrev pub with_jti : Option Uuid → (Uuid → Store → Store) → Store → Store
with_jti none f s = s
with_jti (some jti) f s = f jti s

unfoldable pub record_revocation : Report → Store → Store
record_revocation e s =
    with_jti (jti_of (read_string e.payload ("jti" ∷ []))) (λ jti. revoke_tct jti e.ts) s

unfoldable pub record_delegation_revocation : Report → Store → Store
record_delegation_revocation e s =
    with_jti (jti_of (read_string e.payload ("jti" ∷ []))) (λ jti. revoke_delegation jti e.ts) s

-- `onEvent`: an exception is caught there, and what was written before it stays.
unfoldable pub on_event : Monitor → Report → Store → Store
on_event m e s =
    if str_eq e.type "tct.issued"
    then record_issued_tcts m e s
    else if str_eq e.type "handshake.complete"
    then record_issued_tcts m e s
    else if str_eq e.type "tct.revoked"
    then record_revocation e s
    else if str_eq e.type "delegation.issued"
    then record_delegation m e s
    else if str_eq e.type "delegation.revoked"
    then record_delegation_revocation e s
    else s

-- The operator's entry. When there is one for the jti, only an issuer that it lacks is set.
abbrev pub lacks_issuer : Uuid → RevocationEntry → Bool
lacks_issuer jti e = uuid_eq e.jti jti && not (is_known e.iss)

unfoldable pub insert_entry : RevocationEntry → Store → Store
insert_entry entry s = record s {
  revocation_entries =
      if any (λ e. uuid_eq e.jti entry.jti) s.revocation_entries
      then update_where (lacks_issuer entry.jti) (λ e. record e { iss = entry.iss })
          s.revocation_entries
      else entry ∷ s.revocation_entries;
}

-- The route inserts the entry and then hands its own `tct.revoked` event to the monitor.
unfoldable pub add_revocation : RevocationEntry → Store → Store
add_revocation entry s = revoke_tct entry.jti entry.revoked_at (insert_entry entry s)
