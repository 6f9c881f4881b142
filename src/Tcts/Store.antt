-- ===== src/Tcts/Store.antt =====
-- The tables of the projection and what `TctMonitorService` of src/lib/tcts/monitor.ts does to them.
use aitp_control_plane.Prelude.{
  Bool, true, false, Option, none, some, String, List, [], ◌∷◌, ◌&&◌, not, any, str_eq,
  if◌then◌else◌,
}
use aitp_control_plane.Prelude.Tables.{find_where}
use aitp_control_plane.Json.{Json, null, bool, num, str, arr, Fields, member, items}
use aitp_control_plane.Uuid.{Uuid, uuid_eq}
use aitp_control_plane.Tcts.Read.{or_option, Codec}
use aitp_control_plane.Tcts.Parse.{
  Parsed, skipped, thrown, parsed, ParsedTct, ParsedDelegation, parse_tct, parse_delegation,
}
use aitp_control_plane.Tcts.Observe.{
  VerificationMode, off, warn, strict, Sdk, verify_observed_tct, verify_observed_delegation,
  gate_observed,
}

pub record TctRow : Type 0 where
  pub tct : ParsedTct
  pub session_id : Option String
  pub revoked : Bool
  pub revoked_at : Option String

pub record DelegationRow : Type 0 where
  pub delegation : ParsedDelegation
  pub revoked : Bool
  pub revoked_at : Option String
  pub revoked_reason : Option String

pub record RevocationEntry : Type 0 where
  pub jti : Uuid
  pub revoked_at : String
  pub reason : Option String
  pub iss : Option String

-- A row of `agents`, as far as `getAgent` is used here.
pub record AgentManifest : Type 0 where
  pub aid : String
  pub manifest_json : String

pub record Store : Type 0 where
  pub issued_tcts : List TctRow
  pub delegations : List DelegationRow
  pub revocation_entries : List RevocationEntry
  pub agents : List AgentManifest

-- The part of an audit event that the monitor reads.
pub record Report : Type 0 where
  pub type : String
  pub ts : String
  pub session_id : Option String
  pub payload : Fields

pub record Monitor : Type 0 where
  pub codec : Codec
  pub sdk : Sdk
  pub mode : VerificationMode

abbrev pub entry_time : Option RevocationEntry → Option String
entry_time none = none
entry_time (some e) = some e.revoked_at

-- `tctRevokedAt`
unfoldable pub tct_revoked_at : Uuid → Store → Option String
tct_revoked_at jti s = entry_time (find_where (λ e. uuid_eq e.jti jti) s.revocation_entries)

abbrev pub tct_time : Option TctRow → Option String
tct_time none = none
tct_time (some r) = r.revoked_at

abbrev pub delegation_time : Option DelegationRow → Option String
delegation_time none = none
delegation_time (some r) = r.revoked_at

abbrev pub is_revoked_tct : Uuid → TctRow → Bool
is_revoked_tct jti r = uuid_eq r.tct.jti jti && r.revoked

abbrev pub is_revoked_delegation : Uuid → DelegationRow → Bool
is_revoked_delegation jti r = uuid_eq r.delegation.jti jti && r.revoked

-- `parentRevokedAt`
unfoldable pub parent_revoked_at : Uuid → Store → Option String
parent_revoked_at jti s = or_option (tct_revoked_at jti s) (
    or_option (tct_time (find_where (is_revoked_tct jti) s.issued_tcts))
      (delegation_time (find_where (is_revoked_delegation jti) s.delegations)))

abbrev pub is_known {ℓ} : {A : Type ℓ} → Option A → Bool
is_known none = false
is_known (some a) = true

abbrev parent_reason : Bool → Option String
parent_reason true = some "parent_revoked"
parent_reason false = none

-- `insert … on conflict do nothing`, the key being the jti.
unfoldable pub insert_tct : ParsedTct → Option String → Store → Store
insert_tct tct session_id s =
    if any (λ r. uuid_eq r.tct.jti tct.jti) s.issued_tcts then s else (record s {
      issued_tcts =
          record {
            tct = tct;
            session_id = session_id;
            revoked = is_known (tct_revoked_at tct.jti s);
            revoked_at = tct_revoked_at tct.jti s;
          }
          ∷ s.issued_tcts;
    })

unfoldable pub insert_delegation : ParsedDelegation → Store → Store
insert_delegation d s =
    let at = parent_revoked_at d.parent_jti s in
    if any (λ r. uuid_eq r.delegation.jti d.jti) s.delegations then s else (record s {
      delegations =
          record {
            delegation = d;
            revoked = is_known at;
            revoked_at = at;
            revoked_reason = parent_reason (is_known at);
          }
          ∷ s.delegations;
    })

-- `payload.tct ? [payload.tct] : []`
abbrev is_truthy : Json → Bool
is_truthy null = false
is_truthy (bool b) = b
is_truthy (num n) = not (str_eq n "0")
is_truthy (str s) = not (str_eq s "")
is_truthy _ = true

abbrev single : Option Json → List Json
single none = []
single (some v) = if is_truthy v then v ∷ [] else []

abbrev tct_list_of : Option Json → Option Json → List Json
tct_list_of (some (arr xs)) tct = items xs
tct_list_of _ tct = single tct

unfoldable pub tct_list : Fields → List Json
tct_list payload = tct_list_of (member "tcts" payload) (member "tct" payload)

-- The body of the loop over the list, with the rest of the loop. An exception ends it; what is
-- inserted stays.
abbrev pub project_tct :
    Monitor → Report → Json → Parsed ParsedTct → (Store → Store) → Store → Store
project_tct m e raw thrown rest s = s
project_tct m e raw skipped rest s = rest s
project_tct m e raw (parsed tct) rest s = rest (
    if gate_observed m.mode (verify_observed_tct m.sdk raw tct)
    then insert_tct tct e.session_id s
    else s)

unfoldable pub record_tcts : Monitor → Report → List Json → Store → Store
record_tcts m e [] s = s
record_tcts m e (raw ∷ raws) s =
    project_tct m e raw (parse_tct m.codec raw e.ts) (record_tcts m e raws) s

unfoldable pub record_issued_tcts : Monitor → Report → Store → Store
record_issued_tcts m e s = record_tcts m e (tct_list e.payload) s

-- `getAgent(delegatorAid)`, which is asked only when verification runs.
abbrev pub manifest_of : Option AgentManifest → List String
manifest_of none = []
manifest_of (some a) = a.manifest_json ∷ []

abbrev pub issuer_manifests : VerificationMode → String → Store → List String
issuer_manifests off aid s = []
issuer_manifests warn aid s = manifest_of (find_where (λ a. str_eq a.aid aid) s.agents)
issuer_manifests strict aid s = manifest_of (find_where (λ a. str_eq a.aid aid) s.agents)

abbrev pub project_delegation : Monitor → Report → Parsed ParsedDelegation → Store → Store
project_delegation m e skipped s = s
project_delegation m e thrown s = s
project_delegation m e (parsed d) s =
    if gate_observed m.mode
      (verify_observed_delegation m.sdk e.payload (issuer_manifests m.mode d.delegator_aid s))
    then insert_delegation d s
    else s

unfoldable pub record_delegation : Monitor → Report → Store → Store
record_delegation m e s = project_delegation m e (parse_delegation m.codec e.payload e.ts) s
