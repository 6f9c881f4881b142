-- ===== src/Tcts/Tests.antt =====
-- The theorems on the projection of reported tokens at concrete reports.
use aitp_control_plane.Prelude.{
  ◌≡◌, ◌↔◌, ◌⊎◌, refl, inl, inr, true, false, Option, none, some, String, List, [], ◌∷◌, str_eq,
  if◌then◌else◌,
}
use aitp_control_plane.Prelude.Tables.{In, find_where}
use aitp_control_plane.Json.{Json, str, num, arr, obj, nil, cons, Fields, end, field, member, items}
use aitp_control_plane.Uuid.{Uuid, uuid_eq, hex_value, digit, read_shape, read_jti}
use aitp_control_plane.Tcts.Read.{
  read_string, strings, read_string_array, read_number, read_cnf, claims_of, wrapper_token, Codec,
  embedded_voucher, voucher_claims,
}
use aitp_control_plane.Tcts.Parse.{
  ParsedTct, ParsedDelegation, parse_tct, delegation_claims, delegation_jti, delegation_parent,
  parse_delegation,
}
use aitp_control_plane.Tcts.Observe.{
  VerificationMode, off, warn, strict, Sdk, decide_projection, verify_observed_tct,
  verify_observed_delegation, gate_observed,
}
use aitp_control_plane.Tcts.Store.{
  TctRow, DelegationRow, Store, Report, Monitor, tct_revoked_at, parent_revoked_at, insert_tct,
  insert_delegation, record_tcts, record_delegation,
}
use aitp_control_plane.Tcts.Descend.{is_among, rounds, descendants}
use aitp_control_plane.Tcts.Descend.Rounds.{Descends, descendants_iff}
use aitp_control_plane.Tcts.Revoke.Replay.{on_event-twice}
use aitp_control_plane.Tcts.Revoke.{insert_entry, revoke_tct, cascade, add_revocation, on_event}
use aitp_control_plane.Tcts.Revoke.Sealed.{IsSealed, no_exemption}
use aitp_control_plane.Tcts.Revoke.Inserts.{comes_late, insert_delegation-IsSealed}
use aitp_control_plane.Tcts.Revoke.Trace.{
  Step, reported, entered, act, act_all, is_in_order, all_in_order, act_all-IsSealed,
}
use aitp_control_plane.Tcts.Reports.{IsVouched, record_tcts-IsVouched, record_tcts_thrown}

-- A decoder that takes every segment for one header, seconds that are their own text but for
-- 9e99, and a digest of 20 bytes.
abbrev iso_of : String → Option String
iso_of secs = if str_eq secs "9e99" then none else some secs

abbrev codec : Codec
codec = record {
  decode_segment = λ s. some (obj (field "alg" (str "EdDSA") end));
  epoch_to_iso = iso_of;
  sha1 = λ s.
      1 ∷ 2 ∷ 3 ∷ 4 ∷ 5 ∷ 6 ∷ 7 ∷ 8 ∷ 9 ∷ 10 ∷ 11 ∷ 12 ∷ 13 ∷ 14 ∷ 15 ∷ 16 ∷ 17 ∷ 18 ∷ 19 ∷ 20 ∷ [];
}

abbrev sdk : Sdk
sdk = record { verify_tct = λ t g a. none; verify_delegation = λ t a ms. none }

abbrev monitor : VerificationMode → Monitor
monitor mode = record { codec = codec; sdk = sdk; mode = mode }

abbrev empty : Store
empty = record { issued_tcts = []; delegations = []; revocation_entries = []; agents = [] }

empty-IsSealed : IsSealed no_exemption empty
empty-IsSealed = record {
  tcts_timed = tt;
  delegations_timed = tt;
  sealed = λ r there active free. absurd there;
}

abbrev delegation : Uuid → Uuid → ParsedDelegation
delegation jti parent = record {
  jti = jti;
  parent_jti = parent;
  delegator_aid = "aid:a";
  delegatee_aid = "aid:b";
  scope = [];
  issued_at = "t";
  expires_at = none;
}

abbrev row : Uuid → Uuid → DelegationRow
row jti parent = record {
  delegation = delegation jti parent;
  revoked = false;
  revoked_at = none;
  revoked_reason = none;
}

abbrev chain : List DelegationRow
chain = row (3 ∷ []) (2 ∷ []) ∷ row (2 ∷ []) (1 ∷ []) ∷ []

descendants_iff_example :
    (is_among (3 ∷ []) (descendants chain (1 ∷ [])) ≡ true) ↔ Descends chain (1 ∷ []) (3 ∷ [])
descendants_iff_example = descendants_iff chain (1 ∷ []) (3 ∷ [])

-- The delegation 3 under 2 is there; 1 is revoked; then 2 under 1 is projected.
abbrev before_late : Store
before_late = record {
  issued_tcts = [];
  delegations = row (3 ∷ []) (2 ∷ []) ∷ [];
  revocation_entries = record { jti = 1 ∷ []; revoked_at = "t"; reason = none; iss = none } ∷ [];
  agents = [];
}

before_late-IsSealed : IsSealed no_exemption before_late
unfolding uuid_eq
before_late-IsSealed = record {
  tcts_timed = tt;
  delegations_timed = ((λ e. cc), tt);
  sealed = λ r there active free. elim there [ inl same ↦ rw same refl | inr later ↦ absurd later ];
}

insert_delegation-IsSealed_example :
    IsSealed no_exemption (insert_delegation (delegation (2 ∷ []) (1 ∷ [])) before_late)
    ↔ (comes_late (delegation (2 ∷ []) (1 ∷ [])) before_late ≡ false)
insert_delegation-IsSealed_example =
    insert_delegation-IsSealed (delegation (2 ∷ []) (1 ∷ [])) before_late before_late-IsSealed

abbrev jti_text : String
jti_text = "11111111-1111-4111-8111-111111111111"

abbrev child_text : String
child_text = "22222222-2222-4222-8222-222222222222"

abbrev ones : Uuid
ones =
    1 ∷ 1 ∷ 1 ∷ 1 ∷ 1 ∷ 1 ∷ 1 ∷ 1 ∷ 1 ∷ 1 ∷ 1 ∷ 1 ∷ 4 ∷ 1 ∷ 1 ∷ 1 ∷ 8 ∷ 1 ∷ 1 ∷ 1 ∷ 1 ∷ 1 ∷ 1 ∷ 1
    ∷ 1 ∷ 1 ∷ 1 ∷ 1 ∷ 1 ∷ 1 ∷ 1 ∷ 1 ∷ []

abbrev issued : Report
issued = record {
  type = "delegation.issued";
  ts = "t2";
  session_id = none;
  payload = field "jti" (str child_text) (
      field "parent_jti" (str jti_text)
        (field "iss" (str "aid:a") (field "sub" (str "aid:b") end)));
}

abbrev revoked : Report
revoked = record {
  type = "delegation.revoked";
  ts = "t3";
  session_id = none;
  payload = field "jti" (str child_text) end;
}

abbrev steps : List Step
steps =
    reported issued
    ∷ entered (record { jti = ones; revoked_at = "t1"; reason = none; iss = none })
    ∷ reported revoked
    ∷ []

act_all-IsSealed_example : IsSealed no_exemption (act_all (monitor warn) steps empty)
act_all-IsSealed_example = act_all-IsSealed (monitor warn) steps empty empty-IsSealed (
    unfold all_in_order act is_in_order on_event record_delegation parse_delegation
      delegation_claims delegation_jti delegation_parent read_string read_number read_string_array
      strings read_cnf claims_of wrapper_token member read_jti read_shape hex_value digit
      gate_observed decide_projection verify_observed_delegation verify_observed_tct find_where
      insert_delegation insert_tct tct_revoked_at parent_revoked_at add_revocation insert_entry
      revoke_tct cascade descendants rounds uuid_eq parse_tct record_tcts voucher_claims
      embedded_voucher items in
    refl)

abbrev claims : String → Fields
claims exp = field "jti" (str jti_text) (
    field "iss" (str "aid:a") (
      field "sub" (str "aid:b")
        (field "exp" (num exp) (field "grants" (arr (cons (str "g") nil)) end))))

abbrev wrapped : String → Json
wrapped exp = obj (field "token" (str "h.p.s") (field "claims" (obj (claims exp)) end))

abbrev tct : String → ParsedTct
tct iss = record {
  jti = ones;
  issuer_aid = iss;
  subject_aid = "aid:b";
  audience_aid = "aid:b";
  grants = "g" ∷ [];
  binding_cnf = none;
  issued_at = "t";
  expires_at = some "1";
}

abbrev tct_row : TctRow
tct_row = record { tct = tct "aid:a"; session_id = none; revoked = false; revoked_at = none }

abbrev report : Report
report = record { type = "tct.issued"; ts = "t"; session_id = none; payload = end }

record_tcts-IsVouched_example :
    In tct_row empty.issued_tcts
    ⊎ IsVouched (monitor strict) report (wrapped "1" ∷ []) (tct "aid:a")
record_tcts-IsVouched_example =
    record_tcts-IsVouched (monitor strict) report (wrapped "1" ∷ []) empty refl tct_row (
      unfold record_tcts parse_tct read_string read_number read_string_array strings read_cnf
        claims_of wrapper_token member read_jti read_shape hex_value digit gate_observed
        decide_projection verify_observed_tct insert_tct tct_revoked_at find_where in
      inl refl)

record_tcts_thrown_example :
    record_tcts (monitor off) report (wrapped "1" ∷ wrapped "9e99" ∷ wrapped "2" ∷ []) empty
    ≡ record_tcts (monitor off) report (wrapped "1" ∷ []) empty
record_tcts_thrown_example =
    record_tcts_thrown (monitor off) report (wrapped "1" ∷ []) (wrapped "9e99") (wrapped "2" ∷ [])
      empty
      (unfold parse_tct read_string read_number read_string_array strings read_cnf claims_of
          wrapper_token member read_jti read_shape hex_value digit in
        refl)

on_event-twice_example :
    on_event (monitor off) revoked (on_event (monitor off) revoked before_late)
    ≡ on_event (monitor off) revoked before_late
on_event-twice_example = on_event-twice (monitor off) revoked before_late
