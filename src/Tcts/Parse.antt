-- ===== src/Tcts/Parse.antt =====
-- The projections of one reported token, `parseTct` and `parseDelegation` of
-- src/lib/tcts/monitor.ts. A jti is kept as its digits.
use Prim.Native.String
use aitp_control_plane.Prelude.{Option, none, some, String, List, [], ◌∷◌, or_else}
use aitp_control_plane.Json.{Json, null, Fields, member, as_object, object_at}
use aitp_control_plane.Uuid.{Uuid, read_jti, only_jti, uuid_from_digest}
use aitp_control_plane.Audit.SignedContent.{jws_signing_input}
use aitp_control_plane.Tcts.Read.{
  or_option, read_string, read_string_array, read_number, read_cnf, claims_of, wrapper_token, Codec,
  voucher_claims,
}

-- A projection, no projection, or an exception, which `toISOString` throws out of range.
pub data Parsed {ℓ} (A : Type ℓ) : Type ℓ where
  skipped : Parsed A
  thrown : Parsed A
  parsed : A → Parsed A

abbrev pub then_parsed {ℓ κ} : {A : Type ℓ} {B : Type κ} → Parsed A → (A → Parsed B) → Parsed B
then_parsed skipped f = skipped
then_parsed thrown f = thrown
then_parsed (parsed a) f = f a

-- `epochToIso(readNumber(…))`
abbrev of_iso : Option String → Parsed (Option String)
of_iso none = thrown
of_iso (some iso) = parsed (some iso)

abbrev pub epoch_to_iso : Codec → Option String → Parsed (Option String)
epoch_to_iso c none = parsed none
epoch_to_iso c (some secs) = of_iso (c.epoch_to_iso secs)

pub record ParsedTct : Type 0 where
  pub jti : Uuid
  pub issuer_aid : String
  pub subject_aid : String
  pub audience_aid : String
  pub grants : List String
  pub binding_cnf : Option String
  pub issued_at : String
  pub expires_at : Option String

-- `JTI_UUID_RE.test(jti)`, with the digits.
abbrev pub jti_of : Option String → Option Uuid
jti_of none = none
jti_of (some s) = read_jti s

-- The rest once the identifying fields are there.
abbrev tct_of :
    Codec → Fields → String → Option Uuid → Option String → Option String → Parsed ParsedTct
tct_of c claims fallback_ts (some jti) (some issuer) (some subject) =
    then_parsed (epoch_to_iso c (read_number claims ("iat" ∷ "issued_at" ∷ []))) λ issued.
      then_parsed (epoch_to_iso c (read_number claims ("exp" ∷ "expires_at" ∷ []))) λ expires.
        parsed (record {
          jti = jti;
          issuer_aid = issuer;
          subject_aid = subject;
          audience_aid =
              or_else
                (read_string claims ("aud" ∷ "audience" ∷ "audience_aid" ∷ "audienceAid" ∷ []))
                subject;
          grants = read_string_array claims ("grants" ∷ []);
          binding_cnf = read_cnf claims;
          issued_at = or_else issued fallback_ts;
          expires_at = expires;
        })
tct_of c claims fallback_ts _ _ _ = skipped

abbrev parse_claims : Codec → Fields → String → Parsed ParsedTct
parse_claims c claims fallback_ts =
    tct_of c claims fallback_ts (jti_of (read_string claims ("jti" ∷ [])))
      (read_string claims ("iss" ∷ "issuer" ∷ "issuer_aid" ∷ "issuerAid" ∷ []))
      (read_string claims ("sub" ∷ "subject" ∷ "subject_aid" ∷ "subjectAid" ∷ []))

abbrev parse_object : Codec → Option Fields → String → Parsed ParsedTct
parse_object c none fallback_ts = skipped
parse_object c (some raw) fallback_ts = parse_claims c (claims_of raw) fallback_ts

unfoldable pub parse_tct : Codec → Json → String → Parsed ParsedTct
parse_tct c raw fallback_ts = parse_object c (as_object raw) fallback_ts

pub record ParsedDelegation : Type 0 where
  pub jti : Uuid
  pub parent_jti : Uuid
  pub delegator_aid : String
  pub delegatee_aid : String
  pub scope : List String
  pub issued_at : String
  pub expires_at : Option String

-- `payload.tct ?? payload.delegation`
abbrev not_null : Option Json → Option Json
not_null (some null) = none
not_null v = v

abbrev pub wrapper_of : Fields → Option Json
wrapper_of payload = or_option (not_null (member "tct" payload)) (member "delegation" payload)

abbrev claims_or : Option Fields → Fields → Fields
claims_or (some wrapper) payload = claims_of wrapper
claims_or none payload = claims_of payload

unfoldable pub delegation_claims : Fields → Fields
delegation_claims payload = claims_or (object_at (wrapper_of payload)) payload

-- `syntheticDelegationJti`, and the test that the caller makes of it.
unfoldable pub synthetic_delegation_jti : Codec → String → Uuid
synthetic_delegation_jti c token = uuid_from_digest 5 (
    c.sha1 (
      String.◌++◌ "aitp-delegation:v2\0"
        (or_else (jws_signing_input c.decode_segment token) token)))

abbrev synthetic_jti : Codec → Option String → Option Uuid
synthetic_jti c none = none
synthetic_jti c (some token) = only_jti (some (synthetic_delegation_jti c token))

-- A jti that is there is tested, also where a synthetic one could be made.
abbrev own_jti : Codec → Option String → Option String → Option Uuid
own_jti c (some s) token = read_jti s
own_jti c none token = synthetic_jti c token

abbrev read_src_jti : Option Fields → Option String
read_src_jti none = none
read_src_jti (some claims) = read_string claims ("src_jti" ∷ "parent_jti" ∷ [])

unfoldable pub delegation_jti : Codec → Fields → Fields → Option Uuid
delegation_jti c payload claims =
    own_jti c
      (or_option (read_string payload ("jti" ∷ "child_jti" ∷ []))
        (read_string claims ("jti" ∷ "child_jti" ∷ [])))
      (wrapper_token (wrapper_of payload))

unfoldable pub delegation_parent : Codec → Fields → Fields → Option Uuid
delegation_parent c payload claims = jti_of (
    or_option
      (or_option (read_string payload ("parent_jti" ∷ "parentJti" ∷ "src_jti" ∷ []))
        (read_string claims ("src_jti" ∷ "parent_jti" ∷ "parentJti" ∷ [])))
      (read_src_jti (voucher_claims c claims)))

abbrev delegation_of :
    Codec
    → Fields
    → String
    → Option Uuid
    → Option Uuid
    → Option String
    → Option String
    → Parsed ParsedDelegation
delegation_of c claims fallback_ts (some jti) (some parent) (some delegator) (some delegatee) =
    then_parsed (epoch_to_iso c (read_number claims ("iat" ∷ "issued_at" ∷ []))) λ issued.
      then_parsed (epoch_to_iso c (read_number claims ("exp" ∷ "expires_at" ∷ []))) λ expires.
        parsed (record {
          jti = jti;
          parent_jti = parent;
          delegator_aid = delegator;
          delegatee_aid = delegatee;
          scope = read_string_array claims ("scope" ∷ "grants" ∷ []);
          issued_at = or_else issued fallback_ts;
          expires_at = expires;
        })
delegation_of c claims fallback_ts _ _ _ _ = skipped

unfoldable pub parse_delegation : Codec → Fields → String → Parsed ParsedDelegation
parse_delegation c payload fallback_ts =
    let claims = delegation_claims payload in
    delegation_of c claims fallback_ts (delegation_jti c payload claims)
      (delegation_parent c payload claims)
      (or_option (read_string payload ("delegator_aid" ∷ "delegator" ∷ []))
        (read_string claims ("delegator" ∷ "delegator_aid" ∷ "iss" ∷ [])))
      (or_option (read_string payload ("delegatee_aid" ∷ "delegatee" ∷ []))
        (read_string claims ("delegatee" ∷ "delegatee_aid" ∷ "sub" ∷ [])))
