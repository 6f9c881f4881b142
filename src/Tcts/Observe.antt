-- ===== src/Tcts/Observe.antt =====
-- The optional check of reported tokens, src/lib/tcts/verify-observed.ts and `gateObserved` of
-- src/lib/tcts/monitor.ts. The verifiers of the SDK are parameters: the message of their error, or
-- `none` when they accept.
use aitp_control_plane.Prelude.{
  Bool, true, false, Option, none, some, String, List, [], ◌∷◌, ◌&&◌, not, or_else, if◌then◌else◌,
}
use aitp_control_plane.Json.{Json, Fields, member, object_at}
use aitp_control_plane.Tcts.Read.{filled_string, wrapper_token}
use aitp_control_plane.Tcts.Parse.{ParsedTct, wrapper_of}

pub data VerificationMode : Type 0 where
  off warn strict : VerificationMode

pub record VerificationOutcome : Type 0 where
  pub attempted : Bool
  pub verified : Bool
  pub error : Option String

pub record ProjectionDecision : Type 0 where
  pub project : Bool
  pub error : Option String

pub record Sdk : Type 0 where
  -- token, grant, audience
  pub verify_tct : String → String → String → Option String
  -- token, audience, the delegator's manifests
  pub verify_delegation : String → String → List String → Option String

abbrev pub no_token : VerificationOutcome
no_token = record { attempted = false; verified = false; error = some "no signed token to verify" }

abbrev pub failure : String → VerificationOutcome
failure message = record { attempted = true; verified = false; error = some message }

abbrev pub of_sdk : Option String → VerificationOutcome
of_sdk none = record { attempted = true; verified = true; error = none }
of_sdk (some message) = failure message

unfoldable pub decide_projection : VerificationMode → VerificationOutcome → ProjectionDecision
decide_projection off outcome = record { project = true; error = none }
decide_projection strict outcome =
    if outcome.attempted && outcome.verified
    then (record { project = true; error = none })
    else (record { project = false; error = some (or_else outcome.error "verification failed") })
decide_projection warn outcome = record {
  project = true;
  error = if outcome.attempted && not outcome.verified then outcome.error else none;
}

abbrev pub check_grant : Sdk → String → ParsedTct → List String → VerificationOutcome
check_grant sdk token tct [] = failure "cannot verify: TCT carries no grant to check"
check_grant sdk token tct (grant ∷ grants) = of_sdk (sdk.verify_tct token grant tct.audience_aid)

abbrev pub check_tct : Sdk → Option String → ParsedTct → VerificationOutcome
check_tct sdk none tct = no_token
check_tct sdk (some token) tct = check_grant sdk token tct tct.grants

unfoldable pub verify_observed_tct : Sdk → Json → ParsedTct → VerificationOutcome
verify_observed_tct sdk raw tct = check_tct sdk (wrapper_token (some raw)) tct

abbrev aud_in : Option Fields → Option String
aud_in none = none
aud_in (some claims) = filled_string (member "aud" claims)

-- `wrapper.claims.aud`, where both are objects.
abbrev wrapper_aud : Option Fields → Option String
wrapper_aud none = none
wrapper_aud (some wrapper) = aud_in (object_at (member "claims" wrapper))

abbrev check_aud : Sdk → String → Option String → List String → VerificationOutcome
check_aud sdk token none manifests = failure "cannot verify: delegation claims carry no aud"
check_aud sdk token (some aud) manifests = of_sdk (sdk.verify_delegation token aud manifests)

abbrev check_delegation : Sdk → Option String → Option String → List String → VerificationOutcome
check_delegation sdk none aud manifests = no_token
check_delegation sdk (some token) aud manifests = check_aud sdk token aud manifests

unfoldable pub verify_observed_delegation : Sdk → Fields → List String → VerificationOutcome
verify_observed_delegation sdk payload manifests =
    check_delegation sdk (wrapper_token (wrapper_of payload))
      (wrapper_aud (object_at (wrapper_of payload))) manifests

-- Whether to project; `off` does no verification work.
unfoldable pub gate_observed : VerificationMode → VerificationOutcome → Bool
gate_observed off outcome = true
gate_observed warn outcome = (decide_projection warn outcome).project
gate_observed strict outcome = (decide_projection strict outcome).project
