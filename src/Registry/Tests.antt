-- ===== src/Registry/Tests.antt =====
-- The theorems on the registry at concrete tables.
use aitp_control_plane.Prelude.{
  ℕ, ◌≡◌, ◌≤◌, ◌+◌, refl, true, false, Option, none, some, String, List, [], ◌∷◌, ltb,
}
use aitp_control_plane.Json.{str, obj, end, field}
use aitp_control_plane.Audit.SignedContent.{all_b64url}
use aitp_control_plane.Registry.{Agent, RegisterInput, Registry, is_spent}
use aitp_control_plane.Registry.Expiry.{enforce_manifest_expiry}
use aitp_control_plane.Registry.Expiry.Laws.{IsEnforced, enforce_manifest_expiry-IsEnforced}
use aitp_control_plane.Prelude.{arith, inr}
use aitp_control_plane.Prelude.Tables.{update_where, select_where}
use aitp_control_plane.Retention.{Settings, purge_enrollment_jtis}
use aitp_control_plane.Retention.Batch.{purge_where}
use aitp_control_plane.Registry.{register_consuming_jti, consume_enrollment_jti, upsert_agent}
use aitp_control_plane.Registry.Once.{
  Step, act, sweeping, IsTimeline, registering, deregistering, expiring, successes, spent_once,
  register_once,
}
use aitp_control_plane.Registry.Tokens.{
  EnrollmentPayload, Primitives, json_of, sign, validate_token,
}
use aitp_control_plane.Registry.Tokens.Laws.{IsFaithful, verdict, sign-verdict}
use aitp_control_plane.Registry.Register.{Service, Request, post_agents}
use aitp_control_plane.Registry.Register.Admission.{IsOutcome, post_agents-IsOutcome}

abbrev agent : String → Option ℕ → String → Agent
agent aid expires manifest = record {
  aid = aid;
  display_name = aid;
  handshake_endpoint = "https://a";
  offered_caps = [];
  manifest_json = manifest;
  manifest_expires_at = expires;
  status = "active";
  registered_at = 1;
  last_enrolled_at = some 1;
  last_seen_at = none;
  org = none;
  cloud = none;
  namespace = "default";
}

abbrev agents : List Agent
agents =
    agent "aid:a" (some 5) "aitp/0.3"
    ∷ agent "aid:b" (some 50) "aitp/0.2"
    ∷ agent "aid:c" (some 50) "aitp/0.3"
    ∷ []

enforce_manifest_expiry-IsEnforced_example :
    IsEnforced (λ m. some m) 10 agents (enforce_manifest_expiry (λ m. some m) 10 agents)
enforce_manifest_expiry-IsEnforced_example =
    enforce_manifest_expiry-IsEnforced (λ m. some m) 10 agents

abbrev input : RegisterInput
input = record {
  aid = "aid:a";
  display_name = "A";
  handshake_endpoint = "https://a";
  offered_caps = [];
  manifest_json = "aitp/0.3";
  manifest_expires_at = none;
  org = none;
  cloud = none;
  namespace = none;
}

abbrev empty : Registry
empty = record { agents = []; enrollment_jtis = [] }

-- A captured token is presented again after the agent was deregistered.
abbrev settings : Settings
settings = record {
  retention_enabled = true;
  retention_batch_limit = 10;
  audit_events_ttl_days = 1;
  webhook_delivery_ttl_days = 1;
  admin_audit_ttl_days = 1;
  expired_agent_grace_days = 1;
  idempotency_key_ttl_days = 1;
}

abbrev replayed : List Step
replayed =
    registering 1 1 "jti" 300 input
    ∷ deregistering "aid:a"
    ∷ registering 2 2 "jti" 300 input
    ∷ expiring (λ m. some m) 3
    ∷ sweeping settings 301000 (λ a. true)
    ∷ registering 302000 302000 "jti" 300 input
    ∷ []

register_once_example : successes "jti" replayed empty + spent_once (is_spent "jti" empty) ≤ 1
register_once_example =
    register_once "jti" 300 0 replayed empty
      (unfold IsTimeline in
        (
          ground arith,
          (λ e. refl),
          (
            ground arith,
            (λ e. refl),
            (ground arith, inr (ground arith), (ground arith, (λ e. refl), tt)),
          ),
        ))
      tt

-- A sweep in the second after the expiry makes the token good for another registration.
abbrev too_early : List Step
too_early =
    registering 1 1 "jti" 300 input
    ∷ sweeping settings 300500 (λ a. true)
    ∷ registering 300900 300900 "jti" 300 input
    ∷ []

registered_twice : successes "jti" too_early empty ≡ 2
unfolding successes act register_consuming_jti consume_enrollment_jti upsert_agent update_where
    purge_enrollment_jtis purge_where select_where
registered_twice = refl

-- A MAC and an encoding for the tests.
abbrev payload : EnrollmentPayload
payload = record { sub = "aid:a"; iat = 100; exp = 400; jti = "j"; msh = "body" }

abbrev primitives : Primitives
primitives = record {
  hmac = λ k t. "sig";
  base64url = λ t. "data";
  sha256_hex = λ t. t;
  stringify = λ p. "json";
  decode_segment = λ t. some (json_of (λ n. "n") payload);
  is_over = λ now v. ltb 400 now;
}

primitives-IsFaithful : IsFaithful primitives "k" (λ n. "n") payload
unfolding all_b64url
primitives-IsFaithful = record {
  encoded = refl;
  signature = refl;
  decodes = refl;
  compares = λ now. refl;
}

sign-verdict_example :
    validate_token primitives "k" 400 (sign primitives "k" payload) (str "aid:a") "body"
    ≡ verdict primitives (λ n. "n") payload 400 "aid:a" "body"
sign-verdict_example =
    sign-verdict primitives "k" (λ n. "n") payload 400 "aid:a" "body" primitives-IsFaithful

abbrev service : Service
service = record {
  secret = some "k";
  primitives = primitives;
  readings = record {
    is_zero = λ t. false;
    in_years = λ t. true;
    is_soon = λ now t. false;
    millis = λ t. 5;
    is_well_formed = λ s. true;
  };
  parse = λ s. some (
      obj (
        field "manifest"
          (obj (
            field "aid" (str "aid:a") (
              field "version" (str "aitp/0.3") (field "handshake_endpoint" (str "https://a") end))))
          end));
  exp_millis = λ v. 400000;
}

abbrev request : Request
request = record {
  token = "data.sig";
  body = "body";
  header_namespace = some "staging";
  now = 300000;
  stored = 300001;
}

post_agents-IsOutcome_example : IsOutcome service request empty (post_agents service request empty)
post_agents-IsOutcome_example = post_agents-IsOutcome service request empty
