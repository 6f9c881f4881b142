-- ===== src/Gate/Tests.antt =====
-- The theorems on the gate at concrete requests and keys.
use Prim.Native.String
use aitp_control_plane.Prelude.{◌≡◌, refl, true, false, some, none, String, [], ◌∷◌}
use aitp_control_plane.Prelude.Maps.{get, put}
use aitp_control_plane.RateLimit.{Limiter, check}
use aitp_control_plane.RateLimit.Buckets.{hit}
use aitp_control_plane.Gate.Paths.{
  is_public_request, is_public_get, strip, is_segment, is_segment_then,
}
use aitp_control_plane.Gate.Request.{Incoming, Settings, bearer_token, client_ip}
use aitp_control_plane.Gate.{
  forwarded, unauthorized, proxy, issuer_key_of, choose_rate_limit, admin_key, authorize,
  pass_through, limit_rate, after_auth,
}
use aitp_control_plane.Gate.Grants.{Grant, forwarded_only_granted}

abbrev production : Settings
production = record {
  key_labels = ("key-1", "ops") ∷ [];
  issuer_keys = ("iss-1", record { label = "issuer"; aid = "aid:a" }) ∷ [];
  is_production = true;
  has_client_ip_header = false;
  trusted_proxy_hops = 0;
  rate_limit_enabled = true;
  enroll_per_ip = 5;
  public_per_ip = 60;
  per_api_key = 2;
  window_ms = 60000;
  split_commas = λ s. s ∷ [];
  trim = λ s. s;
  first = λ n s. s;
}

abbrev asking : String → String → Incoming
asking pathname token = record {
  pathname = pathname;
  method = "GET";
  authorization = some (String.◌++◌ "Bearer " token);
  client_ip_header = none;
  forwarded_for = none;
  real_ip = some "10.0.0.1";
}

abbrev idle_limiter : Limiter
idle_limiter = record { buckets = []; drops = [] }

agents_public : is_public_request "/api/registry/agents/aid/manifest" "GET" ≡ true
unfolding is_public_request is_public_get strip is_segment is_segment_then
agents_public = refl

export_closed : is_public_request "/api/registry/agents/aid/export" "GET" ≡ false
unfolding is_public_request is_public_get strip is_segment is_segment_then
export_closed = refl

issuer_elsewhere :
    (proxy production 0 (asking "/api/webhooks" "iss-1") idle_limiter).1 ≡ unauthorized
unfolding proxy is_public_request is_public_get strip is_segment is_segment_then bearer_token
    issuer_key_of after_auth authorize admin_key get
issuer_elsewhere = refl

ops_forwarded :
    (proxy production 0 (asking "/api/webhooks" "key-1") idle_limiter).1
    ≡ forwarded (some "ops") none (some "10.0.0.1")
unfolding proxy is_public_request is_public_get strip is_segment is_segment_then bearer_token
    issuer_key_of after_auth authorize admin_key get limit_rate pass_through client_ip check
    choose_rate_limit hit put
ops_forwarded = refl

forwarded_only_granted_example : Grant production (asking "/api/webhooks" "key-1") (some "ops") none
forwarded_only_granted_example =
    forwarded_only_granted production 0 (asking "/api/webhooks" "key-1") idle_limiter (some "ops")
      none (some "10.0.0.1") ops_forwarded
