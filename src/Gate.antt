-- ===== src/Gate.antt =====
-- The request gate, src/proxy.ts: which requests pass without a key, which key passes which
-- request, which rate-limit bucket a request counts against, and what is forwarded.
pub mod Paths
pub mod Request
pub mod Grants
pub mod Passage
mod Tests
use Prim.Native.String
use aitp_control_plane.Prelude.{
  ℕ, ◌+◌, ◌-◌, ◌/◌, Bool, true, false, Option, none, some, String, List, [], ◌∷◌, ◌&&◌, ◌||◌, not,
  str_eq, if◌then◌else◌, max,
}
use aitp_control_plane.Prelude.Maps.{Map, get}
use aitp_control_plane.RateLimit.{Limiter, check}
use aitp_control_plane.RateLimit.Buckets.{Decision}
use Paths.{includes, is_public_request, rate_limit_exempt_paths, is_api_path}
use Request.{Incoming, Settings, IssuerKey, client_ip, bearer_token, first_units}

-- What the gate answers: the request goes on with these attribution headers, or it is refused.
pub data Answer : Type 0 where
  untouched : Answer
  preflight : Answer
  forwarded : Option String → Option String → Option String → Answer
  misconfigured : Answer
  unauthorized : Answer
  rate_limited : String → ℕ → Decision → Answer

pub record Choice : Type 0 where
  pub bucket_name : String
  pub key : String
  pub limit : ℕ

-- `token` is falsy when it is missing or empty.
abbrev pub is_given : Option String → Bool
is_given none = false
is_given (some t) = not (str_eq t "")

abbrev pub token_text : Option String → String
token_text none = ""
token_text (some t) = t

unfoldable pub choose_rate_limit : Settings → Incoming → Option String → Bool → Choice
choose_rate_limit cfg r token is_public =
    if str_eq r.pathname "/api/registry/enroll"
    then (record { bucket_name = "enroll-ip"; key = client_ip cfg r; limit = cfg.enroll_per_ip })
    else if is_public || not (is_given token)
    then (record { bucket_name = "public-ip"; key = client_ip cfg r; limit = cfg.public_per_ip })
    else (record {
      bucket_name = "api-key";
      key = first_units cfg 24 (token_text token);
      limit = cfg.per_api_key;
    })

abbrev pub issuer_key_route : String
issuer_key_route = "/api/revocations"

-- The issuer key of the request, which is looked up on one route only.
unfoldable pub issuer_key_of : Settings → Incoming → Option String → Option IssuerKey
issuer_key_of cfg r token =
    if str_eq r.pathname issuer_key_route && str_eq r.method "GET" && is_given token
    then get (token_text token) cfg.issuer_keys
    else none

-- What the check of the key comes to: a label to forward, or the refusal.
pub data Auth : Type 0 where
  allowed : Option String → Auth
  refused : Answer → Auth

abbrev pub is_empty_map {ℓ} : {V : Type ℓ} → Map V → Bool
is_empty_map [] = true
is_empty_map (x ∷ xs) = false

-- `KEY_LABELS.get(token)`, falsy when the label is missing or empty.
abbrev pub by_label : Option String → Auth
by_label none = refused unauthorized
by_label (some label) = if str_eq label "" then refused unauthorized else allowed (some label)

abbrev pub look_up : Settings → Option String → Option String
look_up cfg token = if is_given token then get (token_text token) cfg.key_labels else none

unfoldable pub admin_key : Settings → Option String → Auth
admin_key cfg token =
    if is_empty_map cfg.key_labels
    then (if cfg.is_production then refused misconfigured else allowed none)
    else by_label (look_up cfg token)

unfoldable pub authorize : Settings → Incoming → Option String → Bool → Option IssuerKey → Auth
authorize cfg r token is_public (some issuer) = allowed (some issuer.label)
authorize cfg r token true none = allowed none
authorize cfg r token false none = admin_key cfg token

-- `ip !== 'unknown'`, and only a label or issuer that is not empty is set.
abbrev pub non_empty : Option String → Option String
non_empty none = none
non_empty (some s) = if str_eq s "" then none else some s

abbrev pub known_ip : String → Option String
known_ip ip = if str_eq ip "unknown" then none else some ip

abbrev pub aid_of : Option IssuerKey → Option String
aid_of none = none
aid_of (some k) = some k.aid

unfoldable pub pass_through : Settings → Incoming → Option String → Option IssuerKey → Answer
pass_through cfg r label issuer =
    forwarded (non_empty label) (non_empty (aid_of issuer)) (known_ip (client_ip cfg r))

-- `Math.max(1, Math.ceil((resetAt - now) / 1000))`
abbrev pub retry_after : ℕ → ℕ → ℕ
retry_after reset_at now = max 1 ((reset_at - now + 999) / 1000)

abbrev pub by_decision : Answer → Choice → ℕ → Limiter × Decision → Limiter × Answer
by_decision passed choice now (l, d) = (
  l,
  (if d.allowed then passed else rate_limited choice.bucket_name (retry_after d.reset_at now) d),
)

unfoldable pub limit_rate :
    Settings → ℕ → Incoming → Option String → Bool → Answer → Limiter → Limiter × Answer
limit_rate cfg now r token is_public passed l =
    if cfg.rate_limit_enabled && not (includes rate_limit_exempt_paths r.pathname)
    then by_decision passed (choose_rate_limit cfg r token is_public) now (
        check (choose_rate_limit cfg r token is_public).bucket_name
          (choose_rate_limit cfg r token is_public).key
          (choose_rate_limit cfg r token is_public).limit cfg.window_ms now l)
    else (l, passed)

unfoldable pub after_auth :
    Settings
    → ℕ
    → Incoming
    → Option String
    → Bool
    → Option IssuerKey
    → Auth
    → Limiter
    → Limiter × Answer
after_auth cfg now r token is_public issuer (refused a) l = (l, a)
after_auth cfg now r token is_public issuer (allowed label) l =
    limit_rate cfg now r token is_public (pass_through cfg r label issuer) l

unfoldable pub proxy : Settings → ℕ → Incoming → Limiter → Limiter × Answer
proxy cfg now r l =
    let token = bearer_token r in
    let is_public = is_public_request r.pathname r.method in
    let issuer = issuer_key_of cfg r token in
    if not (is_api_path r.pathname)
    then (l, untouched)
    else if str_eq r.method "OPTIONS"
    then (l, preflight)
    else after_auth cfg now r token is_public issuer (authorize cfg r token is_public issuer) l
