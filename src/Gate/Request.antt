-- ===== src/Gate/Request.antt =====
-- What the gate reads of a request and of the configuration (src/proxy.ts, `getClientIp` and the
-- token at the head of `proxy`).
use aitp_control_plane.Prelude.{
  ℕ, ◌-◌, Bool, Option, none, some, String, List, [], ◌∷◌, str_eq, if◌then◌else◌, leb, ltb, length,
}
use aitp_control_plane.Prelude.Maps.{Map}
use aitp_control_plane.Gate.Paths.{strip, Rest, mismatch, rest}

pub record IssuerKey : Type 0 where
  pub label : String
  pub aid : String

-- Header values are those that `headers.get` returns.
pub record Incoming : Type 0 where
  pub pathname : String
  pub method : String
  pub authorization : Option String
  -- the header that `clientIpHeader` names
  pub client_ip_header : Option String
  pub forwarded_for : Option String
  pub real_ip : Option String

pub record Settings : Type 0 where
  pub key_labels : Map String
  pub issuer_keys : Map IssuerKey
  pub is_production : Bool
  pub has_client_ip_header : Bool
  pub trusted_proxy_hops : ℕ
  pub rate_limit_enabled : Bool
  pub enroll_per_ip : ℕ
  pub public_per_ip : ℕ
  pub per_api_key : ℕ
  pub window_ms : ℕ
  -- `s.split(',').map(trim)`, `s.trim()` and `s.slice(0, n)`
  pub split_commas : String → List String
  pub trim : String → String
  pub first : ℕ → String → String

abbrev pub first_units : Settings → ℕ → String → String
first_units cfg n s = cfg.first n s

-- A header that is there and not empty.
abbrev pub filled : Option String → Option String
filled none = none
filled (some s) = if str_eq s "" then none else some s

abbrev pub head_or : List String → String → String
head_or [] d = d
head_or (x ∷ xs) d = x

unfoldable pub drop_empty : List String → List String
drop_empty [] = []
drop_empty (s ∷ ss) = let kept = drop_empty ss in if str_eq s "" then kept else s ∷ kept

unfoldable pub nth : List String → ℕ → Option String
nth [] i = none
nth (x ∷ xs) ℕ.zero = some x
nth (x ∷ xs) (ℕ.suc i) = nth xs i

-- The entry `hops` places from the end, if the list is long enough.
unfoldable pub from_end : ℕ → List String → Option String
from_end hops parts = if leb hops (length parts) then nth parts (length parts - hops) else none

abbrev pub real_or_unknown : Settings → Option String → String
real_or_unknown cfg none = "unknown"
real_or_unknown cfg (some ip) = if str_eq ip "" then "unknown" else cfg.trim ip

abbrev pub by_hops : Settings → Incoming → Option String → String
by_hops cfg r none = real_or_unknown cfg r.real_ip
by_hops cfg r (some ip) = ip

abbrev pub hop_ip : Settings → Option String → Option String
hop_ip cfg none = none
hop_ip cfg (some fwd) =
    if ltb 0 cfg.trusted_proxy_hops
    then from_end cfg.trusted_proxy_hops (drop_empty (cfg.split_commas fwd))
    else none

abbrev pub platform_ip : Settings → Incoming → Option String → String
platform_ip cfg r none = by_hops cfg r (hop_ip cfg (filled r.forwarded_for))
platform_ip cfg r (some v) = head_or (cfg.split_commas v) ""

unfoldable pub client_ip : Settings → Incoming → String
client_ip cfg r =
    platform_ip cfg r (if cfg.has_client_ip_header then filled r.client_ip_header else none)

-- `Bearer <token>`, or the raw header; an absent or empty header gives no token.
abbrev pub bearer_of : String → Rest → Option String
bearer_of header (rest token) = some token
bearer_of header mismatch = if str_eq header "" then none else some header

abbrev pub token_of : Option String → Option String
token_of none = none
token_of (some header) = bearer_of header (strip "Bearer " header)

unfoldable pub bearer_token : Incoming → Option String
bearer_token r = token_of r.authorization
