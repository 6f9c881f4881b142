-- ===== src/TrustAnchors/Fetch.antt =====
-- How src/lib/trust-anchors/jwks-refresher.ts fetches a keyset: the check of a URL, the fetch, and
-- the discovery of the keyset's URL.
pub mod Safe
use Prim.Native.String
use Prim.Native.Char.{code}
use aitp_control_plane.Prelude.{
  ℕ, Bool, true, false, Option, none, some, String, List, [], ◌∷◌, ◌&&◌, ◌||◌, not, ltb, any,
  str_eq, ◌==◌, if◌then◌else◌,
}
use aitp_control_plane.Json.{Json, arr, obj, Fields, member, object_at}
use aitp_control_plane.Tcts.Read.{filled_string}
use aitp_control_plane.Webhooks.Addresses.{is_private_ip}

-- `new URL`; `host` is without the brackets of an IPv6 address.
pub record Url : Type 0 where
  pub protocol : String
  pub host : String
  pub href : String

-- An answer to a GET that was not redirected: its text's length, and what `JSON.parse` makes of it.
pub record Response : Type 0 where
  pub is_ok : Bool
  pub text_length : ℕ
  pub json : Option Json

-- The world outside: `none` where the call throws.
pub record Net : Type 0 where
  pub is_production : Bool
  pub parse_url : String → Option Url
  -- `isIP`: 4, 6 or 0
  pub ip_version : String → ℕ
  pub lookup : String → Option (List String)
  pub get : String → Option Response

abbrev pub max_body_bytes : ℕ
max_body_bytes = 1048576

abbrev pub is_public : Net → Option (List String) → Bool
is_public net none = false
is_public net (some []) = false
is_public net (some (a ∷ rest)) = not (any (is_private_ip net.ip_version) (a ∷ rest))

abbrev pub is_safe_host : Net → String → Bool
is_safe_host net host =
    let resolved = is_public net (net.lookup host) in
    if net.ip_version host == 0 then resolved else not (is_private_ip net.ip_version host)

abbrev pub is_allowed : Net → String → Bool
is_allowed net protocol =
    str_eq protocol "https:" || (str_eq protocol "http:" && not net.is_production)

abbrev pub safe_url : Net → Option Url → Option Url
safe_url net none = none
safe_url net (some u) =
    if is_allowed net u.protocol && is_safe_host net u.host then some u else none

-- The URL when it may be fetched.
unfoldable pub assert_safe_jwks_url : Net → String → Option Url
assert_safe_jwks_url net raw = safe_url net (net.parse_url raw)

abbrev pub body_of : Option Response → Option Json
body_of none = none
body_of (some res) =
    if res.is_ok && not (ltb max_body_bytes res.text_length) then res.json else none

abbrev pub fetched : Net → Option Url → Option Json
fetched net none = none
fetched net (some u) = body_of (net.get u.href)

unfoldable pub fetch_json : Net → String → Option Json
fetch_json net raw = fetched net (assert_safe_jwks_url net raw)

-- `issuerUrl.replace(/\/$/, '')`
unfoldable pub without_slash : String → String
without_slash String.[] = String.[]
without_slash (String.◌∷◌ c s) =
    let rest = without_slash s in
    if code c == b'/' && str_eq s "" then String.[] else String.◌∷◌ c rest

abbrev jwks_uri_of : Option Fields → Option String
jwks_uri_of none = none
jwks_uri_of (some meta) = filled_string (member "jwks_uri" meta)

unfoldable pub discover_jwks_uri : Net → String → Option String
discover_jwks_uri net issuer =
    let url = String.◌++◌ (without_slash issuer) "/.well-known/openid-configuration" in
    jwks_uri_of (object_at (fetch_json net url))

abbrev has_keys : Option Json → Bool
has_keys (some (arr keys)) = true
has_keys _ = false

abbrev keyset : Option Json → Option Json
keyset (some (obj fs)) = if has_keys (member "keys" fs) then some (obj fs) else none
keyset _ = none

abbrev keys_at : Net → Option String → Option Json
keys_at net none = none
keys_at net (some uri) = keyset (fetch_json net uri)

abbrev uri_of : Net → String → Option String → Option String
uri_of net issuer (some uri) = some uri
uri_of net issuer none = discover_jwks_uri net issuer

unfoldable pub fetch_jwks : Net → String → Option String → Option Json
fetch_jwks net issuer jwks = keys_at net (uri_of net issuer jwks)
