-- ===== src/TrustAnchors/Fetch/Safe.antt =====
-- Where src/lib/trust-anchors/jwks-refresher.ts fetches from.
use aitp_control_plane.Prelude.{
  drop, ℕ, ◌≡◌, ◌≢◌, ◌⊎◌, ◌≤◌, ◌<◌, true, false, some, String, List, [], ◌∷◌, ◌&&◌, All,
}
use aitp_control_plane.Json.{Json}
use aitp_control_plane.Webhooks.Addresses.{
  is_text, starts_with, is_dotted, codes, split_dots, octets, without_zone,
}
use aitp_control_plane.TrustAnchors.Fetch.{Url, Response, Net, max_body_bytes}

-- An IPv4 address outside the blocks that src/lib/webhooks/url-guard.ts lists.
pub record IsPublicV4 (ip : List ℕ) : Type 0 where
  pub a : ℕ
  pub b : ℕ
  pub c : ℕ
  pub d : ℕ
  pub read : octets (split_dots ip) ≡ some (a ∷ b ∷ c ∷ d ∷ [])
  pub unicast : (0 < a) × (a < 224)
  pub not_private_a : (a ≢ 10) × (a ≢ 127)
  pub not_private_b : (a ≡ 172 → (b < 16) ⊎ (31 < b)) × (a ≡ 192 → b ≢ 168)
  pub not_link_local : a ≡ 169 → b ≢ 254
  pub not_shared : a ≡ 100 → (b < 64) ⊎ (127 < b)

-- An IPv6 address, without its zone, that is neither the loopback nor the unspecified address, and
-- maps a public IPv4 address or else is not link-local, unique-local or multicast.
pub record IsPublicV6 (ip : List ℕ) : Type 0 where
  pub loopback : is_text ip "::1" ≡ false
  pub unspecified : is_text ip "::" ≡ false
  pub mapped :
      starts_with (codes "::ffff:") ip ≡ true
      → is_dotted (drop 7 ip) ≡ true
      → IsPublicV4 (drop 7 ip)
  pub unmapped :
      (starts_with (codes "::ffff:") ip && is_dotted (drop 7 ip)) ≡ false
      → (starts_with (codes "fe80") ip ≡ false)
        × (starts_with (codes "fc") ip ≡ false)
        × (starts_with (codes "fd") ip ≡ false)
        × (starts_with (codes "ff") ip ≡ false)

abbrev pub IsPublicAddress : Net → String → Type 0
IsPublicAddress net ip =
    ((net.ip_version ip ≡ 4) × IsPublicV4 (codes ip))
    ⊎ ((net.ip_version ip ≡ 6) × IsPublicV6 (without_zone (codes ip)))

-- A host that is a public address, or a name that resolves to public addresses only, at least one.
abbrev pub IsPublic : Net → String → Type 0
IsPublic net host =
    IsPublicAddress net host
    ⊎ ((net.ip_version host ≡ 0)
        × ((first : String) × (others : List String) × (net.lookup host ≡ some (first ∷ others))
            × All (IsPublicAddress net) (first ∷ others)))

-- What stands behind a document that was fetched.
pub record IsSafe (net : Net) (raw : String) (json : Json) : Type 0 where
  pub url : Url
  pub parsed : net.parse_url raw ≡ some url
  pub scheme : (url.protocol ≡ "https:") ⊎ ((url.protocol ≡ "http:") × (net.is_production ≡ false))
  pub public : IsPublic net url.host
  pub response : Response
  pub answered : net.get url.href ≡ some response
  pub successful : response.is_ok ≡ true
  pub small : response.text_length ≤ max_body_bytes
  pub read : response.json ≡ some json
