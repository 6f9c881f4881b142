-- ===== src/TrustAnchors/Tests.antt =====
-- The theorems on trust anchors at a concrete table.
use aitp_control_plane.Prelude.{
  ℕ, ◌≡◌, String, refl, true, false, none, some, List, [], ◌∷◌, str_eq, All, if◌then◌else◌,
}
use aitp_control_plane.Json.{Json, arr, obj, nil, end, field}
use aitp_control_plane.TrustAnchors.{Anchor}
use aitp_control_plane.Webhooks.Addresses.{
  is_private_ip, is_private_ipv4, is_private_ipv6, is_dotted, starts_with, without_zone, codes,
  split_dots, octets, decimal_from, is_special,
}
use aitp_control_plane.TrustAnchors.Fetch.{Net}
use aitp_control_plane.TrustAnchors.Cache.{
  Step, created, patching, refreshing, act_all, IsOwn, all_fetches, act_all-AreOwn,
}

abbrev keys : Json
keys = obj (field "keys" (arr nil) end)

abbrev net : Net
net = record {
  is_production = true;
  parse_url = λ s. some (record { protocol = "https:"; host = s; href = s });
  ip_version = λ s. if str_eq s "1.1.1.1" then 4 else 0;
  lookup = λ s. some ("1.1.1.1" ∷ []);
  get = λ s. some (record { is_ok = true; text_length = 20; json = some keys });
}

abbrev anchor : Anchor
anchor = record {
  id = "1";
  namespace = "default";
  issuer_url = "https://a";
  jwks_url = some "https://a/jwks";
  jwks_cache = none;
  jwks_cached_at = none;
  label = none;
  added_by = none;
  created_at = 1;
  updated_at = 1;
}

-- The anchor is changed while its old keys are being fetched.
abbrev steps : List Step
steps =
    refreshing net 5 anchor
    ∷ patching 6 "1"
        (record { issuer_url = none; jwks_url = some (some "https://b/jwks"); label = none })
    ∷ refreshing net 7 anchor
    ∷ created "2" "default" "https://c" none none none 8
    ∷ []

act_all-AreOwn_example : All (IsOwn (all_fetches steps [])) (act_all steps (anchor ∷ []))
act_all-AreOwn_example = act_all-AreOwn steps [] (anchor ∷ []) (tt, tt)

-- A metadata address, alone and mapped into IPv6, a public address and a text that is none.
abbrev version : ℕ → String → ℕ
version n s = n

metadata_private : is_private_ip (version 4) "169.254.169.254" ≡ true
unfolding is_private_ip is_private_ipv4 codes split_dots octets decimal_from is_special
metadata_private = refl

mapped_private : is_private_ip (version 6) "::FFFF:169.254.169.254%eth0" ≡ true
unfolding is_private_ip is_private_ipv4 is_private_ipv6 is_dotted starts_with without_zone codes
    split_dots octets decimal_from is_special
mapped_private = refl

resolver_public : is_private_ip (version 6) "2606:4700::1111" ≡ false
unfolding is_private_ip is_private_ipv6 is_dotted starts_with without_zone codes split_dots
resolver_public = refl

name_private : is_private_ip (version 0) "a" ≡ true
unfolding is_private_ip
name_private = refl
