-- ===== src/ApiKeys/Tests.antt =====
-- The issuer keys of a concrete list.
use aitp_control_plane.Prelude.{◌≡◌, refl, some, String, List, [], ◌∷◌}
use aitp_control_plane.Prelude.Tables.{select_where}
use aitp_control_plane.Audit.Canonical.{utf16}
use aitp_control_plane.Revocations.{is_aid, all_aid_chars}
use aitp_control_plane.Validate.{count_chars}
use aitp_control_plane.ApiKeys.{
  all_label_chars, is_label, is_prefix, has_part, looks_like_secret, malformed, key_is_admin,
  split_commas, cut_at, items_of, is_well_formed, take_entry, take_items, parse_issuer_keys,
}
use aitp_control_plane.ApiKeys.Issuers.{IsRing, parse_issuer_keys-IsRing}

abbrev admin : List String
admin = "k-admin" ∷ []

abbrev raw : String
raw = "r-1@aid:x=k-1,r-2@aid:x=k-admin,oops"

ring : parse_issuer_keys (λ s. s) (some raw) admin ≡ record {
  entries = record { label = "r-1"; aid = "aid:x"; key = "k-1" } ∷ [];
  warnings = (2, key_is_admin) ∷ (3, malformed) ∷ [];
  errors = [];
}
unfolding parse_issuer_keys take_items take_entry items_of split_commas cut_at is_well_formed
    is_label all_label_chars is_aid all_aid_chars count_chars looks_like_secret has_part is_prefix
    utf16 select_where
ring = refl

parse_issuer_keys-IsRing_example : IsRing admin (parse_issuer_keys (λ s. s) (some raw) admin)
parse_issuer_keys-IsRing_example = parse_issuer_keys-IsRing (λ s. s) (some raw) admin
