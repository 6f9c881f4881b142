-- ===== src/Revocations/Tests.antt =====
-- The theorem on the operator's entries at a concrete post.
use aitp_control_plane.Prelude.{◌≡◌, refl, none, some, [], ◌∷◌}
use aitp_control_plane.Json.{str, Fields, end, field, member}
use aitp_control_plane.Prelude.Tables.{find_where}
use aitp_control_plane.Uuid.{Uuid, hex_value, digit, read_shape, read_jti}
use aitp_control_plane.Audit.Canonical.{utf16}
use aitp_control_plane.Tcts.Observe.{off}
use aitp_control_plane.Tcts.Store.{Store, Monitor}
use aitp_control_plane.Revocations.{after_epoch, Clock, found, all_aid_chars, is_aid, read_draft}
use aitp_control_plane.Validate.{has_upper, read_v4, count_chars, has_nul}
use aitp_control_plane.Revocations.Entries.{projected_iss, stored_iss, resolve_iss, post_entry}
use aitp_control_plane.Revocations.Laws.{IsSettled, post_entry-IsSettled}

abbrev clock : Clock
clock = record { get_time = λ s. some (after_epoch 5); to_iso_string = λ i. "t5"; now = "t9" }

abbrev monitor : Monitor
monitor = record {
  codec = record { decode_segment = λ s. none; epoch_to_iso = λ s. some s; sha1 = λ s. [] };
  sdk = record { verify_tct = λ t g a. none; verify_delegation = λ t a ms. none };
  mode = off;
}

abbrev empty : Store
empty = record { issued_tcts = []; delegations = []; revocation_entries = []; agents = [] }

abbrev body : Fields
body =
    field "jti" (str "11111111-1111-4111-8111-111111111111")
      (field "iss" (str "aid:pubkey:a") (field "reason" (str "lost") end))

abbrev repeated : Uuid
repeated =
    1 ∷ 1 ∷ 1 ∷ 1 ∷ 1 ∷ 1 ∷ 1 ∷ 1 ∷ 1 ∷ 1 ∷ 1 ∷ 1 ∷ 4 ∷ 1 ∷ 1 ∷ 1 ∷ 8 ∷ 1 ∷ 1 ∷ 1 ∷ 1 ∷ 1 ∷ 1 ∷ 1
    ∷ 1 ∷ 1 ∷ 1 ∷ 1 ∷ 1 ∷ 1 ∷ 1 ∷ 1 ∷ []

post_entry-IsSettled_example : IsSettled empty (post_entry monitor clock body empty)
post_entry-IsSettled_example = post_entry-IsSettled monitor clock body empty tt

post_accepted :
    (post_entry monitor clock body empty).0
    ≡ found (record {
      jti = repeated;
      revoked_at = "t9";
      reason = some "lost";
      iss = some "aid:pubkey:a";
    })
unfolding post_entry read_draft member read_v4 has_upper read_jti read_shape hex_value digit has_nul
    utf16 is_aid count_chars all_aid_chars resolve_iss projected_iss stored_iss find_where
post_accepted = refl
