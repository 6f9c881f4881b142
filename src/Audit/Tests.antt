-- ===== src/Audit/Tests.antt =====
-- The theorems on canonical JSON and event ids at a concrete event.
use Prim.Native.String
use aitp_control_plane.Prelude.{◌≡◌, refl, true, none, some, String, [], ◌∷◌}
use aitp_control_plane.Prelude.Tables.{select_where}
use aitp_control_plane.Json.{
  members, null, num, str, arr, obj, nil, cons, Fields, end, field, member,
}
use aitp_control_plane.Audit.SignedContent.{
  split_dots, all_b64url, jws_signing_input, is_envelope_signature,
}
use aitp_control_plane.Audit.Canonical.{
  utf16, is_before, insert_key, sort_keys, string_text, push_members, ordered, turn, loop, weight,
  canonical_json,
}
use aitp_control_plane.Audit.Canonical.Spec.{canonical}
use aitp_control_plane.Audit.Canonical.Equivalence.{canonical_json-canonical}
use aitp_control_plane.Audit.Canonical.Content.{
  SameContent, same, resigned, in_object, in_place, no_members, swapped, rearranged,
}
use aitp_control_plane.Audit.EventId.{
  from_zero, in_storable_range, Ids, signed_printer, content_id, parse_event_timestamp,
  event_id_for,
}
use aitp_control_plane.Audit.EventId.Laws.{event_id_for-SameContent}

abbrev quote : String → String
quote s = String.◌++◌ "'" (String.◌++◌ s "'")

abbrev ids : Ids
ids = record {
  dates = record {
    of_text = λ s. some (record { utc_full_year = from_zero 2026; iso_string = s });
    is_below_1e12 = λ n. true;
    of_millis = λ n. none;
    of_seconds = λ n. none;
  };
  quote = quote;
  decode_segment = λ s. some (obj (field "alg" (str "EdDSA") end));
  sha256 = λ s. 1 ∷ 2 ∷ 3 ∷ 4 ∷ 5 ∷ 6 ∷ 7 ∷ 8 ∷ 9 ∷ 10 ∷ 11 ∷ 12 ∷ 13 ∷ 14 ∷ 15 ∷ 16 ∷ [];
}

abbrev first : Fields
first = field "ts" (str "t") (field "token" (str "h.p.sA") end)

abbrev again : Fields
again = field "token" (str "h.p.sB") (field "ts" (str "t") end)

first-text :
    canonical_json (signed_printer ids) (obj first)
    ≡ some "{'token':'jws-signing-input:h.p','ts':'t'}"
unfolding canonical_json loop turn ordered sort_keys insert_key select_where members push_members
    weight utf16 is_before string_text jws_signing_input split_dots all_b64url member
    is_envelope_signature
first-text = refl

canonical_json-canonical_example :
    canonical_json
      (signed_printer ids)
      (obj (field "b" (arr (cons null (cons (num "1") nil))) first))
    ≡ some (
        canonical
          (signed_printer ids)
          (obj (field "b" (arr (cons null (cons (num "1") nil))) first)))
canonical_json-canonical_example =
    canonical_json-canonical (signed_printer ids)
      (obj (field "b" (arr (cons null (cons (num "1") nil))) first))

apart : utf16 "ts" ≡ utf16 "token" → ⊥
unfolding utf16
apart = λ e. cc

first-SameContent : SameContent (signed_printer ids) (obj first) (obj again)
unfolding jws_signing_input split_dots all_b64url member
first-SameContent = in_object (
    rearranged (swapped apart)
      (in_place (resigned {input = "h.p"} refl refl refl) (in_place same no_members)))

event_id_for-SameContent_example :
    (event_id_for ids first none (0 ∷ []) ≡ event_id_for ids again none (1 ∷ []))
    × (event_id_for ids first none (0 ∷ [])
        ≡ some (content_id ids none (canonical (signed_printer ids) (obj first))))
unfolding parse_event_timestamp in_storable_range member
event_id_for-SameContent_example =
    event_id_for-SameContent ids first again none (0 ∷ []) (1 ∷ []) first-SameContent refl refl
