-- ===== src/Audit/Signing.antt =====
-- The signing input of a compact JWS, src/lib/audit/signed-content.ts, against its signature.
use Prim.Native.String
use text.Mathlib.TextLemmas.{nil-append, cons-append}
use aitp_control_plane.Prelude.{◌≡◌, refl, true, Option, some, String, [], ◌∷◌, arith}
use aitp_control_plane.Json.{Json}
use aitp_control_plane.Audit.SignedContent.{
  split_dots, all_b64url, is_segment, is_header, jws_signing_input,
}

abbrev pub compact : String → String → String → String
compact header payload signature =
    String.◌++◌ header (String.◌++◌ "." (String.◌++◌ payload (String.◌++◌ "." signature)))

pub split_dots-segment :
    (a rest : String)
    → all_b64url a ≡ true
    → split_dots (String.◌++◌ a (String.◌++◌ "." rest)) ≡ a ∷ split_dots rest
unfolding split_dots all_b64url
split_dots-segment String.[] rest h = rw (nil-append, cons-append, nil-append rest) refl
split_dots-segment (String.◌∷◌ c a) rest h =
    rw (cons-append c a (String.◌++◌ "." rest)) (
      unfold split_dots in (rw (split_dots-segment a rest (ground (arith, h))) (ground (arith, h))))

pub split_dots-last : (a : String) → all_b64url a ≡ true → split_dots a ≡ a ∷ []
unfolding split_dots all_b64url
split_dots-last String.[] h = refl
split_dots-last (String.◌∷◌ c a) h = rw (split_dots-last a (ground (arith, h))) (ground (arith, h))

-- The signing input of a compact JWS is what the signature covers.
pub jws_signing_input-compact :
    (decode : String → Option Json) (header payload signature : String)
    → is_segment header ≡ true
    → is_segment payload ≡ true
    → is_segment signature ≡ true
    → is_header (decode header) ≡ true
    → jws_signing_input decode (compact header payload signature)
      ≡ some (String.◌++◌ header (String.◌++◌ "." payload))
unfolding jws_signing_input
jws_signing_input-compact decode h p s a b c d =
    rw
      (
        split_dots-segment h (String.◌++◌ p (String.◌++◌ "." s)) (ground (arith, a)),
        split_dots-segment p s (ground (arith, b)),
        split_dots-last s (ground (arith, c)),
      )
      (rw (a, b, c, d) refl)
