-- ===== src/Tcts/Synthetic.antt =====
-- The jti that src/lib/tcts/monitor.ts makes up for a reported delegation that has none.
use Prim.Native.String
use aitp_control_plane.Prelude.{
  ◌≡◌, refl, true, none, some, String, [], ◌∷◌, length, arith, or_else, is_some,
}
use aitp_control_plane.Json.{Fields}
use aitp_control_plane.Uuid.{uuid_from_digest-is_jti}
use aitp_control_plane.Audit.SignedContent.{is_segment, is_header, jws_signing_input}
use aitp_control_plane.Audit.Signing.{compact, jws_signing_input-compact}
use aitp_control_plane.Tcts.Read.{read_string, wrapper_token, Codec}
use aitp_control_plane.Tcts.Parse.{wrapper_of, synthetic_delegation_jti, delegation_jti}

-- A payload without a jti, with a signed token.
pub record IsUnnamed (payload claims : Fields) (token : String) : Type 0 where
  pub no_own : read_string payload ("jti" ∷ "child_jti" ∷ []) ≡ none
  pub no_claimed : read_string claims ("jti" ∷ "child_jti" ∷ []) ≡ none
  pub carried : wrapper_token (wrapper_of payload) ≡ some token

delegation_jti-synthetic :
    (c : Codec) (payload claims : Fields) (token : String)
    → ((s : String) → length (c.sha1 s) ≡ 20)
    → IsUnnamed payload claims token
    → delegation_jti c payload claims ≡ some (synthetic_delegation_jti c token)
unfolding delegation_jti synthetic_delegation_jti
delegation_jti-synthetic c payload claims token digest u =
    simp
      (
        u.no_own,
        u.no_claimed,
        u.carried,
        uuid_from_digest-is_jti 5
            (c.sha1 (
              String.◌++◌ "aitp-delegation:v2\0"
                (or_else (jws_signing_input c.decode_segment token) token)))
            (omega arith) (omega arith) (omega (arith, digest _)),
      )
      refl

-- Two reports of one delegation token get one jti, whatever bytes each has for the signature.
delegation_jti-resigned :
    (c : Codec) (payload claims payload' claims' : Fields) (header body s s' : String)
    → ((s : String) → length (c.sha1 s) ≡ 20)
    → is_segment header ≡ true
    → is_segment body ≡ true
    → is_segment s ≡ true
    → is_segment s' ≡ true
    → is_header (c.decode_segment header) ≡ true
    → IsUnnamed payload claims (compact header body s)
    → IsUnnamed payload' claims' (compact header body s')
    → (delegation_jti c payload claims ≡ delegation_jti c payload' claims')
      × (is_some (delegation_jti c payload claims) ≡ true)
unfolding synthetic_delegation_jti
delegation_jti-resigned c payload claims payload' claims' h b s s' digest hh hb hs hs' hd u u' =
    let a = jws_signing_input-compact c.decode_segment h b s hh hb hs hd in
    let a' = jws_signing_input-compact c.decode_segment h b s' hh hb hs' hd in
    let e = delegation_jti-synthetic c payload claims (compact h b s) digest u in
    let e' = delegation_jti-synthetic c payload' claims' (compact h b s') digest u' in
    (rw (e, e') (rw (a, a') refl), rw e refl)
