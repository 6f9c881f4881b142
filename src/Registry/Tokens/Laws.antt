-- ===== src/Registry/Tokens/Laws.antt =====
-- Which enrollment tokens src/lib/registry/enrollment.ts accepts.
use aitp_control_plane.Prelude.{
  ℕ, ◌≡◌, refl, ap, ◌∙◌, true, false, some, String, List, [], ◌∷◌, ◌&&◌, not, str_eq, ltb, subst,
  eq_iff, eq_refl, if◌then◌else◌, arith, Bool-cases, Option-cases, inl, inr,
}
use aitp_control_plane.Json.{Json, str, num, member}
use aitp_control_plane.Audit.SignedContent.{split_dots, is_segment}
use aitp_control_plane.Audit.Signing.{split_dots-segment, split_dots-last}
use aitp_control_plane.Tcts.Read.{filled_string}
use aitp_control_plane.Registry.Tokens.{
  EnrollmentPayload, Primitives, Checked, refused, accepted, manifest_digest, sign, verify_parts,
  verify, at, is_text, is_same, Validated, check_payload, then_check, validate_token, json_of,
  check_jti, expired, wrong_subject, no_jti, unbound, other_manifest,
}

-- The grounds on which a token is accepted for a manifest's aid and a request's body.
pub record IsGenuine (n : Primitives) (secret : String) (now : ℕ) (token : String) (aid : Json)
    (body : String) (v : Validated) : Type 0 where
  pub signed : String
  pub parts : split_dots token ≡ signed ∷ n.hmac secret signed ∷ []
  pub payload : Json
  pub read : n.decode_segment signed ≡ some payload
  pub scoped : is_text "register" (at "scope" payload) ≡ true
  pub current : n.is_over now (at "exp" payload) ≡ false
  pub own : is_same aid (at "sub" payload) ≡ true
  pub single : filled_string (at "jti" payload) ≡ some v.jti
  pub bound : filled_string (at "msh" payload) ≡ some (manifest_digest n body)

module _ (n : Primitives) (secret : String) (now : ℕ) (aid : Json) (body : String) where
  -- What is accepted of a payload.
  record IsBound (payload : Json) (v : Validated) : Type 0 where
    pub scoped : is_text "register" (at "scope" payload) ≡ true
    pub current : n.is_over now (at "exp" payload) ≡ false
    pub own : is_same aid (at "sub" payload) ≡ true
    pub single : filled_string (at "jti" payload) ≡ some v.jti
    pub bound : filled_string (at "msh" payload) ≡ some (manifest_digest n body)

  abbrev IsBoundIf : Json → Checked Validated → Type 0
  IsBoundIf payload (refused p) = Unit
  IsBoundIf payload (accepted v) = IsBound payload v

  check_payload-IsBound :
      (payload : Json) → IsBoundIf payload (check_payload n now aid body payload)
  check_payload-IsBound payload = elim (Bool-cases (is_text "register" (at "scope" payload))) [
    | inr other ↦ simp other tt
    | inl scoped ↦ elim (Bool-cases (n.is_over now (at "exp" payload))) [
      | inl over ↦ simp (scoped, over) tt
      | inr current ↦ elim (Bool-cases (is_same aid (at "sub" payload))) [
        | inr other ↦ simp (scoped, current, other) tt
        | inl own ↦ elim (Option-cases (filled_string (at "jti" payload))) [
          | inl missing ↦ simp (scoped, current, own, missing) tt
          | inr (jti, single) ↦ elim (Option-cases (filled_string (at "msh" payload))) [
            | inl unbound' ↦ simp (scoped, current, own, single, unbound') tt
            | inr (msh, bound) ↦ elim (Bool-cases (str_eq msh (manifest_digest n body))) [
              | inr other ↦ simp (scoped, current, own, single, bound, other) tt
              | inl same ↦
                  let digest : msh ≡ manifest_digest n body =
                    ground (arith, same, eq_iff msh (manifest_digest n body)) in
                  simp (scoped, current, own, single, bound, same)
                    (record {
                      scoped = scoped;
                      current = current;
                      own = own;
                      single = single;
                      bound = bound ∙ ap (λ d. some d) digest;
                    })
            ]
          ]
        ]
      ]
    ]
  ]

  abbrev IsGenuineIf : String → Checked Validated → Type 0
  IsGenuineIf token (refused p) = Unit
  IsGenuineIf token (accepted v) = IsGenuine n secret now token aid body v

  of_payload :
      (token signed : String) (payload : Json) (c : Checked Validated)
      → split_dots token ≡ signed ∷ n.hmac secret signed ∷ []
      → n.decode_segment signed ≡ some payload
      → IsBoundIf payload c
      → IsGenuineIf token c
  of_payload token signed payload (refused p) parts read h = tt
  of_payload token signed payload (accepted v) parts read h = record {
    signed = signed;
    parts = parts;
    payload = payload;
    read = read;
    scoped = h.scoped;
    current = h.current;
    own = h.own;
    single = h.single;
    bound = h.bound;
  }

  of_parts :
      (token : String) (parts : List String)
      → split_dots token ≡ parts
      → IsGenuineIf token (then_check (verify_parts n secret parts) (check_payload n now aid body))
  of_parts token [] e = tt
  of_parts token (a ∷ []) e = tt
  of_parts token (a ∷ b ∷ c ∷ parts) e = tt
  of_parts token (signed ∷ sig ∷ []) e = elim (Bool-cases (is_segment signed && is_segment sig)) [
    | inr bad ↦ simp bad tt
    | inl formed ↦ elim (Bool-cases (str_eq sig (n.hmac secret signed))) [
      | inr forged ↦ simp (formed, forged) tt
      | inl genuine ↦ elim (Option-cases (n.decode_segment signed)) [
        | inl unread ↦ simp (formed, genuine, unread) tt
        | inr (payload, read) ↦
            let same : sig ≡ n.hmac secret signed =
              ground (arith, genuine, eq_iff sig (n.hmac secret signed)) in
            simp (formed, genuine, read)
              (of_payload token signed payload (check_payload n now aid body payload)
                (e ∙ ap (λ x. signed ∷ x ∷ []) same) read (check_payload-IsBound payload))
      ]
    ]
  ]

-- A token is accepted only with the signature of this service under its two parts, and then its
-- payload is for registration, not expired, and names the aid and the digest of the body.
pub validate_token-IsGenuine :
    (n : Primitives) (secret : String) (now : ℕ) (token : String) (aid : Json) (body : String)
    (v : Validated)
    → validate_token n secret now token aid body ≡ accepted v
    → IsGenuine n secret now token aid body v
unfolding validate_token verify
validate_token-IsGenuine n secret now token aid body v e =
    subst (IsGenuineIf n secret now aid body token) e
      (of_parts n secret now aid body token (split_dots token) refl)

-- What the primitives do to a payload that was signed: the segments are base64url and decode to
-- what was encoded, and a number that was written is compared as the number it was.
pub record IsFaithful (n : Primitives) (secret : String) (decimal : ℕ → String)
    (p : EnrollmentPayload) : Type 0 where
  pub encoded : is_segment (n.base64url (n.stringify p)) ≡ true
  pub signature : is_segment (n.hmac secret (n.base64url (n.stringify p))) ≡ true
  pub decodes : n.decode_segment (n.base64url (n.stringify p)) ≡ some (json_of decimal p)
  pub compares : (now : ℕ) → n.is_over now (some (num (decimal p.exp))) ≡ ltb p.exp now

-- The verdict on a signed payload.
unfoldable pub verdict :
    Primitives → (ℕ → String) → EnrollmentPayload → ℕ → String → String → Checked Validated
verdict n decimal p now aid body =
    if ltb p.exp now
    then refused expired
    else if not (str_eq p.sub aid)
    then refused wrong_subject
    else if str_eq p.jti ""
    then refused no_jti
    else if str_eq p.msh ""
    then refused unbound
    else if str_eq p.msh (manifest_digest n body)
    then accepted (record { jti = p.jti; exp = some (num (decimal p.exp)) })
    else refused other_manifest

check_jti-verdict :
    (n : Primitives) (decimal : ℕ → String) (p : EnrollmentPayload) (body : String)
    → check_jti n body (json_of decimal p) (filled_string (some (str p.jti))) ≡ (
        if str_eq p.jti ""
        then refused no_jti
        else if str_eq p.msh ""
        then refused unbound
        else if str_eq p.msh (manifest_digest n body)
        then accepted (record { jti = p.jti; exp = some (num (decimal p.exp)) })
        else refused other_manifest)
unfolding member
check_jti-verdict n decimal p body = elim (Bool-cases (str_eq p.jti "")) [
  | inl missing ↦ simp missing refl
  | inr named ↦ elim (Bool-cases (str_eq p.msh "")) [
    | inl unbound' ↦ simp (named, unbound') refl
    | inr bound ↦ simp (named, bound) refl
  ]
]

check_payload-verdict :
    (n : Primitives) (secret : String) (decimal : ℕ → String) (p : EnrollmentPayload) (now : ℕ)
    (aid body : String)
    → IsFaithful n secret decimal p
    → check_payload n now (str aid) body (json_of decimal p) ≡ verdict n decimal p now aid body
unfolding verdict member
check_payload-verdict n secret decimal p now aid body f = rw (f.compares now) (
    ap
      (λ c.
        if ltb p.exp now
        then refused expired
        else if not (str_eq p.sub aid)
        then refused wrong_subject
        else c)
      (check_jti-verdict n decimal p body))

-- Every token that is signed is read back: while it lasts, by the aid and the body that it was
-- made for, and by nobody else.
pub sign-verdict :
    (n : Primitives) (secret : String) (decimal : ℕ → String) (p : EnrollmentPayload) (now : ℕ)
    (aid body : String)
    → IsFaithful n secret decimal p
    → validate_token n secret now (sign n secret p) (str aid) body
      ≡ verdict n decimal p now aid body
unfolding validate_token verify sign
sign-verdict n secret decimal p now aid body f =
    let data' = n.base64url (n.stringify p) in
    let parts : split_dots (sign n secret p) ≡ data' ∷ n.hmac secret data' ∷ [] =
      split_dots-segment data' (n.hmac secret data') (ground (arith, f.encoded))
      ∙ ap (λ ps. data' ∷ ps)
          (split_dots-last (n.hmac secret data') (ground (arith, f.signature))) in
    ap (λ ps. then_check (verify_parts n secret ps) (check_payload n now (str aid) body)) parts
    ∙ rw (f.encoded, f.signature, eq_refl (n.hmac secret data'), f.decodes)
        (check_payload-verdict n secret decimal p now aid body f)
