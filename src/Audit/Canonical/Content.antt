-- ===== src/Audit/Canonical/Content.antt =====
-- JSON values with one content for src/lib/audit/event-id.ts: they differ in the order of the
-- members of objects and in the bytes of signatures.
use Prim.Native.String
use aitp_control_plane.Prelude.{
  ◌≡◌, refl, Bool, true, false, Option, some, String, List, ◌∷◌, ◌&&◌, not, str_eq, eq_iff, arith,
  Bool-cases, inl, inr, sym, ap, ◌∙◌, fun_ext,
}
use aitp_control_plane.Prelude.Tables.{select_where}
use aitp_control_plane.Json.{
  Json, str, arr, obj, Items, nil, cons, Fields, end, field, member, object_at,
}
use aitp_control_plane.Audit.SignedContent.{
  is_string, is_some_object, jws_signing_input, is_envelope_signature,
}
use aitp_control_plane.Audit.Canonical.{
  string_text, utf16, insert_key, sort_keys, Printer, is_kept, canonical_json,
}
use aitp_control_plane.Audit.Canonical.Spec.{
  join_items, join_members, canonical, texts, member_texts,
}
use aitp_control_plane.Audit.Canonical.Equivalence.{canonical_json-canonical}
use aitp_control_plane.Audit.Canonical.Order.{insert_key_commute}

mutual
  pub data SameContent (p : Printer) : Json → Json → Type 0 where
    same : {v : Json} → SameContent p v v
    in_turn : {u v w : Json} → SameContent p u v → SameContent p v w → SameContent p u w
    -- Two tokens with one signing input.
    resigned :
        {s t : String} {input : String}
        → p.signed_content ≡ true
        → jws_signing_input p.decode_segment s ≡ some input
        → jws_signing_input p.decode_segment t ≡ some input
        → SameContent p (str s) (str t)
    -- An envelope with another detached signature.
    resealed :
        {s t : String} {fs : Fields}
        → p.signed_content ≡ true
        → is_envelope_signature (field "signature" (str s) fs) "signature" ≡ true
        → SameContent p (obj (field "signature" (str s) fs)) (obj (field "signature" (str t) fs))
    in_array : {xs ys : Items} → SameItems p xs ys → SameContent p (arr xs) (arr ys)
    in_object : {fs gs : Fields} → SameMembers p fs gs → SameContent p (obj fs) (obj gs)

  pub data SameItems (p : Printer) : Items → Items → Type 0 where
    no_items : SameItems p nil nil
    item :
        {v w : Json} {xs ys : Items}
        → SameContent p v w
        → SameItems p xs ys
        → SameItems p (cons v xs) (cons w ys)

  pub data SameMembers (p : Printer) : Fields → Fields → Type 0 where
    no_members : SameMembers p end end
    in_place :
        {k : String} {v w : Json} {fs gs : Fields}
        → SameContent p v w
        → SameMembers p fs gs
        → SameMembers p (field k v fs) (field k w gs)
    -- Members may change places when their keys differ.
    swapped :
        {k j : String} {v w : Json} {fs : Fields}
        → (utf16 k ≡ utf16 j → ⊥)
        → SameMembers p (field k v (field j w fs)) (field j w (field k v fs))
    rearranged :
        {fs gs hs : Fields} → SameMembers p fs gs → SameMembers p gs hs → SameMembers p fs hs

-- What `isEnvelopeSignature` asks of a member.
abbrev shape : Option Json → Bool × Bool
shape v = (is_string v, is_some_object (object_at v))

shape-SameContent : {p : Printer} {v w : Json} → SameContent p v w → shape (some v) ≡ shape (some w)
shape-SameContent same = refl
shape-SameContent (in_turn r r') = shape-SameContent r ∙ shape-SameContent r'
shape-SameContent (resigned on a b) = refl
shape-SameContent (resealed on e) = refl
shape-SameContent (in_array r) = refl
shape-SameContent (in_object r) = refl

apart-str_eq : (k j : String) → (utf16 k ≡ utf16 j → ⊥) → str_eq k j ≡ false
apart-str_eq k j apart = elim (Bool-cases (str_eq k j)) [
  | inl e ↦ absurd (apart (ap utf16 ((eq_iff k j).0 e)))
  | inr e ↦ e
]

shape-member :
    {p : Printer} (key : String) (fs gs : Fields)
    → SameMembers p fs gs
    → shape (member key fs) ≡ shape (member key gs)
unfolding member
shape-member key _ _ no_members = refl
shape-member key _ _ (in_place {k} {v} {w} {fs} {gs} r rs) = elim (Bool-cases (str_eq k key)) [
  | inl hit ↦ rw hit (shape-SameContent r)
  | inr miss ↦ rw miss (shape-member key fs gs rs)
]
shape-member key _ _ (swapped {k} {j} {v} {w} {fs} apart) = elim (Bool-cases (str_eq k key)) [
  | inl hit ↦
      let miss : str_eq j key ≡ false =
        ground (arith, hit, apart-str_eq k j apart, eq_iff k key, eq_iff j key, eq_iff k j) in
      rw (hit, miss) refl
  | inr miss ↦
      rw miss
        (elim (Bool-cases (str_eq j key)) [ inl hit ↦ rw hit refl | inr miss' ↦ rw miss' refl ])
]
shape-member key fs hs (rearranged {gs = gs} r r') =
    shape-member key fs gs r ∙ shape-member key gs hs r'

-- Which members are kept does not depend on their order.
is_kept-SameMembers :
    (p : Printer) (fs gs : Fields) (m : String × String)
    → SameMembers p fs gs
    → is_kept p fs m ≡ is_kept p gs m
unfolding is_envelope_signature
is_kept-SameMembers p fs gs (k, a) r =
    rw
      (
        ap (λ s. s.0) (shape-member "signature" fs gs r),
        ap (λ s. s.1) (shape-member "manifest" fs gs r),
        ap (λ s. s.1) (shape-member "revocation_list" fs gs r),
      )
      refl

module _ (p : Printer) where
  abbrev sorted : (String × String → Bool) → List (String × String) → List (String × String)
  sorted q ms = sort_keys (select_where q ms)

  sorted-head :
      (q : String × String → Bool) (m : String × String) (ms ns : List (String × String))
      → sorted q ms ≡ sorted q ns
      → sorted q (m ∷ ms) ≡ sorted q (m ∷ ns)
  unfolding sort_keys select_where
  sorted-head q m ms ns h = elim (Bool-cases (q m)) [
    | inl kept ↦ rw kept (ap (insert_key m) h)
    | inr left ↦ rw left h
  ]

  sorted-swap :
      (q : String × String → Bool) (k j s t : String) (ms : List (String × String))
      → (utf16 k ≡ utf16 j → ⊥)
      → sorted q ((k, s) ∷ (j, t) ∷ ms) ≡ sorted q ((j, t) ∷ (k, s) ∷ ms)
  unfolding sort_keys select_where
  sorted-swap q k j s t ms apart = elim (Bool-cases (q (k, s))) [
    | inl a ↦ rw a (elim (Bool-cases (q (j, t))) [
      | inl b ↦ rw b (insert_key_commute k j s t (sort_keys (select_where q ms)) apart)
      | inr b ↦ rw b refl
    ])
    | inr a ↦ rw a (elim (Bool-cases (q (j, t))) [ inl b ↦ rw b refl | inr b ↦ rw b refl ])
  ]

  string_text-resigned :
      (s t : String) {input : String}
      → p.signed_content ≡ true
      → jws_signing_input p.decode_segment s ≡ some input
      → jws_signing_input p.decode_segment t ≡ some input
      → string_text p s ≡ string_text p t
  unfolding string_text
  string_text-resigned s t on a b = rw (on, a, b) refl

  resealed-members :
      (s t : String) (fs : Fields)
      → p.signed_content ≡ true
      → is_envelope_signature (field "signature" (str s) fs) "signature" ≡ true
      → canonical p (obj (field "signature" (str s) fs))
        ≡ canonical p (obj (field "signature" (str t) fs))
  unfolding canonical select_where is_envelope_signature member
  resealed-members s t fs on e =
      let dropped : not
            (p.signed_content && is_envelope_signature (field "signature" (str s) fs) "signature")
          ≡ false =
        rw (on, e) refl in
      rw dropped refl

  mutual
    unfolding canonical

    canonical-SameContent : {v w : Json} → SameContent p v w → canonical p v ≡ canonical p w
    canonical-SameContent same = refl
    canonical-SameContent (in_turn r r') = canonical-SameContent r ∙ canonical-SameContent r'
    canonical-SameContent (resigned {s} {t} on a b) = string_text-resigned s t on a b
    canonical-SameContent (resealed {s} {t} {fs} on e) = resealed-members s t fs on e
    canonical-SameContent (in_array r) =
        ap (λ ts. String.◌++◌ "[" (join_items true ts)) (texts-SameItems r)
    canonical-SameContent (in_object {fs} {gs} r) =
        ap (λ ms. String.◌++◌ "{" (join_members p true ms))
          (sorted-SameMembers r (is_kept p fs)
            ∙ ap (λ q. sorted q (member_texts p gs))
                (fun_ext (λ m. is_kept-SameMembers p fs gs m r)))

    texts-SameItems : {xs ys : Items} → SameItems p xs ys → texts p xs ≡ texts p ys
    texts-SameItems no_items = refl
    texts-SameItems (item {v} {w} {xs} {ys} r rs) =
        ap (λ t. t ∷ texts p xs) (canonical-SameContent r)
        ∙ ap (λ ts. canonical p w ∷ ts) (texts-SameItems rs)

    sorted-SameMembers :
        {fs gs : Fields}
        → SameMembers p fs gs
        → (q : String × String → Bool) → sorted q (member_texts p fs) ≡ sorted q (member_texts p gs)
    sorted-SameMembers no_members q = refl
    sorted-SameMembers (in_place {k} {v} {w} {fs} {gs} r rs) q =
        sorted-head q (k, canonical p v) (member_texts p fs) (member_texts p gs)
          (sorted-SameMembers rs q)
        ∙ ap (λ t. sorted q ((k, t) ∷ member_texts p gs)) (canonical-SameContent r)
    sorted-SameMembers (swapped {k} {j} {v} {w} {fs} apart) q =
        sorted-swap q k j (canonical p v) (canonical p w) (member_texts p fs) apart
    sorted-SameMembers (rearranged r r') q = sorted-SameMembers r q ∙ sorted-SameMembers r' q

-- Values that differ in the order of members only have one canonical text, which the loop writes.
pub canonical_json-SameContent :
    (p : Printer) (v w : Json)
    → SameContent p v w
    → (canonical_json p v ≡ some (canonical p v)) × (canonical_json p w ≡ canonical_json p v)
canonical_json-SameContent p v w r = (
  canonical_json-canonical p v,
  canonical_json-canonical p w
      ∙ ap some (sym (canonical-SameContent p r))
      ∙ sym (canonical_json-canonical p v),
)
