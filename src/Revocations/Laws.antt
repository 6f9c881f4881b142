-- ===== src/Revocations/Laws.antt =====
-- What src/app/api/revocation/entries/route.ts leaves, for the monitor and for the relay of
-- src/app/api/revocations/route.ts.
use aitp_control_plane.Prelude.{
  ◌≡◌, ◌⊎◌, refl, true, false, Option, none, some, String, List, [], ◌∷◌, any, str_eq, eq_iff,
  eq_refl, arith, Bool-cases, Option-cases, inl, inr, subst, All,
}
use aitp_control_plane.Prelude.Tables.{
  select_where, find_where, update_where, All-update_where, update_where-clears,
}
use aitp_control_plane.Json.{Fields, member}
use aitp_control_plane.Uuid.{Uuid, uuid_eq, uuid_eq_iff, read_shape, read_jti}
use aitp_control_plane.Tcts.Read.{read_string}
use aitp_control_plane.Tcts.Store.{TctRow, RevocationEntry, Store, Monitor}
use aitp_control_plane.Tcts.Revoke.{
  is_active_tct, lacks_issuer, revoke_tct, record_revocation, on_event, insert_entry,
}
use aitp_control_plane.Revocations.{
  Checked, refused, found, Clock, Draft, is_aid, given, read_draft,
}
use aitp_control_plane.Revocations.Bodies.{IsSound, read_draft-IsSound}
use aitp_control_plane.Revocations.Entries.{
  entry_iss, aid_of, projected_iss, stored_iss, resolve_iss, is_iss, revoked_event, entry_of,
  post_draft, post_checked, post_entry, get_revocations,
}

-- Every recorded issuer is an AID.
abbrev pub HasAid : RevocationEntry → Type 0
HasAid e = (iss : String) → e.iss ≡ some iss → is_aid iss ≡ true

-- The entry is relayed to its issuer, and no row of its token is active.
pub record IsRelayed (e : RevocationEntry) (s : Store) : Type 0 where
  pub iss : String
  pub issued : e.iss ≡ some iss
  pub entries : List RevocationEntry
  pub pulled : get_revocations (some iss) (some iss) s ≡ found entries
  pub served : any (λ x. uuid_eq x.jti e.jti) entries ≡ true
  pub closed : All (λ r. is_active_tct e.jti r ≡ false) s.issued_tcts
  pub aids : All HasAid s.revocation_entries

-- What an answer of the route means for the store.
abbrev pub IsSettled : Store → Checked RevocationEntry × Store → Type 0
IsSettled s (refused status code, s') = s' ≡ s
IsSettled s (found e, s') = IsRelayed e s'

relay_served :
    (jti : Uuid) (iss : String) (es : List RevocationEntry)
    → any (λ e. uuid_eq e.jti jti) es ≡ true
    → (entry_iss (find_where (λ e. uuid_eq e.jti jti) es) ≡ none)
      ⊎ (entry_iss (find_where (λ e. uuid_eq e.jti jti) es) ≡ some iss)
    → any
        (λ e. uuid_eq e.jti jti)
        (select_where
          (is_iss iss)
          (update_where (lacks_issuer jti) (λ e. record e { iss = some iss }) es))
      ≡ true
unfolding select_where find_where update_where
relay_served jti iss [] h k = cc
relay_served jti iss (e ∷ es) h k = elim (Bool-cases (uuid_eq e.jti jti)) [
  | inr other ↦ ground (arith, other, h, k, relay_served jti iss es)
  | inl hit ↦ elim (Option-cases e.iss) [
    | inl lacks ↦ ground (arith, hit, lacks, eq_refl iss)
    | inr (i, has) ↦
        let same : i ≡ iss = ground (arith, hit, has, k) in
        ground (arith, hit, has, same, eq_refl iss)
  ]
]

resolved_lem :
    (projected stored given : Option String) (iss : String)
    → resolve_iss projected stored given ≡ found iss
    → (stored ≡ none) ⊎ (stored ≡ some iss)
unfolding resolve_iss
resolved_lem projected none given iss h = inl refl
resolved_lem none (some a) none iss h = ground (arith, h, eq_iff a a)
resolved_lem none (some a) (some c) iss h = ground (arith, h, eq_iff a a)
resolved_lem (some b) (some a) none iss h = ground (arith, h, eq_iff b a)
resolved_lem (some b) (some a) (some c) iss h = ground (arith, h, eq_iff b a)

on_event-entries :
    (m : Monitor) (d : Draft) (iss : String) (s : Store)
    → read_jti d.text ≡ some d.jti
    → on_event m (revoked_event d iss) s ≡ revoke_tct d.jti d.revoked_at s
unfolding on_event record_revocation read_string member
on_event-entries m d iss s h = elim (Bool-cases (str_eq d.text "")) [
  | inl empty ↦
      let none_read : read_jti d.text ≡ none =
        unfold read_jti read_shape in rw ((eq_iff d.text "").0 empty) refl in
      cc
  | inr filled ↦ unfold record_revocation read_string member in rw (filled, h) refl
]

resolved-aid :
    (projected stored given : Option String) (iss : String)
    → ((i : String) → projected ≡ some i → is_aid i ≡ true)
    → ((i : String) → stored ≡ some i → is_aid i ≡ true)
    → ((i : String) → given ≡ some i → is_aid i ≡ true)
    → resolve_iss projected stored given ≡ found iss
    → is_aid iss ≡ true
unfolding resolve_iss
resolved-aid (some a) stored given iss p q r h = ground (arith, h, p a refl)
resolved-aid none (some a) given iss p q r h = ground (arith, h, q a refl)
resolved-aid none none (some a) iss p q r h = ground (arith, h, r a refl)
resolved-aid none none none iss p q r h = cc

projected-aid : (o : Option TctRow) (i : String) → aid_of o ≡ some i → is_aid i ≡ true
projected-aid none i h = cc
projected-aid (some r) i h = ground (arith, h)

stored-aid :
    (jti : Uuid) (es : List RevocationEntry) (i : String)
    → All HasAid es
    → entry_iss (find_where (λ e. uuid_eq e.jti jti) es) ≡ some i
    → is_aid i ≡ true
unfolding find_where
stored-aid jti [] i aids h = cc
stored-aid jti (e ∷ es) i (a, aids) h = elim (Bool-cases (uuid_eq e.jti jti)) [
  | inl hit ↦ a i (rw hit at h)
  | inr miss ↦ stored-aid jti es i aids (rw miss at h)
]

module _ (d : Draft) (iss : String) (s : Store) (aid : is_aid iss ≡ true) where
  insert_entry-aids :
      All HasAid s.revocation_entries
      → All HasAid (insert_entry (entry_of d iss) s).revocation_entries
  unfolding insert_entry
  insert_entry-aids aids =
      let own : (i : String) → some iss ≡ some i → is_aid i ≡ true =
        λ i e. let same : iss ≡ i = cc in subst (λ x. is_aid x ≡ true) same aid in
      elim (Bool-cases (any (λ e. uuid_eq e.jti d.jti) s.revocation_entries)) [
        | inl old ↦ rw old (All-update_where HasAid _ _ s.revocation_entries (λ x q. own) aids)
        | inr new ↦ rw new (own, aids)
      ]

  insert_entry-served :
      (stored_iss d.jti s ≡ none) ⊎ (stored_iss d.jti s ≡ some iss)
      → any
          (λ e. uuid_eq e.jti d.jti)
          (select_where (is_iss iss) (insert_entry (entry_of d iss) s).revocation_entries)
        ≡ true
  unfolding insert_entry stored_iss select_where
  insert_entry-served known =
      elim (Bool-cases (any (λ e. uuid_eq e.jti d.jti) s.revocation_entries)) [
        | inl old ↦ rw old (relay_served d.jti iss s.revocation_entries old known)
        | inr new ↦ rw (new, eq_refl iss, (uuid_eq_iff d.jti d.jti).1 refl) refl
      ]

  settled :
      (m : Monitor)
      → read_jti d.text ≡ some d.jti
      → All HasAid s.revocation_entries
      → (stored_iss d.jti s ≡ none) ⊎ (stored_iss d.jti s ≡ some iss)
      → IsRelayed
          (entry_of d iss)
          (on_event m (revoked_event d iss) (insert_entry (entry_of d iss) s))
  unfolding get_revocations revoke_tct
  settled m read aids known =
      rw (on_event-entries m d iss (insert_entry (entry_of d iss) s) read) (record {
        iss = iss;
        issued = refl;
        entries = select_where (is_iss iss) (insert_entry (entry_of d iss) s).revocation_entries;
        pulled = rw (aid, eq_refl iss) refl;
        served = insert_entry-served known;
        closed = update_where-clears _ _ _ (λ x. ground arith);
        aids = insert_entry-aids aids;
      })

draft-IsSettled :
    (m : Monitor) (d : Draft) (s : Store) (x : Checked String)
    → IsSound d
    → All HasAid s.revocation_entries
    → resolve_iss (projected_iss d.jti s) (stored_iss d.jti s) d.iss ≡ x
    → IsSettled s (post_draft m d x s)
unfolding projected_iss stored_iss
draft-IsSettled m d s (refused status code) sound aids h = refl
draft-IsSettled m d s (found iss) sound aids h =
    settled d iss s
      (resolved-aid (projected_iss d.jti s) (stored_iss d.jti s) d.iss iss (projected-aid _)
        (λ i k. stored-aid d.jti s.revocation_entries i aids k) sound.aid h)
      m sound.read aids (resolved_lem (projected_iss d.jti s) (stored_iss d.jti s) d.iss iss h)

checked-IsSettled :
    (m : Monitor) (x : Checked Draft) (s : Store)
    → ((d : Draft) → x ≡ found d → IsSound d)
    → All HasAid s.revocation_entries
    → IsSettled s (post_checked m x s)
checked-IsSettled m (refused status code) s sound aids = refl
checked-IsSettled m (found d) s sound aids = draft-IsSettled m d s _ (sound d refl) aids refl

-- A refused post changes nothing. An accepted one is relayed to the issuer of its answer, no row of
-- its token is active after it, and every recorded issuer stays an AID.
pub post_entry-IsSettled :
    (m : Monitor) (c : Clock) (body : Fields) (s : Store)
    → All HasAid s.revocation_entries
    → IsSettled s (post_entry m c body s)
unfolding post_entry
post_entry-IsSettled m c body s aids =
    checked-IsSettled m (read_draft c body) s (read_draft-IsSound c body) aids
