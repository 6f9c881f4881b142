-- ===== src/Tcts/Revoke/Inserts.antt =====
-- The inserts of src/lib/tcts/monitor.ts, which look up what is revoked already, against the seal.
use aitp_control_plane.Prelude.{
  ◌≡◌, ◌↔◌, refl, Bool, true, false, Option, none, some, String, List, [], ◌∷◌, ◌&&◌, ◌||◌, not,
  any, arith, Bool-cases, inl, inr, sym, ap, ◌∙◌, All,
}
use aitp_control_plane.Prelude.Tables.{In, find_where}
use aitp_control_plane.Uuid.{Uuid, uuid_eq, uuid_eq_iff}
use aitp_control_plane.Tcts.Parse.{ParsedTct, ParsedDelegation}
use aitp_control_plane.Tcts.Read.{or_option}
use aitp_control_plane.Tcts.Store.{
  TctRow, DelegationRow, RevocationEntry, Store, entry_time, tct_time, delegation_time, is_known,
  tct_revoked_at, parent_revoked_at, is_revoked_tct, is_revoked_delegation, insert_tct,
  insert_delegation,
}
use aitp_control_plane.Tcts.Revoke.Sealed.{
  has_entry, is_revoked, IsTimedTct, IsTimedDelegation, IsSealed, no_exemption,
}

entry_known :
    (p : RevocationEntry → Bool) (es : List RevocationEntry)
    → is_known (entry_time (find_where p es)) ≡ any p es
unfolding find_where
entry_known p [] = refl
entry_known p (e ∷ es) = ground (arith, entry_known p es)

tct_known :
    (jti : Uuid) (rows : List TctRow)
    → All IsTimedTct rows
    → is_known (tct_time (find_where (is_revoked_tct jti) rows)) ≡ any (is_revoked_tct jti) rows
unfolding find_where
tct_known jti [] timed = refl
tct_known jti (r ∷ rows) (timed_row, timed) = elim (Bool-cases (is_revoked_tct jti r)) [
  | inl picked ↦ rw picked (timed_row (ground (arith, picked)))
  | inr passed ↦ rw passed (tct_known jti rows timed)
]

delegation_known :
    (jti : Uuid) (rows : List DelegationRow)
    → All IsTimedDelegation rows
    → is_known (delegation_time (find_where (is_revoked_delegation jti) rows))
      ≡ any (is_revoked_delegation jti) rows
unfolding find_where
delegation_known jti [] timed = refl
delegation_known jti (r ∷ rows) (timed_row, timed) =
    elim (Bool-cases (is_revoked_delegation jti r)) [
      | inl picked ↦ rw picked (timed_row (ground (arith, picked)))
      | inr passed ↦ rw passed (delegation_known jti rows timed)
    ]

is_known-or {ℓ} :
    {A : Type ℓ} (a b : Option A) → is_known (or_option a b) ≡ (is_known a || is_known b)
is_known-or none b = refl
is_known-or (some a) b = refl

-- What the look-ups find, when every revoked row has its time.
pub tct_revoked_at_known :
    (jti : Uuid) (s : Store) → is_known (tct_revoked_at jti s) ≡ has_entry jti s
unfolding tct_revoked_at
tct_revoked_at_known jti s = entry_known (λ e. uuid_eq e.jti jti) s.revocation_entries

pub parent_revoked_at_known :
    (jti : Uuid) (s : Store)
    → All IsTimedTct s.issued_tcts
    → All IsTimedDelegation s.delegations
    → is_known (parent_revoked_at jti s) ≡ is_revoked jti s
unfolding parent_revoked_at
parent_revoked_at_known jti s t d =
    is_known-or (tct_revoked_at jti s) _
    ∙ rw
        (
          is_known-or (tct_time (find_where (is_revoked_tct jti) s.issued_tcts))
              (delegation_time (find_where (is_revoked_delegation jti) s.delegations)),
          tct_revoked_at_known jti s,
          tct_known jti s.issued_tcts t,
          delegation_known jti s.delegations d,
        )
        refl

-- A token that is projected late has the time of its entry, so that it reveals nothing new.
pub insert_tct-IsSealed :
    (tct : ParsedTct) (session_id : Option String) (s : Store)
    → IsSealed no_exemption s
    → IsSealed no_exemption (insert_tct tct session_id s)
unfolding insert_tct
insert_tct-IsSealed tct session_id s h =
    elim (Bool-cases (any (λ r. uuid_eq r.tct.jti tct.jti) s.issued_tcts)) [
      | inl old ↦ simp old h
      | inr new ↦ simp new (record {
        tcts_timed = ((λ e. e), h.tcts_timed);
        delegations_timed = h.delegations_timed;
        sealed = λ r there active free.
            let before = h.sealed r there active refl in
            let known = tct_revoked_at_known tct.jti s in
            let same = λ (e : uuid_eq tct.jti r.delegation.parent_jti ≡ true).
              ap (λ u. has_entry u s) ((uuid_eq_iff tct.jti r.delegation.parent_jti).0 e) in
            ground (arith, before, known, same);
      })
    ]

-- A delegation that arrives after its children did, below a parent that is revoked by then.
abbrev pub comes_late : ParsedDelegation → Store → Bool
comes_late d s =
    not (any (λ r. uuid_eq r.delegation.jti d.jti) s.delegations)
    && is_revoked d.parent_jti s
    && any (λ r. uuid_eq r.delegation.parent_jti d.jti && not r.revoked) s.delegations

any-In :
    (p : DelegationRow → Bool) (rows : List DelegationRow)
    → any p rows ≡ true
    → (r : DelegationRow) × In r rows × (p r ≡ true)
any-In p [] h = cc
any-In p (x ∷ rows) h = elim (Bool-cases (p x)) [
  | inl picked ↦ (x, inl refl, picked)
  | inr passed ↦ let (r, there, picked) = any-In p rows (rw passed at h) in (r, inr there, picked)
]

In-any :
    (p : DelegationRow → Bool) (r : DelegationRow) (rows : List DelegationRow)
    → In r rows
    → p r ≡ true
    → any p rows ≡ true
In-any p r [] there h = absurd there
In-any p r (x ∷ rows) (inl same) h = ground (arith, h, ap p same)
In-any p r (x ∷ rows) (inr later) h = ground (arith, In-any p r rows later h)

module _ (d : ParsedDelegation) (s : Store) (h : IsSealed no_exemption s) where
  at_known : is_known (parent_revoked_at d.parent_jti s) ≡ is_revoked d.parent_jti s
  at_known = parent_revoked_at_known d.parent_jti s h.tcts_timed h.delegations_timed

  late-unsealed : comes_late d s ≡ true → IsSealed no_exemption (insert_delegation d s) → ⊥
  unfolding insert_delegation
  late-unsealed late k =
      let (r, there, child) =
        any-In (λ r. uuid_eq r.delegation.parent_jti d.jti && not r.revoked) s.delegations
          (ground (arith, late)) in
      let new : any (λ r. uuid_eq r.delegation.jti d.jti) s.delegations ≡ false =
        ground (arith, late) in
      let closed = (simp new at k).sealed r (inr there) (ground (arith, child)) refl in
      ground (
        arith,
        late,
        child,
        closed,
        at_known,
        uuid_eq_iff d.jti r.delegation.parent_jti,
        uuid_eq_iff r.delegation.parent_jti d.jti,
      )

  in_time-IsSealed : comes_late d s ≡ false → IsSealed no_exemption (insert_delegation d s)
  unfolding insert_delegation
  in_time-IsSealed in_time =
      elim (Bool-cases (any (λ r. uuid_eq r.delegation.jti d.jti) s.delegations)) [
        | inl old ↦ simp old h
        | inr new ↦ simp new (record {
          tcts_timed = h.tcts_timed;
          delegations_timed = ((λ e. e), h.delegations_timed);
          sealed = λ r there active free. elim there [
            | inl same ↦
                let quiet = ap (λ r. r.revoked) (sym same) ∙ active in
                let spread = ap (λ r. is_revoked r.delegation.parent_jti s) same in
                ground (arith, quiet, spread, at_known)
            | inr later ↦ ground (
              arith,
              h.sealed r later active refl,
              in_time,
              new,
              at_known,
              active,
              uuid_eq_iff d.jti r.delegation.parent_jti,
              uuid_eq_iff r.delegation.parent_jti d.jti,
              In-any (λ r. uuid_eq r.delegation.parent_jti d.jti && not r.revoked) r s.delegations
                  later,
            )
          ];
        })
      ]

-- Projecting a delegation keeps the seal exactly when it does not come late.
pub insert_delegation-IsSealed :
    (d : ParsedDelegation) (s : Store)
    → IsSealed no_exemption s
    → IsSealed no_exemption (insert_delegation d s) ↔ (comes_late d s ≡ false)
insert_delegation-IsSealed d s h = (
  λ k. elim (Bool-cases (comes_late d s)) [
    | inl late ↦ absurd (late-unsealed d s h late k)
    | inr in_time ↦ in_time
  ],
  in_time-IsSealed d s h,
)
