-- ===== src/Tcts/Revoke/Sealed.antt =====
-- That no delegation stays active under a parent that is recorded as revoked: each operation of
-- src/lib/tcts/monitor.ts on the projected tables.
use aitp_control_plane.Prelude.{
  ◌≡◌, refl, Bool, true, false, some, String, List, [], ◌∷◌, ◌||◌, any, arith, if◌then◌else◌,
  Bool-cases, inl, inr, sym, ap, ◌∙◌, subst, All,
}
use aitp_control_plane.Prelude.Tables.{In, update_where}
use aitp_control_plane.Uuid.{Uuid, uuid_eq, uuid_eq_iff}
use aitp_control_plane.Tcts.Store.{
  TctRow, DelegationRow, Store, is_known, is_revoked_tct, is_revoked_delegation,
}
use aitp_control_plane.Tcts.Descend.{is_among, descendants}
use aitp_control_plane.Tcts.Descend.Rounds.{is_below-jti}
use aitp_control_plane.Tcts.Revoke.{is_active_tct, is_struck, strike, cascade}

abbrev pub has_entry : Uuid → Store → Bool
has_entry jti s = any (λ e. uuid_eq e.jti jti) s.revocation_entries

-- A jti is recorded as revoked by an entry, by its token's row or by its delegation's row.
abbrev pub is_revoked : Uuid → Store → Bool
is_revoked jti s =
    has_entry jti s
    || (any (is_revoked_tct jti) s.issued_tcts || any (is_revoked_delegation jti) s.delegations)

-- A revoked row has its time.
abbrev pub IsTimedTct : TctRow → Type 0
IsTimedTct r = r.revoked ≡ true → is_known r.revoked_at ≡ true

abbrev pub IsTimedDelegation : DelegationRow → Type 0
IsTimedDelegation r = r.revoked ≡ true → is_known r.revoked_at ≡ true

-- No row is active under a revoked parent, but for the parents that `exempt` names.
pub record IsSealed (exempt : Uuid → Bool) (s : Store) : Type 0 where
  pub tcts_timed : All IsTimedTct s.issued_tcts
  pub delegations_timed : All IsTimedDelegation s.delegations
  pub sealed :
      (r : DelegationRow)
      → In r s.delegations
      → r.revoked ≡ false
      → exempt r.delegation.parent_jti ≡ false
      → is_revoked r.delegation.parent_jti s ≡ false

abbrev pub no_exemption : Uuid → Bool
no_exemption u = false

-- A row of an updated table comes from a row.
pub In-update_where :
    (q : DelegationRow → Bool) (f : DelegationRow → DelegationRow) (r : DelegationRow)
    (rows : List DelegationRow)
    → In r (update_where q f rows)
    → (x : DelegationRow) × In x rows × (r ≡ (if q x then f x else x))
unfolding update_where
In-update_where q f r [] h = absurd h
In-update_where q f r (x ∷ rows) (inl same) = (x, inl refl, same)
In-update_where q f r (x ∷ rows) (inr later) =
    let (y, there, same) = In-update_where q f r rows later in (y, inr there, same)

pub any-update_where {ℓ} :
    {A : Type ℓ} (p q : A → Bool) (f : A → A) (xs : List A)
    → ((x : A) → q x ≡ true → p (f x) ≡ p x)
    → any p (update_where q f xs) ≡ any p xs
unfolding update_where
any-update_where p q f [] keeps = refl
any-update_where p q f (x ∷ xs) keeps = elim (Bool-cases (q x)) [
  | inl picked ↦ rw (picked, keeps x picked) (ap (λ b. p x || b) (any-update_where p q f xs keeps))
  | inr left ↦ rw left (ap (λ b. p x || b) (any-update_where p q f xs keeps))
]

-- An update at one jti, or at the jtis of a list, is not seen at another.
pub other_jti : (a b p : Uuid) → uuid_eq a b ≡ true → uuid_eq p b ≡ false → uuid_eq a p ≡ false
other_jti a b p same other =
    ground (arith, uuid_eq_iff a b, uuid_eq_iff p b, uuid_eq_iff a p, uuid_eq_iff p b)

not_among :
    (a p : Uuid) (us : List Uuid)
    → is_among a us ≡ true
    → is_among p us ≡ false
    → uuid_eq a p ≡ false
not_among a p us h k = elim (Bool-cases (uuid_eq a p)) [
  | inl same ↦ let e = (uuid_eq_iff a p).0 same in cc (subst (λ u. is_among u us ≡ true) e h)
  | inr other ↦ other
]

pub revoked_tct-update :
    (p jti : Uuid) (at : String) (rows : List TctRow)
    → uuid_eq p jti ≡ false
    → any (is_revoked_tct p) (
        update_where
          (is_active_tct jti)
          (λ r. record r { revoked = true; revoked_at = some at })
          rows)
      ≡ any (is_revoked_tct p) rows
revoked_tct-update p jti at rows other =
    any-update_where (is_revoked_tct p) _ _ rows
      (λ r h. rw (other_jti r.tct.jti jti p (ground (arith, h)) other) refl)

pub revoked_delegation-cascade :
    (p jti : Uuid) (at : String) (rows : List DelegationRow)
    → is_among p (descendants rows jti) ≡ false
    → any (is_revoked_delegation p) (cascade jti at rows) ≡ any (is_revoked_delegation p) rows
unfolding cascade
revoked_delegation-cascade p jti at rows outside =
    any-update_where (is_revoked_delegation p) _ _ rows (λ r h.
      rw (not_among r.delegation.jti p (descendants rows jti) (ground (arith, h)) outside) refl)

-- What is known of a row that a cascade has left active.
pub cascade-active :
    (jti : Uuid) (at : String) (r : DelegationRow) (rows : List DelegationRow)
    → In r (cascade jti at rows)
    → r.revoked ≡ false
    → In r rows
      × (uuid_eq r.delegation.parent_jti jti ≡ false)
      × (is_among r.delegation.parent_jti (descendants rows jti) ≡ false)
unfolding cascade
cascade-active jti at r rows there active =
    let (x, there', same) =
      In-update_where (is_struck (descendants rows jti)) (strike at) r rows there in
    elim (Bool-cases (is_struck (descendants rows jti) x)) [
      | inl struck ↦ let e = (rw struck at same) in cc
      | inr spared ↦
          let e = (rw spared at same) in
          let open_row = (ap (λ r. r.revoked) (sym e) ∙ active) in
          let e2 = sym e in
          subst
            (λ r.
              In r rows
              × (uuid_eq r.delegation.parent_jti jti ≡ false)
              × (is_among r.delegation.parent_jti (descendants rows jti) ≡ false))
            e2
            (
              there',
              ground (arith, spared, open_row, is_below-jti rows jti x there'),
              ground (arith, spared, open_row, is_below-jti rows jti x there'),
            )
    ]
