-- ===== src/Tcts/Revoke/Steps.antt =====
-- Each operation of `TctMonitorService` in src/lib/tcts/monitor.ts against the seal.
use aitp_control_plane.Prelude.{
  ◌≡◌, refl, Bool, false, String, any, arith, Bool-cases, inl, inr, sym, subst,
}
use aitp_control_plane.Prelude.Tables.{In, update_where, All-update_where}
use aitp_control_plane.Uuid.{Uuid, uuid_eq}
use aitp_control_plane.Tcts.Store.{DelegationRow, Store, is_revoked_delegation}
use aitp_control_plane.Tcts.Revoke.{
  cascade, revoke_tct, is_active_delegation, strike_explicit, revoke_delegation,
}
use aitp_control_plane.Tcts.Revoke.Sealed.{
  IsTimedTct, IsTimedDelegation, IsSealed, no_exemption, In-update_where, any-update_where,
  other_jti, revoked_tct-update, revoked_delegation-cascade, cascade-active,
}

module _ (exempt : Uuid → Bool) (jti : Uuid) (at : String) (s : Store) where
  -- A revocation of a token closes what was open at its jti.
  pub revoke_tct-IsSealed :
      ((p : Uuid) → uuid_eq p jti ≡ false → exempt p ≡ false)
      → IsSealed exempt s
      → IsSealed no_exemption (revoke_tct jti at s)
  unfolding revoke_tct
  revoke_tct-IsSealed only h = record {
    tcts_timed = All-update_where IsTimedTct _ _ s.issued_tcts (λ x q e. refl) h.tcts_timed;
    delegations_timed =
        unfold cascade in
        All-update_where IsTimedDelegation _ _ s.delegations (λ x q e. refl) h.delegations_timed;
    sealed = λ r there active free.
        let (there', off, outside) = cascade-active jti at r s.delegations there active in
        rw
          (
            revoked_tct-update r.delegation.parent_jti jti at s.issued_tcts off,
            revoked_delegation-cascade r.delegation.parent_jti jti at s.delegations outside,
          )
          (h.sealed r there' active (only r.delegation.parent_jti off));
  }

  revoked_delegation-explicit :
      (p : Uuid)
      → uuid_eq p jti ≡ false
      → any
          (is_revoked_delegation p)
          (update_where (is_active_delegation jti) (strike_explicit at) s.delegations)
        ≡ any (is_revoked_delegation p) s.delegations
  revoked_delegation-explicit p off =
      any-update_where (is_revoked_delegation p) _ _ s.delegations
        (λ r h. rw (other_jti r.delegation.jti jti p (ground (arith, h)) off) refl)

  explicit-active :
      (r : DelegationRow)
      → In r (update_where (is_active_delegation jti) (strike_explicit at) s.delegations)
      → r.revoked ≡ false
      → In r s.delegations
  explicit-active r there active =
      let (x, there', same) =
        In-update_where (is_active_delegation jti) (strike_explicit at) r s.delegations there in
      elim (Bool-cases (is_active_delegation jti x)) [
        | inl struck ↦ let e = (rw struck at same) in cc
        | inr spared ↦ subst (λ r. In r s.delegations) (sym (rw spared at same)) there'
      ]

  pub revoke_delegation-IsSealed :
      ((p : Uuid) → uuid_eq p jti ≡ false → exempt p ≡ false)
      → IsSealed exempt s
      → IsSealed no_exemption (revoke_delegation jti at s)
  unfolding revoke_delegation
  revoke_delegation-IsSealed only h = record {
    tcts_timed = h.tcts_timed;
    delegations_timed =
        unfold cascade in
        All-update_where IsTimedDelegation _ _ _ (λ x q e. refl)
          (All-update_where IsTimedDelegation _ _ s.delegations (λ x q e. refl)
            h.delegations_timed);
    sealed = λ r there active free.
        let (there', off, outside) = cascade-active jti at r _ there active in
        rw
          (
            revoked_delegation-cascade r.delegation.parent_jti jti at _ outside,
            revoked_delegation-explicit r.delegation.parent_jti off,
          )
          (h.sealed r (explicit-active r there' active) active (only r.delegation.parent_jti off));
  }
